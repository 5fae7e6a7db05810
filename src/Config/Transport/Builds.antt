-- ===== src/Config/Transport/Builds.antt =====
-- config/config.go: which proxy URLs newHTTPClient builds a client for.
use opencode_proxy_api.Base.{
  String, Bool, true, none, some, ◌==◌, eq_iff, ok, err, ℤ, ◌≡◌, ◌≢◌, ◌⊎◌, inl, inr, refl, arith,
  Bool-cases, Option-cases, Result-cases,
}
use opencode_proxy_api.Base.Text.{lower_is}
use opencode_proxy_api.Config.Url.{Url}
use opencode_proxy_api.Config.Transport.{
  Route, Client, Net, auth_of, socks_route, url_route, route_of, tune_transport, new_transport,
  new_http_client, new_http_client-ne-panic,
}

module _ (net : Net) where
  -- A scheme that a client can go through, and for SOCKS5 a proxy that proxy.SOCKS5 accepts.
  pub Supported : Url → Type 0
  Supported u =
      (lower_is u.scheme "http" ≡ true)
      ⊎ ((lower_is u.scheme "https" ≡ true)
          ⊎ (((lower_is u.scheme "socks5" ≡ true) ⊎ (lower_is u.scheme "socks5h" ≡ true))
              × (net.socks5 u.host (auth_of u.user) ≡ none)))

  -- No proxy, or a URL that parses, has a host and is supported.
  pub Usable : String → Type 0
  Usable proxy_url =
      (proxy_url ≡ "")
      ⊎ ((u : Url) × (net.url.parse proxy_url ≡ some u) × (u.host ≢ "") × Supported u)

  url_refused :
      (u : Url) (force_ipv6 : Bool) (e : String)
      → url_route net u force_ipv6 ≡ err e
      → u.host ≢ ""
      → Supported u
      → ⊥
  unfolding url_route Supported socks_route
  url_refused u force_ipv6 e failed host s = ground (arith, eq_iff u.host "")

  url_route-Supported :
      (u : Url) (force_ipv6 : Bool) (r : Route)
      → url_route net u force_ipv6 ≡ ok r
      → (u.host ≢ "") × Supported u
  unfolding url_route Supported socks_route
  url_route-Supported u force_ipv6 r e = ground (arith, eq_iff u.host "")

  route_of-Usable :
      (proxy_url : String) (force_ipv6 : Bool) (r : Route)
      → route_of net proxy_url force_ipv6 ≡ ok r
      → Usable proxy_url
  unfolding route_of Usable
  route_of-Usable proxy_url force_ipv6 r e = elim (Bool-cases (proxy_url == "")) [
    | inl empty ↦ inl (ground (arith, eq_iff proxy_url ""))
    | inr given ↦ elim (Option-cases (net.url.parse proxy_url)) [
      | inl invalid ↦ absurd (cc (rw (given, invalid) at e))
      | inr (u, parsed) ↦
          let (host, s) = url_route-Supported u force_ipv6 r (rw (given, parsed) at e) in
          inr (u, parsed, host, s)
    ]
  ]

  route_refused :
      (proxy_url : String) (force_ipv6 : Bool) (e : String)
      → route_of net proxy_url force_ipv6 ≡ err e
      → Usable proxy_url
      → ⊥
  unfolding route_of Usable
  route_refused proxy_url force_ipv6 e failed (inl empty) =
      ground (arith, eq_iff proxy_url "", empty, failed)
  route_refused proxy_url force_ipv6 e failed (inr (u, parsed, host, s)) =
      elim (Bool-cases (proxy_url == "")) [
        | inl empty ↦ cc (rw empty at failed)
        | inr given ↦ url_refused u force_ipv6 e (rw (given, parsed) at failed) host s
      ]

  -- newHTTPClient builds a client with the given timeout exactly for a usable proxy URL; for any other
  -- it returns an error.
  pub new_http_client-Usable :
      (timeout : ℤ) (proxy_url : String) (force_ipv6 : Bool)
      → (Usable proxy_url
          × ((c : Client) × (new_http_client net timeout proxy_url force_ipv6 ≡ ok c)
              × (c.timeout ≡ timeout)))
        ⊎ ((Usable proxy_url → ⊥)
            × ((e : String) × (new_http_client net timeout proxy_url force_ipv6 ≡ err e)))
  unfolding new_http_client new_transport
  new_http_client-Usable timeout proxy_url force_ipv6 =
      elim (Result-cases (route_of net proxy_url force_ipv6)) [
        | inl (r, found) ↦ inl (
          route_of-Usable proxy_url force_ipv6 r found,
          (
            record { timeout = timeout; transport = tune_transport r },
            rw (found, new_transport) refl,
            refl,
          ),
        )
        | inr (inl (e, failed)) ↦
            inr (route_refused proxy_url force_ipv6 e failed, (e, rw (failed, new_transport) refl))
        | inr (inr broke) ↦ absurd (
            new_http_client-ne-panic net timeout proxy_url force_ipv6
              (rw (broke, new_transport) refl))
      ]
