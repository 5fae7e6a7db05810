-- ===== src/Config/Transport/Forced.antt =====
-- config/config.go: OPCODE_FORCE_IPV6, the warnings of Load that it has no effect, and the clients that
-- newHTTPClient builds with it.
use opencode_proxy_api.Base.{
  ◌++◌, List, String, Option, if◌then◌else◌, true, false, ◌||◌, [], ◌==◌, ok, ℤ, ◌≡◌, ◌≢◌, ◌⊎◌, inl,
  inr, refl, arith, Bool-cases, Option-cases, Result-cases, sym, ◌∙◌, ap,
}
use opencode_proxy_api.Base.Text.{trim_space, lower_is, lower_is_other, eq_codes, lower, lower_code}
use opencode_proxy_api.Config.Url.{Url}
use opencode_proxy_api.Config.Env.{
  proxy_scheme, scheme_warnings, load, parse_bool, upstream_timeout, action_threshold,
}
use mathlib.Core.List.{append_cancel_left}
use opencode_proxy_api.Config.Transport.{
  Route, direct, direct_ipv6, Client, Net, socks_route, url_route, route_of, tune_transport,
  new_transport, new_http_client,
}

not_socks5 : (s : String) → lower_is s "socks5h" ≡ true → lower_is s "socks5" ≡ false
unfolding eq_codes lower lower_code
not_socks5 s h = lower_is_other s "socks5h" "socks5" h

-- The client that dials as the route says.
abbrev client_of : ℤ → Route → Client
client_of timeout r = record { timeout = timeout; transport = tune_transport r }

module _ (net : Net) where
  url_route_forced :
      (u : Url)
      → (lower_is u.scheme "socks5h" ≡ true)
        ⊎ ((lower_is u.scheme "http" || lower_is u.scheme "https") ≡ true)
      → url_route net u true ≡ url_route net u false
  unfolding url_route socks_route
  url_route_forced u h = ground (arith, not_socks5 u.scheme)

  url_route_honored :
      (u : Url) (r r' : Route)
      → lower_is u.scheme "socks5h" ≡ false
      → (lower_is u.scheme "http" || lower_is u.scheme "https") ≡ false
      → url_route net u true ≡ ok r
      → url_route net u false ≡ ok r'
      → r ≢ r'
  unfolding url_route socks_route
  url_route_honored u r r' a b e e' same = ground (arith)

  warned_at :
      (proxy_url s : String)
      → proxy_scheme net.url proxy_url ≡ s
      → (lower_is s "socks5h" ≡ true) ⊎ ((lower_is s "http" || lower_is s "https") ≡ true)
      → scheme_warnings net.url true proxy_url ≢ []
  unfolding scheme_warnings
  warned_at proxy_url s e h = ground (arith, e, h)

  quiet_at :
      (proxy_url s : String)
      → proxy_scheme net.url proxy_url ≡ s
      → lower_is s "socks5h" ≡ false
      → (lower_is s "http" || lower_is s "https") ≡ false
      → scheme_warnings net.url true proxy_url ≡ []
  unfolding scheme_warnings
  quiet_at proxy_url s e a b = ground (arith, e, a, b)

  same_route : (r r' : Route) → ok r ≡ ok r' → r ≡ r'
  same_route r r' e = cc (e)

  route_forced :
      (proxy_url : String) (r r' : Route)
      → route_of net proxy_url true ≡ ok r
      → route_of net proxy_url false ≡ ok r'
      → ((scheme_warnings net.url true proxy_url ≢ []) × (r ≡ r'))
        ⊎ ((scheme_warnings net.url true proxy_url ≡ []) × (r ≢ r'))
  unfolding route_of proxy_scheme lower_is lower lower_code eq_codes
  route_forced proxy_url r r' e e' = elim (Bool-cases (proxy_url == "")) [
    | inl empty ↦
        let f : ok direct_ipv6 ≡ ok r = rw empty at e in
        let f' : ok direct ≡ ok r' = rw empty at e' in
        let none_is : proxy_scheme net.url proxy_url ≡ "" = rw (empty, proxy_scheme) refl in
        inr (quiet_at proxy_url "" none_is refl refl, (λ same. cc (f, f', same)))
    | inr given ↦ elim (Option-cases (net.url.parse proxy_url)) [
      | inl invalid ↦ absurd (cc (rw (given, invalid) at e))
      | inr (u, parsed) ↦
          let f : url_route net u true ≡ ok r = rw (given, parsed) at e in
          let f' : url_route net u false ≡ ok r' = rw (given, parsed) at e' in
          let scheme_is : proxy_scheme net.url proxy_url ≡ u.scheme =
            rw (given, proxy_scheme) (rw parsed refl) in
          elim (Bool-cases (lower_is u.scheme "socks5h")) [
            | inl remote ↦ inl (
              warned_at proxy_url u.scheme scheme_is (inl remote),
              same_route r r' (sym f ∙ (url_route_forced u (inl remote) ∙ f')),
            )
            | inr not_remote ↦
                elim (Bool-cases (lower_is u.scheme "http" || lower_is u.scheme "https")) [
                  | inl http ↦ inl (
                    warned_at proxy_url u.scheme scheme_is (inr http),
                    same_route r r' (sym f ∙ (url_route_forced u (inr http) ∙ f')),
                  )
                  | inr other ↦ inr (
                    quiet_at proxy_url u.scheme scheme_is not_remote other,
                    url_route_honored u r r' not_remote other f f',
                  )
                ]
          ]
    ]
  ]

  -- The URL gives a warning and the clients are the same, or it does not and they dial in different
  -- ways.
  abbrev Fit : String → Client → Client → Type 0
  Fit proxy_url c c' =
      ((scheme_warnings net.url true proxy_url ≢ []) × (c ≡ c'))
      ⊎ ((scheme_warnings net.url true proxy_url ≡ []) × (c.transport.route ≢ c'.transport.route))

  clients :
      (timeout : ℤ) (proxy_url : String) (c c' : Client) (r r' : Route)
      → ok (client_of timeout r) ≡ ok c
      → ok (client_of timeout r') ≡ ok c'
      → ((scheme_warnings net.url true proxy_url ≢ []) × (r ≡ r'))
        ⊎ ((scheme_warnings net.url true proxy_url ≡ []) × (r ≢ r'))
      → Fit proxy_url c c'
  unfolding tune_transport
  clients timeout proxy_url c c' r r' f f' (inl (warned, same)) = inl (warned, cc (f, f', same))
  clients timeout proxy_url c c' r r' f f' (inr (quiet, differ)) =
      let q : client_of timeout r ≡ c = cc f in
      let q' : client_of timeout r' ≡ c' = cc f' in
      let route : Client → Route = λ (d : Client). d.transport.route in
      inr (quiet, (λ same. differ (ap route q ∙ (same ∙ sym (ap route q')))))

  forced_clients :
      (timeout : ℤ) (proxy_url : String) (c c' : Client)
      → new_http_client net timeout proxy_url true ≡ ok c
      → new_http_client net timeout proxy_url false ≡ ok c'
      → Fit proxy_url c c'
  unfolding new_http_client new_transport tune_transport
  forced_clients timeout proxy_url c c' e e' = elim (Result-cases (route_of net proxy_url true)) [
    | inl (r, found) ↦ elim (Result-cases (route_of net proxy_url false)) [
      | inl (r', found') ↦
          let f : ok (client_of timeout r) ≡ ok c = rw (found, new_transport) at e in
          let f' : ok (client_of timeout r') ≡ ok c' = rw (found', new_transport) at e' in
          clients timeout proxy_url c c' r r' f f' (route_forced proxy_url r r' found found')
      | inr (inl (x, failed)) ↦ absurd (cc (rw (failed, new_transport) at e'))
      | inr (inr broke) ↦ absurd (cc (rw (broke, new_transport) at e'))
    ]
    | inr (inl (x, failed)) ↦ absurd (cc (rw (failed, new_transport) at e))
    | inr (inr broke) ↦ absurd (cc (rw (broke, new_transport) at e))
  ]

-- The environment with OPCODE_FORCE_IPV6 emptied.
abbrev pub without_flag : (String → String) → String → String
without_flag env key = if key == "OPCODE_FORCE_IPV6" then "" else env key

module _ (net : Net) (parse_duration : String → Option ℤ) where
  -- Load warns because of the flag and the clients are the same, or the flag adds no warning and they
  -- dial in different ways.
  pub Agree : (String → String) → Client → Client → Type 0
  Agree env c c' =
      let on = (load net.url parse_duration env).warnings in
      let off = (load net.url parse_duration (without_flag env)).warnings in
      ((on ≢ off) × (c ≡ c')) ⊎ ((on ≡ off) × (c.transport.route ≢ c'.transport.route))

  abbrev url_of : (String → String) → String
  url_of env = (load net.url parse_duration env).value.proxy_url

  -- The warnings about the timeout and the threshold, and then the ones about the flag.
  with_flag : (String → String) → List String → List String
  with_flag env about_flag =
      (upstream_timeout parse_duration (env "OPCODE_UPSTREAM_TIMEOUT")).warnings
      ++ ((action_threshold (trim_space (env "OPCODE_RATE_LIMIT_ACTION_THRESHOLD"))).warnings
          ++ about_flag)

  warnings_on :
      (env : String → String)
      → parse_bool (env "OPCODE_FORCE_IPV6") ≡ true
      → (load net.url parse_duration env).warnings
        ≡ with_flag env (scheme_warnings net.url true (url_of env))
  unfolding load with_flag
  warnings_on env on = rw on refl

  empty_off : parse_bool "" ≡ false
  unfolding parse_bool trim_space lower_is lower lower_code eq_codes
  empty_off = refl

  never_off : (proxy_url : String) → scheme_warnings net.url false proxy_url ≡ []
  unfolding scheme_warnings
  never_off proxy_url = refl

  warnings_off :
      (env : String → String)
      → (load net.url parse_duration (without_flag env)).warnings ≡ with_flag env []
  unfolding load with_flag
  warnings_off env = rw (empty_off, never_off (trim_space (env "OPCODE_PROXY"))) refl

  with_flag_inj :
      (env : String → String) (xs : List String) → with_flag env xs ≡ with_flag env [] → xs ≡ []
  unfolding with_flag
  with_flag_inj env xs e = append_cancel_left _ xs [] (append_cancel_left _ _ _ e)

  -- Let OPCODE_FORCE_IPV6 be on, and let newHTTPClient build a client for OPCODE_PROXY's URL, or for
  -- none, with the flag and one without. Then either Load gives a warning that it does not give
  -- without the flag and they are the same client, or the flag adds no warning and the clients dial in
  -- different ways.
  pub force_ipv6_warned :
      (env : String → String) (timeout : ℤ) (c c' : Client)
      → parse_bool (env "OPCODE_FORCE_IPV6") ≡ true
      → new_http_client net timeout (load net.url parse_duration env).value.proxy_url true ≡ ok c
      → new_http_client net timeout (load net.url parse_duration env).value.proxy_url false ≡ ok c'
      → Agree env c c'
  unfolding Agree
  force_ipv6_warned env timeout c c' on e e' = elim (forced_clients net timeout _ c c' e e') [
    | inl (warned, same) ↦ inl (
      (λ e. warned (with_flag_inj env _ (sym (warnings_on env on) ∙ (e ∙ warnings_off env)))),
      same,
    )
    | inr (quiet, differ) ↦
        inr (warnings_on env on ∙ (ap (with_flag env) quiet ∙ sym (warnings_off env)), differ)
  ]
