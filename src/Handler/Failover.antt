-- ===== src/Handler/Failover.antt =====
-- internal/proxy/handler.go: the client of an attempt, and what its failure leaves.
use opencode_proxy_api.Base.{
  ℕ, String, true, Option, none, some, ◌≡◌, refl, ◌∙◌, ok, err, ℤ, Result-cases, inl, inr, ◌⊎◌,
}
use opencode_proxy_api.Config.Transport.{Client, Net, new_http_client-ne-panic}
use opencode_proxy_api.Json.{JsonPackage}
use opencode_proxy_api.Pool.{ProxyPool, preferred_index, client_for_session, mark_failure}
use opencode_proxy_api.Pool.Invariant.{IsValid, mark_failure-IsValid}
use opencode_proxy_api.Pool.Select.{select_index_lt}
use opencode_proxy_api.Pool.Affinity.{preferred_index_lt}
use opencode_proxy_api.Pool.Clients.{
  built, chosen, client_for_index_lem, client_for_index_refused, client_for_session_form,
}
use opencode_proxy_api.Handler.{Handler}
use opencode_proxy_api.Handler.RateLimit.{PoolIsValid, current_of-ok}
use opencode_proxy_api.Handler.Upstream.{World, session_client, note_network_failure}

module _ (net : Net) where
  -- ClientForSession of a well-formed pool returns an error or a client, and does not panic.
  pub client_for_session-total :
      (p : ProxyPool) (now : ℕ) (session : String)
      → IsValid net p
      → ((q : ProxyPool) × (c : Client) × (client_for_session net (some p) now session ≡ ok (q, c))
          × IsValid net q)
        ⊎ ((e : String) × (client_for_session net (some p) now session ≡ err e))
  client_for_session-total p now session v =
      let lt =
        select_index_lt p now (preferred_index p session) (preferred_index_lt p session v.filled) in
      let form = client_for_session_form net p now session v in
      elim (Result-cases (built net p (chosen net p now session))) [
        | inl (c, b) ↦
            let (q, served, s) = client_for_index_lem net p (chosen net p now session) c v lt b in
            inl (q, c, form ∙ served, s.valid)
        | inr (inl (e, b)) ↦ inr (e, form ∙ client_for_index_refused net p _ e v lt b)
        | inr (inr b) ↦ absurd (new_http_client-ne-panic net _ _ _ b)
      ]

  -- What an attempt leaves: a well-formed pool, and the counter of 429s that is given.
  pub record Keeps (count : ℕ) (h : Handler) : Type 0 where
    pub valid : PoolIsValid net h.proxy_pool
    pub counter : h.rate_limit_count ≡ count

  module _ (json : JsonPackage) (parse_time : String → Option ℤ) (world : World) where
    pub session_client-total :
        (h : Handler) (pool : Option ProxyPool) (now : ℕ) (session : String) (count : ℕ)
        → PoolIsValid net pool
        → Keeps count h
        → ((h' : Handler) × (c : Client) × (session_client net json parse_time world h pool now
                session
              ≡ ok (h', c))
            × Keeps count h')
          ⊎ ((e : String) × (session_client net json parse_time world h pool now session ≡ err e))
    unfolding session_client
    session_client-total h none now session count w k = inl (h, h.upstream, refl, k)
    session_client-total h (some p) now session count w k =
        elim (client_for_session-total p now session w) [
          | inl (q, c, e, v) ↦ inl (
            record h { proxy_pool = some q },
            c,
            rw (e, session_client),
            record { valid = v; counter = k.counter },
          )
          | inr (x, e) ↦ inr (x, rw (e, session_client))
        ]

    pub note_network_failure_lem :
        (h : Handler) (pool : Option ProxyPool) (now count : ℕ)
        → PoolIsValid net pool
        → Keeps count h
        → (h' : Handler) × (note_network_failure net json parse_time world h pool now ≡ ok h')
          × Keeps count h'
    unfolding note_network_failure
    note_network_failure_lem h none now count w k = (h, refl, k)
    note_network_failure_lem h (some p) now count w k =
        let (url, at) = current_of-ok net p w in
        (
          record h { proxy_pool = some (mark_failure parse_time p now url 0 true "") },
          rw (at, note_network_failure),
          record {
            valid = mark_failure-IsValid net parse_time p now url 0 true "" w;
            counter = k.counter;
          },
        )
