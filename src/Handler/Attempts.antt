-- ===== src/Handler/Attempts.antt =====
-- internal/proxy/handler.go: how the attempts to send a request end.
use opencode_proxy_api.Base.{
  ℕ, zero, suc, ◌+◌, ◌≤◌, ◌<◌, String, List, [], ◌∷◌, ◌++◌, Option, leb, ◌≡◌, refl, arith, Result,
  ok, ℤ, Bool-cases, Option-cases, inl, inr, ◌⊎◌,
}
use opencode_proxy_api.Config.Transport.{Client, Net}
use opencode_proxy_api.Json.{JsonPackage}
use opencode_proxy_api.Handler.{Handler}
use opencode_proxy_api.Handler.Auth.{write_json_error}
use opencode_proxy_api.Handler.RateLimit.{PoolIsValid}
use opencode_proxy_api.Handler.Upstream.{
  UpstreamRequest, World, DoResult, failed, answered, Reached, reached, refused, abandoned, Attempt,
  final, again, after_failure, sent_once, try_once, attempts,
}
use opencode_proxy_api.Handler.Failover.{Keeps, session_client-total, note_network_failure_lem}

-- The handler and the requests sent, at the end.
abbrev pub handler_of : Reached → Handler
handler_of (reached h resp sent) = h
handler_of (refused h resp sent) = h
handler_of (abandoned h sent) = h

abbrev pub sent_of : Reached → List UpstreamRequest
sent_of (reached h resp sent) = sent
sent_of (refused h resp sent) = sent
sent_of (abandoned h sent) = sent

-- The requests of the first `k` attempts.
abbrev pub tries : (ℕ → UpstreamRequest) → ℕ → List UpstreamRequest
tries new_req zero = []
tries new_req (suc k) = tries new_req k ++ new_req (suc k) ∷ []

module _ (net : Net) (json : JsonPackage) (parse_time : String → Option ℤ) (world : World) where
  module _ (new_req : ℕ → UpstreamRequest) (session : String) (count : ℕ) where
    -- An end: the requests of the first few attempts were sent, one each.
    pub record Ended (x : Reached) : Type 0 where
      pub keeps : Keeps net count (handler_of x)
      pub sent : (k : ℕ) × (k ≤ 3) × (sent_of x ≡ tries new_req k)

    -- One attempt: an end, or a next attempt.
    abbrev Stepped : Result Attempt → ℕ → Type 0
    Stepped r attempt =
        ((x : Reached) × (r ≡ ok (final x)) × Ended x)
        ⊎ ((h : Handler) × (r ≡ ok (again h (tries new_req attempt)))
            × Keeps net count h
            × (attempt < 3))

    after_failure_lem :
        (attempt : ℕ) (h : Handler)
        → attempt < 3
        → Keeps net count h
        → Stepped
            (ok (
              after_failure net json parse_time world h
                (suc attempt)
                (tries new_req (suc attempt))))
            (suc attempt)
    unfolding after_failure
    after_failure_lem attempt h lt k = elim (Bool-cases (leb 3 (suc attempt))) [
      | inl last ↦ inl (
        refused h (write_json_error json 502 "upstream request failed" "server_error")
            (tries new_req (suc attempt)),
        rw last,
        record { keeps = k; sent = (suc attempt, omega arith, refl) },
      )
      | inr more ↦ elim (Bool-cases (world.cancelled (suc attempt))) [
        | inl gone ↦ inl (
          abandoned h (tries new_req (suc attempt)),
          rw (more, gone),
          record { keeps = k; sent = (suc attempt, omega arith, refl) },
        )
        | inr waits ↦ inr (h, rw (more, waits), k, ground arith)
      ]
    ]

    sent_once_case :
        (attempt : ℕ) (h : Handler) (c : Client) (d : DoResult)
        → world.send c (new_req (suc attempt)) (suc attempt) ≡ d
        → attempt < 3
        → Keeps net count h
        → Stepped
            (sent_once net json parse_time world
              (new_req (suc attempt))
              (suc attempt)
              (tries new_req attempt)
              h
              c)
            (suc attempt)
    unfolding sent_once
    sent_once_case attempt h c (answered resp) e lt k = inl (
      reached h resp (tries new_req (suc attempt)),
      rw (e, sent_once),
      record { keeps = k; sent = (suc attempt, omega arith, refl) },
    )
    sent_once_case attempt h c failed e lt k =
        let (h', noted, k') =
          note_network_failure_lem net json parse_time world h h.proxy_pool
            (world.now (suc attempt)) count k.valid k in
        rw (e, sent_once) (rw noted (after_failure_lem attempt h' lt k'))

    try_once_lem :
        (attempt : ℕ) (h : Handler)
        → attempt < 3
        → Keeps net count h
        → Stepped
            (try_once net json parse_time world
              (new_req (suc attempt))
              session
              (suc attempt)
              h
              (tries new_req attempt))
            (suc attempt)
    unfolding try_once
    try_once_lem attempt h lt k = elim (Option-cases (net.url.parse (new_req (suc attempt)).url)) [
      | inl bad ↦ inl (
        refused h (write_json_error json 500 "failed to create upstream request" "server_error")
            (tries new_req attempt),
        rw (bad, try_once),
        record { keeps = k; sent = (attempt, omega arith, refl) },
      )
      | inr (u, good) ↦
          elim (session_client-total net json parse_time world h h.proxy_pool
            (world.now (suc attempt)) session count k.valid k) [
              | inl (h', c, e, k') ↦
                  rw (good, try_once) (rw (e, try_once) (sent_once_case attempt h' c _ refl lt k'))
              | inr (x, e) ↦
                  rw (good, try_once)
                    (rw (e, try_once)
                      (inl (
                        refused h
                            (write_json_error json 500 "proxy configuration error" "server_error")
                            (tries new_req attempt),
                        refl,
                        record { keeps = k; sent = (attempt, omega arith, refl) },
                      )))
            ]
    ]

    attempts_from :
        (rounds attempt : ℕ) (h : Handler)
        → attempt < 3
        → attempt + rounds ≡ 3
        → Keeps net count h
        → (x : Reached) × (attempts net json parse_time world new_req session rounds attempt h
              (tries new_req attempt)
            ≡ ok x)
          × Ended x
    unfolding attempts
    attempts_from zero attempt h lt sum k = absurd (omega arith)
    attempts_from (suc rounds) attempt h lt sum k = elim (try_once_lem attempt h lt k) [
      | inl (x, e, done) ↦ (x, rw (e, attempts), done)
      | inr (h', e, k', more) ↦
          let (x, e', done) = attempts_from rounds (suc attempt) h' more (omega arith) k' in
          (x, rw (e, attempts) e', done)
    ]

  -- Three rounds are enough: from a handler whose pool is well formed, if it has one, the loop ends
  -- without a panic. At most three requests are sent, those of the first attempts in their order,
  -- one each; the pool stays well formed and the counter of 429s as it was.
  pub attempts_lem :
      (new_req : ℕ → UpstreamRequest) (session : String) (h : Handler)
      → PoolIsValid net h.proxy_pool
      → (x : Reached) × (attempts net json parse_time world new_req session 3 0 h [] ≡ ok x)
        × PoolIsValid net (handler_of x).proxy_pool
        × ((handler_of x).rate_limit_count ≡ h.rate_limit_count)
        × ((k : ℕ) × (k ≤ 3) × (sent_of x ≡ tries new_req k))
  attempts_lem new_req session h v =
      let (x, e, done) =
        attempts_from new_req session h.rate_limit_count 3 0 h (omega arith) refl
          (record { valid = v; counter = refl }) in
      (x, e, done.keeps.valid, done.keeps.counter, done.sent)
