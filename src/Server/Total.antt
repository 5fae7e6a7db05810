-- ===== src/Server/Total.antt =====
-- cmd/server/main.go: how the program ends.
use opencode_proxy_api.Base.{
  ℕ, ◌≤◌, length, String, List, [], ◌∷◌, Option, none, some, ◌==◌, ok, ℤ, ◌≡◌, ◌⊎◌, inl, inr, refl,
  All, arith, ap, suc, Bool-cases,
}
use opencode_proxy_api.Json.{JsonPackage}
use opencode_proxy_api.Config.Transport.{Net}
use opencode_proxy_api.Pool.Load.{FileRead}
use opencode_proxy_api.Handler.{Handler}
use opencode_proxy_api.Handler.RateLimit.{PoolIsValid}
use opencode_proxy_api.Handler.Serve.{Translate, Served}
use opencode_proxy_api.Handler.Serve.Total.{serve-total}
use opencode_proxy_api.Handler.Start.{Arrival, new_handler-total}
use opencode_proxy_api.Server.Env.{Environ}
use opencode_proxy_api.Server.Shutdown.{Stopped, closed, failed, exit_status}
use opencode_proxy_api.Server.Serve.{
  Mux, patterns, health, with_id, request_id, entry_of, Handled, to_target, handle, handle_all,
  startup_config, not_started, served, run,
}

module _ (net : Net) (json : JsonPackage) (tr : Translate) (parse_time : String → Option ℤ)
    (mux : Mux) where
  to_target-total :
      (h : Handler) (a : Arrival) (o : Option String)
      → PoolIsValid net h.proxy_pool
      → (s : Served) × (to_target net json tr parse_time mux h a o ≡ ok s)
        × PoolIsValid net s.handler.proxy_pool
        × (length s.sent ≤ 3)
  unfolding to_target
  to_target-total h a none v = (_, refl, v, omega arith)
  to_target-total h a (some pattern) v = elim (Bool-cases (pattern == "/health")) [
    | inl alive ↦ (
      record { handler = h; response = some health; sent = []; commands = [] },
      rw (alive, to_target) refl,
      v,
      omega arith,
    )
    | inr upstream ↦
        let (s, e, w, few) =
          serve-total net json tr parse_time a.world h a.request a.random a.now v in
        (s, rw (upstream, to_target) e, w, few)
  ]

  -- Few upstream requests were sent for it.
  abbrev pub SentFew : Handled → Type 0
  SentFew x = length x.served.sent ≤ 3

  handle-total :
      (h : Handler) (nanos : ℕ) (a : Arrival)
      → PoolIsValid net h.proxy_pool
      → (x : Handled) × (handle net json tr parse_time mux h nanos a ≡ ok x)
        × PoolIsValid net x.served.handler.proxy_pool
        × SentFew x
  unfolding handle
  handle-total h nanos a v =
      let (s, e, w, few) = to_target-total h a (mux.match patterns a.request) v in
      (
        record {
          served = record s { response = with_id (request_id nanos) s.response };
          entry = entry_of (request_id nanos) a.request s.response;
        },
        rw (e, handle) refl,
        w,
        few,
      )

  handle_all-total :
      (h : Handler) (arrivals : List (ℕ × Arrival))
      → PoolIsValid net h.proxy_pool
      → (r : Handler × List Handled) × (handle_all net json tr parse_time mux h arrivals ≡ ok r)
        × PoolIsValid net r.0.proxy_pool
        × (length r.1 ≡ length arrivals)
        × All SentFew r.1
  unfolding handle_all
  handle_all-total h [] v = ((h, []), refl, v, refl, tt)
  handle_all-total h ((nanos, a) ∷ rest) v =
      let (x, e, w, few) = handle-total h nanos a v in
      let (r, e', w', n, all_few) = handle_all-total x.served.handler rest w in
      ((r.0, x ∷ r.1), rw (e, handle_all) (rw e' refl), w', ap suc n, (few, all_few))

  -- The exit status that fits the return of ListenAndServe: none before it, 0 after ErrServerClosed, 1
  -- after any other error.
  pub Exits : Option Stopped → Option ℕ → Type 0
  Exits none code = code ≡ none
  Exits (some closed) code = code ≡ some 0
  Exits (some failed) code = code ≡ some 1

  exit_status-Exits : (stopped : Option Stopped) → Exits stopped (exit_status stopped)
  unfolding Exits exit_status
  exit_status-Exits none = refl
  exit_status-Exits (some closed) = refl
  exit_status-Exits (some failed) = refl

  -- The program, from the process's environment and the files on: whatever they hold, and whatever each
  -- client.Do returns, main exits with status 1 and the error of New, or it serves every sequence of
  -- requests, one after another, without a panic, each with at most three upstream requests, and the
  -- pool stays well formed. It then has no exit status while it listens, 0 after ListenAndServe has
  -- returned ErrServerClosed, and 1 after another error, with which it may fail before any request.
  pub run-total :
      (os : Environ) (parse_duration : String → Option ℤ) (read : String → FileRead) (env : os.Env)
      (lines : Option (List String)) (arrivals : List (ℕ × Arrival)) (stopped : Option Stopped)
      → ((e : String) × (run net json tr parse_time mux os parse_duration read env lines arrivals
              stopped
            ≡ ok (not_started e 1)))
        ⊎ ((h : Handler) × (xs : List Handled) × (code : Option ℕ) × (run net json tr parse_time mux
                os parse_duration read env lines arrivals stopped
              ≡ ok (served h xs code))
            × PoolIsValid net h.proxy_pool
            × (length xs ≡ length arrivals)
            × All SentFew xs
            × Exits stopped code)
  unfolding run
  run-total os parse_duration read env lines arrivals stopped =
      elim (new_handler-total net read
        (startup_config net json tr parse_time mux os parse_duration env lines)) [
          | inl (e, refused) ↦ inl (e, rw (refused, run) refl)
          | inr (h, started, v, _, _) ↦
              let (r, done, w, n, few) = handle_all-total h arrivals v in
              inr (
                r.0,
                r.1,
                exit_status stopped,
                rw (started, run) (rw done refl),
                w,
                n,
                few,
                exit_status-Exits stopped,
              )
        ]
