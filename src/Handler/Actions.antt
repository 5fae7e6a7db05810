-- ===== src/Handler/Actions.antt =====
-- internal/proxy/handler.go: a sequence of upstream responses, and the commands that it runs.
use opencode_proxy_api.Base.{
  ℕ, ◌+◌, ◌*◌, ◌^◌, ◌≤◌, ◌<◌, String, true, false, List, [], ◌∷◌, ◌++◌, Option, none, some, eqb,
  leb, if◌then◌else◌, ◌≡◌, ◌≢◌, refl, ap, ◌∙◌, arith, Result, ok, ◌>>=◌, ℤ, pos, length,
  length-append, Bool-cases, inl, inr,
}
use opencode_proxy_api.Config.{Config}
use opencode_proxy_api.Config.Transport.{Net}
use opencode_proxy_api.Pool.{ProxyPool, mark_success, mark_failure}
use opencode_proxy_api.Pool.Invariant.{mark_success-IsValid, mark_failure-IsValid}
use opencode_proxy_api.Handler.{Handler, note_failure, note_success, account}
use opencode_proxy_api.Handler.RateLimit.{PoolIsValid, Leaves, current_of-ok, on_rate_limited_lem}

-- What `postUpstream` is told of a response, and the time.
pub record Reply : Type 0 where
  pub now : ℕ
  pub status : ℕ
  pub retry_after : String

module _ (net : Net) (parse_time : String → Option ℤ) where
  -- The responses, one after another, and all the commands run.
  unfoldable pub account_all : Handler → List Reply → Result (Handler × List String)
  account_all h [] = ok (h, [])
  account_all h (r ∷ rs) = do
    first ← account net parse_time h r.now r.status r.retry_after
    rest ← account_all first.0 rs
    ok (rest.0, first.1 ++ rest.1)

  pub note_failure_lem :
      (h : Handler) (now status : ℕ) (header : String) (pool : Option ProxyPool)
      → PoolIsValid net h.proxy_pool
      → PoolIsValid net pool
      → (h' : Handler) × (note_failure net parse_time h now status header pool ≡ ok h')
        × Leaves net h h.rate_limit_count h'
  unfolding note_failure
  note_failure_lem h now status header none v w =
      (h, refl, record { cfg = refl; valid = v; counter = refl })
  note_failure_lem h now status header (some p) v w =
      let (url, at) = current_of-ok net p w in
      (
        record h { proxy_pool = some (mark_failure parse_time p now url status false header) },
        rw (at, note_failure),
        record {
          cfg = refl;
          valid = mark_failure-IsValid net parse_time p now url status false header w;
          counter = refl;
        },
      )

  pub note_success_lem :
      (h : Handler) (pool : Option ProxyPool)
      → PoolIsValid net h.proxy_pool
      → PoolIsValid net pool
      → (h' : Handler) × (note_success net parse_time h pool ≡ ok h')
        × Leaves net h h.rate_limit_count h'
  unfolding note_success
  note_success_lem h none v w = (h, refl, record { cfg = refl; valid = v; counter = refl })
  note_success_lem h (some p) v w =
      let (url, at) = current_of-ok net p w in
      (
        record h { proxy_pool = some (mark_success p url) },
        rw (at, note_success),
        record { cfg = refl; valid = mark_success-IsValid net parse_time p url w; counter = refl },
      )

-- How many of the responses are 429s.
abbrev pub too_many : List Reply → ℕ
too_many [] = 0
too_many (r ∷ rs) = (if eqb r.status 429 then 1 else 0) + too_many rs

-- All of them are error responses.
abbrev pub AllErrors : List Reply → Type 0
AllErrors [] = Unit
AllErrors (r ∷ rs) = (400 ≤ r.status) × AllErrors rs

module _ (net : Net) (parse_time : String → Option ℤ) (t : ℕ) (cfg : Config)
    (some_action : cfg.rate_limit_action ≢ "") (threshold : cfg.rate_limit_action_threshold ≡ pos t)
    (t_pos : 0 < t) (t_small : t < 2 ^ 31) where
  -- The counter and the commands after responses of which `n` were 429s.
  record Counted (h : Handler) (n : ℕ) (r : Handler × List String) : Type 0 where
    total : t * length r.1 + r.0.rate_limit_count ≡ h.rate_limit_count + n
    below : r.0.rate_limit_count < t
    cfg_kept : r.0.cfg ≡ cfg
    valid : PoolIsValid net r.0.proxy_pool

  account_error :
      (h : Handler) (r : Reply)
      → h.cfg ≡ cfg
      → PoolIsValid net h.proxy_pool
      → h.rate_limit_count < t
      → 400 ≤ r.status
      → (x : Handler × List String) × (account net parse_time h r.now r.status r.retry_after ≡ ok x)
        × Counted h (if eqb r.status 429 then 1 else 0) x
  unfolding account
  account_error h r same v lt bad =
      let (h1, e, l) =
        note_failure_lem net parse_time h r.now r.status r.retry_after h.proxy_pool v v in
      let is_error : leb 400 r.status ≡ true = ground arith in
      elim (Bool-cases (eqb r.status 429)) [
        | inl limited ↦
            let (x, done, ticked) =
              on_rate_limited_lem net t cfg some_action threshold t_pos t_small h1 (l.cfg ∙ same)
                l.valid (rw l.counter lt) in
            (
              x,
              rw (is_error, account) (rw (e, limited) done),
              rw limited (record {
                total = ticked.tick ∙ ap (λ n. n + 1) l.counter;
                below = ticked.below;
                cfg_kept = ticked.cfg_kept;
                valid = ticked.valid;
              }),
            )
        | inr other ↦ (
          (h1, []),
          rw (is_error, account) (rw (e, other)),
          rw other (record {
            total = omega (arith, l.counter);
            below = rw l.counter lt;
            cfg_kept = l.cfg ∙ same;
            valid = l.valid;
          }),
        )
      ]

  account_all_lem :
      (h : Handler) (rs : List Reply)
      → h.cfg ≡ cfg
      → PoolIsValid net h.proxy_pool
      → h.rate_limit_count < t
      → AllErrors rs
      → (x : Handler × List String) × (account_all net parse_time h rs ≡ ok x)
        × Counted h (too_many rs) x
  unfolding account_all
  account_all_lem h [] same v lt bad =
      ((h, []), refl, record { total = omega arith; below = lt; cfg_kept = same; valid = v })
  account_all_lem h (r ∷ rs) same v lt (bad, all_bad) =
      let (x, e, c) = account_error h r same v lt bad in
      let (y, e', c') = account_all_lem x.0 rs c.cfg_kept c.valid c.below all_bad in
      (
        (y.0, x.1 ++ y.1),
        rw (e, account_all) (rw e'),
        record {
          total = rw (length-append x.1 y.1) (omega (arith, c.total, c'.total));
          below = c'.below;
          cfg_kept = c'.cfg_kept;
          valid = c'.valid;
        },
      )

  -- Over any responses with error statuses, with no success between them, the configured command
  -- runs once for every t-th 429: t times the number of runs, plus the counter at the end, is the
  -- counter at the start plus the number of 429s, and the counter stays below the threshold t. The
  -- other errors count for nothing, and nothing panics.
  pub actions_counted :
      (h : Handler) (rs : List Reply)
      → h.cfg ≡ cfg
      → PoolIsValid net h.proxy_pool
      → h.rate_limit_count < t
      → AllErrors rs
      → (x : Handler × List String) × (account_all net parse_time h rs ≡ ok x)
        × (t * length x.1 + x.0.rate_limit_count ≡ h.rate_limit_count + too_many rs)
        × (x.0.rate_limit_count < t)
  actions_counted h rs same v lt bad =
      let (x, e, c) = account_all_lem h rs same v lt bad in (x, e, c.total, c.below)
