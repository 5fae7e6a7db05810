-- ===== src/Handler/Concurrent/Race.antt =====
-- internal/proxy/handler.go: goroutines in onRateLimited that hold values of the counter past the
-- threshold, each of which lets the command run.
use mathlib.Core.Path.{subst}
use opencode_proxy_api.Base.{
  ℕ, zero, suc, ◌+◌, ◌<◌, ◌^◌, true, List, [], ◌∷◌, ◌≡◌, ◌≢◌, refl, arith, pos,
}
use opencode_proxy_api.Config.{Config}
use opencode_proxy_api.Config.Transport.{Net}
use opencode_proxy_api.Handler.{runs_action}
use opencode_proxy_api.Handler.RateLimit.{runs_action_past}
use opencode_proxy_api.Handler.Concurrent.{Shared, bump, add, fire, Reach, here, next, fresh}

-- The values that n goroutines hold after n Adds, the last first.
countdown : ℕ → List ℕ
countdown zero = []
countdown (suc n) = suc n ∷ countdown n

module _ (net : Net) (t : ℕ) (cfg : Config) (some_action : cfg.rate_limit_action ≢ "")
    (threshold : cfg.rate_limit_action_threshold ≡ pos t) (t_pos : 0 < t)
    (t_small : t < 2 ^ 31) where
  -- n Adds after which no goroutine has tested its value.
  abbrev added : ℕ → Shared
  added n = record { count = n; held = countdown n; arrived = n; ran = 0 }

  adds : (n : ℕ) → n < 2 ^ 31 → Reach net cfg fresh (added n)
  unfolding countdown
  adds zero h = here
  adds (suc n) h =
      let e : bump n ≡ suc n = omega arith in
      subst
        (λ (c : ℕ).
          Reach net cfg fresh
            (record { count = c; held = c ∷ countdown n; arrived = suc n; ran = 0 }))
        (e) (next (adds n (omega arith)) add)

  -- The goroutines that hold the k values from t on test them, the last first.
  fires :
      (n k : ℕ) (s : Shared)
      → Reach net cfg fresh s
      → s.held ≡ countdown n
      → n + 1 ≡ t + k
      → n < 2 ^ 31
      → (s' : Shared) × Reach net cfg fresh s' × (s'.arrived ≡ s.arrived) × (s'.ran ≡ s.ran + k)
  unfolding countdown
  fires n zero s r e len h = (s, r, refl, omega arith)
  fires zero (suc k) s r e len h = absurd (omega (arith, t_pos, len))
  fires (suc n) (suc k) s r e len h =
      let runs : runs_action net cfg (suc n) ≡ true =
        runs_action_past net t cfg some_action threshold t_pos t_small _ (omega arith) h in
      let (s', r', a', n') =
        fires n k _ (next r (fire [] (suc n) (countdown n) e runs)) refl (omega arith)
          (omega arith) in
      (s', r', a', omega (arith, n'))

  -- Let the command and a threshold t be configured. For every k there is a run of the goroutines in
  -- which t + k responses of status 429 come and k + 1 commands run.
  pub commands_race :
      (k : ℕ)
      → t + k < 2 ^ 31
      → (s : Shared) × Reach net cfg fresh s × (s.arrived ≡ t + k) × (s.ran ≡ suc k)
  commands_race k h =
      let (s, r, a, n) =
        fires (t + k) (suc k) (added (t + k)) (adds (t + k) h) refl (omega arith) h in
      (s, r, a, omega (arith, n))
