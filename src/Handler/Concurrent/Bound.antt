-- ===== src/Handler/Concurrent/Bound.antt =====
-- internal/proxy/handler.go: how often the rate-limit command can run.
use opencode_proxy_api.Base.{
  ℕ, suc, ◌+◌, ◌<◌, ◌≤◌, ◌^◌, List, [], ◌∷◌, ◌++◌, if◌then◌else◌, ◌≡◌, ◌≢◌, ◌⊎◌, inl, inr, refl,
  arith, pos, Bool-cases,
}
use opencode_proxy_api.Config.{Config}
use opencode_proxy_api.Config.Transport.{Net}
use opencode_proxy_api.Handler.{runs_action}
use opencode_proxy_api.Handler.RateLimit.{runs_action_from}
use opencode_proxy_api.Handler.Concurrent.{
  Shared, bump, Step, add, fire, pass, succeed, Reach, here, next, fresh,
}

module _ (net : Net) (t : ℕ) (cfg : Config) (some_action : cfg.rate_limit_action ≢ "")
    (threshold : cfg.rate_limit_action_threshold ≡ pos t) (t_pos : 0 < t)
    (t_small : t < 2 ^ 31) where
  -- The held values that let the command run.
  due : List ℕ → ℕ
  due [] = 0
  due (c ∷ cs) = let rest = due cs in if runs_action net cfg c then suc rest else rest

  due-append : (xs ys : List ℕ) → due (xs ++ ys) ≡ due xs + due ys
  unfolding due
  due-append [] ys = omega arith
  due-append (x ∷ xs) ys = ground (arith, due-append xs ys)

  due-out :
      (xs : List ℕ) (c : ℕ) (ys : List ℕ)
      → due (xs ++ (c ∷ ys)) ≡ due (xs ++ ys) + (if runs_action net cfg c then 1 else 0)
  unfolding due
  due-out [] c ys = ground (arith)
  due-out (x ∷ xs) c ys = ground (arith, due-out xs c ys)

  -- The counter is no more than the responses that came; so are the commands that ran or are due, less
  -- the first `t - 1` responses.
  record Inv (s : Shared) : Type 0 where
    counted : s.count ≤ s.arrived
    kept : (s.ran + due s.held ≡ 0) ⊎ (s.ran + due s.held + t ≤ s.arrived + 1)

  due-head :
      (c : ℕ) (cs : List ℕ)
      → c < 2 ^ 31
      → ((due (c ∷ cs) ≡ suc (due cs)) × (t ≤ c)) ⊎ (due (c ∷ cs) ≡ due cs)
  unfolding due
  due-head c cs h = elim (Bool-cases (runs_action net cfg c)) [
    | inl runs ↦
        inl (rw runs refl, runs_action_from net t cfg some_action threshold t_pos t_small c h runs)
    | inr quiet ↦ inr (rw quiet refl)
  ]

  Step-Inv : {s s' : Shared} → s'.arrived < 2 ^ 31 → Inv s → Step net cfg s s' → Inv s'
  Step-Inv {s} h i add =
      let small : bump s.count ≤ s.arrived + 1 = omega (arith, i.counted) in
      record {
        counted = omega (arith, small);
        kept = ground (arith, due-head (bump s.count) s.held (omega (arith, small)), i.kept, small);
      }
  Step-Inv h i (fire before c after e runs) = record {
    counted = omega arith;
    kept = ground (arith, due-out before c after, i.kept, e, runs);
  }
  Step-Inv h i (pass before c after e quiet) = record {
    counted = i.counted;
    kept = ground (arith, due-out before c after, i.kept, e, quiet);
  }
  Step-Inv h i succeed = record { counted = omega arith; kept = i.kept }

  Step-arrived : {s s' : Shared} → Step net cfg s s' → s.arrived ≤ s'.arrived
  Step-arrived add = omega arith
  Step-arrived (fire _ _ _ _ _) = omega arith
  Step-arrived (pass _ _ _ _ _) = omega arith
  Step-arrived succeed = omega arith

  Reach-Inv : {s : Shared} → Reach net cfg fresh s → s.arrived < 2 ^ 31 → Inv s
  unfolding due
  Reach-Inv here h = record { counted = omega arith; kept = inl refl }
  Reach-Inv (next r st) h = Step-Inv h (Reach-Inv r (omega (arith, Step-arrived st))) st

  -- Let the command and a threshold t below 2 ^ 31 be configured. Whatever the order in which the
  -- goroutines' steps come, as long as fewer than 2 ^ 31 responses of status 429 came, n of them let
  -- the command run at most n + 1 - t times, and never when n is below t.
  pub commands_le :
      {s : Shared}
      → Reach net cfg fresh s
      → s.arrived < 2 ^ 31
      → (s.ran ≡ 0) ⊎ (s.ran + t ≤ s.arrived + 1)
  commands_le r h = let i = Reach-Inv r h in ground (arith, i.kept)
