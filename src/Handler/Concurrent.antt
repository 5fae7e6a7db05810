-- ===== src/Handler/Concurrent.antt =====
-- internal/proxy/handler.go: the counter of 429 responses when requests run at the same time. The
-- counter is an atomic.Int32: each access is a step, and between its Add and its test a goroutine in
-- onRateLimited holds the value that Add returned.
pub mod Bound
pub mod Race
pub mod Alone
pub mod Sequence
use opencode_proxy_api.Base.{ℕ, suc, ◌+◌, ◌%◌, ◌^◌, true, false, List, [], ◌∷◌, ◌++◌, ◌≡◌}
use opencode_proxy_api.Config.{Config}
use opencode_proxy_api.Config.Transport.{Net}
use opencode_proxy_api.Handler.{runs_action}

-- The counter, the values that goroutines hold, and how many 429 responses came and commands ran.
pub record Shared : Type 0 where
  pub count : ℕ
  pub held : List ℕ
  pub arrived : ℕ
  pub ran : ℕ

abbrev pub bump : ℕ → ℕ
bump n = (n + 1) % 2 ^ 32

module _ (net : Net) (cfg : Config) where
  -- A step of one of the goroutines: Add; the test, with the Store and the command where it holds; and
  -- the Store after a successful response.
  pub data Step (s : Shared) : Shared → Type 0 where
    add : Step s (record {
      count = bump s.count;
      held = bump s.count ∷ s.held;
      arrived = suc s.arrived;
      ran = s.ran;
    })
    fire :
        (before : List ℕ) (c : ℕ) (after : List ℕ)
        → s.held ≡ before ++ (c ∷ after)
        → runs_action net cfg c ≡ true
        → Step s
            (record { count = 0; held = before ++ after; arrived = s.arrived; ran = suc s.ran })
    pass :
        (before : List ℕ) (c : ℕ) (after : List ℕ)
        → s.held ≡ before ++ (c ∷ after)
        → runs_action net cfg c ≡ false
        → Step s
            (record { count = s.count; held = before ++ after; arrived = s.arrived; ran = s.ran })
    succeed : Step s (record { count = 0; held = s.held; arrived = s.arrived; ran = s.ran })

  pub data Reach (s : Shared) : Shared → Type 0 where
    here : Reach s s
    next : {t u : Shared} → Reach s t → Step t u → Reach s u

abbrev pub fresh : Shared
fresh = record { count = 0; held = []; arrived = 0; ran = 0 }
