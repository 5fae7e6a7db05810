-- ===== src/Handler/Threshold.antt =====
-- internal/proxy/handler.go: a threshold that an int32 does not hold.
use opencode_proxy_api.Base.{
  ℕ, ◌%◌, ◌<◌, ◌≤◌, ◌^◌, true, ◌≡◌, ◌≢◌, arith, pos, eq_iff, ◌⊎◌, pos_part, to_int32,
  to_int32_of_small,
}
use opencode_proxy_api.Config.{Config}
use opencode_proxy_api.Config.Transport.{Net}
use opencode_proxy_api.Handler.{runs_action}

pos_part-to_int32 : (t : ℕ) → (t % 2 ^ 32 ≡ 0) ⊎ (2 ^ 31 ≤ t % 2 ^ 32) → pos_part (to_int32 t) ≡ 0
unfolding to_int32
pos_part-to_int32 t h = ground arith

-- A configured threshold whose low 32 bits are zero, or have the highest of them set, is compared as
-- an int32 that is not positive: the command then runs at every 429, from the first on, as long as
-- the counter does not overflow itself.
runs_action_overflow :
    (net : Net) (cfg : Config) (t count : ℕ)
    → cfg.rate_limit_action ≢ ""
    → cfg.rate_limit_action_threshold ≡ pos t
    → 0 < t
    → (t % 2 ^ 32 ≡ 0) ⊎ (2 ^ 31 ≤ t % 2 ^ 32)
    → count < 2 ^ 31
    → runs_action net cfg count ≡ true
unfolding runs_action
runs_action_overflow net cfg t count action threshold t_pos low small =
    rw (threshold, to_int32_of_small count small)
      (ground (arith, eq_iff cfg.rate_limit_action "", pos_part-to_int32 t low))
