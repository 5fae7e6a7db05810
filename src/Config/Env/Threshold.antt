-- ===== src/Config/Env/Threshold.antt =====
-- config/config.go and internal/proxy/handler.go: the threshold of the rate-limit action.
use Prim.Native.Char.{code}
use Prim.Native.String.{[], ◌∷◌}
use opencode_proxy_api.Base.{
  ℕ, zero, suc, ◌<◌, ◌^◌, String, Bool, true, false, Option, none, some, ◌==◌, ◌≡◌, refl, arith, ℤ,
  pos, negsuc, eqb, ltb_ℤ, Bool-cases, inl, inr,
}
use opencode_proxy_api.Base.Text.{trim_space, signed, parse_int64, parse_digits}
use opencode_proxy_api.Config.Url.{UrlPackage}
use opencode_proxy_api.Config.Env.{threshold_of, action_threshold, load}

-- A positive int of 64 bits.
abbrev pub IsPositive : ℤ → Type 0
IsPositive z = (n : ℕ) × (z ≡ pos n) × (0 < n) × (n < 2 ^ 63)

signed-IsPositive :
    (minus : Bool) (o : Option ℕ) (n : ℤ)
    → signed minus o ≡ some n
    → ltb_ℤ (pos 0) n ≡ true
    → IsPositive n
signed-IsPositive minus o (negsuc j) e h = ground arith
signed-IsPositive minus none (pos j) e h = cc
signed-IsPositive false (some k) (pos j) e h = (j, refl, ground arith, ground arith)
signed-IsPositive true (some zero) (pos j) e h = (j, refl, ground arith, ground arith)
signed-IsPositive true (some (suc k)) (pos j) e h = ground arith

parse_int64-IsPositive :
    (s : String) (n : ℤ) → parse_int64 s ≡ some n → ltb_ℤ (pos 0) n ≡ true → IsPositive n
unfolding parse_int64
parse_int64-IsPositive [] n e h = cc
parse_int64-IsPositive (c ∷ s) n e h = elim (Bool-cases (eqb (code c) b'+')) [
  | inl plus ↦ signed-IsPositive false (parse_digits s) n (rw plus at e) h
  | inr bare ↦ elim (Bool-cases (eqb (code c) b'-')) [
    | inl minus ↦ signed-IsPositive true (parse_digits s) n (rw (bare, minus) at e) h
    | inr digit ↦ signed-IsPositive false (parse_digits (c ∷ s)) n (rw (bare, digit) at e) h
  ]
]

threshold_of-IsPositive :
    (raw : String) (o : Option ℤ) → parse_int64 raw ≡ o → IsPositive (threshold_of o).value
unfolding threshold_of
threshold_of-IsPositive raw none e = (3, refl, omega arith, omega arith)
threshold_of-IsPositive raw (some n) e = elim (Bool-cases (ltb_ℤ (pos 0) n)) [
  | inl up ↦ rw up (parse_int64-IsPositive raw n e up)
  | inr low ↦ rw low (3, refl, omega arith, omega arith)
]

action_threshold-IsPositive : (raw : String) → IsPositive (action_threshold raw).value
unfolding action_threshold
action_threshold-IsPositive raw = elim (Bool-cases (raw == "")) [
  | inl unset ↦ rw unset (3, refl, omega arith, omega arith)
  | inr given ↦ rw given (threshold_of-IsPositive raw (parse_int64 raw) refl)
]

-- Whatever the environment holds, the threshold that Load returns is a positive int of 64 bits.
load-IsPositive :
    (pkg : UrlPackage) (parse_duration : String → Option ℤ) (env : String → String)
    → IsPositive (load pkg parse_duration env).value.rate_limit_action_threshold
unfolding load
load-IsPositive pkg parse_duration env =
    action_threshold-IsPositive (trim_space (env "OPCODE_RATE_LIMIT_ACTION_THRESHOLD"))
