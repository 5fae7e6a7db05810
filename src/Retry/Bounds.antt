-- ===== src/Retry/Bounds.antt =====
-- The range of ExponentialBackoff and its formula.
use native.Mathlib.Nat.{pow-suc}
use native.Mathlib.Decide.{dec_lt}
use opencode_proxy_api.Base.{ℕ, zero, suc, ◌-◌, ◌*◌, ◌^◌, ◌≤◌, ◌<◌, min, ◌≡◌, refl, ap, arith}
use opencode_proxy_api.Base.{pos, ◌≤ℤ◌, to_int64_of_small}
use opencode_proxy_api.Retry.{exponent, exponential_backoff}

-- The formula of the comment on ExponentialBackoff, without its bounds.
abbrev pub documented : ℕ → ℕ → ℕ → ℕ
documented failures base_delay max_delay = min (base_delay * 2 ^ (failures - 1)) max_delay

pow_pos : (n : ℕ) → 1 ≤ 2 ^ n
pow_pos zero = omega arith
pow_pos (suc n) = rw pow-suc (omega (arith, pow_pos n))

pow_mono : (m n : ℕ) → m ≤ n → 2 ^ m ≤ 2 ^ n
pow_mono zero n h = omega (arith, pow_pos n)
pow_mono (suc m) zero h = elim h [ ]
pow_mono (suc m) (suc n) h = rw pow-suc (rw pow-suc (omega (arith, pow_mono m n (omega arith))))

exponent-le : (n : ℕ) → exponent n ≤ 4
unfolding exponent
exponent-le n = ground arith

exponent_mono : (m n : ℕ) → m ≤ n → exponent m ≤ exponent n
unfolding exponent
exponent_mono m n h = ground arith

delay-le : (base_delay e : ℕ) → e ≤ 4 → base_delay * 2 ^ e ≤ base_delay * 16
delay-le base_delay e h = let p : 2 ^ e ≤ 16 = pow_mono e 4 h in grind arith

pub backoff_form :
    (n base_delay max_delay : ℕ)
    → base_delay * 16 < 2 ^ 63
    → exponential_backoff (suc n) base_delay max_delay
      ≡ pos (min (base_delay * 2 ^ exponent n) max_delay)
unfolding exponential_backoff
backoff_form n base_delay max_delay h =
    rw
      (to_int64_of_small (base_delay * 2 ^ exponent n)
        (omega (arith, delay-le base_delay (exponent n) (exponent-le n))))
      (ground arith)

exponent_small : (n : ℕ) → n ≤ 4 → exponent n ≡ n
unfolding exponent
exponent_small n h = ground arith

exponent_large : (n : ℕ) → 4 < n → exponent n ≡ 4
unfolding exponent
exponent_large n h = ground arith

mul_mono : (c a b : ℕ) → a ≤ b → c * a ≤ c * b
mul_mono c a b h = grind arith

delay_mono : (b m n : ℕ) → m ≤ n → b * 2 ^ exponent m ≤ b * 2 ^ exponent n
delay_mono b m n h = mul_mono b _ _ (pow_mono _ _ (exponent_mono m n h))

backoff_zero : (base_delay max_delay : ℕ) → exponential_backoff 0 base_delay max_delay ≡ pos 0
unfolding exponential_backoff
backoff_zero base_delay max_delay = refl

documented_small :
    (n base_delay max_delay : ℕ)
    → max_delay ≤ base_delay * 16
    → min (base_delay * 2 ^ exponent n) max_delay ≡ min (base_delay * 2 ^ n) max_delay
documented_small n base_delay max_delay h = elim (dec_lt 4 n) [
  | yes p ↦
      rw (exponent_large n p)
        (omega (arith, mul_mono base_delay 16 (2 ^ n) (pow_mono 4 n (omega arith))))
  | no p ↦ rw (exponent_small n (omega arith))
]

-- Where the cap is at most sixteen times the base delay, which does not overflow, the delay after
-- n consecutive failures is exactly the documented base * 2^(n-1), capped.
pub backoff_documented :
    (failures base_delay max_delay : ℕ)
    → 0 < failures
    → base_delay * 16 < 2 ^ 63
    → max_delay ≤ base_delay * 16
    → exponential_backoff failures base_delay max_delay
      ≡ pos (documented failures base_delay max_delay)
backoff_documented zero base_delay max_delay f o h = elim f [ ]
backoff_documented (suc n) base_delay max_delay f o h =
    let e : suc n - 1 ≡ n = omega arith in
    rw (e, backoff_form n base_delay max_delay o, documented_small n base_delay max_delay h)

-- Where the cap is above sixteen times the base delay, the delay stays below the documented one
-- from the sixth failure on.
backoff_below_documented :
    (failures base_delay max_delay : ℕ)
    → 5 < failures
    → 0 < base_delay
    → base_delay * 16 < 2 ^ 63
    → base_delay * 16 < max_delay
    → (exponential_backoff failures base_delay max_delay ≡ pos (base_delay * 16))
      × (base_delay * 16 < documented failures base_delay max_delay)
backoff_below_documented zero base_delay max_delay f b o h = elim f [ ]
backoff_below_documented (suc n) base_delay max_delay f b o h =
    let e : suc n - 1 ≡ n = omega arith in
    (
      rw (backoff_form n base_delay max_delay o, exponent_large n (omega arith))
          (ap pos (omega arith)),
      rw e (omega (arith, mul_mono base_delay 32 (2 ^ n) (pow_mono 5 n (omega arith)))),
    )

-- More failures never shorten the delay, which stays between zero and the cap, if the base delay
-- does not overflow.
pub backoff_monotone :
    (m n base_delay max_delay : ℕ)
    → m ≤ n
    → base_delay * 16 < 2 ^ 63
    → (exponential_backoff m base_delay max_delay ≤ℤ exponential_backoff n base_delay max_delay)
      × (pos 0 ≤ℤ exponential_backoff m base_delay max_delay)
      × (exponential_backoff m base_delay max_delay ≤ℤ pos max_delay)
backoff_monotone zero zero b c h o = rw (backoff_zero b c) (omega arith)
backoff_monotone zero (suc n) b c h o =
    rw (backoff_zero b c) (rw (backoff_form n b c o) (omega arith))
backoff_monotone (suc m) zero b c h o = elim h [ ]
backoff_monotone (suc m) (suc n) b c h o =
    rw (backoff_form m b c o)
      (rw (backoff_form n b c o) (omega (arith, delay_mono b m n (omega arith))))
