-- ===== src/Base/Decimal.antt =====
-- A printed number reads back.
use Prim.Native.Nat.{ℕ, zero, suc, ◌+◌, ◌-◌, ◌*◌, ◌/◌, ◌%◌, ◌^◌, ◌<◌}
use Prim.Native.Char.{code}
use Prim.Native.String.{String, [], ◌∷◌}
use mathlib.Core.Path.{◌≡◌, refl, ap, ◌∙◌, sym, subst}
use mathlib.Core.Bool.{true, ◌&&◌}
use mathlib.Core.Logic.{inl, inr}
use mathlib.Core.Option.{Option, none, some}
use native.Mathlib.Omega.{arith}
use text.Mathlib.TextLemmas.{nil-append, cons-append}
use opencode_proxy_api.Base.Tests.{ltb, leb, Bool-cases}
use opencode_proxy_api.Base.Text.{digits, decimal, decimal_digit, append}

digit_read : (b d : ℕ) → d < 10 → digits b (decimal_digit d) ≡ some (b * 10 + d)
unfolding digits decimal_digit
digit_read b zero h = refl
digit_read b (suc zero) h = refl
digit_read b (suc (suc zero)) h = refl
digit_read b (suc (suc (suc zero))) h = refl
digit_read b (suc (suc (suc (suc zero)))) h = refl
digit_read b (suc (suc (suc (suc (suc zero))))) h = refl
digit_read b (suc (suc (suc (suc (suc (suc zero)))))) h = refl
digit_read b (suc (suc (suc (suc (suc (suc (suc zero))))))) h = refl
digit_read b (suc (suc (suc (suc (suc (suc (suc (suc zero)))))))) h = refl
digit_read b (suc (suc (suc (suc (suc (suc (suc (suc (suc zero))))))))) h = refl
digit_read b (suc (suc (suc (suc (suc (suc (suc (suc (suc (suc n)))))))))) h =
    absurd (omega (arith, h))

lt-ltb : (a b : ℕ) → a < b → ltb a b ≡ true
lt-ltb a b h = ground (arith, h)

ltb-lt : (a b : ℕ) → ltb a b ≡ true → a < b
ltb-lt a b h = ground (arith, h)

some_inj : (m n : ℕ) → some m ≡ some n → m ≡ n
some_inj m n e = cc (e)

-- The number that a text starts with, read on in the rest.
abbrev read_on : String → Option ℕ → Option ℕ
read_on t none = none
read_on t (some b) = digits b t

digits-append : (a : ℕ) (s t : String) → digits a (append s t) ≡ read_on t (digits a s)
unfolding digits
digits-append a [] t = ap (digits a) (nil-append t)
digits-append a (c ∷ s) t =
    rw (cons-append c s t) (elim (Bool-cases (leb b'0' (code c) && leb (code c) b'9')) [
      | inl digit ↦ rw digit (digits-append (a * 10 + (code c - b'0')) s t)
      | inr other ↦ rw other refl
    ])

one_digit : (n : ℕ) → n < 10 → digits 0 (decimal_digit n) ≡ some n
one_digit n h = digit_read 0 n h ∙ ap some (omega arith)

fewer_digits : (m n : ℕ) → n < 10 * m → n / 10 < m
fewer_digits m n h = omega (arith, h)

ten_times : (k : ℕ) → 10 ^ suc k ≡ 10 * 10 ^ k
ten_times k = omega arith

-- A number of at most `k + 1` digits is read as it was printed.
pub digits-decimal : (k n : ℕ) → n < 10 ^ suc k → digits 0 (decimal (suc k) n) ≡ some n
unfolding decimal
digits-decimal zero n h = rw (lt-ltb n 10 h) (one_digit n h)
digits-decimal (suc k) n h = elim (Bool-cases (ltb n 10)) [
  | inl small ↦ rw small (one_digit n (ltb-lt n 10 small))
  | inr large ↦ rw large (
      digits-append 0 (decimal (suc k) (n / 10)) (decimal_digit (n % 10))
      ∙ ap (read_on (decimal_digit (n % 10))) (
          digits-decimal k (n / 10)
            (fewer_digits (10 ^ suc k) n (subst (λ m. n < m) (ten_times (suc k)) h)))
      ∙ digit_read (n / 10) (n % 10) (omega arith)
      ∙ ap some (omega arith))
]

-- Different numbers of at most `k + 1` digits are printed differently.
pub decimal_inj :
    (k m n : ℕ) → m < 10 ^ suc k → n < 10 ^ suc k → decimal (suc k) m ≡ decimal (suc k) n → m ≡ n
decimal_inj k m n hm hn e =
    some_inj m n (sym (digits-decimal k m hm) ∙ ap (digits 0) e ∙ digits-decimal k n hn)
