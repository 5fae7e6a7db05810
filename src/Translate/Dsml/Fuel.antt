-- ===== src/Translate/Dsml/Fuel.antt =====
-- internal/translate/dsml.go: the number of characters is enough fuel for the regular expressions.
use Prim.Native.Char.{Char}
use Prim.Native.String.{[], ◌∷◌}
use mathlib.Core.Path.{subst}
use mathlib.Core.List.{List}
use opencode_proxy_api.Base.{
  ℕ, zero, suc, ◌≤◌, String, some, ◌≡◌, refl, ap, arith, Option-cases, inl, inr,
}
use opencode_proxy_api.Translate.Dsml.Scan.{Element, Tag, element, matches, cut_out, size}
use opencode_proxy_api.Translate.Dsml.Fits.{Fits, after, element-Fits}

rest-Fits :
    (t : Tag) (c : Char) (s : String) (r : Element × String) (n : ℕ)
    → element t (c ∷ s) ≡ some r
    → size s ≤ n
    → size r.1 ≤ n
rest-Fits t c s r n e h = omega (arith, h, subst (Fits after (size s)) e (element-Fits t c s))

matches_enough :
    (t : Tag) (n m : ℕ) (s : String) → size s ≤ n → size s ≤ m → matches t n s ≡ matches t m s
unfolding matches size
matches_enough t zero zero s h k = refl
matches_enough t zero (suc m) [] h k = refl
matches_enough t zero (suc m) (c ∷ s) h k = elim h [ ]
matches_enough t (suc n) zero [] h k = refl
matches_enough t (suc n) zero (c ∷ s) h k = elim k [ ]
matches_enough t (suc n) (suc m) [] h k = refl
matches_enough t (suc n) (suc m) (c ∷ s) h k = elim (Option-cases (element t (c ∷ s))) [
  | inl miss ↦ rw (miss, matches) (matches_enough t n m s (omega (arith, h)) (omega (arith, k)))
  | inr (r, hit) ↦
      rw (hit, matches)
        (ap (List.◌∷◌ r.0) (
          matches_enough t n m r.1 (rest-Fits t c s r n hit (omega (arith, h)))
            (rest-Fits t c s r m hit (omega (arith, k)))))
]

cut_out_enough :
    (t : Tag) (n m : ℕ) (s : String) → size s ≤ n → size s ≤ m → cut_out t n s ≡ cut_out t m s
unfolding cut_out size
cut_out_enough t zero zero s h k = refl
cut_out_enough t zero (suc m) [] h k = refl
cut_out_enough t zero (suc m) (c ∷ s) h k = elim h [ ]
cut_out_enough t (suc n) zero [] h k = refl
cut_out_enough t (suc n) zero (c ∷ s) h k = elim k [ ]
cut_out_enough t (suc n) (suc m) [] h k = refl
cut_out_enough t (suc n) (suc m) (c ∷ s) h k = elim (Option-cases (element t (c ∷ s))) [
  | inl miss ↦
      rw (miss, cut_out)
        (ap (λ u. c ∷ u) (cut_out_enough t n m s (omega (arith, h)) (omega (arith, k))))
  | inr (r, hit) ↦
      rw (hit, cut_out)
        (cut_out_enough t n m r.1 (rest-Fits t c s r n hit (omega (arith, h)))
          (rest-Fits t c s r m hit (omega (arith, k))))
]

-- The matches of a regular expression, and the text without them, are the same with any fuel that is
-- at least the number of characters: with that much, the search is complete.
search_enough :
    (t : Tag) (n m : ℕ) (s : String)
    → size s ≤ n
    → size s ≤ m
    → (matches t n s ≡ matches t m s) × (cut_out t n s ≡ cut_out t m s)
search_enough t n m s h k = (matches_enough t n m s h k, cut_out_enough t n m s h k)
