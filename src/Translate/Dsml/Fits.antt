-- ===== src/Translate/Dsml/Fits.antt =====
-- internal/translate/dsml.go: how much of a text the regular expressions leave.
use Prim.Native.Char.{Char, code}
use Prim.Native.String.{[], ◌∷◌}
use mathlib.Core.Path.{subst}
use opencode_proxy_api.Base.{
  ℕ, suc, ◌≤◌, String, Bool, true, false, Option, none, some, ◌==◌, eqb, if◌then◌else◌, arith,
  Bool-cases, Option-cases, inl, inr,
}
use opencode_proxy_api.Base.Text.{cut_prefix, up_to}
use opencode_proxy_api.Translate.Dsml.Scan.{
  ◌>>=◌, skip_one, pipes, tag, open_tag, close_tag, skip_blank, blanks, quoted, invoke_head,
  param_head, region_head, body_until, Tag, region, invoke, param, head_of, word_of, element, size,
}

-- What is read, if anything, leaves at most `n` characters.
abbrev pub Fits {ℓ} : {A : Type ℓ} → (A → String) → ℕ → Option A → Type 0
Fits f n none = Unit
Fits f n (some a) = size (f a) ≤ n

abbrev pub text : String → String
text s = s

abbrev pub after {ℓ} : {A : Type ℓ} → A × String → String
after r = r.1

Fits-mono {ℓ} :
    {A : Type ℓ} (f : A → String) (n m : ℕ) (o : Option A) → Fits f n o → n ≤ m → Fits f m o
Fits-mono f n m none h k = tt
Fits-mono f n m (some a) h k = omega (arith, h, k)

Fits-bind {ℓ κ} :
    {A : Type ℓ} {B : Type κ} (f : A → String) (g : B → String) (n : ℕ) (o : Option A)
    (k : A → Option B)
    → Fits f n o
    → ((a : A) → size (f a) ≤ n → Fits g n (k a))
    → Fits g n (o >>= k)
Fits-bind f g n none k h step = tt
Fits-bind f g n (some a) k h step = step a h

Fits-if {ℓ} :
    {A : Type ℓ} (f : A → String) (n : ℕ) (b : Bool) (x y : Option A)
    → Fits f n x
    → Fits f n y
    → Fits f n (if b then x else y)
Fits-if f n true x y h k = h
Fits-if f n false x y h k = k

skip_one-size : (k : ℕ) (s : String) → size (skip_one k s) ≤ size s
unfolding skip_one size
skip_one-size k [] = omega arith
skip_one-size k (c ∷ s) = elim (Bool-cases (eqb (code c) k)) [
  | inl same ↦ rw same (omega arith)
  | inr other ↦ rw other (omega arith)
]

cut_prefix-Fits : (p s : String) → Fits text (size s) (cut_prefix p s)
unfolding cut_prefix size
cut_prefix-Fits [] s = omega arith
cut_prefix-Fits (p ∷ ps) [] = tt
cut_prefix-Fits (p ∷ ps) (c ∷ s) =
    Fits-if text (suc (size s)) (eqb (code p) (code c)) (cut_prefix ps s) none
      (Fits-mono text (size s) (suc (size s)) (cut_prefix ps s) (cut_prefix-Fits ps s)
        (omega arith))
      tt

pipes-Fits : (s : String) → Fits text (size s) (pipes s)
unfolding pipes size
pipes-Fits [] = tt
pipes-Fits (c ∷ s) =
    Fits-if text (suc (size s)) (eqb (code c) 0xFF5C) _ _ (omega (arith, skip_one-size 0xFF5C s)) (
      Fits-if text (suc (size s)) (eqb (code c) b'|') _ none (omega (arith, skip_one-size b'|' s))
        tt)

skip_blank-size : (s : String) → size (skip_blank s) ≤ size s
unfolding skip_blank size
skip_blank-size [] = omega arith
skip_blank-size (c ∷ s) = ground (arith, skip_blank-size s)

blanks-Fits : (s : String) → Fits text (size s) (blanks s)
unfolding blanks size
blanks-Fits [] = tt
blanks-Fits (c ∷ s) =
    Fits-if text (suc (size s)) _ (some (skip_blank s)) none (omega (arith, skip_blank-size s)) tt

Fits-elim :
    (c : Char) (o : Option (String × String)) (n : ℕ)
    → Fits after n o
    → Fits after (suc n) (elim o [ none ↦ none | some r ↦ some (c ∷ r.0, r.1) ])
Fits-elim c none n h = tt
Fits-elim c (some r) n h = omega (arith, h)

up_to-Fits : (k : ℕ) (s : String) → Fits after (size s) (up_to k s)
unfolding up_to size
up_to-Fits k [] = tt
up_to-Fits k (c ∷ s) =
    Fits-if after (suc (size s)) (eqb (code c) k) (some ([], s)) _ (omega arith)
      (Fits-elim c (up_to k s) (size s) (up_to-Fits k s))

module _ (n : ℕ) where
  prefix-Fits : (p s : String) → size s ≤ n → Fits text n (cut_prefix p s)
  prefix-Fits p s h = Fits-mono text (size s) n (cut_prefix p s) (cut_prefix-Fits p s) h

  tag-Fits : (word s : String) → size s ≤ n → Fits text n (tag word s)
  unfolding tag
  tag-Fits word s h =
      Fits-bind text text n (pipes s) _ (Fits-mono text (size s) n (pipes s) (pipes-Fits s) h)
        (λ a ha. Fits-bind text text n (cut_prefix "DSML" a) _ (prefix-Fits "DSML" a ha) (λ b hb.
          Fits-bind text text n (pipes b) _ (Fits-mono text (size b) n (pipes b) (pipes-Fits b) hb)
            (λ c hc. prefix-Fits word c hc)))

  close_tag-Fits : (word s : String) → size s ≤ n → Fits text n (close_tag word s)
  unfolding close_tag
  close_tag-Fits word s h =
      Fits-bind text text n (cut_prefix "</" s) _ (prefix-Fits "</" s h) (tag-Fits word)

  blanks-Fits_le : (s : String) → size s ≤ n → Fits text n (blanks s)
  blanks-Fits_le s h = Fits-mono text (size s) n (blanks s) (blanks-Fits s) h

  quoted-Fits : (s : String) → size s ≤ n → Fits after n (quoted s)
  unfolding quoted
  quoted-Fits s h =
      Fits-bind after after n (up_to b'"' s) _
        (Fits-mono after (size s) n (up_to b'"' s) (up_to-Fits b'"' s) h)
        (λ r hr. Fits-if after n (r.0 == "") none (some r) tt hr)

  -- An opening tag begins with a character that is read.
  open_tag-Fits :
      (word : String) (c : Char) (s : String) → size s ≤ n → Fits text n (open_tag word (c ∷ s))
  unfolding open_tag cut_prefix
  open_tag-Fits word c s h =
      Fits-bind text text n (cut_prefix "<" (c ∷ s)) _ (Fits-if text n _ (some s) none h tt)
        (tag-Fits word)

  -- The name in an opening tag, up to its closing quote.
  named-Fits :
      (a : String) (k : String × String → Option (String × String))
      → size a ≤ n
      → ((q : String × String) → size q.1 ≤ n → Fits after n (k q))
      → Fits after n (do b ← blanks a; c ← cut_prefix "name=\"" b; q ← quoted c; k q)
  named-Fits a k ha step = Fits-bind text after n (blanks a) _ (blanks-Fits_le a ha) (λ b hb.
      Fits-bind text after n (cut_prefix "name=\"" b) _ (prefix-Fits "name=\"" b hb)
        (λ c hc. Fits-bind after after n (quoted c) k (quoted-Fits c hc) step))

  head_of-Fits : (t : Tag) (c : Char) (s : String) → size s ≤ n → Fits after n (head_of t (c ∷ s))
  unfolding region_head invoke_head param_head
  head_of-Fits region c s h =
      Fits-bind text after n (open_tag "tool_calls>" (c ∷ s)) _ (open_tag-Fits "tool_calls>" c s h)
        (λ a ha. ha)
  head_of-Fits invoke c s h =
      Fits-bind text after n (open_tag "invoke" (c ∷ s)) _ (open_tag-Fits "invoke" c s h) (λ a ha.
        named-Fits a _ ha (λ q hq.
          Fits-bind text after n (cut_prefix ">" (skip_blank q.1)) _
            (prefix-Fits ">" (skip_blank q.1) (omega (arith, skip_blank-size q.1)))
            (λ rest hrest. hrest)))
  head_of-Fits param c s h =
      Fits-bind text after n (open_tag "parameter" (c ∷ s)) _ (open_tag-Fits "parameter" c s h)
        (λ a ha. named-Fits a _ ha (λ q hq.
          Fits-bind after after n (up_to b'>' q.1) _
            (Fits-mono after (size q.1) n (up_to b'>' q.1) (up_to-Fits b'>' q.1) hq) (λ r hr. hr)))

body_until-Fits : (word s : String) → Fits after (size s) (body_until word s)
unfolding body_until size
body_until-Fits word [] = tt
body_until-Fits word (c ∷ s) = elim (Option-cases (close_tag word (c ∷ s))) [
  | inr (r, closed) ↦
      rw (closed, Fits)
        (Fits-mono text (size (c ∷ s)) (suc (size s)) (some r)
          (subst (Fits text (size (c ∷ s))) closed
            (close_tag-Fits (size (c ∷ s)) word (c ∷ s) (omega arith)))
          (omega arith))
  | inl no_tag ↦
      rw (no_tag, Fits) (Fits-elim c (body_until word s) (size s) (body_until-Fits word s))
]

pub element-Fits : (t : Tag) (c : Char) (s : String) → Fits after (size s) (element t (c ∷ s))
unfolding element
element-Fits t c s =
    Fits-bind after after (size s) (head_of t (c ∷ s)) _ (head_of-Fits (size s) t c s (omega arith))
      (λ h hh.
        Fits-bind after after (size s) (body_until (word_of t) h.1) _
          (Fits-mono after (size h.1) (size s) _ (body_until-Fits (word_of t) h.1) hh) (λ b hb. hb))
