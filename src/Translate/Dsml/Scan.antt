-- ===== src/Translate/Dsml/Scan.antt =====
-- internal/translate/dsml.go: the regular expressions. Each matches in one way only from a given
-- start, so that it is a function; a lazy `(.*?)` ends at the first closing tag.
use Prim.Native.Char.{code}
use Prim.Native.String.{[], ◌∷◌}
use mathlib.Core.List.{List}
use opencode_proxy_api.Base.{
  ℕ, zero, suc, ◌+◌, String, Bool, ◌||◌, ◌&&◌, not, Option, none, some, ◌==◌, ltb, eqb,
  if◌then◌else◌,
}
use opencode_proxy_api.Base.Text.{cut_prefix, up_to}

infixl 5 ◌>>=◌
abbrev pub ◌>>=◌ {ℓ κ} : {A : Type ℓ} {B : Type κ} → Option A → (A → Option B) → Option B
none >>= f = none
some a >>= f = f a

unfoldable pub skip_one : ℕ → String → String
skip_one k [] = []
skip_one k (c ∷ s) = if eqb (code c) k then s else c ∷ s

-- One or two fullwidth pipes, or one or two ASCII ones.
unfoldable pub pipes : String → Option String
unfolding skip_one
pipes [] = none
pipes (c ∷ s) =
    if eqb (code c) 0xFF5C
    then some (skip_one 0xFF5C s)
    else if eqb (code c) b'|'
    then some (skip_one b'|' s)
    else none

-- The two runs of pipes around DSML, and the rest of a tag's name.
unfoldable pub tag : String → String → Option String
tag word s = do a ← pipes s; b ← cut_prefix "DSML" a; c ← pipes b; cut_prefix word c

unfoldable pub open_tag : String → String → Option String
open_tag word s = do r ← cut_prefix "<" s; tag word r

unfoldable pub close_tag : String → String → Option String
close_tag word s = do r ← cut_prefix "</" s; tag word r

-- A regular expression's `\s`.
unfoldable pub is_blank : ℕ → Bool
is_blank c = eqb c 9 || eqb c 10 || eqb c 12 || eqb c 13 || eqb c 32

unfoldable pub skip_blank : String → String
unfolding is_blank
skip_blank [] = []
skip_blank (c ∷ s) = let rest = skip_blank s in if is_blank (code c) then rest else c ∷ s

-- `\s+`
unfoldable pub blanks : String → Option String
unfolding is_blank
blanks [] = none
blanks (c ∷ s) = if is_blank (code c) then some (skip_blank s) else none

-- `([^"]+)"`
unfoldable pub quoted : String → Option (String × String)
quoted s = do r ← up_to b'"' s; if r.0 == "" then none else some r

-- The opening tag of an invoke: its name, and what follows it.
unfoldable pub invoke_head : String → Option (String × String)
unfolding quoted
invoke_head s = do
  a ← open_tag "invoke" s
  b ← blanks a
  c ← cut_prefix "name=\"" b
  q ← quoted c
  rest ← cut_prefix ">" (skip_blank q.1)
  some (q.0, rest)

-- That of a parameter; `[^>]*` takes what other attributes there are.
unfoldable pub param_head : String → Option (String × String)
unfolding quoted
param_head s = do
  a ← open_tag "parameter" s
  b ← blanks a
  c ← cut_prefix "name=\"" b
  q ← quoted c
  r ← up_to b'>' q.1
  some (q.0, r.1)

unfoldable pub region_head : String → Option (String × String)
region_head s = do a ← open_tag "tool_calls>" s; some ("", a)

-- The text before the first closing tag, and what follows the tag.
unfoldable pub body_until : String → String → Option (String × String)
body_until word [] = none
body_until word (c ∷ s) =
    let later = body_until word s in
    elim (close_tag word (c ∷ s)) [
      | some r ↦ some ([], r)
      | none ↦ elim later [ none ↦ none | some r ↦ some (c ∷ r.0, r.1) ]
    ]

-- What an element of the markup captures.
pub record Element : Type 0 where
  pub name : String
  pub body : String

-- The kinds of element, each with its regular expression.
pub data Tag : Type 0 where
  region invoke param : Tag

abbrev pub head_of : Tag → String → Option (String × String)
head_of region = region_head
head_of invoke = invoke_head
head_of param = param_head

abbrev pub word_of : Tag → String
word_of region = "tool_calls>"
word_of invoke = "invoke>"
word_of param = "parameter>"

-- A match that starts here, and what follows it.
unfoldable pub element : Tag → String → Option (Element × String)
element t s = do
  h ← head_of t s
  b ← body_until (word_of t) h.1
  some (record { name = h.0; body = b.0 }, b.1)

-- FindAllStringSubmatch, over at most `n` characters.
unfoldable pub matches : Tag → ℕ → String → List Element
matches t zero s = List.[]
matches t (suc n) [] = List.[]
matches t (suc n) (c ∷ s) = elim (element t (c ∷ s)) [
  | some r ↦ List.◌∷◌ r.0 (matches t n r.1)
  | none ↦ matches t n s
]

-- ReplaceAllString by the empty text, likewise.
unfoldable pub cut_out : Tag → ℕ → String → String
cut_out t zero s = s
cut_out t (suc n) [] = []
cut_out t (suc n) (c ∷ s) = elim (element t (c ∷ s)) [
  | some r ↦ cut_out t n r.1
  | none ↦ c ∷ cut_out t n s
]

-- The number of characters of a text, the fuel of the two.
unfoldable pub size : String → ℕ
size [] = 0
size (c ∷ s) = suc (size s)

-- Runs of three line feeds or more become two; `k` of the run are written.
unfoldable pub squeeze : ℕ → String → String
squeeze k [] = []
squeeze k (c ∷ s) =
    let rest = squeeze (if eqb (code c) 10 then (if ltb k 2 then k + 1 else k) else 0) s in
    if eqb (code c) 10 && not (ltb k 2) then rest else c ∷ rest
