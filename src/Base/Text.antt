-- ===== src/Base/Text.antt =====
-- The functions of Go's packages strings and strconv that the program calls, over texts of code
-- points.
use Prim.Native.Nat.{ℕ, zero, suc, ◌/◌, ◌%◌, ◌+◌, ◌-◌, ◌*◌, ◌^◌}
use Prim.Native.Char.{Char, code}
use Prim.Native.String
use Prim.Native.String.{String, [], ◌∷◌}
use mathlib.Core.Bool.{Bool, true, false, ◌&&◌, ◌||◌}
use mathlib.Core.Option.{Option, none, some}
use mathlib.Core.List.{List}
use mathlib.Core.Path.{◌≡◌, refl}
use native.Mathlib.Omega.{arith}
use text.Mathlib.Text.{◌==◌}
use opencode_proxy_api.Base.Tests.{ltb, leb, eqb, if◌then◌else◌}
use opencode_proxy_api.Base.Int.{ℤ, pos, negsuc}

-- unicode.IsSpace
unfoldable pub is_space : ℕ → Bool
is_space c =
    leb 9 c && leb c 13
    || eqb c 32
    || eqb c 0x85
    || eqb c 0xA0
    || eqb c 0x1680
    || leb 0x2000 c && leb c 0x200A
    || eqb c 0x2028
    || eqb c 0x2029
    || eqb c 0x202F
    || eqb c 0x205F
    || eqb c 0x3000

trim_left : String → String
trim_left [] = []
trim_left (c ∷ s) = let rest = trim_left s in if is_space (code c) then rest else c ∷ s

trim_right : String → String
trim_right [] = []
trim_right (c ∷ s) =
    let rest = trim_right s in if rest == "" && is_space (code c) then "" else c ∷ rest

-- strings.TrimSpace
unfoldable pub trim_space : String → String
unfolding is_space trim_left trim_right
trim_space s = trim_right (trim_left s)

-- strings.TrimRight with the cutset "/"
unfoldable pub trim_right_slash : String → String
trim_right_slash [] = []
trim_right_slash (c ∷ s) =
    let rest = trim_right_slash s in if rest == "" && eqb (code c) b'/' then "" else c ∷ rest

-- strings.CutPrefix: HasPrefix is `some`, TrimPrefix its value.
unfoldable pub cut_prefix : String → String → Option String
cut_prefix [] s = some s
cut_prefix (p ∷ ps) [] = none
cut_prefix (p ∷ ps) (c ∷ s) =
    let rest = cut_prefix ps s in if eqb (code p) (code c) then rest else none

unfoldable pub has_prefix : String → String → Bool
unfolding cut_prefix
has_prefix p s = elim (cut_prefix p s) [ none ↦ false | some _ ↦ true ]

-- strings.Contains
unfoldable pub contains : String → String → Bool
unfolding has_prefix
contains p [] = p == ""
contains p (c ∷ s) = let rest = contains p s in if has_prefix p (c ∷ s) then true else rest

-- unicode.ToLower, as far as its result is ASCII: the other code points that it changes stay other
-- than ASCII. U+0130 and U+212A are the ones outside ASCII with an ASCII lower case.
unfoldable pub lower_code : ℕ → ℕ
lower_code c =
    if leb b'A' c && leb c b'Z'
    then c + 32
    else if eqb c 0x130
    then b'i'
    else if eqb c 0x212A
    then b'k'
    else c

unfoldable pub lower : String → List ℕ
unfolding lower_code
lower [] = List.[]
lower (c ∷ s) = List.◌∷◌ (lower_code (code c)) (lower s)

unfoldable pub prefix_codes : List ℕ → List ℕ → Bool
prefix_codes List.[] ys = true
prefix_codes (List.◌∷◌ x xs) List.[] = false
prefix_codes (List.◌∷◌ x xs) (List.◌∷◌ y ys) = eqb x y && prefix_codes xs ys

unfoldable pub contains_codes : List ℕ → List ℕ → Bool
unfolding prefix_codes
contains_codes xs List.[] = prefix_codes xs List.[]
contains_codes xs (List.◌∷◌ y ys) = prefix_codes xs (List.◌∷◌ y ys) || contains_codes xs ys

-- Decimal digits, read on from `n`.
unfoldable pub digits : ℕ → String → Option ℕ
digits n [] = some n
digits n (c ∷ s) =
    if leb b'0' (code c) && leb (code c) b'9' then digits (n * 10 + (code c - b'0')) s else none

unfoldable pub parse_digits : String → Option ℕ
unfolding digits
parse_digits [] = none
parse_digits (c ∷ s) = digits 0 (c ∷ s)

abbrev pub signed : Bool → Option ℕ → Option ℤ
signed minus none = none
signed false (some n) = if ltb n (2 ^ 63) then some (pos n) else none
signed true (some zero) = some (pos 0)
signed true (some n) = if leb n (2 ^ 63) then some (negsuc (n - 1)) else none

-- strconv.ParseInt in base 10, for 64 bits; `none` is its error.
unfoldable pub parse_int64 : String → Option ℤ
unfolding parse_digits
parse_int64 [] = none
parse_int64 (c ∷ s) =
    if eqb (code c) b'+'
    then signed false (parse_digits s)
    else if eqb (code c) b'-'
    then signed true (parse_digits s)
    else signed false (parse_digits (c ∷ s))

unfoldable pub eq_codes : List ℕ → List ℕ → Bool
eq_codes List.[] List.[] = true
eq_codes List.[] (List.◌∷◌ y ys) = false
eq_codes (List.◌∷◌ x xs) List.[] = false
eq_codes (List.◌∷◌ x xs) (List.◌∷◌ y ys) = eqb x y && eq_codes xs ys

-- `strings.ToLower(s) == t`, for a lower-case ASCII text `t`.
unfoldable pub lower_is : String → String → Bool
unfolding lower eq_codes
lower_is s t = eq_codes (lower s) (lower t)

eq_codes-parts :
    (x y : ℕ) (xs ys : List ℕ)
    → eq_codes (List.◌∷◌ x xs) (List.◌∷◌ y ys) ≡ true
    → (x ≡ y) × (eq_codes xs ys ≡ true)
unfolding eq_codes
eq_codes-parts x y xs ys h = ground arith

eq_codes-same : (xs ys : List ℕ) → eq_codes xs ys ≡ true → xs ≡ ys
unfolding eq_codes
eq_codes-same List.[] List.[] h = refl
eq_codes-same List.[] (List.◌∷◌ y ys) h = cc (h)
eq_codes-same (List.◌∷◌ x xs) List.[] h = cc (h)
eq_codes-same (List.◌∷◌ x xs) (List.◌∷◌ y ys) h =
    let (x_is, xs_are) = eq_codes-parts x y xs ys h in
    (λ i. List.◌∷◌ (x_is i) (eq_codes-same xs ys xs_are i))

-- A text that is `t` in lower case is another text just if `t` is.
pub lower_is_other :
    (s t t' : String) → lower_is s t ≡ true → lower_is s t' ≡ eq_codes (lower t) (lower t')
unfolding lower_is
lower_is_other s t t' h = rw (eq_codes-same (lower s) (lower t) h) refl

abbrev pub append : String → String → String
append = String.◌++◌

cons_first : Char → List String → List String
cons_first c List.[] = List.◌∷◌ (c ∷ []) List.[]
cons_first c (List.◌∷◌ s rest) = List.◌∷◌ (c ∷ s) rest

-- strings.Split by a single ASCII character, given by its code.
unfoldable pub split : ℕ → String → List String
unfolding cons_first
split sep [] = List.◌∷◌ [] List.[]
split sep (c ∷ s) =
    let rest = split sep s in if eqb (code c) sep then List.◌∷◌ [] rest else cons_first c rest

unfoldable pub decimal_digit : ℕ → String
decimal_digit n =
    if eqb n 0
    then "0"
    else if eqb n 1
    then "1"
    else if eqb n 2
    then "2"
    else if eqb n 3
    then "3"
    else if eqb n 4
    then "4"
    else if eqb n 5
    then "5"
    else if eqb n 6
    then "6"
    else if eqb n 7
    then "7"
    else if eqb n 8
    then "8"
    else "9"

-- `%d`, in at most `k` digits.
unfoldable pub decimal : ℕ → ℕ → String
unfolding decimal_digit
decimal zero n = ""
decimal (suc k) n =
    let rest = decimal k (n / 10) in
    if ltb n 10 then decimal_digit n else append rest (decimal_digit (n % 10))

-- The text before the first character with this code, and what follows that character.
unfoldable pub up_to : ℕ → String → Option (String × String)
up_to k [] = none
up_to k (c ∷ s) =
    let later = up_to k s in
    if eqb (code c) k
    then some ([], s)
    else elim later [ none ↦ none | some r ↦ some (c ∷ r.0, r.1) ]
