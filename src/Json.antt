-- ===== src/Json.antt =====
-- encoding/json, as the program uses it: decoded documents, and how Go reads them into its types. A
-- Go map is a list of fields too, of which the last with a key counts.
pub mod Laws
use Prim.Native.Char.{code}
use Prim.Native.String
use opencode_proxy_api.Base.{
  ℕ, String, Bool, true, false, ◌&&◌, List, [], ◌∷◌, Option, none, some, ◌==◌, eqb, leb,
  if◌then◌else◌, ◌+◌,
}
use opencode_proxy_api.Base.Text.{eq_codes}

-- A number keeps its literal, an object its fields in order, repeated keys included.
mutual
  pub data Json : Type 0 where
    null : Json
    bool : Bool → Json
    num : String → Json
    str : String → Json
    arr : Items → Json
    obj : Fields → Json

  pub data Items : Type 0 where
    nil : Items
    cons : Json → Items → Items

  pub data Fields : Type 0 where
    end : Fields
    field : String → Json → Fields → Fields

-- The package's functions: `decode` parses a text, `none` where it is not JSON; `encode` is Marshal.
pub record JsonPackage : Type 0 where
  pub decode : String → Option Json
  pub encode : Json → String
  -- a number literal, read as a float64 and printed again
  pub float : String → String

-- `m[key]` of a decoded map: the last field with the key.
unfoldable pub get : String → Fields → Option Json
get key end = none
get key (field k v rest) =
    let later = get key rest in
    elim later [ some w ↦ some w | none ↦ if k == key then some v else none ]

-- `m[key] = v`: the new field comes last, and the last field of a key is the one that counts.
unfoldable pub put : String → Json → Fields → Fields
put key v end = field key v end
put key v (field k w rest) = field k w (put key v rest)

-- `v.(string)`
abbrev pub as_string : Option Json → Option String
as_string (some (str s)) = some s
as_string (some null) = none
as_string (some (bool b)) = none
as_string (some (num n)) = none
as_string (some (arr xs)) = none
as_string (some (obj fs)) = none
as_string none = none

-- `v.(map[string]any)`
abbrev pub as_map : Option Json → Option Fields
as_map (some (obj fs)) = some fs
as_map (some null) = none
as_map (some (bool b)) = none
as_map (some (num n)) = none
as_map (some (arr xs)) = none
as_map (some (str s)) = none
as_map none = none

-- `v.([]any)`
abbrev pub as_slice : Option Json → Option Items
as_slice (some (arr xs)) = some xs
as_slice (some null) = none
as_slice (some (bool b)) = none
as_slice (some (num n)) = none
as_slice (some (obj fs)) = none
as_slice (some (str s)) = none
as_slice none = none

-- Unmarshal into a `map[string]any`: `null` gives a nil map, with no error.
abbrev pub to_map : Option Json → Option Fields
to_map (some (obj fs)) = some fs
to_map (some null) = some end
to_map (some (bool b)) = none
to_map (some (num n)) = none
to_map (some (arr xs)) = none
to_map (some (str s)) = none
to_map none = none

-- A value decoded into an `any`: its numbers are float64s.
unfoldable mutual
  pub as_any : JsonPackage → Json → Json
  as_any json null = null
  as_any json (bool b) = bool b
  as_any json (num n) = num (json.float n)
  as_any json (str s) = str s
  as_any json (arr xs) = arr (items_as_any json xs)
  as_any json (obj fs) = obj (fields_as_any json fs)

  pub items_as_any : JsonPackage → Items → Items
  items_as_any json nil = nil
  items_as_any json (cons x xs) = cons (as_any json x) (items_as_any json xs)

  pub fields_as_any : JsonPackage → Fields → Fields
  fields_as_any json end = end
  fields_as_any json (field k v rest) = field k (as_any json v) (fields_as_any json rest)

-- The keys of a struct match without regard to case, and U+017F and U+212A fold to s and k.
fold_code : ℕ → ℕ
fold_code c =
    if leb b'A' c && leb c b'Z'
    then c + 32
    else if eqb c 0x17F
    then b's'
    else if eqb c 0x212A
    then b'k'
    else c

fold : String → List ℕ
fold String.[] = []
fold (String.◌∷◌ c s) = fold_code (code c) ∷ fold s

unfoldable pub same_key : String → String → Bool
unfolding fold_code fold eq_codes
same_key k name = eq_codes (fold k) (fold name)

set_string : Option String → Json → Option String
set_string none v = none
set_string (some old) null = some old
set_string (some old) (str s) = some s
set_string (some old) (bool b) = none
set_string (some old) (num n) = none
set_string (some old) (arr xs) = none
set_string (some old) (obj fs) = none

set_bool : Option Bool → Json → Option Bool
set_bool none v = none
set_bool (some old) null = some old
set_bool (some old) (bool b) = some b
set_bool (some old) (str s) = none
set_bool (some old) (num n) = none
set_bool (some old) (arr xs) = none
set_bool (some old) (obj fs) = none

-- A string field of a struct, from its value so far: each field with its key sets it, `null`
-- leaves it, and a value of another type is an error.
unfoldable pub struct_string : String → Option String → Fields → Option String
unfolding set_string
struct_string name old end = old
struct_string name old (field k v rest) =
    struct_string name (if same_key k name then set_string old v else old) rest

unfoldable pub struct_bool : String → Option Bool → Fields → Option Bool
unfolding set_bool
struct_bool name old end = old
struct_bool name old (field k v rest) =
    struct_bool name (if same_key k name then set_bool old v else old) rest
