-- ===== src/Json/Laws.antt =====
-- Reading a map that has been written.
use opencode_proxy_api.Base.{
  String, true, false, Option, none, some, Option-cases, ◌==◌, ◌≡◌, refl, if◌then◌else◌, Bool-cases,
  inl, inr,
}
use opencode_proxy_api.Json.{
  Json, str, Fields, end, field, get, put, same_key, struct_string, set_string, as_any,
  fields_as_any, JsonPackage,
}

pub get-put :
    (k j : String) (v : Json) (fs : Fields)
    → get j (put k v fs) ≡ (if k == j then some v else get j fs)
unfolding get put
get-put k j v end = refl
get-put k j v (field i w rest) = elim (Bool-cases (k == j)) [
  | inl same ↦ rw (get-put k j v rest, same)
  | inr other ↦ rw (get-put k j v rest, other)
]

-- A value, if there is one, decoded into an `any`.
abbrev pub as_read : JsonPackage → Option Json → Option Json
as_read json none = none
as_read json (some v) = some (as_any json v)

pub get-fields_as_any :
    (json : JsonPackage) (key : String) (fs : Fields)
    → get key (fields_as_any json fs) ≡ as_read json (get key fs)
unfolding get fields_as_any
get-fields_as_any json key end = refl
get-fields_as_any json key (field k v rest) = elim (Option-cases (get key rest)) [
  | inl last ↦ elim (Bool-cases (k == key)) [
    | inl same ↦ rw (get-fields_as_any json key rest, last, same) refl
    | inr other ↦ rw (get-fields_as_any json key rest, last, other) refl
  ]
  | inr (w, later) ↦ rw (get-fields_as_any json key rest, later) refl
]

-- A field with another key is passed over.
pub struct_string-other :
    (name k : String) (v : Json) (old : Option String) (rest : Fields)
    → same_key k name ≡ false
    → struct_string name old (field k v rest) ≡ struct_string name old rest
unfolding struct_string
struct_string-other name k v old rest other = rw (other, struct_string) refl

pub struct_string-own :
    (name k s : String) (old : String) (rest : Fields)
    → same_key k name ≡ true
    → struct_string name (some old) (field k (str s) rest) ≡ struct_string name (some s) rest
unfolding struct_string
struct_string-own name k s old rest own = rw (own, struct_string) refl

-- A field that is written last replaces a text.
pub struct_string-put :
    (name k s old : String) (fs : Fields) (before : Option String)
    → same_key k name ≡ true
    → struct_string name before fs ≡ some old
    → struct_string name before (put k (str s) fs) ≡ some s
unfolding struct_string put
struct_string-put name k s old end before own e = rw (e, own, set_string) refl
struct_string-put name k s old (field j v fs) before own e =
    struct_string-put name k s old fs _ own e

pub struct_string-put_other :
    (name k : String) (v : Json) (fs : Fields) (before : Option String)
    → same_key k name ≡ false
    → struct_string name before (put k v fs) ≡ struct_string name before fs
unfolding struct_string put
struct_string-put_other name k v end before other = rw other refl
struct_string-put_other name k v (field j w fs) before other =
    struct_string-put_other name k v fs _ other
