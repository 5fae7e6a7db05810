-- ===== src/Translate/Claude.antt =====
-- internal/translate/claude_request.go: Claude requests in the shapes of Chat Completions. A
-- json.RawMessage is the text of its value, and a map of them an `Option`, `none` for a nil map.
pub mod Tools
pub mod Messages
pub mod Request
pub mod Kept
pub mod Collected
pub mod Sent
pub mod Stored
use opencode_proxy_api.Base.{
  ℕ, String, Bool, true, false, List, [], ◌∷◌, Option, none, some, ◌==◌, if◌then◌else◌,
}
use opencode_proxy_api.Json.{
  Json, null, bool, num, str, arr, obj, Fields, fields_as_any, to_map, JsonPackage,
}

abbrev pub RawMap : Type 0
RawMap = Option (List (String × String))

-- The outermost level of a JSON text: what is inside keeps its text.
pub data Node : Type 0 where
  null_node scalar : Node
  string_node : String → Node
  array_node : List String → Node
  object_node : List (String × String) → Node

-- A value that json.Marshal prints: decoded, raw, or a map of such.
mutual
  pub data Value : Type 0 where
    decoded : Json → Value
    raw : String → Value
    object : Entries → Value

  pub data Entries : Type 0 where
    done : Entries
    entry : String → Value → Entries → Entries

-- encoding/json, over raw messages: `node` parses a text, `none` where it is not JSON; the others are
-- Marshal of a slice of values, of a map of raw messages, and of one map.
pub record RawPackage : Type 0 where
  pub node : String → Option Node
  pub encode_values : List Value → String
  pub encode_map : RawMap → String

unfoldable pub later_or : Option String → Option String → Option String
later_or (some w) old = some w
later_or none old = old

unfoldable pub last_raw : String → List (String × String) → Option String
unfolding later_or
last_raw key [] = none
last_raw key (e ∷ es) = later_or (last_raw key es) (if e.0 == key then some e.1 else none)

-- `m[key]`; of the same keys the last counts.
unfoldable pub lookup : String → RawMap → Option String
unfolding last_raw
lookup key none = none
lookup key (some es) = last_raw key es

add_last : String → String → List (String × String) → List (String × String)
add_last key v [] = (key, v) ∷ []
add_last key v (e ∷ es) = e ∷ add_last key v es

-- `m[key] = v`. A write into a nil map would panic; Stored proves that none is reached.
unfoldable pub store : String → String → RawMap → RawMap
unfolding add_last
store key v none = none
store key v (some es) = some (add_last key v es)

module _ (pkg : RawPackage) where
  node_string : Option Node → Option String
  node_string (some null_node) = some ""
  node_string (some (string_node s)) = some s
  node_string (some scalar) = none
  node_string (some (array_node xs)) = none
  node_string (some (object_node es)) = none
  node_string none = none

  -- Unmarshal into an empty string; a missing raw message is an error.
  unfoldable pub unmarshal_string : Option String → Option String
  unfolding node_string
  unmarshal_string none = none
  unmarshal_string (some t) = node_string (pkg.node t)

  -- The same, with the error ignored.
  unfoldable pub string_or_empty : Option String → String
  string_or_empty t = elim (unmarshal_string t) [ none ↦ "" | some s ↦ s ]

  -- Unmarshal into a map of raw messages.
  unfoldable pub map_of : Option Node → Option RawMap
  map_of (some null_node) = some none
  map_of (some (object_node es)) = some (some es)
  map_of (some (string_node s)) = none
  map_of (some scalar) = none
  map_of (some (array_node xs)) = none
  map_of none = none

  maps_of : List String → Option (List RawMap)
  unfolding map_of
  maps_of [] = some []
  maps_of (t ∷ ts) =
      let later = maps_of ts in
      elim (map_of (pkg.node t)) [
        | none ↦ none
        | some m ↦ elim later [ none ↦ none | some ms ↦ some (m ∷ ms) ]
      ]

  slice_of : Option Node → Option (List RawMap)
  unfolding maps_of
  slice_of (some null_node) = some []
  slice_of (some (array_node ts)) = maps_of ts
  slice_of (some (string_node s)) = none
  slice_of (some scalar) = none
  slice_of (some (object_node es)) = none
  slice_of none = none

  -- Unmarshal into a slice of maps of raw messages.
  unfoldable pub unmarshal_maps : Option String → Option (List RawMap)
  unfolding slice_of
  unmarshal_maps none = none
  unmarshal_maps (some t) = slice_of (pkg.node t)

  module _ (json : JsonPackage) where
    -- Unmarshal of `mustMarshal(m)` into a `map[string]interface{}`; a nil map is printed as `null`.
    unfoldable pub passthrough : RawMap → Json
    passthrough m = elim (json.decode (pkg.encode_map m)) [
      | some (obj fs) ↦ obj (fields_as_any json fs)
      | some null ↦ null
      | some (bool b) ↦ null
      | some (num n) ↦ null
      | some (str s) ↦ null
      | some (arr xs) ↦ null
      | none ↦ null
    ]
