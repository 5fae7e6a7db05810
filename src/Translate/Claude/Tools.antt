-- ===== src/Translate/Claude/Tools.antt =====
-- internal/translate/claude_request.go: tools and tool_choice.
pub mod Typed
use opencode_proxy_api.Base.{
  String, Bool, true, false, ◌||◌, not, List, [], ◌∷◌, Option, none, some, ◌==◌, if◌then◌else◌,
}
use opencode_proxy_api.Json.{
  Json, str, obj, Fields, end, field, get, as_string, to_map, fields_as_any, struct_string,
  JsonPackage,
}
use opencode_proxy_api.Translate.Claude.{
  RawMap, Value, decoded, raw, object, Entries, done, entry, RawPackage, lookup, unmarshal_string,
  string_or_empty, unmarshal_maps, passthrough,
}

-- What becomes of one tool: it was in shape, it is not recognized, or it is converted.
pub data Tool : Type 0 where
  kept : Fields → Tool
  unknown : Json → Tool
  converted : String → String → String → Tool

module _ (pkg : RawPackage) (json : JsonPackage) where
  -- The `function` of a tool in shape.
  function_map : RawMap → Option Fields
  function_map t = elim (lookup "function" t) [
    | none ↦ none
    | some fn ↦ elim (to_map (json.decode fn)) [
      | none ↦ none
      | some f ↦ some (fields_as_any json f)
    ]
  ]

  tool_name : Fields → String
  tool_name f = elim (as_string (get "name" f)) [ none ↦ "" | some s ↦ s ]

  abbrev empty_schema : String
  empty_schema = "{\"type\":\"object\",\"properties\":{}}"

  -- `""` is a schema that is missing.
  schema_of : RawMap → String
  schema_of t = elim (lookup "input_schema" t) [
    | some s ↦ s
    | none ↦ elim (lookup "parameters" t) [ some s ↦ s | none ↦ "" ]
  ]

  convert : RawMap → Tool
  unfolding schema_of
  convert t =
      let name = string_or_empty pkg (lookup "name" t) in
      let schema = schema_of t in
      if name == ""
      then unknown (passthrough pkg json t)
      else converted name (string_or_empty pkg (lookup "description" t))
          (if schema == "" then empty_schema else schema)

  shaped_or : RawMap → Option Fields → Tool
  unfolding tool_name convert
  shaped_or t none = convert t
  shaped_or t (some f) = if tool_name f == "" then convert t else kept f

  -- The loop's body.
  unfoldable pub rewrite_tool : RawMap → Tool
  unfolding function_map shaped_or
  rewrite_tool t = shaped_or t (function_map t)

  unfoldable pub rewrite_each : List RawMap → List Tool
  rewrite_each [] = []
  rewrite_each (t ∷ ts) = rewrite_tool t ∷ rewrite_each ts

  unfoldable pub is_converted : Tool → Bool
  is_converted (kept f) = false
  is_converted (unknown v) = false
  is_converted (converted n d s) = true

  any_converted : List Tool → Bool
  unfolding is_converted
  any_converted [] = false
  any_converted (t ∷ ts) = is_converted t || any_converted ts

  description : String → Entries
  description desc = if desc == "" then done else entry "description" (decoded (str desc)) done

  unfoldable pub tool_value : Tool → Value
  unfolding description
  tool_value (kept f) =
      object (entry "type" (decoded (str "function")) (entry "function" (decoded (obj f)) done))
  tool_value (unknown v) = decoded v
  tool_value (converted name desc schema) = object (
      entry "type" (decoded (str "function")) (
        entry "function"
          (object (
            entry "name" (decoded (str name)) (entry "parameters" (raw schema) (description desc))))
          done))

  unfoldable pub tool_values : List Tool → List Value
  tool_values [] = []
  tool_values (t ∷ ts) = tool_value t ∷ tool_values ts

  tools_text : String → List RawMap → Option String
  unfolding any_converted
  tools_text t [] = none
  tools_text t (m ∷ ms) =
      let out = rewrite_each (m ∷ ms) in
      let b = pkg.encode_values (tool_values out) in
      if any_converted out || not (b == t) then some b else none

  -- rewriteTools; `none` is `false`.
  unfoldable pub rewrite_tools : String → Option String
  unfolding tools_text
  rewrite_tools t = elim (unmarshal_maps pkg (some t)) [ none ↦ none | some ms ↦ tools_text t ms ]

  -- The switch on `type`.
  unfoldable pub choice : String → String → Option String
  choice type name =
      if type == "auto"
      then some "\"auto\""
      else if type == "any"
      then some "\"required\""
      else if type == "none"
      then some "\"none\""
      else if not (type == "tool") || name == ""
      then none
      else some (
          json.encode (
            obj (
              field "type" (str "function")
                (field "function" (obj (field "name" (str name) end)) end))))

  typed_choice : Fields → Option String
  typed_choice fs = elim (struct_string "type" (some "") fs) [
    | none ↦ none
    | some type ↦ elim (struct_string "name" (some "") fs) [
      | none ↦ none
      | some name ↦ choice type name
    ]
  ]

  -- rewriteToolChoice
  unfoldable pub rewrite_tool_choice : String → Option String
  unfolding typed_choice
  rewrite_tool_choice t = elim (unmarshal_string pkg (some t)) [
    | some s ↦ none
    | none ↦ elim (to_map (json.decode t)) [ none ↦ none | some fs ↦ typed_choice fs ]
  ]
