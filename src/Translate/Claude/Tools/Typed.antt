-- ===== src/Translate/Claude/Tools/Typed.antt =====
-- internal/translate/claude_request.go: the shape of the tools that rewriteTools sends.
use opencode_proxy_api.Base.{
  All, ap, String, false, List, [], ◌∷◌, Option, none, some, ◌==◌, eq_iff, if◌then◌else◌, ◌≡◌, ◌≢◌,
  ◌⊎◌, inl, inr, refl, sym, ◌∙◌, arith, Bool-cases,
}
use opencode_proxy_api.Json.{
  Json, null, str, obj, Fields, fields_as_any, get, as_string, JsonPackage,
}
use opencode_proxy_api.Json.Laws.{as_read, get-fields_as_any}
use opencode_proxy_api.Translate.Claude.{
  RawMap, Value, decoded, raw, object, Entries, done, entry, RawPackage, lookup, string_or_empty,
  unmarshal_maps, passthrough,
}
use opencode_proxy_api.Translate.Claude.Tools.{
  function_map, tool_name, convert, schema_of, empty_schema, description, shaped_or, rewrite_tool,
  rewrite_each, tool_value, tool_values, tools_text, rewrite_tools,
}

-- The text under a key of a map of values.
text_at : String → Entries → String
text_at key done = ""
text_at key (entry k (decoded v) rest) =
    let later = text_at key rest in
    if k == key then elim (as_string (some v)) [ none ↦ "" | some s ↦ s ] else later
text_at key (entry k (raw t) rest) = let later = text_at key rest in if k == key then "" else later
text_at key (entry k (object es) rest) =
    let later = text_at key rest in if k == key then "" else later

-- The name of a `function`, `""` for none.
name_of : Value → String
unfolding text_at
name_of (decoded (obj f)) = elim (as_string (get "name" f)) [ none ↦ "" | some s ↦ s ]
name_of (object es) = text_at "name" es
name_of (raw t) = ""
name_of (decoded v) = ""

-- A Chat Completions tool: it is a function with the name.
pub IsFunction : String → Value → Type 0
IsFunction name v =
    (fn : Value) × (v ≡ object (entry "type" (decoded (str "function")) (entry "function" fn done)))
    × (name_of fn ≡ name)

module _ (pkg : RawPackage) (json : JsonPackage) where
  -- The name that a tool gives: its function's, or else its own.
  function_name : RawMap → String
  function_name t = elim (function_map pkg json t) [ none ↦ "" | some f ↦ tool_name pkg json f ]

  pub source_name : RawMap → String
  source_name t =
      let inner = function_name t in
      if inner == "" then string_or_empty pkg (lookup "name" t) else inner

  -- What a key of a map holds: its text, decoded.
  unfoldable pub held : List (String × String) → String → Option Json
  held es key = elim (lookup key (some es)) [ none ↦ none | some t ↦ json.decode t ]

  -- Marshal prints the map so that Unmarshal reads under each key what it holds, and a nil map as null.
  unfoldable pub ReadsBack : RawMap → Type 0
  ReadsBack none = json.decode (pkg.encode_map none) ≡ some null
  ReadsBack (some es) =
      (fs : Fields) × (json.decode (pkg.encode_map (some es)) ≡ some (obj fs))
      × ((key : String) → get key fs ≡ held es key)

  -- A map that holds under each key what the tool does, with its numbers read as float64s.
  pub IsCopy : RawMap → Value → Type 0
  IsCopy none v = v ≡ decoded null
  IsCopy (some es) v =
      (fs : Fields) × (v ≡ decoded (obj fs))
      × ((key : String) → get key fs ≡ as_read json (held es key))

  passthrough-IsCopy : (t : RawMap) → ReadsBack t → IsCopy t (decoded (passthrough pkg json t))
  unfolding ReadsBack IsCopy passthrough
  passthrough-IsCopy none e = rw (e, passthrough) refl
  passthrough-IsCopy (some es) (fs, e, at) = (
    fields_as_any json fs,
    rw (e, passthrough) refl,
    λ key. get-fields_as_any json key fs ∙ ap (as_read json) (at key),
  )

  -- What a tool is sent as: a function with its name, or, without a name, a copy of it.
  pub TypedAs : RawMap → Value → Type 0
  TypedAs t v =
      ((source_name t ≢ "") × IsFunction (source_name t) v) ⊎ ((source_name t ≡ "") × IsCopy t v)

  pub AllTyped : List RawMap → List Value → Type 0
  AllTyped [] [] = Unit
  AllTyped [] (v ∷ vs) = ⊥
  AllTyped (t ∷ ts) [] = ⊥
  AllTyped (t ∷ ts) (v ∷ vs) = TypedAs t v × AllTyped ts vs

  convert-Typed :
      (t : RawMap)
      → ReadsBack t
      → function_name t ≡ ""
      → TypedAs t (tool_value pkg json (convert pkg json t))
  unfolding TypedAs source_name IsFunction convert tool_value name_of text_at
  convert-Typed t back e =
      let name = string_or_empty pkg (lookup "name" t) in
      let of : source_name t ≡ name = rw (e, source_name) refl in
      elim (Bool-cases (name == "")) [
        | inl empty ↦
            let is : name ≡ "" = ground (arith, eq_iff name "") in
            inr (of ∙ is, rw empty (passthrough-IsCopy t back))
        | inr given ↦
            let is : name ≢ "" = ground (arith, eq_iff name "") in
            let schema = schema_of pkg json t in
            let fn : Value = object (
              entry "name" (decoded (str name)) (
                entry "parameters" (raw (if schema == "" then empty_schema pkg json else schema))
                  (description pkg json (string_or_empty pkg (lookup "description" t))))) in
            inl ((λ z. is (sym of ∙ z)), (fn, rw given refl, sym of))
      ]

  function_name_of :
      (t : RawMap) (f : Fields)
      → function_map pkg json t ≡ some f
      → function_name t ≡ tool_name pkg json f
  unfolding function_name
  function_name_of t f e = rw (e, function_name) refl

  source_name_of :
      (t : RawMap) (f : Fields)
      → function_map pkg json t ≡ some f
      → (tool_name pkg json f == "") ≡ false
      → source_name t ≡ tool_name pkg json f
  unfolding source_name
  source_name_of t f e given = rw (function_name_of t f e, source_name) (rw given refl)

  shaped_or-Typed :
      (t : RawMap) (o : Option Fields)
      → ReadsBack t
      → function_map pkg json t ≡ o
      → TypedAs t (tool_value pkg json (shaped_or pkg json t o))
  unfolding shaped_or function_name TypedAs IsFunction tool_value name_of tool_name
  shaped_or-Typed t none back e = convert-Typed t back (rw (e, function_name) refl)
  shaped_or-Typed t (some f) back e = elim (Bool-cases (tool_name pkg json f == "")) [
    | inl empty ↦
        let is : function_name t ≡ "" =
          function_name_of t f e ∙ ground (arith, eq_iff (tool_name pkg json f) "") in
        rw empty (convert-Typed t back is)
    | inr given ↦
        let is : tool_name pkg json f ≢ "" = ground (arith, eq_iff (tool_name pkg json f) "") in
        let of : source_name t ≡ tool_name pkg json f = source_name_of t f e given in
        rw given (inl ((λ z. is (sym of ∙ z)), (decoded (obj f), refl, sym of)))
  ]

  rewrite_each-Typed :
      (ts : List RawMap)
      → All ReadsBack ts
      → AllTyped ts (tool_values pkg json (rewrite_each pkg json ts))
  unfolding AllTyped tool_values rewrite_each rewrite_tool
  rewrite_each-Typed [] backs = tt
  rewrite_each-Typed (t ∷ ts) (back, backs) =
      (shaped_or-Typed t _ back refl, rewrite_each-Typed ts backs)

  sent :
      (t : String) (m : RawMap) (ms : List RawMap) (b : String)
      → tools_text pkg json t (m ∷ ms) ≡ some b
      → b ≡ pkg.encode_values (tool_values pkg json (rewrite_each pkg json (m ∷ ms)))
  unfolding tools_text
  sent t m ms b e = ground arith

  -- Let rewriteTools read tools, each of which Marshal prints so that Unmarshal reads under each key
  -- what it holds. When it sends new tools, they stand for those, in order: each with a name is a
  -- function with that name, and each without one is a map that holds under every key what the tool
  -- does, with its numbers read as float64s.
  pub rewrite_tools-Typed :
      (t b : String) (ts : List RawMap)
      → unmarshal_maps pkg (some t) ≡ some ts
      → All ReadsBack ts
      → rewrite_tools pkg json t ≡ some b
      → (vs : List Value) × (b ≡ pkg.encode_values vs) × AllTyped ts vs
  unfolding rewrite_tools tools_text
  rewrite_tools-Typed t b [] read backs e = absurd (cc (rw (read, rewrite_tools) at e))
  rewrite_tools-Typed t b (m ∷ ms) read backs e = (
    tool_values pkg json (rewrite_each pkg json (m ∷ ms)),
    sent t m ms b (rw (read, rewrite_tools) at e),
    rewrite_each-Typed (m ∷ ms) backs,
  )
