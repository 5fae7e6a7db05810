-- ===== src/Translate/Dsml/Message.antt =====
-- internal/translate/dsml.go: the Claude message that the calls are rewritten in.
use opencode_proxy_api.Base.{
  ℕ, ◌+◌, String, Bool, true, false, List, [], ◌∷◌, ◌++◌, Option, none, some, ◌==◌, if◌then◌else◌,
}
use opencode_proxy_api.Base.Text.{append, trim_space, decimal}
use opencode_proxy_api.Json.{
  Json, null, str, arr, obj, Items, nil, cons, Fields, end, field, get, put, to_map, as_any,
  JsonPackage,
}
use opencode_proxy_api.Translate.Dsml.{DsmlCall, contains_dsml, strip_and_parse, text_at}

-- A map; a nil one has no fields.
block_fields : Json → Fields
block_fields (obj fs) = fs
block_fields v = end

-- What the loop over the blocks collects.
pub record Collected : Type 0 where
  pub blocks : List Json
  pub calls : List DsmlCall
  pub changed : Bool

text_block : String → List Json
text_block clean =
    if trim_space clean == ""
    then []
    else obj (field "type" (str "text") (field "text" (str clean) end)) ∷ []

collect_text : Json → Option (String × List DsmlCall) → Collected → Collected
unfolding text_block
collect_text b none rest = record rest { blocks = b ∷ rest.blocks }
collect_text b (some (clean, parsed)) rest = record {
  blocks = text_block clean ++ rest.blocks;
  calls = parsed ++ rest.calls;
  changed = true;
}

-- The loop, from the first block on.
unfoldable pub collect : List Json → Collected
unfolding block_fields collect_text
collect [] = record { blocks = []; calls = []; changed = false }
collect (b ∷ bs) =
    let rest = collect bs in
    if text_at "type" (block_fields b) == "text"
    then collect_text b (strip_and_parse (text_at "text" (block_fields b))) rest
    else record rest { blocks = b ∷ rest.blocks }

-- The identifier of the call at `i`, counted from one.
unfoldable pub dsml_id : ℕ → String
dsml_id i = append "toolu_dsml_" (decimal 19 i)

-- The tool_use blocks, from the call at `i` on.
unfoldable pub tool_blocks : ℕ → List DsmlCall → List Json
tool_blocks i [] = []
tool_blocks i (c ∷ cs) =
    obj (
      field "type" (str "tool_use") (
        field "id" (str (dsml_id i)) (field "name" (str c.name) (field "input" (obj c.input) end))))
    ∷ tool_blocks (i + 1) cs

unfoldable pub items_of : List Json → Items
items_of [] = nil
items_of (b ∷ bs) = cons b (items_of bs)

-- A slice of maps; `none` is a type error.
blocks_of : JsonPackage → Items → Option (List Json)
blocks_of json nil = some []
blocks_of json (cons (obj fs) rest) = elim (blocks_of json rest) [
  | none ↦ none
  | some bs ↦ some (as_any json (obj fs) ∷ bs)
]
blocks_of json (cons null rest) = elim (blocks_of json rest) [
  | none ↦ none
  | some bs ↦ some (null ∷ bs)
]
blocks_of json (cons v rest) = none

content_blocks : JsonPackage → Option Json → Option (List Json)
unfolding blocks_of
content_blocks json (some (arr xs)) = blocks_of json xs
content_blocks json (some null) = some []
content_blocks json none = none
content_blocks json (some v) = none

-- The new message; `none` leaves the body as it is.
unfoldable pub rewritten_fields : Fields → Collected → Option Fields
unfolding items_of
rewritten_fields raw c =
    if c.changed
    then some (
        put "stop_reason" (str "tool_use")
          (put "content" (arr (items_of (c.blocks ++ tool_blocks 1 c.calls))) raw))
    else none

rewrite_content : Fields → Option (List Json) → Option Fields
rewrite_content raw none = none
rewrite_content raw (some blocks) = rewritten_fields raw (collect blocks)

rewrite_document : JsonPackage → Option Fields → Option Fields
unfolding rewrite_content content_blocks
rewrite_document json none = none
rewrite_document json (some raw) = rewrite_content raw (content_blocks json (get "content" raw))

body_or : JsonPackage → String → Option Fields → String
body_or json body none = body
body_or json body (some fs) = json.encode (obj fs)

-- RewriteClaudeMessageDSML
unfoldable pub rewrite_message : JsonPackage → String → String
unfolding rewrite_document body_or
rewrite_message json body =
    if contains_dsml body
    then body_or json body (rewrite_document json (to_map (json.decode body)))
    else body
