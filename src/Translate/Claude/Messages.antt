-- ===== src/Translate/Claude/Messages.antt =====
-- internal/translate/claude_request.go: the messages.
use opencode_proxy_api.Base.{
  String, Bool, true, false, ◌||◌, not, List, [], ◌∷◌, ◌++◌, Option, none, some, ◌==◌,
  if◌then◌else◌,
}
use opencode_proxy_api.Base.Text.{append}
use opencode_proxy_api.Json.{Json, str, arr, obj, Items, nil, cons, Fields, end, field, JsonPackage}
use opencode_proxy_api.Translate.Claude.{
  RawMap, RawPackage, lookup, unmarshal_string, string_or_empty, unmarshal_maps, passthrough,
}

-- What the loop over a message's blocks collects.
pub record Blocks : Type 0 where
  pub texts : List String
  pub calls : List Json
  pub results : List Json
  pub others : List Json

unfoldable pub role_or_user : String → String
role_or_user role = if role == "" then "user" else role

-- The texts, with a line feed between two.
unfoldable pub joined : List String → String
joined [] = ""
joined (t ∷ []) = t
joined (t ∷ u ∷ us) = append t (append "\n" (joined (u ∷ us)))

unfoldable pub slice : List Json → Items
slice [] = nil
slice (x ∷ xs) = cons x (slice xs)

text_parts : List String → Items → Items
text_parts [] others = others
text_parts (t ∷ ts) others =
    cons (obj (field "type" (str "text") (field "text" (str t) end))) (text_parts ts others)

-- buildContentParts
unfoldable pub content_parts : List String → List Json → Json
unfolding text_parts
content_parts texts others = arr (text_parts texts (slice others))

unfoldable pub message : String → Json → Json
message role content = obj (field "role" (str role) (field "content" content end))

-- buildUserContentMessage
unfoldable pub user_content_message : String → List String → List Json → Json
user_content_message role texts [] = message role (str (joined texts))
user_content_message role texts (o ∷ os) = message role (content_parts texts (o ∷ os))

unfoldable pub tool_message : String → String → Json
tool_message id content =
    obj (
      field "role" (str "tool") (field "tool_call_id" (str id) (field "content" (str content) end)))

unfoldable pub tool_call : String → String → String → Json
tool_call id name arguments = obj (
    field "id" (str id) (
      field "type" (str "function") (
        field "function" (obj (field "name" (str name) (field "arguments" (str arguments) end)))
          end)))

module _ (pkg : RawPackage) where
  -- The texts of the blocks, from `out` on; the first block never adds a line feed.
  inner_text : String → List RawMap → String
  inner_text out [] = out
  inner_text out (b ∷ bs) =
      let text = string_or_empty pkg (lookup "text" b) in
      inner_text
        (if string_or_empty pkg (lookup "type" b) == "text" || not (text == "")
          then append (if out == "" then "" else append out "\n") text
          else out)
        bs

  -- A raw message that is there and not empty.
  present : Option String → Option String
  present none = none
  present (some t) = if t == "" then none else some t

  result_source : RawMap → Option String
  unfolding present
  result_source b = elim (present (lookup "content" b)) [
    | some t ↦ some t
    | none ↦ present (lookup "input" b)
  ]

  source_text : String → String
  unfolding inner_text
  source_text t = elim (unmarshal_string pkg (some t)) [
    | some s ↦ s
    | none ↦ elim (unmarshal_maps pkg (some t)) [ some bs ↦ inner_text "" bs | none ↦ t ]
  ]

  -- extractToolResultText
  unfoldable pub extract_tool_result_text : RawMap → String
  unfolding result_source source_text
  extract_tool_result_text b = elim (result_source b) [ none ↦ "" | some t ↦ source_text t ]

  -- The id of a tool_result.
  unfoldable pub result_id : RawMap → String
  result_id b =
      let id = string_or_empty pkg (lookup "tool_use_id" b) in
      if id == "" then string_or_empty pkg (lookup "tool_call_id" b) else id

  unfoldable pub block_type : RawMap → String
  block_type b = string_or_empty pkg (lookup "type" b)

  call_arguments : RawMap → String
  unfolding present
  call_arguments b = elim (present (lookup "input" b)) [ none ↦ "{}" | some t ↦ t ]

  unfoldable pub call_of_block : RawMap → Json
  unfolding call_arguments
  call_of_block b =
      tool_call (string_or_empty pkg (lookup "id" b)) (string_or_empty pkg (lookup "name" b))
        (call_arguments b)

  module _ (json : JsonPackage) where
    -- The loop over the blocks.
    unfoldable pub collect_blocks : List RawMap → Blocks
    collect_blocks [] = record { texts = []; calls = []; results = []; others = [] }
    collect_blocks (b ∷ bs) =
        let rest = collect_blocks bs in
        let type = block_type b in
        if type == "text"
        then record rest { texts = string_or_empty pkg (lookup "text" b) ∷ rest.texts }
        else if type == "tool_use"
        then record rest { calls = call_of_block b ∷ rest.calls }
        else if type == "tool_result"
        then (if result_id b == "" then rest else record rest {
          results = tool_message (result_id b) (extract_tool_result_text b) ∷ rest.results;
        })
        else record rest { others = passthrough pkg json b ∷ rest.others }

    unfoldable pub call_fields : List String → List Json → Fields
    call_fields [] [] = end
    call_fields (t ∷ []) [] = field "content" (str t) end
    call_fields (t ∷ u ∷ us) [] = field "content" (content_parts (t ∷ u ∷ us) []) end
    call_fields texts (o ∷ os) = field "content" (content_parts texts (o ∷ os)) end

    -- A message with no block of a tool.
    plain : String → RawMap → List String → List Json → Json
    plain role msg (t ∷ ts) [] = message role (str (joined (t ∷ ts)))
    plain role msg [] [] = passthrough pkg json msg
    plain role msg texts (o ∷ os) = passthrough pkg json msg

    unfoldable pub follow_up : String → List String → List Json → List Json
    follow_up role [] [] = []
    follow_up role (t ∷ ts) others = user_content_message (role_or_user role) (t ∷ ts) others ∷ []
    follow_up role [] (o ∷ os) = user_content_message (role_or_user role) [] (o ∷ os) ∷ []

    -- The messages that take the place of one, by what its blocks hold.
    unfoldable pub messages_for : String → RawMap → Blocks → List Json
    unfolding call_fields plain follow_up
    messages_for role msg c = elim c.results [
      | r ∷ rs ↦ (r ∷ rs) ++ follow_up role c.texts c.others
      | [] ↦ elim c.calls [
        | t ∷ ts ↦
            obj (
              field "role" (str "assistant")
                (field "tool_calls" (arr (slice (t ∷ ts))) (call_fields c.texts c.others)))
            ∷ []
        | [] ↦ plain role msg c.texts c.others ∷ []
      ]
    ]

    -- Whether a block of a tool was found.
    unfoldable pub has_tools : Blocks → Bool
    has_tools c = elim c.calls [
      | t ∷ ts ↦ true
      | [] ↦ elim c.results [ r ∷ rs ↦ true | [] ↦ false ]
    ]
