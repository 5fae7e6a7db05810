-- ===== src/Translate/Claude/Request.antt =====
-- internal/translate/claude_request.go: the loop over the messages, and the request.
use opencode_proxy_api.Base.{
  ℕ, suc, String, Bool, true, false, ◌&&◌, ◌||◌, not, List, [], ◌∷◌, ◌++◌, Option, none, some, ◌==◌,
  if◌then◌else◌,
}
use opencode_proxy_api.Base.Text.{append, decimal}
use opencode_proxy_api.Json.{Json, str, arr, obj, Fields, end, field, put, as_any, JsonPackage}
use opencode_proxy_api.Translate.Claude.{
  Node, null_node, scalar, string_node, array_node, object_node, RawMap, RawPackage, lookup, store,
  unmarshal_string, string_or_empty, unmarshal_maps, map_of, passthrough,
}
use opencode_proxy_api.Translate.Claude.Tools.{rewrite_tools, rewrite_tool_choice}
use opencode_proxy_api.Translate.Claude.Messages.{collect_blocks, messages_for, has_tools, slice}

-- The id that a tool message without one gets, at a time in nanoseconds.
unfoldable pub new_call_id : ℕ → String
new_call_id now = append "call_" (decimal 19 now)

quoted_text : String → String
quoted_text s = append "\"" (append s "\"")

module _ (pkg : RawPackage) (json : JsonPackage) where
  -- Whether a message is one of a tool that names no call.
  unfoldable pub lacks_call_id : String → RawMap → Bool
  lacks_call_id role msg = role == "tool" && string_or_empty pkg (lookup "tool_call_id" msg) == ""

  extra : List (String × String) → Fields → Fields
  extra [] item = item
  extra (e ∷ es) item = extra es (
      if e.0 == "role" || e.0 == "content"
      then item
      else elim (json.decode e.1) [ none ↦ item | some v ↦ put e.0 (as_any json v) item ])

  extra_fields : RawMap → Fields → Fields
  unfolding extra
  extra_fields none item = item
  extra_fields (some es) item = extra es item

  -- A message whose content is a text.
  unfoldable pub text_message : ℕ → String → String → RawMap → Json
  unfolding extra_fields quoted_text
  text_message now role content msg = obj (
      extra_fields
        (if lacks_call_id role msg
          then store "tool_call_id" (quoted_text (new_call_id now)) msg
          else msg)
        (field "role" (str role) (field "content" (str content) end)))

  -- A round of the loop: the messages that take the place of one, and whether it sets `changed`.
  unfoldable pub rewrite_round : ℕ → RawMap → List Json × Bool
  rewrite_round now msg =
      let role = string_or_empty pkg (lookup "role" msg) in
      elim (unmarshal_string pkg (lookup "content" msg)) [
        | some content ↦ (text_message now role content msg ∷ [], lacks_call_id role msg)
        | none ↦ elim (unmarshal_maps pkg (lookup "content" msg)) [
          | none ↦ (passthrough pkg json msg ∷ [], false)
          | some blocks ↦
              let c = collect_blocks pkg json blocks in
              (messages_for pkg json role msg c, has_tools pkg json c)
        ]
      ]

  -- The loop from the message at `i` on; `clock` is the time in each round.
  unfoldable pub rewrite_all : (ℕ → ℕ) → ℕ → List RawMap → List Json × Bool
  rewrite_all clock i [] = ([], false)
  rewrite_all clock i (m ∷ ms) =
      let first = rewrite_round (clock i) m in
      let rest = rewrite_all clock (suc i) ms in (first.0 ++ rest.0, first.1 || rest.1)

  unfoldable pub changed_messages : (ℕ → ℕ) → List RawMap → Option (List Json)
  changed_messages clock [] = none
  changed_messages clock (m ∷ ms) =
      let out = rewrite_all clock 0 (m ∷ ms) in if out.1 then some out.0 else none

  -- The messages that replace the request's, before they are printed.
  unfoldable pub new_messages : (ℕ → ℕ) → String → Option (List Json)
  new_messages clock t = elim (unmarshal_maps pkg (some t)) [
    | none ↦ none
    | some ms ↦ changed_messages clock ms
  ]

  -- rewriteMessages; `none` is `false`.
  unfoldable pub rewrite_messages : (ℕ → ℕ) → String → Option String
  rewrite_messages clock t = elim (new_messages clock t) [
    | none ↦ none
    | some out ↦ some (json.encode (arr (slice out)))
  ]

  node_empty : Option Node → Bool
  node_empty (some null_node) = true
  node_empty (some (array_node [])) = true
  node_empty (some (array_node (t ∷ ts))) = false
  node_empty (some (string_node s)) = false
  node_empty (some scalar) = false
  node_empty (some (object_node es)) = false
  node_empty none = false

  -- messagesEmpty
  unfoldable pub messages_empty : String → Bool
  unfolding node_empty
  messages_empty t = node_empty (pkg.node t)

  -- `raw[key]` rewritten, and whether it was.
  unfoldable pub rewrite_key : String → (String → Option String) → RawMap × Bool → RawMap × Bool
  rewrite_key key f s = elim (lookup key s.0) [
    | none ↦ s
    | some t ↦ elim (f t) [ none ↦ s | some u ↦ (store key u s.0, true) ]
  ]

  -- Whether the rewritten messages are an empty array, which ends the rewriting.
  unfoldable pub ships_nothing : (ℕ → ℕ) → RawMap → Bool
  ships_nothing clock r = elim (lookup "messages" r) [
    | none ↦ false
    | some t ↦ elim (rewrite_messages clock t) [ none ↦ false | some u ↦ messages_empty u ]
  ]

  rewrite_map : (ℕ → ℕ) → String → RawMap → String
  rewrite_map clock body r =
      let shaped =
        rewrite_key "tool_choice" (rewrite_tool_choice pkg json)
          (rewrite_key "tools" (rewrite_tools pkg json) (r, false)) in
      let out = rewrite_key "messages" (rewrite_messages clock) shaped in
      if ships_nothing clock shaped.0 || not out.1 then body else pkg.encode_map out.0

  -- ClaudeRequestToUpstream
  unfoldable pub claude_request_to_upstream : (ℕ → ℕ) → String → String
  unfolding rewrite_map
  claude_request_to_upstream clock body = elim (map_of pkg (pkg.node body)) [
    | none ↦ body
    | some r ↦ rewrite_map clock body r
  ]
