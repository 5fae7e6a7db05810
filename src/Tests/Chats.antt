-- ===== src/Tests/Chats.antt =====
-- The normalization of a chat request at a concrete input.
use opencode_proxy_api.Base.{ℕ, none, some, [], ◌∷◌, ◌≡◌, refl, All, arith, eq_iff}
use opencode_proxy_api.Base.Text.{eq_codes}
use opencode_proxy_api.Json.{
  str, arr, obj, nil, cons, Fields, end, field, get, struct_string, same_key, JsonPackage,
}
use opencode_proxy_api.Translate.Chat.Wire.{
  last_field, message_slice, decode_request, request_fields,
}
use opencode_proxy_api.Translate.Chat.Wire.Normalized.{normalized_read}
use opencode_proxy_api.Translate.Chat.{
  ChatMessage, ChatRequest, normalize_request, normalize_messages, normalize_message,
  normalize_role, lacks_id, is_modified, any_modified,
}
use opencode_proxy_api.Translate.Chat.Roles.{IsNormal, AllKept, normalize_request-IsNormal}

abbrev rule : ChatMessage
rule = record {
  role = "developer";
  content = some (str "be brief");
  tool_call_id = "";
  tool_calls = [];
  name = "";
  function_call = none;
}

abbrev chat : ChatRequest
chat = record { model = "m"; messages = rule ∷ []; raw = end }

abbrev adapted : ChatRequest
adapted = record chat { messages = record rule { role = "system" } ∷ [] }

abbrev clock : ℕ → ℕ
clock i = 1_000_000

normalized : normalize_request clock chat ≡ some adapted
unfolding normalize_request normalize_messages normalize_message normalize_role lacks_id is_modified
    any_modified
normalized = refl

normalize_request-IsNormal_example :
    All IsNormal adapted.messages
    × (adapted.model ≡ chat.model)
    × (adapted.raw ≡ chat.raw)
    × AllKept chat.messages adapted.messages
    × (normalize_request clock adapted ≡ none)
normalize_request-IsNormal_example = normalize_request-IsNormal clock clock chat adapted normalized

abbrev rule_fields : Fields
rule_fields = field "model" (str "m") (
    field "messages"
      (arr (cons (obj (field "role" (str "developer") (field "content" (str "be brief") end))) nil))
      end)

abbrev reader : JsonPackage
reader = record { decode = λ s. some (obj rule_fields); encode = λ v. ""; float = λ s. s }

abbrev sent : ChatRequest
sent = record chat { raw = rule_fields }

decoded : decode_request reader "{}" ≡ some sent
unfolding decode_request last_field struct_string same_key eq_codes message_slice
decoded = refl

changed :
    normalize_request clock sent
    ≡ some (record sent { messages = normalize_messages clock 0 sent.messages })
unfolding normalize_request normalize_messages normalize_message normalize_role lacks_id is_modified
    any_modified
changed = refl

normalized_read_example :
    (struct_string "model"
        (some "")
        (request_fields (record sent { messages = normalize_messages clock 0 sent.messages }))
      ≡ some "m")
    × (message_slice (
          last_field "messages" none
            (request_fields (record sent { messages = normalize_messages clock 0 sent.messages })))
        ≡ some (normalize_messages clock 0 sent.messages))
    × (get "stream"
          (request_fields (record sent { messages = normalize_messages clock 0 sent.messages }))
        ≡ get "stream" rule_fields)
normalized_read_example =
    normalized_read reader clock "{}" "stream" sent
      (record sent { messages = normalize_messages clock 0 sent.messages }) decoded changed
      (λ e. absurd (ground (arith, eq_iff "stream" "model", e)))
      (λ e. absurd (ground (arith, eq_iff "stream" "messages", e)))
