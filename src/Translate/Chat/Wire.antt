-- ===== src/Translate/Chat/Wire.antt =====
-- internal/translate/types.go and chat.go: reading and printing a Chat Completions request, and the
-- normalization of a body. A repeated field that is no string is read from its last occurrence.
pub mod Readback
pub mod Normalized
use opencode_proxy_api.Base.{ℕ, String, List, [], ◌∷◌, Option, none, some, ◌==◌, if◌then◌else◌}
use opencode_proxy_api.Json.{
  Json, null, str, arr, obj, Items, nil, cons, Fields, end, field, put, same_key, struct_string,
  to_map, JsonPackage,
}
use opencode_proxy_api.Translate.Chat.{ToolCall, ChatMessage, ChatRequest, normalize_request}

infixl 5 ◌>>=◌
abbrev ◌>>=◌ {ℓ κ} : {A : Type ℓ} {B : Type κ} → Option A → (A → Option B) → Option B
none >>= f = none
some a >>= f = f a

-- The value of a struct's field, as it was sent.
unfoldable pub last_field : String → Option Json → Fields → Option Json
last_field name old end = old
last_field name old (field k v rest) =
    last_field name (if same_key k name then some v else old) rest

function_of : Option Json → Option (String × String)
function_of (some (obj fs)) = do
  name ← struct_string "name" (some "") fs
  arguments ← struct_string "arguments" (some "") fs
  some (name, arguments)
function_of (some null) = some ("", "")
function_of none = some ("", "")
function_of (some v) = none

tool_call_of : Json → Option ToolCall
unfolding function_of
tool_call_of (obj fs) = do
  id ← struct_string "id" (some "") fs
  kind ← struct_string "type" (some "") fs
  def ← function_of (last_field "function" none fs)
  some (record { id = id; kind = kind; name = def.0; arguments = def.1 })
tool_call_of null = some (record { id = ""; kind = ""; name = ""; arguments = "" })
tool_call_of v = none

tool_calls_of : Items → Option (List ToolCall)
unfolding tool_call_of
tool_calls_of nil = some []
tool_calls_of (cons x xs) = do c ← tool_call_of x; cs ← tool_calls_of xs; some (c ∷ cs)

-- A slice of tool calls.
calls_of : Option Json → Option (List ToolCall)
unfolding tool_calls_of
calls_of (some (arr xs)) = tool_calls_of xs
calls_of (some null) = some []
calls_of none = some []
calls_of (some v) = none

message_of : Json → Option ChatMessage
unfolding calls_of
message_of (obj fs) = do
  role ← struct_string "role" (some "") fs
  id ← struct_string "tool_call_id" (some "") fs
  calls ← calls_of (last_field "tool_calls" none fs)
  name ← struct_string "name" (some "") fs
  some (record {
    role = role;
    content = last_field "content" none fs;
    tool_call_id = id;
    tool_calls = calls;
    name = name;
    function_call = last_field "function_call" none fs;
  })
message_of null = some (record {
  role = "";
  content = none;
  tool_call_id = "";
  tool_calls = [];
  name = "";
  function_call = none;
})
message_of v = none

pub messages_of : Items → Option (List ChatMessage)
unfolding message_of
messages_of nil = some []
messages_of (cons x xs) = do m ← message_of x; ms ← messages_of xs; some (m ∷ ms)

unfoldable pub message_slice : Option Json → Option (List ChatMessage)
unfolding messages_of
message_slice (some (arr xs)) = messages_of xs
message_slice (some null) = some []
message_slice none = some []
message_slice (some v) = none

-- ChatCompletionRequest.UnmarshalJSON
unfoldable pub decode_request : JsonPackage → String → Option ChatRequest
unfolding message_slice
decode_request json body = do
  raw ← to_map (json.decode body)
  model ← struct_string "model" (some "") raw
  messages ← message_slice (last_field "messages" none raw)
  some (record { model = model; messages = messages; raw = raw })

-- A field with omitempty.
text_field : String → String → Fields → Fields
text_field key s rest = if s == "" then rest else field key (str s) rest

raw_field : String → Option Json → Fields → Fields
raw_field key none rest = rest
raw_field key (some v) rest = field key v rest

encode_calls : List ToolCall → Items
encode_calls [] = nil
encode_calls (c ∷ cs) =
    cons
      (obj (
        field "id" (str c.id) (
          field "type" (str c.kind) (
            field "function"
              (obj (field "name" (str c.name) (field "arguments" (str c.arguments) end))) end))))
      (encode_calls cs)

calls_field : List ToolCall → Fields → Fields
unfolding encode_calls
calls_field [] rest = rest
calls_field (c ∷ cs) rest = field "tool_calls" (arr (encode_calls (c ∷ cs))) rest

pub encode_chat_messages : List ChatMessage → Items
unfolding text_field raw_field calls_field
encode_chat_messages [] = nil
encode_chat_messages (m ∷ ms) =
    cons
      (obj (
        field "role" (str m.role) (
          raw_field "content" m.content (
            text_field "tool_call_id" m.tool_call_id (
              calls_field m.tool_calls
                (text_field "name" m.name (raw_field "function_call" m.function_call end)))))))
      (encode_chat_messages ms)

-- ChatCompletionRequest.MarshalJSON, before its last `json.Marshal`.
unfoldable pub request_fields : ChatRequest → Fields
unfolding encode_chat_messages
request_fields r =
    put "messages" (arr (encode_chat_messages r.messages)) (put "model" (str r.model) r.raw)

rewritten_or : JsonPackage → String → Option ChatRequest → String
rewritten_or json body none = body
rewritten_or json body (some r) = json.encode (obj (request_fields r))

-- NormalizeChatCompletionRequest
unfoldable pub normalize_chat_completion_request : JsonPackage → (ℕ → ℕ) → String → String
unfolding rewritten_or
normalize_chat_completion_request json clock body = elim (decode_request json body) [
  | none ↦ body
  | some r ↦ rewritten_or json body (normalize_request clock r)
]
