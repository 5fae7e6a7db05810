-- ===== src/Reasoning/Body.antt =====
-- internal/reasoning/inject.go: reading and printing the chat body, and tryInjectReasoning of
-- internal/proxy/handler.go. A repeated field is read from its last occurrence.
use opencode_proxy_api.Base.{
  String, Bool, true, false, List, [], ◌∷◌, Option, none, some, ◌==◌, if◌then◌else◌,
}
use opencode_proxy_api.Base.Text.{parse_int64}
use opencode_proxy_api.Json.{
  Json, null, bool, num, str, arr, obj, Items, nil, cons, Fields, end, field, put, same_key,
  struct_string, as_any, fields_as_any, JsonPackage,
}
use opencode_proxy_api.Reasoning.{
  Message, ChatBody, model_requires_injection, inject_reasoning_content,
}

infixl 5 ◌>>=◌
abbrev ◌>>=◌ {ℓ κ} : {A : Type ℓ} {B : Type κ} → Option A → (A → Option B) → Option B
none >>= f = none
some a >>= f = f a

-- The Go type of a field.
pub data Kind : Type 0 where
  any_kind bool_kind int_kind float_kind slice_kind map_kind : Kind

is_some {ℓ} : {A : Type ℓ} → Option A → Bool
is_some none = false
is_some (some a) = true

-- Does the value fit the type? `null` fits each and leaves nil.
fits : Kind → Json → Bool
unfolding is_some
fits k null = true
fits any_kind v = true
fits bool_kind (bool b) = true
fits int_kind (num n) = is_some (parse_int64 n)
fits float_kind (num n) = true
fits slice_kind (arr xs) = true
fits map_kind (obj fs) = true
fits k v = false

value_of : JsonPackage → Json → Option Json
value_of json null = none
value_of json v = some (as_any json v)

-- A field of a struct that may be nil; the outer `none` is a type error.
unfoldable pub struct_value :
    JsonPackage → Kind → String → Option (Option Json) → Fields → Option (Option Json)
unfolding fits value_of
struct_value json kind name old end = old
struct_value json kind name old (field k v rest) =
    struct_value json kind name
      (if same_key k name
        then elim old [
          | none ↦ none
          | some _ ↦ if fits kind v then some (value_of json v) else none
        ]
        else old)
      rest

zero_message : Message
zero_message = record {
  role = "";
  content = none;
  reasoning_content = none;
  calls = none;
  tool_call_id = "";
  name = "";
  raw = end;
}

message_of_fields : JsonPackage → Fields → Option Message
unfolding struct_value
message_of_fields json fs = do
  role ← struct_string "role" (some "") fs
  content ← struct_value json any_kind "content" (some none) fs
  reasoning ← struct_value json any_kind "reasoning_content" (some none) fs
  calls ← struct_value json any_kind "tool_calls" (some none) fs
  id ← struct_string "tool_call_id" (some "") fs
  name ← struct_string "name" (some "") fs
  some (record {
    role = role;
    content = content;
    reasoning_content = reasoning;
    calls = calls;
    tool_call_id = id;
    name = name;
    raw = fields_as_any json fs;
  })

-- Message.UnmarshalJSON
unfoldable pub decode_message : JsonPackage → Json → Option Message
unfolding message_of_fields zero_message
decode_message json (obj fs) = message_of_fields json fs
decode_message json null = some zero_message
decode_message json v = none

decode_messages : JsonPackage → Items → Option (List Message)
decode_messages json nil = some []
decode_messages json (cons x xs) = do
  m ← decode_message json x
  ms ← decode_messages json xs
  some (m ∷ ms)

unfoldable pub put_value : String → Option Json → Fields → Fields
put_value key none fs = fs
put_value key (some v) fs = put key v fs

unfoldable pub put_text : String → String → Fields → Fields
put_text key s fs = if s == "" then fs else put key (str s) fs

-- Message.MarshalJSON, before its `json.Marshal`.
unfoldable pub message_fields : Message → Fields
message_fields m = put_text "name" m.name (
    put_text "tool_call_id" m.tool_call_id (
      put_value "tool_calls" m.calls (
        put_value "reasoning_content" m.reasoning_content
          (put_value "content" m.content (put "role" (str m.role) m.raw)))))

unfoldable pub encode_messages : List Message → Items
encode_messages [] = nil
encode_messages (m ∷ ms) = cons (obj (message_fields m)) (encode_messages ms)

-- The optional fields of ChatBody.
option_fields : List (String × Kind)
option_fields =
    ("stream", bool_kind)
    ∷ ("max_tokens", int_kind)
    ∷ ("max_completion_tokens", int_kind)
    ∷ ("temperature", float_kind)
    ∷ ("top_p", float_kind)
    ∷ ("tools", slice_kind)
    ∷ ("tool_choice", any_kind)
    ∷ ("stop", any_kind)
    ∷ ("extra_body", map_kind)
    ∷ ("reasoning_effort", any_kind)
    ∷ []

decode_options : JsonPackage → List (String × Kind) → Fields → Option Fields
decode_options json [] fs = some end
decode_options json ((name, kind) ∷ rest) fs = do
  v ← struct_value json kind name (some none) fs
  others ← decode_options json rest fs
  some (elim v [ none ↦ others | some w ↦ field name w others ])

messages_of : JsonPackage → Option Json → Option (List Message)
unfolding decode_messages
messages_of json none = some []
messages_of json (some (arr xs)) = decode_messages json xs
messages_of json (some v) = none

-- The value of a slice field of RawMessages, undecoded.
raw_slice : String → Option Json → Fields → Option Json
raw_slice name old end = old
raw_slice name old (field k v rest) =
    raw_slice name (if same_key k name then elim v [ null ↦ none | w ↦ some w ] else old) rest

body_of_fields : JsonPackage → Fields → Option ChatBody
unfolding decode_options option_fields messages_of raw_slice
body_of_fields json fs = do
  model ← struct_string "model" (some "") fs
  messages ← messages_of json (raw_slice "messages" none fs)
  options ← decode_options json option_fields fs
  some (record {
    model = model;
    messages = messages;
    options = options;
    raw = fields_as_any json fs;
  })

-- ChatBody.UnmarshalJSON
unfoldable pub decode_body : JsonPackage → Json → Option ChatBody
unfolding body_of_fields
decode_body json (obj fs) = body_of_fields json fs
decode_body json null = some (record { model = ""; messages = []; options = end; raw = end })
decode_body json v = none

put_fields : Fields → Fields → Fields
put_fields end fs = fs
put_fields (field k v rest) fs = put_fields rest (put k v fs)

-- ChatBody.MarshalJSON
unfoldable pub encode_body : ChatBody → Json
unfolding put_fields encode_messages
encode_body b = obj (
    put_fields b.options
      (put "messages" (arr (encode_messages b.messages)) (put "model" (str b.model) b.raw)))

inject_document : JsonPackage → String → String → Option Json → String
inject_document json model body doc = elim (doc >>= decode_body json) [
  | none ↦ body
  | some chat ↦ elim (inject_reasoning_content model chat) [
    | none ↦ body
    | some out ↦ json.encode (encode_body out)
  ]
]

-- tryInjectReasoning
unfoldable pub try_inject_reasoning : JsonPackage → String → String → String
unfolding inject_document
try_inject_reasoning json model body =
    if model_requires_injection model
    then inject_document json model body (json.decode body)
    else body
