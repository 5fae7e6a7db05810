-- ===== src/Translate/Chat/Wire/Readback.antt =====
-- internal/translate/types.go: the upstream reads from a rewritten Chat Completions request what the
-- normalization made of it.
use opencode_proxy_api.Base.{
  String, true, false, List, [], ◌∷◌, Option, none, some, ◌==◌, eq_iff, ◌≡◌, refl, ap, ◌∙◌, arith,
  Bool-cases, inl, inr,
}
use opencode_proxy_api.Json.{Json, str, arr, obj, Fields, end, field, same_key, struct_string}
use opencode_proxy_api.Json.Laws.{struct_string-other, struct_string-own}
use opencode_proxy_api.Translate.Chat.{ToolCall, ChatMessage}
use opencode_proxy_api.Translate.Chat.Wire.{
  last_field, function_of, tool_call_of, tool_calls_of, calls_of, message_of, messages_of,
  text_field, raw_field, encode_calls, calls_field, encode_chat_messages,
}

-- A field with another key is passed over.
string_text :
    (name key s : String) (old : Option String) (rest : Fields)
    → same_key key name ≡ false
    → struct_string name old (text_field key s rest) ≡ struct_string name old rest
unfolding text_field
string_text name key s old rest other = elim (Bool-cases (s == "")) [
  | inl empty ↦ rw empty refl
  | inr given ↦ rw given (struct_string-other name key (str s) old rest other)
]

string_raw :
    (name key : String) (v : Option Json) (old : Option String) (rest : Fields)
    → same_key key name ≡ false
    → struct_string name old (raw_field key v rest) ≡ struct_string name old rest
unfolding raw_field
string_raw name key none old rest other = refl
string_raw name key (some v) old rest other = struct_string-other name key v old rest other

string_calls :
    (name : String) (cs : List ToolCall) (old : Option String) (rest : Fields)
    → same_key "tool_calls" name ≡ false
    → struct_string name old (calls_field cs rest) ≡ struct_string name old rest
unfolding calls_field
string_calls name [] old rest other = refl
string_calls name (c ∷ cs) old rest other = struct_string-other name "tool_calls" _ old rest other

-- A field of text is read back, empty where it was left out.
string_own :
    (name s : String) (rest : Fields)
    → same_key name name ≡ true
    → struct_string name (some "") (text_field name s rest) ≡ struct_string name (some s) rest
unfolding text_field
string_own name s rest own = elim (Bool-cases (s == "")) [
  | inl empty ↦ let e : s ≡ "" = ground (arith, eq_iff s "") in rw (empty, e) refl
  | inr given ↦ rw given (struct_string-own name name s "" rest own)
]

last_other :
    (name k : String) (v : Json) (old : Option Json) (rest : Fields)
    → same_key k name ≡ false
    → last_field name old (field k v rest) ≡ last_field name old rest
unfolding last_field
last_other name k v old rest other = rw (other, last_field) refl

last_here :
    (name k : String) (v : Json) (old : Option Json) (rest : Fields)
    → same_key k name ≡ true
    → last_field name old (field k v rest) ≡ last_field name (some v) rest
unfolding last_field
last_here name k v old rest own = rw (own, last_field) refl

last_text :
    (name key s : String) (old : Option Json) (rest : Fields)
    → same_key key name ≡ false
    → last_field name old (text_field key s rest) ≡ last_field name old rest
unfolding text_field
last_text name key s old rest other = elim (Bool-cases (s == "")) [
  | inl empty ↦ rw empty refl
  | inr given ↦ rw given (last_other name key (str s) old rest other)
]

last_raw :
    (name key : String) (v old : Option Json) (rest : Fields)
    → same_key key name ≡ false
    → last_field name old (raw_field key v rest) ≡ last_field name old rest
unfolding raw_field
last_raw name key none old rest other = refl
last_raw name key (some v) old rest other = last_other name key v old rest other

last_calls :
    (name : String) (cs : List ToolCall) (old : Option Json) (rest : Fields)
    → same_key "tool_calls" name ≡ false
    → last_field name old (calls_field cs rest) ≡ last_field name old rest
unfolding calls_field
last_calls name [] old rest other = refl
last_calls name (c ∷ cs) old rest other = last_other name "tool_calls" _ old rest other

last_own :
    (name : String) (v : Option Json) (rest : Fields)
    → same_key name name ≡ true
    → last_field name none (raw_field name v rest) ≡ last_field name v rest
unfolding raw_field
last_own name none rest own = refl
last_own name (some v) rest own = last_here name name v none rest own

calls_read : (cs : List ToolCall) → tool_calls_of (encode_calls cs) ≡ some cs
unfolding tool_calls_of encode_calls tool_call_of function_of struct_string last_field same_key
calls_read [] = refl
calls_read (c ∷ cs) = rw (calls_read cs) refl

-- What stands after the calls has no field `tool_calls`.
after_calls :
    (name : String) (f : Option Json) (old : Option Json)
    → last_field "tool_calls" old (text_field "name" name (raw_field "function_call" f end)) ≡ old
unfolding same_key last_field
after_calls name f old =
    last_text "tool_calls" "name" name old _ refl
    ∙ last_raw "tool_calls" "function_call" f old end refl

calls_field_read :
    (cs : List ToolCall) (name : String) (f : Option Json)
    → calls_of (
        last_field "tool_calls" none
          (calls_field cs (text_field "name" name (raw_field "function_call" f end))))
      ≡ some cs
unfolding calls_of calls_field same_key
calls_field_read [] name f = rw (after_calls name f none) refl
calls_field_read (c ∷ cs) name f =
    ap calls_of (
      last_here "tool_calls" "tool_calls" (arr (encode_calls (c ∷ cs))) none
        (text_field "name" name (raw_field "function_call" f end)) refl
      ∙ after_calls name f _)
    ∙ calls_read (c ∷ cs)

-- The fields that a message is printed to.
abbrev printed : ChatMessage → Fields
printed m = field "role" (str m.role) (
    raw_field "content" m.content (
      text_field "tool_call_id" m.tool_call_id (
        calls_field m.tool_calls
          (text_field "name" m.name (raw_field "function_call" m.function_call end)))))

role_read : (m : ChatMessage) → struct_string "role" (some "") (printed m) ≡ some m.role
unfolding same_key struct_string
role_read m =
    string_raw "role" "content" m.content (some m.role) _ refl
    ∙ string_text "role" "tool_call_id" m.tool_call_id (some m.role) _ refl
    ∙ string_calls "role" m.tool_calls (some m.role) _ refl
    ∙ string_text "role" "name" m.name (some m.role) _ refl
    ∙ string_raw "role" "function_call" m.function_call (some m.role) end refl

id_read :
    (m : ChatMessage) → struct_string "tool_call_id" (some "") (printed m) ≡ some m.tool_call_id
unfolding same_key struct_string
id_read m =
    string_raw "tool_call_id" "content" m.content (some "") _ refl
    ∙ string_own "tool_call_id" m.tool_call_id _ refl
    ∙ string_calls "tool_call_id" m.tool_calls (some m.tool_call_id) _ refl
    ∙ string_text "tool_call_id" "name" m.name (some m.tool_call_id) _ refl
    ∙ string_raw "tool_call_id" "function_call" m.function_call (some m.tool_call_id) end refl

name_read : (m : ChatMessage) → struct_string "name" (some "") (printed m) ≡ some m.name
unfolding same_key struct_string
name_read m =
    string_raw "name" "content" m.content (some "") _ refl
    ∙ string_text "name" "tool_call_id" m.tool_call_id (some "") _ refl
    ∙ string_calls "name" m.tool_calls (some "") _ refl
    ∙ string_own "name" m.name _ refl
    ∙ string_raw "name" "function_call" m.function_call (some m.name) end refl

content_read : (m : ChatMessage) → last_field "content" none (printed m) ≡ m.content
unfolding same_key last_field
content_read m =
    last_own "content" m.content _ refl
    ∙ last_text "content" "tool_call_id" m.tool_call_id m.content _ refl
    ∙ last_calls "content" m.tool_calls m.content _ refl
    ∙ last_text "content" "name" m.name m.content _ refl
    ∙ last_raw "content" "function_call" m.function_call m.content end refl

function_call_read :
    (m : ChatMessage) → last_field "function_call" none (printed m) ≡ m.function_call
unfolding same_key last_field
function_call_read m =
    last_raw "function_call" "content" m.content none _ refl
    ∙ last_text "function_call" "tool_call_id" m.tool_call_id none _ refl
    ∙ last_calls "function_call" m.tool_calls none _ refl
    ∙ last_text "function_call" "name" m.name none _ refl
    ∙ last_own "function_call" m.function_call end refl

tool_calls_read :
    (m : ChatMessage) → calls_of (last_field "tool_calls" none (printed m)) ≡ some m.tool_calls
unfolding same_key last_field
tool_calls_read m =
    ap calls_of (
      last_raw "tool_calls" "content" m.content none _ refl
      ∙ last_text "tool_calls" "tool_call_id" m.tool_call_id none _ refl)
    ∙ calls_field_read m.tool_calls m.name m.function_call

message_read : (m : ChatMessage) → message_of (obj (printed m)) ≡ some m
unfolding message_of
message_read m =
    rw (role_read m, message_of)
      (rw (id_read m, tool_calls_read m, name_read m, content_read m, function_call_read m) refl)

pub messages_read : (ms : List ChatMessage) → messages_of (encode_chat_messages ms) ≡ some ms
unfolding messages_of encode_chat_messages
messages_read [] = refl
messages_read (m ∷ ms) = rw (message_read m, messages_of) (rw (messages_read ms) refl)
