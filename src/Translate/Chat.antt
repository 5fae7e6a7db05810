-- ===== src/Translate/Chat.antt =====
-- internal/translate/chat.go and types.go: the Chat Completions request and its normalization.
pub mod Roles
pub mod Wire
use Prim.Native.Nat.{◌/◌}
use opencode_proxy_api.Base.{
  ℕ, zero, suc, ◌+◌, ◌%◌, ◌<◌, String, Bool, true, false, ◌&&◌, ◌||◌, List, [], ◌∷◌, Option, none,
  some, ◌==◌, ltb, if◌then◌else◌, get_or, arith,
}
use opencode_proxy_api.Base.Text.{append, decimal}
use opencode_proxy_api.Json.{
  Json, null, bool, num, str, arr, obj, Items, nil, cons, Fields, end, field, put, same_key,
  struct_string, to_map, JsonPackage,
}

-- ToolCall, with the fields of its ToolCallFunctionDef.
pub record ToolCall : Type 0 where
  pub id : String
  pub kind : String
  pub name : String
  pub arguments : String

-- Message; an empty json.RawMessage is `none`.
pub record ChatMessage : Type 0 where
  pub role : String
  pub content : Option Json
  pub tool_call_id : String
  pub tool_calls : List ToolCall
  pub name : String
  pub function_call : Option Json

-- ChatCompletionRequest
pub record ChatRequest : Type 0 where
  pub model : String
  pub messages : List ChatMessage
  pub raw : Fields

-- The generated identifier, at the time `now` in nanoseconds, an int64.
unfoldable pub call_id : ℕ → ℕ → String
unfolding decimal
call_id now i = append "call_" (append (decimal 19 (now / 1_000_000)) (append "_" (decimal 19 i)))

unfoldable pub normalize_role : ChatMessage → ChatMessage
normalize_role m = if m.role == "developer" then record m { role = "system" } else m

unfoldable pub lacks_id : ChatMessage → Bool
lacks_id m = m.role == "tool" && m.tool_call_id == ""

-- One round of the loop, for the message at `i`.
unfoldable pub normalize_message : ℕ → ℕ → ChatMessage → ChatMessage
unfolding normalize_role lacks_id
normalize_message now i m =
    let m' = normalize_role m in
    if lacks_id m' then record m' { tool_call_id = call_id now i } else m'

unfoldable pub is_modified : ChatMessage → Bool
unfolding normalize_role lacks_id
is_modified m = m.role == "developer" || lacks_id (normalize_role m)

unfoldable pub any_modified : List ChatMessage → Bool
any_modified [] = false
any_modified (m ∷ ms) = is_modified m || any_modified ms

-- The loop, from the message at `i` on; `clock` is the time in each round.
unfoldable pub normalize_messages : (ℕ → ℕ) → ℕ → List ChatMessage → List ChatMessage
normalize_messages clock i [] = []
normalize_messages clock i (m ∷ ms) =
    normalize_message (clock i) i m ∷ normalize_messages clock (i + 1) ms

-- The changed request; `none` is the unchanged body.
unfoldable pub normalize_request : (ℕ → ℕ) → ChatRequest → Option ChatRequest
normalize_request clock r =
    if any_modified r.messages
    then some (record r { messages = normalize_messages clock 0 r.messages })
    else none
