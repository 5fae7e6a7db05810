-- ===== src/Translate/Chat/Wire/Normalized.antt =====
-- internal/translate/types.go and chat.go: the request that NormalizeChatCompletionRequest prints, as
-- it is read again.
use mathlib.Core.Path.{subst}
use opencode_proxy_api.Base.{
  ℕ, String, true, false, List, Option, none, some, ◌==◌, eq_iff, ◌≡◌, ◌≢◌, refl, ap, ◌∙◌, arith,
}
use opencode_proxy_api.Json.{
  Json, str, arr, Fields, end, field, get, put, same_key, struct_string, JsonPackage,
}
use opencode_proxy_api.Json.Laws.{get-put, struct_string-put, struct_string-put_other}
use opencode_proxy_api.Translate.Chat.{
  ChatMessage, ChatRequest, normalize_request, normalize_messages,
}
use opencode_proxy_api.Translate.Chat.Wire.{
  last_field, message_slice, decode_request, encode_chat_messages, request_fields,
}
use opencode_proxy_api.Translate.Chat.Wire.Readback.{messages_read}

last_field-put :
    (name : String) (v : Json) (fs : Fields) (old : Option Json)
    → same_key name name ≡ true
    → last_field name old (put name v fs) ≡ some v
unfolding last_field put
last_field-put name v end old own = rw own refl
last_field-put name v (field k w fs) old own = last_field-put name v fs _ own

-- The messages, the model and the rest of a request that is read from a document.
model_decoded :
    (json : JsonPackage) (body : String) (r : ChatRequest)
    → decode_request json body ≡ some r
    → struct_string "model" (some "") r.raw ≡ some r.model
unfolding decode_request
model_decoded json body r e = ground arith

normalized_is :
    (clock : ℕ → ℕ) (r r' : ChatRequest)
    → normalize_request clock r ≡ some r'
    → record r { messages = normalize_messages clock 0 r.messages } ≡ r'
unfolding normalize_request
normalized_is clock r r' e = ground arith

get-put_other :
    (k key : String) (v : Json) (fs : Fields) → key ≢ k → get key (put k v fs) ≡ get key fs
get-put_other k key v fs other =
    let apart : (k == key) ≡ false = ground (arith, eq_iff k key) in
    get-put k key v fs ∙ rw apart refl

Reads : ChatRequest → String → ChatRequest → Type 0
Reads r key r' =
    (struct_string "model" (some "") (request_fields r') ≡ some r.model)
    × (message_slice (last_field "messages" none (request_fields r')) ≡ some r'.messages)
    × (get key (request_fields r') ≡ get key r.raw)

printed_read :
    (r : ChatRequest) (ms : List ChatMessage) (key : String)
    → struct_string "model" (some "") r.raw ≡ some r.model
    → key ≢ "model"
    → key ≢ "messages"
    → Reads r key (record r { messages = ms })
unfolding Reads request_fields same_key message_slice
printed_read r ms key was a b = (
  struct_string-put_other "model" "messages" (arr (encode_chat_messages ms))
        (put "model" (str r.model) r.raw) (some "") refl
      ∙ struct_string-put "model" "model" r.model r.model r.raw (some "") refl was,
  ap message_slice (
        last_field-put "messages" (arr (encode_chat_messages ms)) (put "model" (str r.model) r.raw)
          none refl)
      ∙ messages_read ms,
  get-put_other "messages" key (arr (encode_chat_messages ms)) (put "model" (str r.model) r.raw) b
      ∙ get-put_other "model" key (str r.model) r.raw a,
)

-- A request that is read, changed by the normalization and printed has, for its reader, the model that
-- it had, exactly the normalized messages, and under every other key the value that it had.
pub normalized_read :
    (json : JsonPackage) (clock : ℕ → ℕ) (body key : String) (r r' : ChatRequest)
    → decode_request json body ≡ some r
    → normalize_request clock r ≡ some r'
    → key ≢ "model"
    → key ≢ "messages"
    → (struct_string "model" (some "") (request_fields r') ≡ some r.model)
      × (message_slice (last_field "messages" none (request_fields r'))
          ≡ some (normalize_messages clock 0 r.messages))
      × (get key (request_fields r') ≡ get key r.raw)
unfolding Reads
normalized_read json clock body key r r' e done a b =
    let read =
      printed_read r (normalize_messages clock 0 r.messages) key (model_decoded json body r e) a
        b in
    subst
      (λ (q : ChatRequest).
        (struct_string "model" (some "") (request_fields q) ≡ some r.model)
        × (message_slice (last_field "messages" none (request_fields q))
            ≡ some (normalize_messages clock 0 r.messages))
        × (get key (request_fields q) ≡ get key r.raw))
      (normalized_is clock r r' done) read
