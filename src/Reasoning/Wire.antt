-- ===== src/Reasoning/Wire.antt =====
-- What the wire form of a message holds.
use opencode_proxy_api.Base.{
  String, true, false, Option, none, some, ◌==◌, ◌≡◌, ◌≢◌, arith, if◌then◌else◌, Bool-cases, inl,
  inr, eq_iff,
}
use opencode_proxy_api.Json.{Json, str, Fields, get}
use opencode_proxy_api.Json.Laws.{get-put}
use opencode_proxy_api.Reasoning.{Message, Scope, should_inject, inject_message}
use opencode_proxy_api.Reasoning.Body.{put_value, put_text, message_fields}

-- `v`, or what was there before.
abbrev pub or_old : Option Json → Option Json → Option Json
or_old none old = old
or_old (some v) old = some v

get-put_value :
    (k j : String) (v : Option Json) (fs : Fields)
    → get j (put_value k v fs) ≡ (if k == j then or_old v (get j fs) else get j fs)
unfolding put_value
get-put_value k j none fs = ground arith
get-put_value k j (some v) fs = get-put k j v fs

get-put_text_ne :
    (k j s : String) (fs : Fields) → (k == j) ≡ false → get j (put_text k s fs) ≡ get j fs
unfolding put_text
get-put_text_ne k j s fs h = elim (Bool-cases (s == "")) [
  | inl empty ↦ rw empty
  | inr filled ↦ rw filled (rw (get-put, h))
]

other_key : (k key : String) → key ≢ k → (k == key) ≡ false
other_key k key h = ground (arith, eq_iff k key)

-- The wire form of a message that lacked reasoning content has the placeholder, its role is the
-- message's, and every key that the message type does not know keeps the value that came in.
pub injected_wire :
    (scope : Scope) (m : Message) (key : String)
    → should_inject m.role m.reasoning_content m.calls scope ≡ true
    → key ≢ "role"
    → key ≢ "content"
    → key ≢ "reasoning_content"
    → key ≢ "tool_calls"
    → key ≢ "tool_call_id"
    → key ≢ "name"
    → (get "reasoning_content" (message_fields (inject_message scope m)) ≡ some (str " "))
      × (get "role" (message_fields (inject_message scope m)) ≡ some (str m.role))
      × (get key (message_fields (inject_message scope m)) ≡ get key m.raw)
unfolding message_fields inject_message
injected_wire scope m key yes_inject a b c d e f = rw yes_inject (
  simp (get-put_text_ne, get-put_value, get-put),
  simp (get-put_text_ne, get-put_value, get-put),
  simp (
    get-put_text_ne,
    get-put_value,
    get-put,
    other_key "role" key a,
    other_key "content" key b,
    other_key "reasoning_content" key c,
    other_key "tool_calls" key d,
    other_key "tool_call_id" key e,
    other_key "name" key f,
  ),
)
