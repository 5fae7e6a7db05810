-- ===== src/Translate/Chat/Roles.antt =====
-- internal/translate/chat.go: what the normalization does to the messages.
use text.Mathlib.TextLemmas.{append-eq-nil_iff}
use opencode_proxy_api.Base.{
  ℕ, ◌+◌, String, true, false, List, [], ◌∷◌, none, some, ◌==◌, if◌then◌else◌, ◌≡◌, ◌≢◌, ◌↔◌, ◌⊎◌,
  inl, inr, refl, sym, ap, ◌∙◌, arith, eq_iff, Bool-cases, All,
}
use opencode_proxy_api.Translate.Chat.{
  ChatMessage, ChatRequest, call_id, normalize_role, lacks_id, normalize_message, is_modified,
  any_modified, normalize_messages, normalize_request,
}

-- Not a developer's message, and not a tool's without an identifier.
abbrev pub IsNormal : ChatMessage → Type 0
IsNormal m = (m.role ≢ "developer") × ((m.role ≢ "tool") ⊎ (m.tool_call_id ≢ ""))

prefix_filled : ◌≢◌ {A = String} "call_" ""
prefix_filled = ground (arith, eq_iff "call_" "")

call_id-ne-empty : (now i : ℕ) → call_id now i ≢ ""
unfolding call_id
call_id-ne-empty now i e = absurd (prefix_filled (append-eq-nil_iff.0 e).0)

developer_modified : (m : ChatMessage) → (m.role == "developer") ≡ true → is_modified m ≡ true
unfolding is_modified
developer_modified m h = rw h

other_modified : (m : ChatMessage) → (m.role == "developer") ≡ false → is_modified m ≡ lacks_id m
unfolding is_modified normalize_role
other_modified m h = rw (h, is_modified, normalize_role)

lacks_id_iff :
    (m : ChatMessage) → (lacks_id m ≡ false) ↔ ((m.role ≢ "tool") ⊎ (m.tool_call_id ≢ ""))
unfolding lacks_id
lacks_id_iff m = elim (Bool-cases (m.role == "tool")) [
  | inr other ↦ (λ h. inl (ground (arith, other, eq_iff m.role "tool")), λ h. rw other)
  | inl tool ↦ elim (Bool-cases (m.tool_call_id == "")) [
    | inr filled ↦
        (λ h. inr (ground (arith, filled, eq_iff m.tool_call_id "")), λ h. rw (tool, filled))
    | inl empty ↦ (
      λ h. cc (rw (tool, empty) at h),
      λ h. elim h [
        | inl r ↦ absurd (r ((eq_iff m.role "tool").0 tool))
        | inr i ↦ absurd (i ((eq_iff m.tool_call_id "").0 empty))
      ],
    )
  ]
]

-- The loop changes exactly the messages that are not normal.
is_modified_iff : (m : ChatMessage) → (is_modified m ≡ false) ↔ IsNormal m
is_modified_iff m = elim (Bool-cases (m.role == "developer")) [
  | inl dev ↦
      (λ h. cc (h, developer_modified m dev), λ n. absurd (n.0 ((eq_iff m.role "developer").0 dev)))
  | inr other ↦ (
    λ h. (
      ground (arith, other, eq_iff m.role "developer"),
      (lacks_id_iff m).0 (sym (other_modified m other) ∙ h),
    ),
    λ n. other_modified m other ∙ (lacks_id_iff m).1 n.1,
  )
]

system_other : ◌≢◌ {A = String} "system" "developer"
system_other = ground (arith, eq_iff "system" "developer")

normalize_role-ne : (m : ChatMessage) → (normalize_role m).role ≢ "developer"
unfolding normalize_role
normalize_role-ne m = elim (Bool-cases (m.role == "developer")) [
  | inl dev ↦ rw dev system_other
  | inr other ↦ rw other (ground (arith, other, eq_iff m.role "developer"))
]

normalize_message-IsNormal : (now i : ℕ) (m : ChatMessage) → IsNormal (normalize_message now i m)
unfolding normalize_message
normalize_message-IsNormal now i m = elim (Bool-cases (lacks_id (normalize_role m))) [
  | inl lacks ↦ rw (lacks, normalize_message) (normalize_role-ne m, inr (call_id-ne-empty now i))
  | inr fine ↦
      rw (fine, normalize_message) (normalize_role-ne m, (lacks_id_iff (normalize_role m)).0 fine)
]

-- What else than its role and its identifier a message holds.
abbrev pub rest_of : ChatMessage → ChatMessage
rest_of m = record m { role = ""; tool_call_id = "" }

normalize_message_keeps :
    (now i : ℕ) (m : ChatMessage) → rest_of (normalize_message now i m) ≡ rest_of m
unfolding normalize_message normalize_role lacks_id
normalize_message_keeps now i m = ground arith

-- What becomes of a message: a developer's becomes the system's, a tool's gets an identifier if it
-- has none, and nothing else changes.
pub record Kept (m m' : ChatMessage) : Type 0 where
  pub role : m'.role ≡ (if m.role == "developer" then "system" else m.role)
  pub id :
      (m'.tool_call_id ≡ m.tool_call_id)
      ⊎ ((m.role ≡ "tool") × (m.tool_call_id ≡ "") × (m'.tool_call_id ≢ ""))
  pub rest : rest_of m' ≡ rest_of m

pub AllKept : List ChatMessage → List ChatMessage → Type 0
AllKept [] [] = Unit
AllKept [] (m' ∷ ms') = ⊥
AllKept (m ∷ ms) [] = ⊥
AllKept (m ∷ ms) (m' ∷ ms') = Kept m m' × AllKept ms ms'

normalize_message-role :
    (now i : ℕ) (m : ChatMessage)
    → (normalize_message now i m).role ≡ (if m.role == "developer" then "system" else m.role)
unfolding normalize_message normalize_role lacks_id
normalize_message-role now i m = ground arith

lacking : (m : ChatMessage) → lacks_id m ≡ true → (m.role ≡ "tool") × (m.tool_call_id ≡ "")
unfolding lacks_id
lacking m h = ground (arith, eq_iff m.role "tool", eq_iff m.tool_call_id "")

system_no_tool : ("system" == "tool") ≡ false
system_no_tool = refl

normalize_message-id :
    (now i : ℕ) (m : ChatMessage)
    → ((normalize_message now i m).tool_call_id ≡ m.tool_call_id)
      ⊎ ((m.role ≡ "tool")
          × (m.tool_call_id ≡ "")
          × ((normalize_message now i m).tool_call_id ≢ ""))
unfolding normalize_message normalize_role lacks_id
normalize_message-id now i m = elim (Bool-cases (m.role == "developer")) [
  | inl dev ↦ inl (rw dev refl)
  | inr other ↦ elim (Bool-cases (lacks_id m)) [
    | inl lacks ↦
        let (tool, empty) = lacking m lacks in
        inr (tool, empty, rw other (rw lacks (call_id-ne-empty now i)))
    | inr fine ↦ inl (rw other (rw fine refl))
  ]
]

normalize_message-Kept : (now i : ℕ) (m : ChatMessage) → Kept m (normalize_message now i m)
normalize_message-Kept now i m = record {
  role = normalize_message-role now i m;
  id = normalize_message-id now i m;
  rest = normalize_message_keeps now i m;
}

module _ (clock : ℕ → ℕ) where
  messages-IsNormal : (i : ℕ) (ms : List ChatMessage) → All IsNormal (normalize_messages clock i ms)
  unfolding normalize_messages
  messages-IsNormal i [] = tt
  messages-IsNormal i (m ∷ ms) =
      (normalize_message-IsNormal (clock i) i m, messages-IsNormal (i + 1) ms)

  messages-AllKept : (i : ℕ) (ms : List ChatMessage) → AllKept ms (normalize_messages clock i ms)
  unfolding normalize_messages AllKept
  messages-AllKept i [] = tt
  messages-AllKept i (m ∷ ms) = (normalize_message-Kept (clock i) i m, messages-AllKept (i + 1) ms)

  any_modified_iff : (ms : List ChatMessage) → (any_modified ms ≡ false) ↔ All IsNormal ms
  unfolding any_modified
  any_modified_iff [] = (λ h. tt, λ n. refl)
  any_modified_iff (m ∷ ms) = elim (Bool-cases (is_modified m)) [
    | inl changed ↦ (λ h. cc (rw changed at h), λ n. cc (changed, (is_modified_iff m).1 n.0))
    | inr same ↦ (
      λ h. ((is_modified_iff m).0 same, (any_modified_iff ms).0 (rw same at h)),
      λ n. rw (same, (any_modified_iff ms).1 n.1),
    )
  ]

  -- The request is left as it was exactly if no message is a developer's and each tool message has an
  -- identifier.
  normalize_request_iff :
      (r : ChatRequest) → (normalize_request clock r ≡ none) ↔ All IsNormal r.messages
  unfolding normalize_request
  normalize_request_iff r = elim (Bool-cases (any_modified r.messages)) [
    | inl changed ↦
        (λ h. cc (rw changed at h), λ n. cc (changed, (any_modified_iff r.messages).1 n))
    | inr same ↦ (λ h. (any_modified_iff r.messages).0 same, λ n. rw same)
  ]

  normalize_form :
      (r out : ChatRequest)
      → normalize_request clock r ≡ some out
      → out ≡ record r { messages = normalize_messages clock 0 r.messages }
  unfolding normalize_request
  normalize_form r out e = ground arith

-- In a changed request no message is a developer's and each tool message has an identifier. The
-- messages are the old ones in the same order: the role of each is the old one, with `system` for
-- `developer`, its identifier is the old one, unless it is a tool's that had none, and all else in it
-- stays, like the model and the other fields of the request. A second normalization, at any times,
-- leaves the request as it is.
pub normalize_request-IsNormal :
    (clock later : ℕ → ℕ) (r out : ChatRequest)
    → normalize_request clock r ≡ some out
    → All IsNormal out.messages
      × (out.model ≡ r.model)
      × (out.raw ≡ r.raw)
      × AllKept r.messages out.messages
      × (normalize_request later out ≡ none)
normalize_request-IsNormal clock later r out e =
    let form = normalize_form clock r out e in
    let normal : All IsNormal out.messages = rw form (messages-IsNormal clock 0 r.messages) in
    (
      normal,
      ap (λ (x : ChatRequest). x.model) form,
      ap (λ (x : ChatRequest). x.raw) form,
      rw form (messages-AllKept clock 0 r.messages),
      (normalize_request_iff later out).1 normal,
    )
