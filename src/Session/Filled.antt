-- ===== src/Session/Filled.antt =====
-- The session identifier is never empty.
use text.Mathlib.TextLemmas.{append-eq-nil_iff}
use opencode_proxy_api.Base.{
  String, false, Option, none, some, ◌==◌, ◌≡◌, ◌≢◌, refl, arith, eq_iff, Option-cases, Bool-cases,
  inl, inr,
}
use opencode_proxy_api.Base.Text.{append, trim_space}
use opencode_proxy_api.Json.{Json, Fields, get, as_slice, as_map, to_map, JsonPackage}
use opencode_proxy_api.Session.{
  ◌<|>◌, nonempty, string_at, string_of, hex_bytes, first_user_content, body_id, header_id,
  parsed_id, hash_string, generate_uuid, UuidBytes, metadata_id, message_id, extract_session_id,
}

ne-empty_of_test : (a : String) → (a == "") ≡ false → a ≢ ""
ne-empty_of_test a h = ground (arith, eq_iff a "")

append-ne_left : (a b : String) → a ≢ "" → append a b ≢ ""
append-ne_left a b h e = h (append-eq-nil_iff.0 e).0

append-ne_right : (a b : String) → b ≢ "" → append a b ≢ ""
append-ne_right a b h e = h (append-eq-nil_iff.0 e).1

hash_string-ne : (s : String) → hash_string s ≢ ""
unfolding hash_string
hash_string-ne s = append-ne_left "sess_" _ (ne-empty_of_test "sess_" refl)

generate_uuid-ne : (b : UuidBytes) → generate_uuid b ≢ ""
unfolding generate_uuid
generate_uuid-ne b =
    append-ne_right (hex_bytes b.time_low) _ (append-ne_left "-" _ (ne-empty_of_test "-" refl))

-- What is there is not empty.
abbrev IsFilled : Option String → Type 0
IsFilled none = Unit
IsFilled (some s) = s ≢ ""

IsFilled-or : (a b : Option String) → IsFilled a → IsFilled b → IsFilled (a <|> b)
IsFilled-or none b h k = k
IsFilled-or (some s) b h k = h

IsFilled-nonempty : (s : String) → IsFilled (nonempty s)
unfolding nonempty
IsFilled-nonempty s = elim (Bool-cases (s == "")) [
  | inl empty ↦ rw empty tt
  | inr filled ↦ rw filled (ne-empty_of_test s filled)
]

IsFilled-or_nonempty : (a : Option String) (s : String) → IsFilled a → IsFilled (a <|> nonempty s)
IsFilled-or_nonempty a s h = IsFilled-or a (nonempty s) h (IsFilled-nonempty s)

IsFilled-metadata_id : (m : Option Json) → IsFilled (metadata_id m)
unfolding metadata_id
IsFilled-metadata_id m = elim (Option-cases (as_map m)) [
  | inl absent ↦ rw (absent, metadata_id) tt
  | inr (fs, there) ↦ rw (there, metadata_id) (IsFilled-nonempty (string_at fs "session_id"))
]

IsFilled-message_id : (m : Option Json) → IsFilled (message_id m)
unfolding message_id
IsFilled-message_id m = elim (Option-cases (as_slice m)) [
  | inl absent ↦ rw (absent, message_id) tt
  | inr (msgs, there) ↦ elim (Option-cases (first_user_content msgs)) [
    | inl silent ↦ rw (there, silent, message_id) tt
    | inr (c, said) ↦ rw (there, said, message_id) (hash_string-ne c)
  ]
]

IsFilled-body_id : (payload : Fields) → IsFilled (body_id payload)
unfolding body_id
IsFilled-body_id payload =
    IsFilled-or
      (metadata_id (get "metadata" payload)
        <|> nonempty (string_of (get "conversation_id" payload))
        <|> nonempty (string_of (get "conversationId" payload)))
      _
      (IsFilled-or
        (metadata_id (get "metadata" payload)
          <|> nonempty (string_of (get "conversation_id" payload)))
        _ (IsFilled-or _ _ (IsFilled-metadata_id _) (IsFilled-nonempty _)) (IsFilled-nonempty _))
      (IsFilled-message_id _)

IsFilled-header_id : (header : String → String) → IsFilled (header_id header)
unfolding header_id
IsFilled-header_id header =
    let value : String → String = λ name. trim_space (header name) in
    let first = IsFilled-nonempty (value "x-opencode-session") in
    let second =
      IsFilled-or_nonempty (nonempty (value "x-opencode-session")) (value "x-session-id") first in
    let third =
      IsFilled-or_nonempty
        (nonempty (value "x-opencode-session") <|> nonempty (value "x-session-id"))
        (value "conversation-id") second in
    IsFilled-or_nonempty
      (nonempty (value "x-opencode-session")
        <|> nonempty (value "x-session-id")
        <|> nonempty (value "conversation-id"))
      (value "conversationid") third

IsFilled-parsed_id : (json : JsonPackage) (body : String) → IsFilled (parsed_id json body)
unfolding parsed_id
IsFilled-parsed_id json body = elim (Bool-cases (body == "")) [
  | inl empty ↦ rw (empty, parsed_id) tt
  | inr filled ↦ elim (Option-cases (to_map (json.decode body))) [
    | inl bad ↦ rw (filled, bad, parsed_id) tt
    | inr (payload, good) ↦ rw (filled, good, parsed_id) (IsFilled-body_id payload)
  ]
]

-- Every request has a session identifier that is not empty, from whatever source.
extract_session_id-ne-empty :
    (json : JsonPackage) (header : String → String) (body : String) (random : UuidBytes)
    → extract_session_id json header body random ≢ ""
unfolding extract_session_id
extract_session_id-ne-empty json header body random =
    elim (Option-cases (header_id header <|> parsed_id json body)) [
      | inl none_given ↦ rw (none_given, extract_session_id) (generate_uuid-ne random)
      | inr (id, given) ↦
          rw (given, extract_session_id)
            (rw given at (
              IsFilled-or (header_id header) _ (IsFilled-header_id header)
                (IsFilled-parsed_id json body)))
    ]
