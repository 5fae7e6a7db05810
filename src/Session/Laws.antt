-- ===== src/Session/Laws.antt =====
-- The session identifier: stable, and the same while a conversation grows.
use opencode_proxy_api.Base.{
  String, false, some, ◌==◌, ◌≡◌, ◌≢◌, sym, arith, eq_iff, Option-cases, inl, inr, ◌∙◌,
}
use opencode_proxy_api.Json.{Items, nil, cons, Fields, get, obj, arr, JsonPackage}
use opencode_proxy_api.Session.{
  ◌<|>◌, user_content, first_user_content, body_id, header_id, parsed_id, generate_uuid, UuidBytes,
  message_id, extract_session_id,
}

-- Two lists of messages, one after the other.
abbrev pub append_items : Items → Items → Items
append_items nil ys = ys
append_items (cons x xs) ys = cons x (append_items xs ys)

first_user_content-append :
    (xs ys : Items) (c : String)
    → first_user_content xs ≡ some c
    → first_user_content (append_items xs ys) ≡ some c
unfolding first_user_content
first_user_content-append nil ys c e = cc
first_user_content-append (cons msg rest) ys c e = elim (Option-cases (user_content msg)) [
  | inl no_user ↦
      rw (no_user, first_user_content)
        (first_user_content-append rest ys c (rw (no_user, first_user_content) at e))
  | inr (d, found) ↦ rw (found, first_user_content) (rw (found, first_user_content) at e)
]

str_eq_false : (a b : String) → a ≢ b → (a == b) ≡ false
str_eq_false a b h = ground (arith, eq_iff a b)

module _ (json : JsonPackage) (header : String → String) where
  -- An identifier that is not the random one does not depend on the random bytes: the same request
  -- is given it again.
  extract_session_id_stable :
      (body : String) (random random' : UuidBytes)
      → extract_session_id json header body random ≢ generate_uuid random
      → extract_session_id json header body random' ≡ extract_session_id json header body random
  unfolding extract_session_id
  extract_session_id_stable body random random' h =
      elim (Option-cases (header_id header <|> parsed_id json body)) [
        | inl none_given ↦ absurd (h (rw (none_given, extract_session_id)))
        | inr (id, given) ↦ rw (given, extract_session_id)
      ]

  message_id_grows :
      (xs ys : Items) (c : String)
      → first_user_content xs ≡ some c
      → message_id (some (arr (append_items xs ys))) ≡ message_id (some (arr xs))
  unfolding message_id
  message_id_grows xs ys c h = rw (first_user_content-append xs ys c h, h, message_id)

  parsed_id_of :
      (body : String) (f : Fields)
      → body ≢ ""
      → json.decode body ≡ some (obj f)
      → parsed_id json body ≡ body_id f
  unfolding parsed_id
  parsed_id_of body f filled d = rw (str_eq_false body "" filled, d, parsed_id)

  body_id_grows :
      (f g : Fields) (xs ys : Items) (c : String)
      → get "metadata" g ≡ get "metadata" f
      → get "conversation_id" g ≡ get "conversation_id" f
      → get "conversationId" g ≡ get "conversationId" f
      → get "messages" f ≡ some (arr xs)
      → get "messages" g ≡ some (arr (append_items xs ys))
      → first_user_content xs ≡ some c
      → body_id g ≡ body_id f
  unfolding body_id
  body_id_grows f g xs ys c m i i' e e' h =
      rw (m, i, i', e, e', message_id_grows xs ys c h, body_id)

  -- As a conversation grows at its end, its identifier stays: two requests with the same headers,
  -- whose bodies have the same identifying fields, get one identifier if the messages of one begin
  -- with those of the other, and these have a user message with content.
  pub extract_session_id_grows :
      (body body' : String) (random : UuidBytes) (f g : Fields) (xs ys : Items) (c : String)
      → body ≢ ""
      → body' ≢ ""
      → json.decode body ≡ some (obj f)
      → json.decode body' ≡ some (obj g)
      → get "metadata" g ≡ get "metadata" f
      → get "conversation_id" g ≡ get "conversation_id" f
      → get "conversationId" g ≡ get "conversationId" f
      → get "messages" f ≡ some (arr xs)
      → get "messages" g ≡ some (arr (append_items xs ys))
      → first_user_content xs ≡ some c
      → extract_session_id json header body' random ≡ extract_session_id json header body random
  unfolding extract_session_id
  extract_session_id_grows body body' random f g xs ys c filled filled' d d' m i i' e e' h =
      let same =
        parsed_id_of body' g filled' d'
        ∙ body_id_grows f g xs ys c m i i' e e' h
        ∙ sym (parsed_id_of body f filled d) in
      rw (same, extract_session_id)
