-- ===== src/Translate/Dsml/Outcome.antt =====
-- internal/translate/dsml.go: what RewriteClaudeStreamDSML can give.
use mathlib.Core.Path.{subst}
use opencode_proxy_api.Base.{
  String, List, [], ◌∷◌, Option, none, some, ◌==◌, ◌≡◌, ◌⊎◌, inl, inr, refl, ℤ, Bool-cases,
  Option-cases, sym,
}
use opencode_proxy_api.Base.Text.{trim_space}
use opencode_proxy_api.Json.{Json, Fields, get, to_map, as_slice, fields_as_any, JsonPackage}
use opencode_proxy_api.Translate.Dsml.{DsmlCall, contains_dsml, strip_and_parse}
use opencode_proxy_api.Translate.Dsml.Message.{rewrite_message}
use opencode_proxy_api.Translate.Dsml.Stream.{StreamUsage, StreamMeta, accumulate_stream_meta}
use opencode_proxy_api.Translate.Dsml.Events.{
  tool_use_events, write_sse, parts_of, sse_or, message_to_sse, stream_or, rewrite_stream,
}
use opencode_proxy_api.Translate.Dsml.Protocol.{
  waiting, closed, follow_all, tool_use_events-follow_all,
}
use opencode_proxy_api.Translate.Dsml.Client.{read_calls, tool_use_events_read}

module _ (json : JsonPackage) (to_int : String → ℤ) where
  -- A complete stream of events, with a tool call in it.
  abbrev pub IsToolStream : String → Type 0
  IsToolStream out =
      (events : List Json) × (out ≡ write_sse json events)
      × (follow_all waiting events ≡ some closed)
      × ((c : String × String) × (cs : List (String × String)) × (read_calls events ≡ c ∷ cs))

  synthesized-IsToolStream :
      (msg_id model clean : String) (c : DsmlCall) (cs : List DsmlCall) (usage : StreamUsage)
      → IsToolStream (write_sse json (tool_use_events json msg_id model clean (c ∷ cs) usage))
  synthesized-IsToolStream msg_id model clean c cs usage = (
    tool_use_events json msg_id model clean (c ∷ cs) usage,
    refl,
    tool_use_events-follow_all json msg_id model clean (c ∷ cs) usage,
    (_, _, (tool_use_events_read json msg_id model clean (c ∷ cs) usage).0),
  )

  stream_or-cases :
      (raw : String) (m : StreamMeta) (o : Option (String × List DsmlCall))
      → (stream_or json to_int raw m o ≡ raw) ⊎ IsToolStream (stream_or json to_int raw m o)
  unfolding stream_or
  stream_or-cases raw m none = inl refl
  stream_or-cases raw m (some (clean, [])) = inl refl
  stream_or-cases raw m (some (clean, c ∷ cs)) =
      inr (synthesized-IsToolStream m.msg_id m.model clean c cs m.usage)

  sse_or-cases :
      (body : String) (msg : Fields) (parts : String × List DsmlCall)
      → (sse_or json to_int body msg parts ≡ body)
        ⊎ IsToolStream (sse_or json to_int body msg parts)
  unfolding sse_or
  sse_or-cases body msg (clean, []) = inl refl
  sse_or-cases body msg (clean, c ∷ cs) = inr (synthesized-IsToolStream _ _ clean c cs _)

  message_to_sse-cases :
      (body : String)
      → (message_to_sse json to_int body ≡ body) ⊎ IsToolStream (message_to_sse json to_int body)
  unfolding message_to_sse
  message_to_sse-cases body = elim (Option-cases (to_map (json.decode body))) [
    | inl no_map ↦ inl (rw (no_map, message_to_sse) refl)
    | inr (raw, is_map) ↦
        let msg = fields_as_any json raw in
        let parts = parts_of json (as_slice (get "content" msg)) in
        let form : message_to_sse json to_int body ≡ sse_or json to_int body msg parts =
          rw (is_map, message_to_sse) refl in
        subst (λ out. (out ≡ body) ⊎ IsToolStream out) (sym form) (sse_or-cases body msg parts)
  ]

  -- The bytes, the message with its calls rewritten, or a stream of events.
  abbrev pub Expected : String → String → Type 0
  Expected raw out = (out ≡ raw) ⊎ ((out ≡ rewrite_message json raw) ⊎ IsToolStream out)

  from_stream : (raw out : String) → (out ≡ raw) ⊎ IsToolStream out → Expected raw out
  from_stream raw out (inl same) = inl same
  from_stream raw out (inr stream) = inr (inr stream)

  from_message :
      (raw out : String) → (out ≡ rewrite_message json raw) ⊎ IsToolStream out → Expected raw out
  from_message raw out h = inr h

  -- Whatever an upstream sends, the client gets those bytes, or the message in them with its calls
  -- rewritten, or a complete event stream with at least one tool call.
  pub rewrite_stream-Expected : (raw : String) → Expected raw (rewrite_stream json to_int raw)
  unfolding rewrite_stream
  rewrite_stream-Expected raw =
      let m = accumulate_stream_meta json to_int raw in
      elim (Bool-cases (contains_dsml raw)) [
        | inr bare ↦ inl (rw (bare, rewrite_stream) refl)
        | inl marked ↦ elim (Bool-cases (trim_space m.text == "")) [
          | inr text ↦
              let form : rewrite_stream json to_int raw
                  ≡ stream_or json to_int raw m (strip_and_parse m.text) =
                rw (marked, text, rewrite_stream) refl in
              subst (Expected raw) (sym form)
                (from_stream raw _ (stream_or-cases raw m (strip_and_parse m.text)))
          | inl blank ↦ elim (Bool-cases (rewrite_message json raw == raw)) [
            | inr changed ↦
                let form : rewrite_stream json to_int raw
                    ≡ message_to_sse json to_int (rewrite_message json raw) =
                  rw (marked, blank, changed, rewrite_stream) refl in
                subst (Expected raw) (sym form)
                  (from_message raw _ (message_to_sse-cases (rewrite_message json raw)))
            | inl same ↦
                let form : rewrite_stream json to_int raw
                    ≡ stream_or json to_int raw m (strip_and_parse raw) =
                  rw (marked, blank, same, rewrite_stream) refl in
                subst (Expected raw) (sym form)
                  (from_stream raw _ (stream_or-cases raw m (strip_and_parse raw)))
          ]
        ]
      ]
