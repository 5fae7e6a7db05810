-- ===== src/Translate/Dsml/Protocol.antt =====
-- internal/translate/dsml.go: the events follow the protocol of a Claude message stream.
use opencode_proxy_api.Base.{
  ℕ, suc, String, Bool, true, ◌&&◌, List, [], ◌∷◌, ◌++◌, Option, none, some, ◌==◌, if◌then◌else◌,
  ◌≡◌, refl, arith, ℤ, Bool-cases, Option-cases, inl, inr, ◌∙◌, eq_refl,
}
use opencode_proxy_api.Base.Text.{decimal, trim_space}
use opencode_proxy_api.Json.{Json, num, obj, Fields, end, field, get, JsonPackage}
use opencode_proxy_api.Translate.Dsml.{DsmlCall, text_at}
use opencode_proxy_api.Translate.Dsml.Stream.{StreamUsage}
use opencode_proxy_api.Translate.Dsml.Events.{
  start_event, block_event, block_events, text_events, call_events, last_events, content_events,
  tool_use_events,
}

-- Where a stream is: before its message, between blocks of which `n` are done, inside the n-th before
-- or after its delta, after the message's last change, or closed.
pub data Phase : Type 0 where
  waiting ending closed : Phase
  between inside filled : ℕ → Phase

abbrev pub event_fields : Json → Fields
event_fields (obj fs) = fs
event_fields v = end

unfoldable pub event_type : Json → String
event_type e = text_at "type" (event_fields e)

abbrev pub number : Option Json → String
number (some (num n)) = n
number v = ""

unfoldable pub has_index : ℕ → Json → Bool
has_index n e = number (get "index" (event_fields e)) == decimal 19 n

-- The protocol: the phase after an event; `none` is an event out of place.
unfoldable pub follow : Phase → Json → Option Phase
follow waiting e = if event_type e == "message_start" then some (between 0) else none
follow (between n) e =
    if event_type e == "content_block_start" && has_index n e
    then some (inside n)
    else if event_type e == "message_delta"
    then some ending
    else none
follow (inside n) e =
    if event_type e == "content_block_delta" && has_index n e then some (filled n) else none
follow (filled n) e =
    if event_type e == "content_block_stop" && has_index n e then some (between (suc n)) else none
follow ending e = if event_type e == "message_stop" then some closed else none
follow closed e = none

-- The phase after all the events.
unfoldable pub follow_all : Phase → List Json → Option Phase
follow_all p [] = some p
follow_all p (e ∷ es) = elim (follow p e) [ none ↦ none | some q ↦ follow_all q es ]

follow_all-append :
    (p : Phase) (xs ys : List Json) (q : Phase)
    → follow_all p xs ≡ some q
    → follow_all p (xs ++ ys) ≡ follow_all q ys
unfolding follow_all
follow_all-append p [] ys q e = ground arith
follow_all-append p (x ∷ xs) ys q e = elim (Option-cases (follow p x)) [
  | inl out ↦ cc (rw (out, follow_all) at e)
  | inr (r, next) ↦ rw (next, follow_all) (follow_all-append r xs ys q (rw (next, follow_all) at e))
]

event_type-block_event :
    (kind : String) (n : ℕ) (rest : Fields)
    → get "type" rest ≡ none
    → event_type (block_event kind n rest) ≡ kind
unfolding event_type block_event text_at get
event_type-block_event kind n rest h = rw h

has_index-block_event :
    (kind : String) (n : ℕ) (rest : Fields)
    → get "index" rest ≡ none
    → has_index n (block_event kind n rest) ≡ true
unfolding has_index block_event get
has_index-block_event kind n rest h = rw (has_index, h) (eq_refl (decimal 19 n))

follow_start :
    (n : ℕ) (block : Json)
    → follow (between n) (block_event "content_block_start" n (field "content_block" block end))
      ≡ some (inside n)
unfolding follow get
follow_start n block = rw (
  event_type-block_event "content_block_start" n (field "content_block" block end) refl,
  has_index-block_event "content_block_start" n (field "content_block" block end) refl,
  follow,
)

follow_delta :
    (n : ℕ) (delta : Json)
    → follow (inside n) (block_event "content_block_delta" n (field "delta" delta end))
      ≡ some (filled n)
unfolding follow get
follow_delta n delta = rw (
  event_type-block_event "content_block_delta" n (field "delta" delta end) refl,
  has_index-block_event "content_block_delta" n (field "delta" delta end) refl,
  follow,
)

follow_stop :
    (n : ℕ) → follow (filled n) (block_event "content_block_stop" n end) ≡ some (between (suc n))
unfolding follow get
follow_stop n = rw (
  event_type-block_event "content_block_stop" n end refl,
  has_index-block_event "content_block_stop" n end refl,
  follow,
)

follow_all-block_events :
    (n : ℕ) (block delta : Json)
    → follow_all (between n) (block_events n block delta) ≡ some (between (suc n))
unfolding follow_all block_events
follow_all-block_events n block delta =
    rw (follow_start n block, follow_delta n delta, follow_stop n, follow_all)

-- The number of blocks that are done after those of the calls.
abbrev done_after : ℕ → List DsmlCall → ℕ
done_after n [] = n
done_after n (c ∷ cs) = done_after (suc n) cs

follow_all-text_events :
    (n : ℕ) (clean : String) → follow_all (between n) (text_events n clean) ≡ some (between (suc n))
unfolding text_events
follow_all-text_events n clean = follow_all-block_events n _ _

module _ (json : JsonPackage) where
  follow_all-call_events :
      (n i : ℕ) (calls : List DsmlCall)
      → follow_all (between n) (call_events json n i calls) ≡ some (between (done_after n calls))
  unfolding call_events follow_all
  follow_all-call_events n i [] = refl
  follow_all-call_events n i (c ∷ cs) =
      follow_all-append (between n) (block_events n _ _) (call_events json (suc n) (suc i) cs)
        (between (suc n)) (follow_all-block_events n _ _)
      ∙ follow_all-call_events (suc n) (suc i) cs

  follow_all-content_events :
      (clean : String) (calls : List DsmlCall)
      → (n : ℕ) × (follow_all (between 0) (content_events json clean calls) ≡ some (between n))
  unfolding content_events
  follow_all-content_events clean calls = elim (Bool-cases (trim_space clean == "")) [
    | inl bare ↦ (done_after 0 calls, rw bare (follow_all-call_events 0 1 calls))
    | inr text ↦ (
      done_after 1 calls,
      rw text (
          follow_all-append (between 0) (text_events 0 clean) (call_events json 1 1 calls)
            (between 1) (follow_all-text_events 0 clean)
          ∙ follow_all-call_events 1 1 calls),
    )
  ]

  follow_all-last_events :
      (n : ℕ) (tokens : ℤ) → follow_all (between n) (last_events json tokens) ≡ some closed
  unfolding follow_all follow last_events event_type text_at get
  follow_all-last_events n tokens = refl

  follow-start_event :
      (msg_id model : String) (tokens : ℤ)
      → follow waiting (start_event msg_id model tokens) ≡ some (between 0)
  unfolding follow start_event event_type text_at get
  follow-start_event msg_id model tokens = refl

  -- Whatever the text, the calls and the usage, the events are a complete stream: the message starts,
  -- its blocks come one after another, each with its start, one delta and its stop at the next index,
  -- then come the message's change and its end, and nothing else.
  pub tool_use_events-follow_all :
      (msg_id model clean : String) (calls : List DsmlCall) (usage : StreamUsage)
      → follow_all waiting (tool_use_events json msg_id model clean calls usage) ≡ some closed
  unfolding tool_use_events follow_all
  tool_use_events-follow_all msg_id model clean calls usage =
      let (n, body) = follow_all-content_events clean calls in
      rw (follow-start_event, follow_all)
        (follow_all-append (between 0) (content_events json clean calls)
            (last_events json usage.output_tokens) (between n) body
          ∙ follow_all-last_events n usage.output_tokens)
