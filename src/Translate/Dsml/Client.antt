-- ===== src/Translate/Dsml/Client.antt =====
-- internal/translate/dsml.go: what a client reads from the event stream.
use mathlib.Core.List.{append-nil}
use text.Mathlib.TextLemmas
use opencode_proxy_api.Base.{
  ℕ, suc, String, Bool, ◌&&◌, List, [], ◌∷◌, ◌++◌, map, none, some, ◌==◌, if◌then◌else◌, ◌≡◌, refl,
  ap, ◌∙◌, ℤ, Bool-cases, inl, inr,
}
use opencode_proxy_api.Base.Text.{append, trim_space}
use opencode_proxy_api.Json.{Json, str, obj, Fields, end, field, get, JsonPackage}
use opencode_proxy_api.Translate.Dsml.{DsmlCall, text_at}
use opencode_proxy_api.Translate.Dsml.Stream.{StreamUsage}
use opencode_proxy_api.Translate.Dsml.Events.{
  start_event, block_event, block_events, text_events, call_events, last_events, content_events,
  tool_use_events,
}
use opencode_proxy_api.Translate.Dsml.Message.{dsml_id}
use opencode_proxy_api.Translate.Dsml.Protocol.{event_fields, event_type}

-- A map in an event.
unfoldable part : String → Json → Fields
part key e = elim (get key (event_fields e)) [ none ↦ end | some v ↦ event_fields v ]

unfoldable starts_tool : Json → Bool
unfolding part
starts_tool e =
    event_type e == "content_block_start" && text_at "type" (part "content_block" e) == "tool_use"

unfoldable next_input : List Json → String
unfolding part
next_input [] = ""
next_input (e ∷ es) = text_at "partial_json" (part "delta" e)

-- The tool calls that a client reads: the name from each start, the input from the delta after it.
unfoldable pub read_calls : List Json → List (String × String)
unfolding starts_tool next_input
read_calls [] = []
read_calls (e ∷ es) =
    let later = read_calls es in
    if starts_tool e
    then (text_at "name" (part "content_block" e), next_input es) ∷ later
    else later

unfoldable adds_text : Json → Bool
unfolding part
adds_text e =
    event_type e == "content_block_delta" && text_at "type" (part "delta" e) == "text_delta"

-- The text that it reads, from the deltas of text.
unfoldable pub read_text : List Json → String
unfolding part adds_text
read_text [] = ""
read_text (e ∷ es) =
    let later = read_text es in
    if adds_text e then append (text_at "text" (part "delta" e)) later else later

abbrev tool_block : ℕ → String → Json
tool_block i name = obj (
    field "type" (str "tool_use")
      (field "id" (str (dsml_id i)) (field "name" (str name) (field "input" (obj end) end))))

abbrev input_delta : String → Json
input_delta input =
    obj (field "type" (str "input_json_delta") (field "partial_json" (str input) end))

read_calls_tool :
    (n i : ℕ) (name input : String) (rest : List Json)
    → read_calls (block_events n (tool_block i name) (input_delta input) ++ rest)
      ≡ (name, input) ∷ read_calls rest
unfolding read_calls block_events block_event event_type text_at get
read_calls_tool n i name input rest = refl

read_text_tool :
    (n i : ℕ) (name input : String) (rest : List Json)
    → read_text (block_events n (tool_block i name) (input_delta input) ++ rest) ≡ read_text rest
unfolding read_text block_events block_event event_type text_at get
read_text_tool n i name input rest = refl

read_calls_text :
    (n : ℕ) (clean : String) (rest : List Json)
    → read_calls (text_events n clean ++ rest) ≡ read_calls rest
unfolding read_calls text_events block_events block_event event_type text_at get
read_calls_text n clean rest = refl

read_text_text :
    (n : ℕ) (clean : String) (rest : List Json)
    → read_text (text_events n clean ++ rest) ≡ append clean (read_text rest)
unfolding read_text text_events block_events block_event event_type text_at get
read_text_text n clean rest = refl

module _ (json : JsonPackage) where
  abbrev pub as_sent : DsmlCall → String × String
  as_sent c = (c.name, json.encode (obj c.input))

  read_calls-call_events :
      (n i : ℕ) (calls : List DsmlCall) (rest : List Json)
      → read_calls (call_events json n i calls ++ rest) ≡ map as_sent calls ++ read_calls rest
  unfolding call_events block_events
  read_calls-call_events n i [] rest = refl
  read_calls-call_events n i (c ∷ cs) rest =
      read_calls_tool n i c.name (json.encode (obj c.input))
        (call_events json (suc n) (suc i) cs ++ rest)
      ∙ ap (λ xs. as_sent c ∷ xs) (read_calls-call_events (suc n) (suc i) cs rest)

  read_text-call_events :
      (n i : ℕ) (calls : List DsmlCall) (rest : List Json)
      → read_text (call_events json n i calls ++ rest) ≡ read_text rest
  unfolding call_events block_events
  read_text-call_events n i [] rest = refl
  read_text-call_events n i (c ∷ cs) rest =
      read_text_tool n i c.name (json.encode (obj c.input))
        (call_events json (suc n) (suc i) cs ++ rest)
      ∙ read_text-call_events (suc n) (suc i) cs rest

  read_calls_last : (tokens : ℤ) → read_calls (last_events json tokens) ≡ []
  unfolding read_calls last_events event_type text_at get
  read_calls_last tokens = refl

  read_text_last : (tokens : ℤ) → read_text (last_events json tokens) ≡ ""
  unfolding read_text last_events event_type text_at get
  read_text_last tokens = refl

  -- What a client sees of a text: nothing, where it is blank.
  abbrev pub shown : String → String
  shown clean = if trim_space clean == "" then "" else clean

  content_events_read :
      (clean : String) (calls : List DsmlCall) (tokens : ℤ)
      → (read_calls (content_events json clean calls ++ last_events json tokens)
          ≡ map as_sent calls)
        × (read_text (content_events json clean calls ++ last_events json tokens) ≡ shown clean)
  unfolding content_events text_events block_events
  content_events_read clean calls tokens = elim (Bool-cases (trim_space clean == "")) [
    | inl bare ↦ rw bare (
      read_calls-call_events 0 1 calls (last_events json tokens)
          ∙ ap (λ xs. map as_sent calls ++ xs) (read_calls_last tokens)
          ∙ append-nil (map as_sent calls),
      read_text-call_events 0 1 calls (last_events json tokens) ∙ read_text_last tokens,
    )
    | inr text ↦ rw text (
      read_calls_text 0 clean (call_events json 1 1 calls ++ last_events json tokens)
          ∙ read_calls-call_events 1 1 calls (last_events json tokens)
          ∙ ap (λ xs. map as_sent calls ++ xs) (read_calls_last tokens)
          ∙ append-nil (map as_sent calls),
      read_text_text 0 clean (call_events json 1 1 calls ++ last_events json tokens)
          ∙ ap (append clean)
              (read_text-call_events 1 1 calls (last_events json tokens) ∙ read_text_last tokens)
          ∙ TextLemmas.append-nil clean,
    )
  ]

  -- A client reads from the events the calls that went in, in their order, with their names and their
  -- inputs as JSON, and the text, unless it is blank.
  pub tool_use_events_read :
      (msg_id model clean : String) (calls : List DsmlCall) (usage : StreamUsage)
      → (read_calls (tool_use_events json msg_id model clean calls usage) ≡ map as_sent calls)
        × (read_text (tool_use_events json msg_id model clean calls usage) ≡ shown clean)
  unfolding tool_use_events read_calls read_text start_event event_type text_at get
  tool_use_events_read msg_id model clean calls usage =
      content_events_read clean calls usage.output_tokens
