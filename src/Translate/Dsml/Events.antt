-- ===== src/Translate/Dsml/Events.antt =====
-- internal/translate/dsml.go: the event stream that the calls are rewritten in.
use opencode_proxy_api.Base.{
  ℕ, zero, suc, ◌+◌, String, ◌&&◌, not, List, [], ◌∷◌, ◌++◌, Option, none, some, ◌==◌,
  if◌then◌else◌, ℤ, pos, negsuc,
}
use opencode_proxy_api.Base.Text.{append, trim_space, decimal}
use opencode_proxy_api.Json.{
  Json, null, num, str, arr, obj, Items, nil, cons, Fields, end, field, get, as_map, as_slice,
  to_map, fields_as_any, JsonPackage,
}
use opencode_proxy_api.Translate.Dsml.{DsmlCall, contains_dsml, strip_and_parse, text_at}
use opencode_proxy_api.Translate.Dsml.Message.{dsml_id, rewrite_message}
use opencode_proxy_api.Translate.Dsml.Stream.{
  StreamUsage, StreamMeta, extract_usage, accumulate_stream_meta,
}

-- An int, of 64 bits.
unfoldable pub int : ℤ → Json
int (pos n) = num (decimal 20 n)
int (negsuc n) = num (append "-" (decimal 20 (n + 1)))

unfoldable pub start_event : String → String → ℤ → Json
start_event msg_id model input_tokens = obj (
    field "type" (str "message_start") (
      field "message"
        (obj (
          field "id" (str msg_id) (
            field "type" (str "message") (
              field "role" (str "assistant") (
                field "model" (str model) (
                  field "content" (arr nil) (
                    field "stop_reason" null (
                      field "stop_sequence" null (
                        field "usage"
                          (obj (
                            field "input_tokens" (int input_tokens)
                              (field "output_tokens" (num "0") end)))
                          end)))))))))
        end))

unfoldable pub block_event : String → ℕ → Fields → Json
block_event kind index rest =
    obj (field "type" (str kind) (field "index" (num (decimal 19 index)) rest))

-- The three events of a content block.
unfoldable pub block_events : ℕ → Json → Json → List Json
block_events index block delta =
    block_event "content_block_start" index (field "content_block" block end)
    ∷ block_event "content_block_delta" index (field "delta" delta end)
    ∷ block_event "content_block_stop" index end
    ∷ []

unfoldable pub text_events : ℕ → String → List Json
text_events index clean =
    block_events index (obj (field "type" (str "text") (field "text" (str "") end)))
      (obj (field "type" (str "text_delta") (field "text" (str clean) end)))

module _ (json : JsonPackage) where
  -- The events of the calls, from the `i`-th on, at their index.
  unfoldable pub call_events : ℕ → ℕ → List DsmlCall → List Json
  call_events index i [] = []
  call_events index i (c ∷ cs) =
      block_events index
        (obj (
          field "type" (str "tool_use") (
            field "id" (str (dsml_id i))
              (field "name" (str c.name) (field "input" (obj end) end)))))
        (obj (
          field "type" (str "input_json_delta")
            (field "partial_json" (str (json.encode (obj c.input))) end)))
      ++ call_events (suc index) (suc i) cs

  -- At least one output token is reported where none is known.
  unfoldable pub output_count : ℤ → ℤ
  output_count (pos zero) = pos 1
  output_count z = z

  unfoldable pub last_events : ℤ → List Json
  unfolding output_count
  last_events output_tokens =
      obj (
        field "type" (str "message_delta") (
          field "delta"
            (obj (field "stop_reason" (str "tool_use") (field "stop_sequence" null end)))
            (field "usage" (obj (field "output_tokens" (int (output_count output_tokens)) end))
              end)))
      ∷ obj (field "type" (str "message_stop") end)
      ∷ []

  unfoldable pub content_events : String → List DsmlCall → List Json
  content_events clean calls =
      if trim_space clean == ""
      then call_events 0 1 calls
      else text_events 0 clean ++ call_events 1 1 calls

  -- synthesizeToolUseSSE, as events.
  unfoldable pub tool_use_events :
      String → String → String → List DsmlCall → StreamUsage → List Json
  tool_use_events msg_id model clean calls usage =
      start_event (if msg_id == "" then "msg_dsml_rewrite" else msg_id)
        (if model == "" then "unknown" else model) usage.input_tokens
      ∷ (content_events clean calls ++ last_events usage.output_tokens)

  -- writeSSE, for each event.
  unfoldable pub write_sse : List Json → String
  write_sse [] = ""
  write_sse (e ∷ es) = append "data: " (append (json.encode e) (append "\n\n" (write_sse es)))

  -- The text and the calls of a rewritten message's content.
  add_line : String → String → String
  add_line clean t =
      if t == "" then clean else if clean == "" then t else append clean (append "\n" t)

  input_map : Option Fields → Fields
  input_map none = end
  input_map (some fs) = fs

  unfoldable pub message_parts : String → Items → String × List DsmlCall
  unfolding add_line input_map
  message_parts clean nil = (clean, [])
  message_parts clean (cons b rest) = elim (as_map (some b)) [
    | none ↦ message_parts clean rest
    | some fs ↦
        let is_text = text_at "type" fs == "text" in
        let later =
          message_parts (if is_text then add_line clean (text_at "text" fs) else clean) rest in
        if not is_text && text_at "type" fs == "tool_use"
        then (
          later.0,
          record { name = text_at "name" fs; input = input_map (as_map (get "input" fs)) }
              ∷ later.1,
        )
        else later
  ]

  unfoldable pub parts_of : Option Items → String × List DsmlCall
  parts_of none = ("", [])
  parts_of (some blocks) = message_parts "" blocks

  module _ (to_int : String → ℤ) where
    abbrev pub no_usage : StreamUsage
    no_usage = record { input_tokens = pos 0; output_tokens = pos 0 }

    unfoldable pub sse_or : String → Fields → String × List DsmlCall → String
    sse_or body msg (clean, []) = body
    sse_or body msg (clean, c ∷ cs) = write_sse (
        tool_use_events (text_at "id" msg) (text_at "model" msg) clean (c ∷ cs)
          (extract_usage json to_int (get "usage" msg) no_usage))

    -- messageJSONToSSE
    unfoldable pub message_to_sse : String → String
    unfolding sse_or parts_of
    message_to_sse body = elim (to_map (json.decode body)) [
      | none ↦ body
      | some raw ↦
          let msg = fields_as_any json raw in
          sse_or body msg (parts_of (as_slice (get "content" msg)))
    ]

    unfoldable pub stream_or : String → StreamMeta → Option (String × List DsmlCall) → String
    stream_or raw m none = raw
    stream_or raw m (some (clean, [])) = raw
    stream_or raw m (some (clean, c ∷ cs)) =
        write_sse (tool_use_events m.msg_id m.model clean (c ∷ cs) m.usage)

    -- RewriteClaudeStreamDSML
    unfoldable pub rewrite_stream : String → String
    unfolding stream_or
    rewrite_stream raw =
        let m = accumulate_stream_meta json to_int raw in
        if not (contains_dsml raw)
        then raw
        else if not (trim_space m.text == "")
        then stream_or raw m (strip_and_parse m.text)
        else if not (rewrite_message json raw == raw)
        then message_to_sse (rewrite_message json raw)
        else stream_or raw m (strip_and_parse raw)
