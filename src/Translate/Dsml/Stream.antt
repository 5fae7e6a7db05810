-- ===== src/Translate/Dsml/Stream.antt =====
-- internal/translate/dsml.go: what is read from an event stream that holds the calls as text.
use opencode_proxy_api.Base.{
  String, Bool, ◌||◌, List, [], ◌∷◌, Option, none, some, ◌==◌, if◌then◌else◌, ℤ, pos,
}
use opencode_proxy_api.Base.Text.{append, trim_space, split, has_prefix, cut_prefix}
use opencode_proxy_api.Json.{
  Json, num, Items, nil, cons, Fields, get, as_map, as_slice, to_map, fields_as_any, JsonPackage,
}
use opencode_proxy_api.Translate.Dsml.{text_at}

-- streamUsage
pub record StreamUsage : Type 0 where
  pub input_tokens : ℤ
  pub output_tokens : ℤ

-- What accumulateStreamMeta returns.
pub record StreamMeta : Type 0 where
  pub text : String
  pub model : String
  pub msg_id : String
  pub usage : StreamUsage

-- Is there nothing to read in a line?
is_idle : String → Bool
is_idle line = line == "" || line == "[DONE]" || line == "{}"

data_of : String → Option String → Option String
unfolding is_idle
data_of line none = some line
data_of line (some rest) = if is_idle (trim_space rest) then none else some (trim_space rest)

-- The document of a line, if the loop reads one.
unfoldable pub payload : String → Option String
unfolding is_idle data_of
payload raw =
    let line = trim_space raw in
    if is_idle line || has_prefix "event:" line
    then none
    else data_of line (cut_prefix "data:" line)

abbrev newer_or : String → String → String
newer_or new old = if new == "" then old else new

module _ (json : JsonPackage) (to_int : String → ℤ) where
  token_count : Option Json → ℤ → ℤ
  token_count (some (num n)) old = to_int n
  token_count v old = old

  -- extractUsage; `to_int` is Go's `int` of a float64.
  unfoldable pub extract_usage : Option Json → StreamUsage → StreamUsage
  unfolding token_count
  extract_usage v u = elim (as_map v) [
    | none ↦ u
    | some m ↦ record {
      input_tokens = token_count (get "input_tokens" m) u.input_tokens;
      output_tokens = token_count (get "output_tokens" m) u.output_tokens;
    }
  ]

  start_message : Option Json → StreamMeta → StreamMeta
  start_message msg s = elim (as_map msg) [
    | none ↦ s
    | some m ↦ record {
      text = s.text;
      model = newer_or (text_at "model" m) s.model;
      msg_id = newer_or (text_at "id" m) s.msg_id;
      usage = extract_usage (get "usage" m) s.usage;
    }
  ]

  read_delta : Fields → StreamMeta → StreamMeta
  read_delta ev s = elim (as_map (get "delta" ev)) [
    | none ↦ s
    | some delta ↦ record s {
      text = append s.text (text_at "text" delta);
      usage = extract_usage (get "usage" ev) s.usage;
    }
  ]

  -- The text blocks of a content list, one after another.
  unfoldable pub block_text : Items → String
  block_text nil = ""
  block_text (cons b rest) = elim (as_map (some b)) [
    | none ↦ block_text rest
    | some fs ↦
        if text_at "type" fs == "text"
        then append (text_at "text" fs) (block_text rest)
        else block_text rest
  ]

  read_content : Fields → StreamMeta → StreamMeta
  unfolding block_text
  read_content ev s = elim (as_slice (get "content" ev)) [
    | none ↦ s
    | some blocks ↦ record {
      text = append s.text (block_text blocks);
      model = newer_or (text_at "model" ev) s.model;
      msg_id = newer_or (text_at "id" ev) s.msg_id;
      usage = extract_usage (get "usage" ev) s.usage;
    }
  ]

  unfoldable pub read_event : Fields → StreamMeta → StreamMeta
  unfolding start_message read_delta read_content
  read_event ev s =
      if text_at "type" ev == "message_start"
      then start_message (get "message" ev) s
      else read_content ev (read_delta ev s)

  read_payload : Option String → StreamMeta → StreamMeta
  read_payload none s = s
  read_payload (some line) s = elim (to_map (json.decode line)) [
    | none ↦ s
    | some ev ↦ read_event (fields_as_any json ev) s
  ]

  -- The loop over the lines.
  unfoldable pub read_lines : List String → StreamMeta → StreamMeta
  unfolding read_payload
  read_lines [] s = s
  read_lines (line ∷ lines) s = read_lines lines (read_payload (payload line) s)

  abbrev no_meta : StreamMeta
  no_meta = record {
    text = "";
    model = "";
    msg_id = "";
    usage = record { input_tokens = pos 0; output_tokens = pos 0 };
  }

  -- accumulateStreamMeta
  unfoldable pub accumulate_stream_meta : String → StreamMeta
  accumulate_stream_meta raw = read_lines (split 10 raw) no_meta
