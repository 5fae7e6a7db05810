-- ===== src/Tests/Markup.antt =====
-- A tool call in DSML, and the event stream that replaces it.
use opencode_proxy_api.Base.{String, true, [], ◌∷◌, ◌++◌, map, some, ◌≡◌, refl, ℤ, pos, arith}
use opencode_proxy_api.Base.Text.{
  cut_prefix, up_to, trim_space, lower_is, lower, lower_code, eq_codes,
}
use opencode_proxy_api.Translate.Dsml.{
  DsmlCall, parse_invokes, invoke_calls, input_of, map_tool_name,
}
use opencode_proxy_api.Translate.Dsml.Scan.{
  matches, size, element, invoke_head, open_tag, close_tag, tag, pipes, skip_one, blanks, is_blank,
  skip_blank, quoted, body_until,
}
use opencode_proxy_api.Translate.Dsml.Stream.{StreamUsage}
use opencode_proxy_api.Translate.Dsml.Events.{tool_use_events}
use opencode_proxy_api.Translate.Dsml.Protocol.{
  waiting, closed, follow_all, tool_use_events-follow_all,
}
use opencode_proxy_api.Translate.Dsml.Client.{
  read_calls, read_text, as_sent, shown, tool_use_events_read,
}
use opencode_proxy_api.Translate.Dsml.Message.{Collected, items_of, tool_blocks}
use opencode_proxy_api.Translate.Dsml.Events.{rewrite_stream}
use opencode_proxy_api.Json.{str, field, end, obj, arr, Fields, put, JsonPackage}
use opencode_proxy_api.Translate.Dsml.Outcome.{Expected, rewrite_stream-Expected}
use opencode_proxy_api.Translate.Dsml.Ids.{block_ids, Distinct, tool_blocks-Distinct}
use opencode_proxy_api.Tests.{json}

abbrev markup : String
markup = "a<|DSML|invoke name=\"shell\"></|DSML|invoke>"

abbrev call : DsmlCall
call = record { name = "Bash"; input = end }

abbrev usage : StreamUsage
usage = record { input_tokens = pos 12; output_tokens = pos 3 }

-- The name of the tool is mapped.
parsed : parse_invokes markup ≡ call ∷ []
unfolding parse_invokes invoke_calls map_tool_name matches element invoke_head open_tag close_tag
    tag pipes skip_one cut_prefix blanks is_blank skip_blank up_to quoted body_until size trim_space
    lower_is eq_codes lower lower_code input_of
parsed = refl

tool_use_events-follow_all_example :
    follow_all waiting (tool_use_events json "id" "m" "hi" (call ∷ []) usage) ≡ some closed
tool_use_events-follow_all_example = tool_use_events-follow_all json "id" "m" "hi" (call ∷ []) usage

tool_use_events_read_example :
    (read_calls (tool_use_events json "id" "m" "hi" (call ∷ []) usage)
      ≡ map (as_sent json) (call ∷ []))
    × (read_text (tool_use_events json "id" "m" "hi" (call ∷ []) usage) ≡ shown json "hi")
tool_use_events_read_example = tool_use_events_read json "id" "m" "hi" (call ∷ []) usage

abbrev to_int : String → ℤ
to_int n = pos 0

abbrev collected : Collected
collected = record {
  blocks = obj (field "type" (str "text") (field "text" (str "hi") end)) ∷ [];
  calls = call ∷ [];
  changed = true;
}

abbrev new_fields : Fields
new_fields = put "stop_reason" (str "tool_use") (
    put "content" (arr (items_of (collected.blocks ++ tool_blocks 1 collected.calls)))
      (field "id" (str "m1") end))

-- The message is printed as a text that is read back.
abbrev printer : JsonPackage
printer = record json { encode = λ v. "printed"; decode = λ t. some (obj new_fields) }

rewrite_stream-Expected_example : Expected json to_int markup (rewrite_stream json to_int markup)
rewrite_stream-Expected_example = rewrite_stream-Expected json to_int markup

tool_blocks-Distinct_example : Distinct (block_ids (tool_blocks 1 (call ∷ call ∷ [])))
tool_blocks-Distinct_example = tool_blocks-Distinct 1 (call ∷ call ∷ []) (omega arith)
