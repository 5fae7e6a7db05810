-- ===== src/Tests/Conversion.antt =====
-- A Claude message with a tool call and a tool result, as raw messages that a small decoder knows.
use opencode_proxy_api.Base.{
  ℕ, String, true, false, List, [], ◌∷◌, Option, none, some, ◌==◌, if◌then◌else◌, ◌≡◌, refl,
  Bool-cases, inl, inr,
}
use opencode_proxy_api.Json.{Json, arr, str, num, obj, Fields, field, end, get, JsonPackage}
use opencode_proxy_api.Translate.Claude.{
  RawMap, Value, Node, string_node, array_node, object_node, RawPackage, lookup, later_or, last_raw,
  unmarshal_string, string_or_empty, unmarshal_maps, map_of,
}
use opencode_proxy_api.Translate.Claude.Tools.{
  rewrite_tools, rewrite_each, rewrite_tool, is_converted, tool_values, tool_value,
}
use opencode_proxy_api.Translate.Claude.Tools.Typed.{ReadsBack, held, AllTyped, rewrite_tools-Typed}
use opencode_proxy_api.Translate.Claude.Messages.{
  slice, collect_blocks, has_tools, block_type, result_id,
}
use opencode_proxy_api.Translate.Claude.Request.{
  rewrite_round, rewrite_all, changed_messages, ships_nothing,
}
use opencode_proxy_api.Translate.Claude.Kept.{ships_nothing-false}
use opencode_proxy_api.Translate.Claude.Collected.{calls_in, results_in}
use opencode_proxy_api.Translate.Claude.Sent.{
  sent_calls, sent_results, passed_on, rewrite_round-sent,
}
use opencode_proxy_api.Tests.{json}

abbrev use_fields : List (String × String)
use_fields = ("type", "tool_use") ∷ ("id", "call_1") ∷ ("name", "Bash") ∷ []

abbrev result_fields : List (String × String)
result_fields = ("type", "tool_result") ∷ ("tool_use_id", "call_0") ∷ ("content", "done") ∷ []

-- Every other text is a JSON string of itself.
abbrev node : String → Option Node
node t =
    if t == "content"
    then some (array_node ("use" ∷ "result" ∷ []))
    else if t == "use"
    then some (object_node use_fields)
    else if t == "result"
    then some (object_node result_fields)
    else if t == "{}"
    then some (array_node ("use" ∷ []))
    else some (string_node t)

abbrev pkg : RawPackage
pkg = record { node = node; encode_values = λ vs. ""; encode_map = λ m. "" }

abbrev plain_fields : List (String × String)
plain_fields = ("type", "web_search") ∷ ("max_uses", "n") ∷ []

-- A tool with a name and one without, each printed as a text that is read back.
abbrev tool_node : String → Option Node
tool_node t =
    if t == "tools"
    then some (array_node ("named" ∷ "plain" ∷ []))
    else if t == "named"
    then some (object_node (("name", "Bash") ∷ []))
    else if t == "plain"
    then some (object_node plain_fields)
    else some (string_node t)

abbrev tool_pkg : RawPackage
tool_pkg = record {
  node = tool_node;
  encode_values = λ vs. "";
  encode_map = λ m. elim (lookup "name" m) [ none ↦ "{plain}" | some n ↦ "{named}" ];
}

abbrev plain_map : Fields
plain_map = field "type" (str "web_search") (field "max_uses" (num "5") end)

abbrev named_map : Fields
named_map = field "name" (str "Bash") end

abbrev tool_json : JsonPackage
tool_json = record json {
  decode = λ t.
      if t == "{plain}"
      then some (obj plain_map)
      else if t == "{named}"
      then some (obj named_map)
      else if t == "n"
      then some (num "5")
      else some (str t);
}

abbrev tools : List RawMap
tools = some (("name", "Bash") ∷ []) ∷ some plain_fields ∷ []

tools_read : unmarshal_maps tool_pkg (some "tools") ≡ some tools
unfolding unmarshal_maps map_of
tools_read = refl

named_reads : ReadsBack tool_pkg tool_json (some (("name", "Bash") ∷ []))
unfolding ReadsBack held lookup last_raw later_or get
named_reads = (
  named_map,
  refl,
  λ key. elim (Bool-cases ("name" == key)) [
    | inl same ↦ rw (same, held, lookup, last_raw, get) refl
    | inr other ↦ rw (other, held, lookup, last_raw, get) refl
  ],
)

plain_reads : ReadsBack tool_pkg tool_json (some plain_fields)
unfolding ReadsBack held lookup last_raw later_or get
plain_reads = (
  plain_map,
  refl,
  λ key. elim (Bool-cases ("max_uses" == key)) [
    | inl last ↦ rw (last, held, lookup, last_raw, get) refl
    | inr other ↦ elim (Bool-cases ("type" == key)) [
      | inl first ↦ rw (other, first, held, lookup, last_raw, get) refl
      | inr neither ↦ rw (other, neither, held, lookup, last_raw, get) refl
    ]
  ],
)

bash_tool : rewrite_tools tool_pkg tool_json "tools" ≡ some ""
unfolding rewrite_tools unmarshal_maps rewrite_each rewrite_tool is_converted tool_values tool_value
    map_of lookup string_or_empty unmarshal_string
bash_tool = refl

rewrite_tools-Typed_example :
    (vs : List Value) × ("" ≡ tool_pkg.encode_values vs) × AllTyped tool_pkg tool_json tools vs
rewrite_tools-Typed_example =
    rewrite_tools-Typed tool_pkg tool_json "tools" "" tools tools_read
      (named_reads, (plain_reads, tt)) bash_tool

abbrev msg : RawMap
msg = some (("role", "user") ∷ ("content", "content") ∷ [])

abbrev blocks : List RawMap
blocks = some use_fields ∷ some result_fields ∷ []

no_text : unmarshal_string pkg (lookup "content" msg) ≡ none
unfolding unmarshal_string lookup
no_text = refl

in_blocks : unmarshal_maps pkg (lookup "content" msg) ≡ some blocks
unfolding unmarshal_maps lookup map_of
in_blocks = refl

changed : (rewrite_round pkg json 5 msg).1 ≡ true
unfolding rewrite_round unmarshal_string unmarshal_maps lookup map_of collect_blocks has_tools
    block_type result_id string_or_empty
changed = refl

rewrite_round-sent_example :
    (sent_results (rewrite_round pkg json 5 msg).0 ≡ results_in pkg json blocks)
    × (sent_calls (rewrite_round pkg json 5 msg).0
        ≡ passed_on pkg json (results_in pkg json blocks) (calls_in pkg json blocks))
rewrite_round-sent_example = rewrite_round-sent pkg json 5 msg blocks no_text in_blocks changed

abbrev clock : ℕ → ℕ
clock i = 5

all_changed :
    changed_messages pkg json clock (msg ∷ []) ≡ some (rewrite_all pkg json clock 0 (msg ∷ [])).0
unfolding changed_messages rewrite_all rewrite_round unmarshal_string unmarshal_maps lookup map_of
    collect_blocks has_tools block_type result_id string_or_empty
all_changed = refl

reads :
    (x : Json) (xs : List Json)
    → (t : String) × (ts : List String) × (node (json.encode (arr (slice (x ∷ xs))))
        ≡ some (array_node (t ∷ ts)))
reads x xs = ("use", [], refl)

ships_nothing-false_example :
    ships_nothing pkg json clock (some (("messages", "content") ∷ [])) ≡ false
ships_nothing-false_example =
    ships_nothing-false pkg json reads clock (some (("messages", "content") ∷ []))
