-- ===== src/Translate/Dsml.antt =====
-- internal/translate/dsml.go: tool calls that a model writes as marked-up text.
pub mod Scan
pub mod Message
pub mod Stream
pub mod Events
pub mod Protocol
pub mod Client
pub mod Fits
pub mod Fuel
pub mod Readback
pub mod Outcome
pub mod Ids
use opencode_proxy_api.Base.{
  ℕ, ◌+◌, String, Bool, true, false, ◌&&◌, ◌||◌, not, List, [], ◌∷◌, ◌++◌, Option, none, some, ◌==◌,
  if◌then◌else◌,
}
use opencode_proxy_api.Base.Text.{append, contains, trim_space, lower_is, decimal}
use opencode_proxy_api.Json.{
  Json, null, bool, num, str, arr, obj, Items, nil, cons, Fields, end, field, get, put, as_string,
  to_map, as_any, JsonPackage,
}
use opencode_proxy_api.Translate.Dsml.Scan.{
  Element, region, invoke, param, matches, cut_out, size, squeeze,
}

-- ContainsDSML
unfoldable pub contains_dsml : String → Bool
contains_dsml text = contains "DSML" text && (contains "tool_calls" text || contains "invoke" text)

-- DSMLCall
pub record DsmlCall : Type 0 where
  pub name : String
  pub input : Fields

any_of : String → List String → Bool
any_of s [] = false
any_of s (t ∷ ts) = lower_is s t || any_of s ts

unfoldable pub map_tool_name : String → String
unfolding any_of
map_tool_name name =
    if any_of name (
      "exec_command" ∷ "run_terminal_cmd" ∷ "shell" ∷ "bash_tool" ∷ "shell_command" ∷ "run_command"
      ∷ [])
    then "Bash"
    else if any_of name ("read_file" ∷ "read_files" ∷ [])
    then "Read"
    else if any_of name ("write_file" ∷ "create_file" ∷ [])
    then "Write"
    else if any_of name ("search_replace" ∷ "apply_patch" ∷ "edit_file" ∷ [])
    then "Edit"
    else name

unfoldable pub map_param_name : String → String → String
unfolding any_of
map_param_name tool name =
    if lower_is tool "bash" && any_of name ("cmd" ∷ "command_line" ∷ "script" ∷ [])
    then "command"
    else if lower_is tool "read" && any_of name ("file" ∷ "filepath" ∷ "file_path" ∷ "path" ∷ [])
    then "file_path"
    else if (lower_is tool "edit" || lower_is tool "write")
        && any_of name ("file" ∷ "filepath" ∷ "path" ∷ [])
    then "file_path"
    else name

-- The map of a call's parameters, on top of `input`.
unfoldable pub input_of : String → Fields → List Element → Fields
input_of tool input [] = input
input_of tool input (p ∷ ps) =
    input_of tool (put (map_param_name tool (trim_space p.name)) (str (trim_space p.body)) input) ps

call_of : Element → DsmlCall
call_of e =
    let name = map_tool_name (trim_space e.name) in
    record { name = name; input = input_of name end (matches param (size e.body) e.body) }

unfoldable pub invoke_calls : List Element → List DsmlCall
unfolding call_of
invoke_calls [] = []
invoke_calls (e ∷ es) =
    let rest = invoke_calls es in
    if map_tool_name (trim_space e.name) == "" then rest else call_of e ∷ rest

-- parseInvokes
unfoldable pub parse_invokes : String → List DsmlCall
parse_invokes body = invoke_calls (matches invoke (size body) body)

-- parseDSMLRegions, over the regions.
unfoldable pub region_calls : List Element → List DsmlCall
region_calls [] = []
region_calls (e ∷ es) = parse_invokes e.body ++ region_calls es

-- `some`, of the first list that is not empty.
first_calls : List DsmlCall → List DsmlCall → List DsmlCall
first_calls [] other = other
first_calls (c ∷ cs) other = c ∷ cs

-- The calls of a text: those in its regions, or else the bare ones.
unfoldable pub text_calls : String → List DsmlCall
unfolding first_calls
text_calls text = first_calls (region_calls (matches region (size text) text)) (parse_invokes text)

unfoldable pub cleaned : String → String
cleaned text =
    let outside = cut_out region (size text) text in
    squeeze 0 (trim_space (cut_out invoke (size outside) outside))

stripped : String → List DsmlCall → Option (String × List DsmlCall)
stripped text [] = none
stripped text (c ∷ cs) = some (cleaned text, c ∷ cs)

-- StripAndParseDSML; `none` is `ok == false`.
unfoldable pub strip_and_parse : String → Option (String × List DsmlCall)
unfolding stripped
strip_and_parse text = if contains_dsml text then stripped text (text_calls text) else none

unfoldable pub text_at : String → Fields → String
text_at key fs = elim (as_string (get key fs)) [ none ↦ "" | some s ↦ s ]
