-- ===== src/Tests/Injection.antt =====
-- The injection of reasoning content at concrete inputs.
use opencode_proxy_api.Base.{All, true, false, none, some, [], ◌∷◌, ◌≡◌, ◌≢◌, refl, arith, eq_iff}
use opencode_proxy_api.Json.{str, field, end, get}
use opencode_proxy_api.Reasoning.{
  all, Message, ChatBody, has_prefix_fold, contains_fold, model_rules, model_requires_injection,
  should_inject, has_reasoning, inject_message, inject_reasoning_content,
}
use opencode_proxy_api.Reasoning.Inject.{IsReady, inject_deepseek-IsReady}
use opencode_proxy_api.Reasoning.Body.{message_fields}
use opencode_proxy_api.Reasoning.Wire.{injected_wire}

abbrev answer : Message
answer = record {
  role = "assistant";
  content = some (str "hi");
  reasoning_content = none;
  calls = none;
  tool_call_id = "";
  name = "";
  raw = field "cache" (str "yes") end;
}

abbrev body : ChatBody
body = record { model = "deepseek-v3"; messages = answer ∷ []; options = end; raw = end }

not_kimi : has_prefix_fold "deepseek-v3" "kimi-" ≡ false
unfolding has_prefix_fold
not_kimi = refl

is_deepseek : contains_fold "deepseek-v3" "deepseek" ≡ true
unfolding contains_fold
is_deepseek = refl

has_messages : body.messages ≢ []
has_messages e = cc (e)

inject_deepseek-IsReady_example :
    (out : ChatBody) × (inject_reasoning_content "deepseek-v3" body ≡ some out)
    × All IsReady out.messages
inject_deepseek-IsReady_example =
    inject_deepseek-IsReady "deepseek-v3" body not_kimi is_deepseek has_messages

other_model : model_requires_injection "gpt-5" ≡ false
unfolding model_requires_injection model_rules has_prefix_fold contains_fold
other_model = refl

wanted : should_inject answer.role answer.reasoning_content answer.calls all ≡ true
unfolding should_inject has_reasoning
wanted = refl

injected_wire_example :
    (get "reasoning_content" (message_fields (inject_message all answer)) ≡ some (str " "))
    × (get "role" (message_fields (inject_message all answer)) ≡ some (str answer.role))
    × (get "cache" (message_fields (inject_message all answer)) ≡ get "cache" answer.raw)
injected_wire_example =
    injected_wire all answer "cache" wanted (ground (arith, eq_iff "cache" "role"))
      (ground (arith, eq_iff "cache" "content"))
      (ground (arith, eq_iff "cache" "reasoning_content"))
      (ground (arith, eq_iff "cache" "tool_calls")) (ground (arith, eq_iff "cache" "tool_call_id"))
      (ground (arith, eq_iff "cache" "name"))
