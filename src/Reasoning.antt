-- ===== src/Reasoning.antt =====
-- internal/reasoning/inject.go: the reasoning_content placeholder, and tryInjectReasoning of
-- internal/proxy/handler.go.
pub mod Inject
pub mod Body
pub mod Wire
use Prim.Native.Char.{code}
use Prim.Native.String
use opencode_proxy_api.Base.{
  ℕ, ◌+◌, String, Bool, true, false, ◌&&◌, ◌||◌, not, List, [], ◌∷◌, Option, none, some, ◌==◌, leb,
  if◌then◌else◌, map,
}
use opencode_proxy_api.Base.Text.{lower, prefix_codes, contains_codes, parse_int64}
use opencode_proxy_api.Json.{
  Json, null, bool, num, str, arr, obj, Items, nil, cons, Fields, end, field, put, same_key,
  struct_string, as_any, fields_as_any, JsonPackage,
}

ascii_lower : String → List ℕ
ascii_lower String.[] = []
ascii_lower (String.◌∷◌ c s) =
    (if leb b'A' (code c) && leb (code c) b'Z' then code c + 32 else code c) ∷ ascii_lower s

-- hasPrefixFold with "kimi-": a byte prefix of five bytes folds to it only if it is ASCII.
unfoldable pub has_prefix_fold : String → String → Bool
unfolding ascii_lower prefix_codes
has_prefix_fold s prefix = prefix_codes (ascii_lower prefix) (ascii_lower s)

-- containsFold
unfoldable pub contains_fold : String → String → Bool
unfolding lower contains_codes
contains_fold s substr = contains_codes (lower substr) (lower s)

pub data Scope : Type 0 where
  tool_calls : Scope
  all : Scope

-- modelRules
unfoldable pub model_rules : List ((String → Bool) × Scope)
unfolding has_prefix_fold contains_fold
model_rules =
    (λ m. has_prefix_fold m "kimi-", tool_calls) ∷ (λ m. contains_fold m "deepseek", all) ∷ []

-- The first rule that matches.
unfoldable pub find_rule : String → List ((String → Bool) × Scope) → Option Scope
find_rule model [] = none
find_rule model (r ∷ rs) = let later = find_rule model rs in if r.0 model then some r.1 else later

any_rule : String → List ((String → Bool) × Scope) → Bool
any_rule model [] = false
any_rule model (r ∷ rs) = let later = any_rule model rs in if r.0 model then true else later

-- ModelRequiresInjection
unfoldable pub model_requires_injection : String → Bool
unfolding any_rule
model_requires_injection model = any_rule model model_rules

-- `rc.(string)` with a positive length
unfoldable pub has_reasoning : Option Json → Bool
has_reasoning (some (str s)) = not (s == "")
has_reasoning (some null) = false
has_reasoning (some (bool b)) = false
has_reasoning (some (num n)) = false
has_reasoning (some (arr xs)) = false
has_reasoning (some (obj fs)) = false
has_reasoning none = false

-- `toolCalls.([]interface{})` with a positive length
unfoldable pub has_calls : Option Json → Bool
has_calls (some (arr (cons x xs))) = true
has_calls (some (arr nil)) = false
has_calls (some null) = false
has_calls (some (bool b)) = false
has_calls (some (num n)) = false
has_calls (some (str s)) = false
has_calls (some (obj fs)) = false
has_calls none = false

-- shouldInject
unfoldable pub should_inject : String → Option Json → Option Json → Scope → Bool
should_inject role rc calls scope =
    role == "assistant"
    && (not (has_reasoning rc) && elim scope [ tool_calls ↦ has_calls calls | all ↦ true ])

-- Message; a nil interface is `none`.
pub record Message : Type 0 where
  pub role : String
  pub content : Option Json
  pub reasoning_content : Option Json
  pub calls : Option Json
  pub tool_call_id : String
  pub name : String
  pub raw : Fields

-- ChatBody; `options` holds the optional fields that are not nil.
pub record ChatBody : Type 0 where
  pub model : String
  pub messages : List Message
  pub options : Fields
  pub raw : Fields

unfoldable pub inject_message : Scope → Message → Message
inject_message scope m =
    if should_inject m.role m.reasoning_content m.calls scope
    then record m { reasoning_content = some (str " ") }
    else m

-- InjectReasoningContent: `none` where it returns the body that it was given.
unfoldable pub inject_reasoning_content : String → ChatBody → Option ChatBody
unfolding inject_message
inject_reasoning_content model body = elim body.messages [
  | [] ↦ none
  | _ ∷ _ ↦ elim (find_rule model model_rules) [
    | none ↦ none
    | some scope ↦ some (record body { messages = map (inject_message scope) body.messages })
  ]
]
