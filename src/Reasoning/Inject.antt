-- ===== src/Reasoning/Inject.antt =====
-- InjectReasoningContent: which messages it changes, and that it is complete.
use opencode_proxy_api.Base.{
  All, String, Bool, true, false, ◌||◌, not, List, [], ◌∷◌, none, some, ◌==◌, ◌≡◌, ◌≢◌, refl, ◌∙◌,
  ap, arith, map, Bool-cases, Option-cases, inl, inr,
}
use opencode_proxy_api.Reasoning.{
  Message, ChatBody, Scope, all, should_inject, has_reasoning, inject_message, find_rule, any_rule,
  model_rules, model_requires_injection, inject_reasoning_content, contains_fold, has_prefix_fold,
}

any_rule-none :
    (model : String) (rules : List ((String → Bool) × Scope))
    → any_rule model rules ≡ false
    → find_rule model rules ≡ none
unfolding any_rule find_rule
any_rule-none model [] h = refl
any_rule-none model (r ∷ rs) h = elim (Bool-cases (r.0 model)) [
  | inl hit ↦ cc (rw hit at h)
  | inr miss ↦ rw miss (any_rule-none model rs (rw miss at h))
]

-- A model that fails the fast check of tryInjectReasoning would have been left alone anyway.
fast_check_sound :
    (model : String) (body : ChatBody)
    → model_requires_injection model ≡ false
    → inject_reasoning_content model body ≡ none
unfolding model_requires_injection inject_reasoning_content
fast_check_sound model body h = ground (arith, any_rule-none model model_rules h)

inject_message_idem :
    (scope : Scope) (m : Message)
    → inject_message scope (inject_message scope m) ≡ inject_message scope m
unfolding inject_message should_inject has_reasoning
inject_message_idem scope m = ground arith

-- What else a message holds.
abbrev pub without_reasoning : Message → Message
without_reasoning m = record m { reasoning_content = none }

inject_message_keeps :
    (scope : Scope) (m : Message) → without_reasoning (inject_message scope m) ≡ without_reasoning m
unfolding inject_message
inject_message_keeps scope m = ground arith

-- An assistant message has reasoning content, any other message whatever it has.
abbrev pub IsReady : Message → Type 0
IsReady m = (not (m.role == "assistant") || has_reasoning m.reasoning_content) ≡ true

inject_message-IsReady : (m : Message) → IsReady (inject_message all m)
unfolding inject_message should_inject has_reasoning
inject_message-IsReady m = ground arith

module _ (scope : Scope) where
  map_idem :
      (ms : List Message)
      → map (inject_message scope) (map (inject_message scope) ms) ≡ map (inject_message scope) ms
  map_idem [] = refl
  map_idem (m ∷ ms) = cc (inject_message_idem scope m, map_idem ms)

  map_keeps :
      (ms : List Message)
      → map without_reasoning (map (inject_message scope) ms) ≡ map without_reasoning ms
  map_keeps [] = refl
  map_keeps (m ∷ ms) = cc (inject_message_keeps scope m, map_keeps ms)

map-IsReady : (ms : List Message) → All IsReady (map (inject_message all) ms)
map-IsReady [] = tt
map-IsReady (m ∷ ms) = (inject_message-IsReady m, map-IsReady ms)

inject_form :
    (model : String) (body out : ChatBody)
    → inject_reasoning_content model body ≡ some out
    → (scope : Scope) × (find_rule model model_rules ≡ some scope)
      × (out ≡ record body { messages = map (inject_message scope) body.messages })
      × (body.messages ≢ [])
unfolding inject_reasoning_content
inject_form model body out e = elim (Option-cases (find_rule model model_rules)) [
  | inl no_rule ↦ ground arith
  | inr (scope, rule) ↦ (scope, rule, ground arith, ground arith)
]

inject_some :
    (model : String) (body : ChatBody) (scope : Scope)
    → find_rule model model_rules ≡ some scope
    → (ms : List Message) → body.messages ≡ ms
    → ms ≢ []
    → inject_reasoning_content model body
      ≡ some (record body { messages = map (inject_message scope) body.messages })
unfolding inject_reasoning_content inject_message should_inject has_reasoning
inject_some model body scope rule [] e filled = absurd (filled refl)
inject_some model body scope rule (m ∷ ms) e filled =
    rw (e, inject_reasoning_content)
      (rw rule (ap (λ xs. some (record body { messages = map (inject_message scope) xs })) e))

-- The injection changes nothing but the reasoning content of messages: the model, the options, the
-- unknown fields and, of each message, everything else stay, in the same order.
inject_keeps :
    (model : String) (body out : ChatBody)
    → inject_reasoning_content model body ≡ some out
    → (out.model ≡ body.model)
      × (out.options ≡ body.options)
      × (out.raw ≡ body.raw)
      × (map without_reasoning out.messages ≡ map without_reasoning body.messages)
inject_keeps model body out e =
    let (scope, rule, same, _) = inject_form model body out e in
    (
      ap (λ (b : ChatBody). b.model) same,
      ap (λ (b : ChatBody). b.options) same,
      ap (λ (b : ChatBody). b.raw) same,
      ap (λ (b : ChatBody). map without_reasoning b.messages) same ∙ map_keeps scope body.messages,
    )

-- A second injection changes nothing more.
inject_idempotent :
    (model : String) (body out : ChatBody)
    → inject_reasoning_content model body ≡ some out
    → inject_reasoning_content model out ≡ some out
unfolding inject_reasoning_content
inject_idempotent model body out e =
    let (scope, rule, same, filled) = inject_form model body out e in
    ground (arith, rule, same, map_idem scope body.messages)

-- For a DeepSeek model that is not named like a Kimi one, the injection returns a body whenever there
-- are messages, and every assistant message of the body that it returns has reasoning content.
pub inject_deepseek-IsReady :
    (model : String) (body : ChatBody)
    → has_prefix_fold model "kimi-" ≡ false
    → contains_fold model "deepseek" ≡ true
    → body.messages ≢ []
    → (out : ChatBody) × (inject_reasoning_content model body ≡ some out) × All IsReady out.messages
unfolding find_rule model_rules
inject_deepseek-IsReady model body other deep filled =
    let rule : find_rule model model_rules ≡ some all = ground arith in
    (
      record body { messages = map (inject_message all) body.messages },
      inject_some model body all rule body.messages refl filled,
      map-IsReady body.messages,
    )
