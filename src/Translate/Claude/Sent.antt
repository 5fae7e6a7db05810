-- ===== src/Translate/Claude/Sent.antt =====
-- internal/translate/claude_request.go: the tool calls and the tool results that go upstream.
use mathlib.Core.List.{append-nil}
use opencode_proxy_api.Base.{
  ℕ, String, true, false, List, [], ◌∷◌, ◌++◌, map, Option, none, some, ◌≡◌, refl, ap, ◌∙◌, sym,
  inl, inr,
}
use opencode_proxy_api.Json.{
  Json, str, arr, obj, Items, nil, cons, Fields, end, field, get, as_string, as_slice, JsonPackage,
}
use opencode_proxy_api.Translate.Claude.{
  RawMap, RawPackage, lookup, string_or_empty, unmarshal_string, unmarshal_maps,
}
use opencode_proxy_api.Translate.Claude.Messages.{
  Blocks, collect_blocks, messages_for, has_tools, slice, tool_message, follow_up, call_fields,
  user_content_message, message,
}
use opencode_proxy_api.Translate.Claude.Kept.{List-cases}
use opencode_proxy_api.Translate.Claude.Request.{rewrite_round}
use opencode_proxy_api.Translate.Claude.Collected.{
  calls_in, results_in, as_message, collect_calls, collect_results,
}

fields_of : Json → Fields
fields_of (obj fs) = fs
fields_of v = end

list_of : Items → List Json
list_of nil = []
list_of (cons x xs) = x ∷ list_of xs

-- The tool calls that a message carries.
message_calls : Json → List Json
unfolding fields_of list_of
message_calls m = elim (as_slice (get "tool_calls" (fields_of m))) [
  | none ↦ []
  | some xs ↦ list_of xs
]

unfoldable pub sent_calls : List Json → List Json
unfolding message_calls
sent_calls [] = []
sent_calls (m ∷ ms) = message_calls m ++ sent_calls ms

text_or_empty : Option String → String
text_or_empty none = ""
text_or_empty (some s) = s

-- The tool result that it carries, with the id of its call.
message_results : Json → List (String × String)
unfolding fields_of text_or_empty
message_results m = elim (as_string (get "tool_call_id" (fields_of m))) [
  | none ↦ []
  | some id ↦ (id, text_or_empty (as_string (get "content" (fields_of m)))) ∷ []
]

unfoldable pub sent_results : List Json → List (String × String)
unfolding message_results
sent_results [] = []
sent_results (m ∷ ms) = message_results m ++ sent_results ms

list_of-slice : (xs : List Json) → list_of (slice xs) ≡ xs
unfolding list_of slice
list_of-slice [] = refl
list_of-slice (x ∷ xs) = ap (λ ys. x ∷ ys) (list_of-slice xs)

kept_calls : (xs : List Json) → list_of (slice xs) ++ [] ≡ xs
kept_calls xs = append-nil (list_of (slice xs)) ∙ list_of-slice xs

module _ (pkg : RawPackage) (json : JsonPackage) where
  follow_up_calls :
      (role : String) (texts : List String) (others : List Json)
      → sent_calls (follow_up pkg json role texts others) ≡ []
  unfolding follow_up sent_calls message_calls user_content_message message get
  follow_up_calls role [] [] = refl
  follow_up_calls role [] (o ∷ os) = refl
  follow_up_calls role (t ∷ ts) [] = refl
  follow_up_calls role (t ∷ ts) (o ∷ os) = refl

  follow_up_results :
      (role : String) (texts : List String) (others : List Json)
      → sent_results (follow_up pkg json role texts others) ≡ []
  unfolding follow_up sent_results message_results user_content_message message get
  follow_up_results role [] [] = refl
  follow_up_results role [] (o ∷ os) = refl
  follow_up_results role (t ∷ ts) [] = refl
  follow_up_results role (t ∷ ts) (o ∷ os) = refl

  results_calls :
      (rs : List (String × String)) (ms : List Json)
      → sent_calls (map as_message rs ++ ms) ≡ sent_calls ms
  unfolding sent_calls message_calls as_message tool_message get
  results_calls [] ms = refl
  results_calls (r ∷ rs) ms = results_calls rs ms

  results_results :
      (rs : List (String × String)) (ms : List Json)
      → sent_results (map as_message rs ++ ms) ≡ rs ++ sent_results ms
  unfolding sent_results message_results as_message tool_message get
  results_results [] ms = refl
  results_results (r ∷ rs) ms = ap (λ xs. r ∷ xs) (results_results rs ms)

  -- Of a list of blocks that holds both, the calls are left out.
  unfoldable pub passed_on : List (String × String) → List Json → List Json
  passed_on [] calls = calls
  passed_on (r ∷ rs) calls = []

  abbrev assistant : List Json → List String → List Json → Json
  assistant calls texts others = obj (
      field "role" (str "assistant")
        (field "tool_calls" (arr (slice calls)) (call_fields pkg json texts others)))

  assistant_calls :
      (calls : List Json) (texts : List String) (others : List Json)
      → sent_calls (assistant calls texts others ∷ []) ≡ calls
  unfolding sent_calls message_calls call_fields get
  assistant_calls calls [] [] = kept_calls calls
  assistant_calls calls [] (o ∷ os) = kept_calls calls
  assistant_calls calls (t ∷ []) [] = kept_calls calls
  assistant_calls calls (t ∷ []) (o ∷ os) = kept_calls calls
  assistant_calls calls (t ∷ u ∷ us) [] = kept_calls calls
  assistant_calls calls (t ∷ u ∷ us) (o ∷ os) = kept_calls calls

  assistant_results :
      (calls : List Json) (texts : List String) (others : List Json)
      → sent_results (assistant calls texts others ∷ []) ≡ []
  unfolding sent_results message_results call_fields get
  assistant_results calls [] [] = refl
  assistant_results calls [] (o ∷ os) = refl
  assistant_results calls (t ∷ []) [] = refl
  assistant_results calls (t ∷ []) (o ∷ os) = refl
  assistant_results calls (t ∷ u ∷ us) [] = refl
  assistant_results calls (t ∷ u ∷ us) (o ∷ os) = refl

  no_tools : (c : Blocks) → c.results ≡ [] → c.calls ≡ [] → has_tools pkg json c ≡ false
  unfolding has_tools
  no_tools c e f = rw (f, e, has_tools) refl

  messages_for-sent :
      (role : String) (msg : RawMap) (c : Blocks) (rs : List (String × String))
      → c.results ≡ map as_message rs
      → has_tools pkg json c ≡ true
      → (sent_results (messages_for pkg json role msg c) ≡ rs)
        × (sent_calls (messages_for pkg json role msg c) ≡ passed_on rs c.calls)
  unfolding messages_for passed_on
  messages_for-sent role msg c [] e h = elim (List-cases c.calls) [
    | inl no_calls ↦ (cc (no_tools c e no_calls), cc (no_tools c e no_calls))
    | inr (t, ts, some_calls) ↦
        rw (e, some_calls)
          (assistant_results (t ∷ ts) c.texts c.others, assistant_calls (t ∷ ts) c.texts c.others)
  ]
  messages_for-sent role msg c (r ∷ rs) e h = rw e (
    results_results (r ∷ rs) (follow_up pkg json role c.texts c.others)
        ∙ ap (λ xs. (r ∷ rs) ++ xs) (follow_up_results role c.texts c.others)
        ∙ append-nil (r ∷ rs),
    results_calls (r ∷ rs) (follow_up pkg json role c.texts c.others)
        ∙ follow_up_calls role c.texts c.others,
  )

  -- A message whose content is a list of blocks, and that is changed: what takes its place carries the
  -- tool results of the blocks that name a call, all of them and in their order, and, only where there
  -- is no such result, all the tool calls in their order.
  pub rewrite_round-sent :
      (now : ℕ) (msg : RawMap) (blocks : List RawMap)
      → unmarshal_string pkg (lookup "content" msg) ≡ none
      → unmarshal_maps pkg (lookup "content" msg) ≡ some blocks
      → (rewrite_round pkg json now msg).1 ≡ true
      → (sent_results (rewrite_round pkg json now msg).0 ≡ results_in pkg json blocks)
        × (sent_calls (rewrite_round pkg json now msg).0
            ≡ passed_on (results_in pkg json blocks) (calls_in pkg json blocks))
  unfolding rewrite_round
  rewrite_round-sent now msg blocks no_text some_blocks h =
      let c = collect_blocks pkg json blocks in
      let role = string_or_empty pkg (lookup "role" msg) in
      let shape : rewrite_round pkg json now msg
          ≡ (messages_for pkg json role msg c, has_tools pkg json c) =
        rw (no_text, some_blocks, rewrite_round) refl in
      let sent =
        messages_for-sent role msg c (results_in pkg json blocks) (collect_results pkg json blocks)
          (sym (ap (λ x. x.1) shape) ∙ h) in
      rw shape (
        sent.0,
        sent.1 ∙ ap (passed_on (results_in pkg json blocks)) (collect_calls pkg json blocks),
      )
