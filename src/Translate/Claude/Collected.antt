-- ===== src/Translate/Claude/Collected.antt =====
-- internal/translate/claude_request.go: what the loop over the blocks collects.
use opencode_proxy_api.Base.{
  String, ◌&&◌, not, List, [], ◌∷◌, map, ◌==◌, if◌then◌else◌, ◌≡◌, refl, ap, Bool-cases, eq_iff,
  inl, inr,
}
use opencode_proxy_api.Json.{Json, JsonPackage}
use opencode_proxy_api.Translate.Claude.{RawMap, RawPackage}
use opencode_proxy_api.Translate.Claude.Messages.{
  collect_blocks, block_type, call_of_block, result_id, extract_tool_result_text, tool_message,
}

unfoldable pub as_message : String × String → Json
as_message r = tool_message r.0 r.1

module _ (pkg : RawPackage) (json : JsonPackage) where
  -- The tool calls of a message's blocks, and its tool results, of the ones that name a call.
  unfoldable pub calls_in : List RawMap → List Json
  calls_in [] = []
  calls_in (b ∷ bs) =
      let rest = calls_in bs in
      if block_type pkg b == "tool_use" then call_of_block pkg b ∷ rest else rest

  unfoldable pub results_in : List RawMap → List (String × String)
  results_in [] = []
  results_in (b ∷ bs) =
      let rest = results_in bs in
      if block_type pkg b == "tool_result" && not (result_id pkg b == "")
      then (result_id pkg b, extract_tool_result_text pkg b) ∷ rest
      else rest

  pub collect_calls : (bs : List RawMap) → (collect_blocks pkg json bs).calls ≡ calls_in bs
  unfolding collect_blocks calls_in
  collect_calls [] = refl
  collect_calls (b ∷ bs) = elim (Bool-cases (block_type pkg b == "text")) [
    | inl text ↦ rw ((eq_iff (block_type pkg b) "text").0 text) (collect_calls bs)
    | inr other ↦ elim (Bool-cases (block_type pkg b == "tool_use")) [
      | inl used ↦ rw (other, used) (ap (λ cs. call_of_block pkg b ∷ cs) (collect_calls bs))
      | inr no_use ↦ elim (Bool-cases (block_type pkg b == "tool_result")) [
        | inl result ↦ elim (Bool-cases (result_id pkg b == "")) [
          | inl bare ↦ rw (other, no_use, result, bare) (collect_calls bs)
          | inr named ↦ rw (other, no_use, result, named) (collect_calls bs)
        ]
        | inr no_result ↦ rw (other, no_use, no_result) (collect_calls bs)
      ]
    ]
  ]

  pub collect_results :
      (bs : List RawMap) → (collect_blocks pkg json bs).results ≡ map as_message (results_in bs)
  unfolding collect_blocks results_in as_message
  collect_results [] = refl
  collect_results (b ∷ bs) = elim (Bool-cases (block_type pkg b == "text")) [
    | inl text ↦ rw ((eq_iff (block_type pkg b) "text").0 text) (collect_results bs)
    | inr other ↦ elim (Bool-cases (block_type pkg b == "tool_use")) [
      | inl used ↦ rw ((eq_iff (block_type pkg b) "tool_use").0 used) (collect_results bs)
      | inr no_use ↦ elim (Bool-cases (block_type pkg b == "tool_result")) [
        | inl result ↦ elim (Bool-cases (result_id pkg b == "")) [
          | inl bare ↦ rw (other, no_use, result, bare) (collect_results bs)
          | inr named ↦
              rw (other, no_use, result, named)
                (ap (λ rs. as_message (result_id pkg b, extract_tool_result_text pkg b) ∷ rs)
                  (collect_results bs))
        ]
        | inr no_result ↦ rw (other, no_use, no_result) (collect_results bs)
      ]
    ]
  ]
