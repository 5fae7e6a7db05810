-- ===== src/Translate/Dsml/Ids.antt =====
-- internal/translate/dsml.go: the ids of the tool calls.
use text.Mathlib.TextLemmas.{append_cancel_left}
use opencode_proxy_api.Base.{ℕ, ◌+◌, ◌<◌, ◌^◌, length, String, List, [], ◌∷◌, ◌≢◌, All, arith}
use opencode_proxy_api.Base.Text.{decimal}
use opencode_proxy_api.Base.Decimal.{decimal_inj}
use opencode_proxy_api.Json.{Json, get}
use opencode_proxy_api.Translate.Dsml.{DsmlCall, text_at}
use opencode_proxy_api.Translate.Dsml.Message.{dsml_id, tool_blocks}
use opencode_proxy_api.Translate.Dsml.Protocol.{event_fields}

dsml_id-ne : (i j : ℕ) → i < j → j < 10 ^ 19 → dsml_id i ≢ dsml_id j
unfolding dsml_id
dsml_id-ne i j lt small e = absurd (
    omega (
      arith,
      lt,
      decimal_inj 18 i j (omega arith) small
          (append_cancel_left "toolu_dsml_" (decimal 19 i) (decimal 19 j) e),
    ))

-- The ids of tool_use blocks.
unfoldable pub block_ids : List Json → List String
block_ids [] = []
block_ids (b ∷ bs) = text_at "id" (event_fields b) ∷ block_ids bs

-- No id stands twice in the list.
unfoldable pub Distinct : List String → Type 0
Distinct [] = Unit
Distinct (s ∷ ss) = All (λ t. s ≢ t) ss × Distinct ss

later_ids :
    (i j : ℕ) (calls : List DsmlCall)
    → i < j
    → j + length calls < 10 ^ 19
    → All (λ t. dsml_id i ≢ t) (block_ids (tool_blocks j calls))
unfolding block_ids tool_blocks text_at get
later_ids i j [] lt small = tt
later_ids i j (c ∷ cs) lt small = (
  dsml_id-ne i j lt (omega (arith, small)),
  later_ids i (j + 1) cs (omega (arith, lt)) (omega (arith, small)),
)

-- The tool_use blocks that replace the calls of a message have different ids.
pub tool_blocks-Distinct :
    (i : ℕ) (calls : List DsmlCall)
    → i + length calls < 10 ^ 19
    → Distinct (block_ids (tool_blocks i calls))
unfolding Distinct block_ids tool_blocks text_at get
tool_blocks-Distinct i [] small = tt
tool_blocks-Distinct i (c ∷ cs) small = (
  later_ids i (i + 1) cs (omega arith) (omega (arith, small)),
  tool_blocks-Distinct (i + 1) cs (omega (arith, small)),
)
