-- ===== src/Handler/Logged.antt =====
-- internal/proxy/respond.go: the bodies in the log.
use mathlib.Core.Path.{subst, sym}
use native.Mathlib.Decide.{ℕ_discrete}
use opencode_proxy_api.Base.{
  ℕ, zero, suc, ◌≤◌, ◌<◌, length, take, String, Bool, true, false, ◌||◌, List, [], ◌++◌, Option,
  none, some, ltb, leb, if◌then◌else◌, ◌≡◌, refl, ap, arith, Bool-cases, inl, inr,
}
use opencode_proxy_api.Base.Text.{trim_space}
use opencode_proxy_api.Base.Fnv.{bytes}

abbrev pub max_error_body_log : ℕ
max_error_body_log = 512

-- What is written of a body that upstream rejects: its status, whether it is JSON, and its text.
pub record Rejected : Type 0 where
  pub status : ℕ
  pub valid_json : Bool
  pub request_body : List ℕ

-- `valid` is utf8.ValidString.
module _ (valid : List ℕ → Bool) where
  -- The loop that drops bytes from the end, of a prefix of `n` bytes.
  unfoldable pub shorten : ℕ → List ℕ → List ℕ
  shorten zero bs = []
  shorten (suc n) bs =
      let shorter = shorten n bs in if valid (take (suc n) bs) then take (suc n) bs else shorter

  -- truncateBody
  unfoldable pub truncate_body : String → List ℕ
  truncate_body s =
      let bs = bytes (trim_space s) in
      if leb (length bs) max_error_body_log
      then bs
      else shorten max_error_body_log bs ++ bytes "...(truncated)"

  -- logRejectedRequest, with json.Valid.
  unfoldable pub log_rejected_request : (String → Bool) → ℕ → String → Option Rejected
  log_rejected_request json_valid status body =
      if ltb status 400 || leb 500 status
      then none
      else some (record {
        status = status;
        valid_json = json_valid body;
        request_body = truncate_body body;
      })

  -- The longest prefix, of at most `n` bytes, that is valid.
  abbrev pub IsLongest : ℕ → List ℕ → ℕ → Type 0
  IsLongest n bs k =
      (k ≤ n) × (valid (take k bs) ≡ true) × ((j : ℕ) → k < j → j ≤ n → valid (take j bs) ≡ false)

  later :
      (n k j : ℕ) (bs : List ℕ)
      → valid (take (suc n) bs) ≡ false
      → ((i : ℕ) → k < i → i ≤ n → valid (take i bs) ≡ false)
      → k < j
      → j ≤ suc n
      → valid (take j bs) ≡ false
  later n k j bs broken none_longer lt le = elim (ℕ_discrete j (suc n)) [
    | yes e ↦ subst (λ i. valid (take i bs) ≡ false) (sym e) broken
    | no ne ↦ none_longer j lt (omega arith)
  ]

  shorten-IsLongest :
      (n : ℕ) (bs : List ℕ)
      → valid [] ≡ true
      → (k : ℕ) × (shorten n bs ≡ take k bs) × IsLongest n bs k
  unfolding shorten
  shorten-IsLongest zero bs h =
      (0, refl, (omega arith, h, λ j lt le. absurd (omega (arith, lt, le))))
  shorten-IsLongest (suc n) bs h = elim (Bool-cases (valid (take (suc n) bs))) [
    | inl whole ↦ (
      suc n,
      rw (whole, shorten) refl,
      (omega arith, whole, λ j lt le. absurd (omega (arith, lt, le))),
    )
    | inr broken ↦
        let (k, same, (le, is_valid, none_longer)) = shorten-IsLongest n bs h in
        (
          k,
          rw (broken, shorten) same,
          (omega (arith, le), is_valid, λ j lt le_j. later n k j bs broken none_longer lt le_j),
        )
  ]

  too_long :
      (bs : List ℕ) → max_error_body_log < length bs → leb (length bs) max_error_body_log ≡ false
  too_long bs h = ground (arith, h)

  -- A body of more than 512 bytes is logged as its longest valid prefix of at most 512 bytes, with a
  -- mark, where the empty text is valid.
  pub truncate_body-IsLongest :
      (s : String)
      → valid [] ≡ true
      → max_error_body_log < length (bytes (trim_space s))
      → (k : ℕ) × (truncate_body s ≡ take k (bytes (trim_space s)) ++ bytes "...(truncated)")
        × IsLongest max_error_body_log (bytes (trim_space s)) k
  unfolding truncate_body
  truncate_body-IsLongest s h long =
      let (k, same, longest) = shorten-IsLongest max_error_body_log (bytes (trim_space s)) h in
      (
        k,
        rw (too_long (bytes (trim_space s)) long, truncate_body)
            (ap (λ bs. bs ++ bytes "...(truncated)") same),
        longest,
      )
