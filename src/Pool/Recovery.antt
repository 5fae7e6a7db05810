-- ===== src/Pool/Recovery.antt =====
-- An unhealthy proxy comes back by MarkSuccess alone.
use mathlib.Core.Path.{subst}
use native.Mathlib.Decide.{ℕ_discrete}
use opencode_proxy_api.Base.{
  ℕ, ◌<◌, String, Bool, false, true, List, [], ◌∷◌, Option, some, length, ◌≡◌, ◌≢◌, refl, ap, ◌∙◌,
  arith, ok, inl, inr, ℤ, get_or, get_or-set_ne, Option-cases, Bool-cases,
}
use opencode_proxy_api.Retry.{parse_retry_after}
use opencode_proxy_api.Config.Transport.{Net}
use opencode_proxy_api.Pool.{
  ProxyPool, available, mark_success, mark_failure, success_at, failure_at, index_of,
  is_business_error,
}
use opencode_proxy_api.Pool.Invariant.{
  IsValid, index_of_lt, mark_success-IsValid, mark_failure-IsValid,
}
use opencode_proxy_api.Pool.Steps.{rotate_lem}
use opencode_proxy_api.Pool.Affinity.{rotate_kept}
use opencode_proxy_api.Pool.Health.{healthy_failed, healthy_elsewhere}
use opencode_proxy_api.Pool.Runs.{
  Op, success, failure, rotation, request, apply, run, apply_request,
}

-- No operation of the list marks a success of the proxy at `i`.
abbrev pub NoSuccess : List String → ℕ → List Op → Type 0
NoSuccess proxies i [] = Unit
NoSuccess proxies i (success url ∷ ops) = (index_of url proxies ≢ some i) × NoSuccess proxies i ops
NoSuccess proxies i (failure _ _ _ _ _ ∷ ops) = NoSuccess proxies i ops
NoSuccess proxies i (rotation ∷ ops) = NoSuccess proxies i ops
NoSuccess proxies i (request _ _ ∷ ops) = NoSuccess proxies i ops

module _ (net : Net) (parse_time : String → Option ℤ) (i : ℕ) where
  -- The proxies are those given, and the one at `i` is unhealthy.
  record IsDown (proxies : List String) (p : ProxyPool) : Type 0 where
    valid : IsValid net p
    same : p.proxies ≡ proxies
    down : get_or p.healthy i false ≡ false

  IsDown-success :
      (p : ProxyPool) (url : String) (proxies : List String)
      → IsDown proxies p
      → index_of url proxies ≢ some i
      → IsDown proxies (mark_success p url)
  unfolding mark_success success_at
  IsDown-success p url proxies d other = elim (Option-cases (index_of url p.proxies)) [
    | inl gone ↦ rw (gone, mark_success) d
    | inr (j, found) ↦
        let ne : j ≢ i = λ e. other (rw (← d.same) (found ∙ ap some e)) in
        record {
          valid = mark_success-IsValid net parse_time p url d.valid;
          same = rw (found, mark_success) d.same;
          down = rw (found, mark_success) (get_or-set_ne p.healthy j i true false ne ∙ d.down);
        }
  ]

  down_failed :
      (p : ProxyPool) (now : ℕ) (retry_after : ℤ) (j : ℕ)
      → IsValid net p
      → j < length p.proxies
      → get_or p.healthy i false ≡ false
      → get_or (failure_at p now retry_after j).healthy i false ≡ false
  down_failed p now ra j v lt down = elim (ℕ_discrete j i) [
    | yes e ↦
        subst (λ k. get_or (failure_at p now ra j).healthy k false ≡ false) e
          (healthy_failed net p now ra j v lt ∙ rw (e, down) (ground arith))
    | no ne ↦ healthy_elsewhere net p now ra j v lt i ne ∙ down
  ]

  IsDown-failure :
      (p : ProxyPool) (now : ℕ) (url : String) (status : ℕ) (network : Bool) (header : String)
      (proxies : List String)
      → IsDown proxies p
      → IsDown proxies (mark_failure parse_time p now url status network header)
  unfolding mark_failure failure_at
  IsDown-failure p now url status network header proxies d =
      elim (Bool-cases (is_business_error status network)) [
        | inl business ↦ rw (business, mark_failure) d
        | inr real ↦ elim (Option-cases (index_of url p.proxies)) [
          | inl gone ↦ rw (real, gone, mark_failure) d
          | inr (j, found) ↦
              let lt = index_of_lt url p.proxies j found in
              record {
                valid = mark_failure-IsValid net parse_time p now url status network header d.valid;
                same = rw (real, found, mark_failure) d.same;
                down =
                    rw (real, found, mark_failure)
                      (down_failed p now (parse_retry_after parse_time now header) j d.valid lt
                        d.down);
              }
        ]
      ]

  -- What one operation leaves.
  IsDown-apply :
      (p : ProxyPool) (op : Op) (ops : List Op) (proxies : List String)
      → IsDown proxies p
      → NoSuccess proxies i (op ∷ ops)
      → (q : ProxyPool) × (apply net parse_time p op ≡ ok q)
        × IsDown proxies q
        × NoSuccess proxies i ops
  unfolding apply
  IsDown-apply p (success url) ops proxies d (other, rest) =
      (mark_success p url, refl, IsDown-success p url proxies d other, rest)
  IsDown-apply p (failure now url status network header) ops proxies d rest =
      (_, refl, IsDown-failure p now url status network header proxies d, rest)
  IsDown-apply p rotation ops proxies d rest =
      let (q, url, e, w, _, _) = rotate_lem net p d.valid in
      let kept = rotate_kept p q url e in
      (
        q,
        rw (e, apply),
        record {
          valid = w;
          same = ap (λ (r : ProxyPool). r.proxies) kept ∙ d.same;
          down = ap (λ (r : ProxyPool). get_or r.healthy i false) kept ∙ d.down;
        },
        rest,
      )
  IsDown-apply p (request now session) ops proxies d rest =
      let (q, e, w, kept) = apply_request net parse_time p now session d.valid in
      (
        q,
        e,
        record {
          valid = w;
          same = ap (λ (r : ProxyPool). r.proxies) kept ∙ d.same;
          down = ap (λ (r : ProxyPool). get_or r.healthy i false) kept ∙ d.down;
        },
        rest,
      )

  IsDown-run :
      (p : ProxyPool) (ops : List Op) (proxies : List String)
      → IsDown proxies p
      → NoSuccess proxies i ops
      → (q : ProxyPool) × (run net parse_time p ops ≡ ok q) × IsDown proxies q
  unfolding run
  IsDown-run p [] proxies d rest = (p, refl, d)
  IsDown-run p (op ∷ ops) proxies d rest =
      let (q, e, d', rest') = IsDown-apply p op ops proxies d rest in
      let (r, e', d'') = IsDown-run q ops proxies d' rest' in (r, rw (e, run) e', d'')

  -- An unhealthy proxy stays unavailable, at every later time and after any operations, as long as
  -- none of them marks a success of it: the end of its cooldown does not bring it back.
  only_success_recovers :
      (p : ProxyPool) (ops : List Op) (t : ℕ)
      → IsValid net p
      → get_or p.healthy i false ≡ false
      → NoSuccess p.proxies i ops
      → (q : ProxyPool) × (run net parse_time p ops ≡ ok q) × (available q t i ≡ false)
  unfolding available
  only_success_recovers p ops t v down rest =
      let (q, e, d) =
        IsDown-run p ops p.proxies (record { valid = v; same = refl; down = down }) rest in
      (q, e, rw d.down)
