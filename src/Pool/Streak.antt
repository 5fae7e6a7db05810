-- ===== src/Pool/Streak.antt =====
-- Failures in a row, and what brings a proxy back.
use opencode_proxy_api.Base.{
  ℕ, suc, ◌+◌, ◌≤◌, ◌<◌, String, Bool, false, List, [], ◌∷◌, Option, some, length, ◌≡◌, ◌∙◌, arith,
  ℤ, get_or, inl, inr, ◌⊎◌, AllBelow-at,
}
use opencode_proxy_api.Config.Transport.{Net}
use opencode_proxy_api.Pool.{
  ProxyPool, available, mark_failure, failure_at, next_failures, index_of, is_business_error,
}
use opencode_proxy_api.Pool.Invariant.{Counted, IsValid, index_of_lt, mark_failure-IsValid}
use opencode_proxy_api.Pool.Health.{healthy_failed, counts_failed}

-- A call of MarkFailure.
pub record Failure : Type 0 where
  pub now : ℕ
  pub status_code : ℕ
  pub is_network_error : Bool
  pub header : String

module _ (net : Net) (parse_time : String → Option ℤ) (url : String) where
  -- The calls, one after another, for the proxy with this URL.
  unfoldable pub failures : ProxyPool → List Failure → ProxyPool
  failures p [] = p
  failures p (f ∷ fs) =
      failures (mark_failure parse_time p f.now url f.status_code f.is_network_error f.header) fs

  -- All of them count.
  abbrev pub AllCount : List Failure → Type 0
  AllCount [] = Unit
  AllCount (f ∷ fs) = (is_business_error f.status_code f.is_network_error ≡ false) × AllCount fs

  -- The proxy is unhealthy, or it has failed `m` times in a row.
  abbrev Failed : ProxyPool → ℕ → ℕ → Type 0
  Failed p i m = (get_or p.healthy i false ≡ false) ⊎ (m ≤ get_or p.failure_counts i 0)

  proxies-mark_failure :
      (p : ProxyPool) (now status : ℕ) (network : Bool) (header : String)
      → (mark_failure parse_time p now url status network header).proxies ≡ p.proxies
  unfolding mark_failure failure_at
  proxies-mark_failure p now status network header = ground arith

  -- One more failure in a row.
  Failed-step :
      (p : ProxyPool) (now : ℕ) (retry_after : ℤ) (i m : ℕ)
      → IsValid net p
      → i < length p.proxies
      → Failed p i m
      → Failed (failure_at p now retry_after i) i (suc m)
  Failed-step p now ra i m v lt (inl down) =
      inl (healthy_failed net p now ra i v lt ∙ rw down (ground arith))
  Failed-step p now ra i m v lt (inr many) = elim (AllBelow-at (Counted p) _ i v.counted lt) [
    | inl down ↦ inl (healthy_failed net p now ra i v lt ∙ rw down (ground arith))
    | inr few ↦ inr (rw (counts_failed net p now ra i v lt) (unfold next_failures in omega arith))
  ]

  three_failures_from :
      (p : ProxyPool) (fs : List Failure) (i m : ℕ)
      → IsValid net p
      → index_of url p.proxies ≡ some i
      → AllCount fs
      → Failed p i m
      → 3 ≤ m + length fs
      → get_or (failures p fs).healthy i false ≡ false
  unfolding failures mark_failure
  three_failures_from p [] i m v found counted (inl down) h = down
  three_failures_from p [] i m v found counted (inr many) h =
      elim (AllBelow-at (Counted p) _ i v.counted (index_of_lt url p.proxies i found)) [
        | inl down ↦ down
        | inr few ↦ absurd (omega arith)
      ]
  three_failures_from p (f ∷ fs) i m v found (real, counted) failed h =
      three_failures_from
        (mark_failure parse_time p f.now url f.status_code f.is_network_error f.header) fs i (suc m)
        (mark_failure-IsValid net parse_time p f.now url f.status_code f.is_network_error f.header
          v)
        (rw (proxies-mark_failure p f.now f.status_code f.is_network_error f.header) found) counted
        (rw (found, real, mark_failure)
          (Failed-step p f.now _ i m v (index_of_lt url p.proxies i found) failed))
        (omega arith)

  -- After three failures in a row that count, or more, whatever came before, the proxy is not
  -- available at any time.
  pub three_failures :
      (p : ProxyPool) (fs : List Failure) (i t : ℕ)
      → IsValid net p
      → index_of url p.proxies ≡ some i
      → AllCount fs
      → 3 ≤ length fs
      → available (failures p fs) t i ≡ false
  unfolding available
  three_failures p fs i t v found counted h =
      rw (three_failures_from p fs i 0 v found counted (inr (omega arith)) (omega arith))
