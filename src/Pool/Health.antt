-- ===== src/Pool/Health.antt =====
-- What failures and successes do to the availability of a proxy.
use native.Mathlib.Decide.{dec_lt}
use opencode_proxy_api.Base.{
  ℕ, ◌+◌, ◌-◌, ◌^◌, ◌≤◌, ◌<◌, String, Bool, true, false, Option, some, length, ◌≡◌, ◌≢◌, refl, ap,
  ◌∙◌, arith, ℤ, pos, negsuc, get_or, get_or-set_self, get_or-set_ne, leb, if◌then◌else◌,
  Bool-cases, inl, inr, ◌⊎◌, to_int64, to_int64_of_small, to_int64_of_large, ◌≤ℤ◌,
}
use opencode_proxy_api.Retry.{exponent, exponential_backoff, parse_retry_after}
use opencode_proxy_api.Retry.Bounds.{backoff_monotone}
use opencode_proxy_api.Config.Transport.{Net}
use opencode_proxy_api.Pool.{
  ProxyPool, available, mark_success, mark_failure, success_at, failure_at, next_failures, index_of,
  is_business_error, after, backoff_of, base_delay, max_delay,
}
use opencode_proxy_api.Pool.Invariant.{IsValid, index_of_lt}

success_available :
    (net : Net) (p : ProxyPool) (i t : ℕ)
    → IsValid net p
    → i < length p.proxies
    → available (success_at p i) t i ≡ true
unfolding success_at available
success_available net p i t v lt =
    rw
      (
        get_or-set_self p.healthy i true false (omega (arith, v.healthy_length)),
        get_or-set_self p.cooldown_until i (pos 0) (pos 0) (omega (arith, v.cooldown_length)),
      )
      (ground arith)

-- Marking a success makes the first proxy with that URL available at every time.
mark_success_recovers :
    (net : Net) (p : ProxyPool) (url : String) (i t : ℕ)
    → IsValid net p
    → index_of url p.proxies ≡ some i
    → available (mark_success p url) t i ≡ true
unfolding mark_success
mark_success_recovers net p url i t v found =
    rw (found, mark_success) (success_available net p i t v (index_of_lt url p.proxies i found))

eq-pos_of_nonneg : (z : ℤ) → pos 0 ≤ℤ z → (n : ℕ) × (z ≡ pos n)
eq-pos_of_nonneg (pos n) h = (n, refl)
eq-pos_of_nonneg (negsuc n) h = absurd (omega arith)

first_backoff : exponential_backoff 1 base_delay max_delay ≡ pos base_delay
unfolding exponential_backoff exponent to_int64
first_backoff = refl

backoff_range :
    (failures : ℕ)
    → 0 < failures
    → (e : ℕ) × (exponential_backoff failures base_delay max_delay ≡ pos e)
      × (base_delay ≤ e)
      × (e ≤ max_delay)
backoff_range failures h =
    let (lo, _, _) = backoff_monotone 1 failures base_delay max_delay h (omega arith) in
    let (_, nonneg, hi) =
      backoff_monotone failures failures base_delay max_delay (omega arith) (omega arith) in
    let (e, same) = eq-pos_of_nonneg (exponential_backoff failures base_delay max_delay) nonneg in
    let lo' : pos base_delay ≤ℤ pos e = rw (first_backoff, same) at lo in
    let hi' : pos e ≤ℤ pos max_delay = rw same at hi in
    (e, same, omega (arith, lo'), omega (arith, hi'))

-- A wait of at least the base delay and of the header's, and no longer than one of them requires.
backoff_value :
    (failures r : ℕ)
    → 0 < failures
    → (b : ℕ) × (backoff_of failures (pos r) ≡ pos b)
      × (base_delay ≤ b)
      × (r ≤ b)
      × ((b ≤ max_delay) ⊎ (b ≡ r))
unfolding backoff_of
backoff_value failures r h =
    let (e, same, lo, hi) = backoff_range failures h in
    elim (dec_lt e r) [
      | yes longer ↦ (r, rw same (ground arith), omega arith, omega arith, inr refl)
      | no shorter ↦ (e, rw same (ground arith), lo, omega arith, inl hi)
    ]

-- After a failure of the proxy at `i`.
module _ (net : Net) (p : ProxyPool) (now : ℕ) (retry_after : ℤ) (i : ℕ) (v : IsValid net p)
    (lt : i < length p.proxies) where
  abbrev pub failed : ProxyPool
  failed = failure_at p now retry_after i

  cooldown_failed :
      get_or failed.cooldown_until i (pos 0)
      ≡ after now (backoff_of (next_failures p i) retry_after)
  unfolding failure_at
  cooldown_failed = get_or-set_self p.cooldown_until i _ (pos 0) (omega (arith, v.cooldown_length))

  pub healthy_failed :
      get_or failed.healthy i false
      ≡ (if leb 3 (next_failures p i) then false else get_or p.healthy i false)
  unfolding failure_at
  healthy_failed = elim (Bool-cases (leb 3 (next_failures p i))) [
    | inl many ↦ rw many (get_or-set_self p.healthy i false false (omega (arith, v.healthy_length)))
    | inr few ↦ rw few
  ]

  pub counts_failed : get_or failed.failure_counts i 0 ≡ next_failures p i
  unfolding failure_at
  counts_failed = get_or-set_self p.failure_counts i _ 0 (omega (arith, v.counts_length))

  pub healthy_elsewhere : (j : ℕ) → i ≢ j → get_or failed.healthy j false ≡ get_or p.healthy j false
  unfolding failure_at
  healthy_elsewhere j ne = elim (Bool-cases (leb 3 (next_failures p i))) [
    | inl many ↦ rw (many, get_or-set_ne p.healthy i j false false ne)
    | inr few ↦ rw few
  ]

  pub failed_elsewhere : (j t : ℕ) → i ≢ j → available failed t j ≡ available p t j
  unfolding failure_at available
  failed_elsewhere j t ne = elim (Bool-cases (leb 3 (next_failures p i))) [
    | inl many ↦ rw (
      many,
      get_or-set_ne p.cooldown_until i j _ (pos 0) ne,
      get_or-set_ne p.healthy i j false false ne,
    )
    | inr few ↦ rw (few, get_or-set_ne p.cooldown_until i j _ (pos 0) ne)
  ]

  -- The end of the cooldown, where it fits an int64.
  cooldown_until_failed :
      (b : ℕ)
      → backoff_of (next_failures p i) retry_after ≡ pos b
      → now + b < 2 ^ 63
      → get_or failed.cooldown_until i (pos 0) ≡ pos (now + b)
  unfolding after
  cooldown_until_failed b e o = cooldown_failed ∙ rw e (to_int64_of_small (now + b) o)

  cooling :
      (b t : ℕ)
      → backoff_of (next_failures p i) retry_after ≡ pos b
      → now + b < 2 ^ 63
      → t < now + b
      → available failed t i ≡ false
  unfolding available
  cooling b t e o early = rw (cooldown_until_failed b e o) (ground arith)

  no_cooling :
      (b t : ℕ)
      → backoff_of (next_failures p i) retry_after ≡ pos b
      → 2 ^ 63 ≤ now + b
      → now + b < 2 ^ 64
      → get_or p.healthy i false ≡ true
      → leb 3 (next_failures p i) ≡ false
      → available failed t i ≡ true
  unfolding available after
  no_cooling b t e o o' up few =
      let over : get_or failed.cooldown_until i (pos 0) ≡ negsuc (2 ^ 64 - 1 - (now + b)) =
        cooldown_failed ∙ rw e (to_int64_of_large (now + b) o o') in
      rw (over, healthy_failed, few, up) (ground arith)

-- After a failure that counts, the proxy is not available for the base delay of 15 seconds, nor for
-- the time that the Retry-After header asks for, as long as these times fit an int64 clock.
pub failure_cooldown :
    (net : Net) (parse_time : String → Option ℤ) (p : ProxyPool) (now : ℕ) (url : String)
    (status : ℕ) (network : Bool) (header : String) (i r t : ℕ)
    → IsValid net p
    → index_of url p.proxies ≡ some i
    → is_business_error status network ≡ false
    → parse_retry_after parse_time now header ≡ pos r
    → get_or p.failure_counts i 0 + 1 < 2 ^ 32
    → now + max_delay < 2 ^ 63
    → now + r < 2 ^ 63
    → (t < now + base_delay) ⊎ (t < now + r)
    → available (mark_failure parse_time p now url status network header) t i ≡ false
unfolding mark_failure
failure_cooldown net parse_time p now url status network header i r t v found real parsed few o o'
      early =
    let lt = index_of_lt url p.proxies i found in
    let (b, e, lo, long, short) =
      backoff_value (next_failures p i) r (unfold next_failures in omega arith) in
    rw (found, real, parsed, mark_failure)
      (cooling net p now (pos r) i v lt b t e (omega arith) (omega arith))

-- A Retry-After delay that passes the end of the int64 clock, after the first or second failure in
-- a row, leaves the proxy available at every time: there is no cooldown at all.
failure_no_cooldown :
    (net : Net) (parse_time : String → Option ℤ) (p : ProxyPool) (now : ℕ) (url : String)
    (status : ℕ) (network : Bool) (header : String) (i r t : ℕ)
    → IsValid net p
    → index_of url p.proxies ≡ some i
    → is_business_error status network ≡ false
    → parse_retry_after parse_time now header ≡ pos r
    → get_or p.healthy i false ≡ true
    → get_or p.failure_counts i 0 < 2
    → max_delay < r
    → 2 ^ 63 ≤ now + r
    → now + r < 2 ^ 64
    → available (mark_failure parse_time p now url status network header) t i ≡ true
unfolding mark_failure
failure_no_cooldown net parse_time p now url status network header i r t v found real parsed up few
      long o o' =
    let lt = index_of_lt url p.proxies i found in
    let (b, e, lo, covers, short) =
      backoff_value (next_failures p i) r (unfold next_failures in omega arith) in
    let e' : backoff_of (next_failures p i) (pos r) ≡ pos r = e ∙ ap pos (omega arith) in
    rw (found, real, parsed, mark_failure)
      (no_cooling net p now (pos r) i v lt r t e' o o' up (unfold next_failures in ground arith))
