-- ===== src/Pool.antt =====
-- config/proxy_pool.go: the pool of proxies, its health tracking and session affinity. A nil
-- *ProxyPool is `none`. Each operation is one critical section, run at the time `now`, in
-- nanoseconds since 1970; a call reads the clock once. The slices of a pool have equal lengths
-- (`Pool.Invariant`), so a read out of range, which does not happen, is given a default.
pub mod Select
pub mod Load
pub mod Invariant
pub mod Steps
pub mod Streak
pub mod Status
pub mod Recovery
pub mod Runs
pub mod Clients
pub mod Health
pub mod Elsewhere
pub mod Affinity
use opencode_proxy_api.Base.{
  ℕ, zero, suc, ◌+◌, ◌-◌, ◌*◌, ◌%◌, ◌^◌, String, Bool, true, false, ◌&&◌, not, Option, none, some,
  List, [], ◌∷◌, ltb, leb, eqb, if◌then◌else◌, ◌==◌, length, get_or, set, Result, ok, err, panic,
  ◌>>=◌, index,
}
use opencode_proxy_api.Base.{ℤ, pos, negsuc, pos_part, neg_part, sub_ℕ, leb_ℤ, ltb_ℤ, to_int64}
use opencode_proxy_api.Base.Fnv.{sum64}
use opencode_proxy_api.Retry.{second, parse_retry_after, exponential_backoff}
use opencode_proxy_api.Config.Transport.{Client, Net, new_http_client}

pub record ProxyPool : Type 0 where
  pub proxies : List String
  pub current : ℕ
  pub healthy : List Bool
  pub failure_counts : List ℕ
  pub cooldown_until : List ℤ
  pub client_cache : List (Option Client)
  pub force_ipv6 : Bool
  pub timeout : ℤ

-- Current, of a pool that is not nil.
unfoldable pub current_of : ProxyPool → Result String
current_of p = index p.proxies p.current

-- Current
unfoldable pub current : Option ProxyPool → Result String
unfolding current_of
current none = ok ""
current (some p) = current_of p

-- Rotate: the new pool and its active proxy. `%` by an empty pool's length panics.
unfoldable pub rotate : ProxyPool → Result (ProxyPool × String)
rotate p =
    if eqb (length p.proxies) 0
    then panic
    else (let next = (p.current + 1) % length p.proxies in
        do url ← index p.proxies next; ok (record p { current = next }, url))

-- `healthy[i]` and a cooldown that is over.
unfoldable pub available : ProxyPool → ℕ → ℕ → Bool
available p now i = get_or p.healthy i false && leb_ℤ (get_or p.cooldown_until i (pos 0)) (pos now)

-- The fallback loop of ClientForSession, from its `i`-th round, with `rounds` of them left.
unfoldable pub fallback : ProxyPool → ℕ → ℕ → ℕ → ℕ → Option ℕ
fallback p now preferred zero i = none
fallback p now preferred (suc rounds) i =
    let idx = (preferred + i) % length p.proxies in
    let rest = fallback p now preferred rounds (i + 1) in
    if available p now idx then some idx else rest

-- The index that ClientForSession settles on.
unfoldable pub select_index : ProxyPool → ℕ → ℕ → ℕ
select_index p now preferred =
    if available p now preferred
    then preferred
    else elim (fallback p now preferred (length p.proxies) 0) [ none ↦ preferred | some idx ↦ idx ]

-- The index that a session hashes to.
unfoldable pub preferred_index : ProxyPool → String → ℕ
preferred_index p session = sum64 session % length p.proxies

-- `if proxy == proxyURL` over the proxies.
unfoldable pub index_of : String → List String → Option ℕ
index_of url [] = none
index_of url (x ∷ xs) =
    let rest = index_of url xs in
    if x == url then some 0 else elim rest [ none ↦ none | some i ↦ some (suc i) ]

-- invalidateCache
unfoldable pub invalidate_cache : ProxyPool → ℕ → ProxyPool
invalidate_cache p i = record p { client_cache = set p.client_cache i none }

-- MarkSuccess, at the index that it finds.
unfoldable pub success_at : ProxyPool → ℕ → ProxyPool
unfolding invalidate_cache
success_at p i =
    invalidate_cache
      (record p {
        failure_counts = set p.failure_counts i 0;
        cooldown_until = set p.cooldown_until i (pos 0);
        healthy = set p.healthy i true;
      })
      i

-- MarkSuccess
unfoldable pub mark_success : ProxyPool → String → ProxyPool
mark_success p url = elim (index_of url p.proxies) [ none ↦ p | some i ↦ success_at p i ]

abbrev pub base_delay : ℕ
base_delay = 15 * second

abbrev pub max_delay : ℕ
max_delay = 120 * second

-- `time.Now().Add(d).UnixNano()`
unfoldable pub after : ℕ → ℤ → ℤ
after now (pos d) = to_int64 (now + d)
after now (negsuc d) = sub_ℕ now (suc d)

-- `failureCounts[i].Add(1)`, on a uint32.
unfoldable pub next_failures : ProxyPool → ℕ → ℕ
next_failures p i = (get_or p.failure_counts i 0 + 1) % 2 ^ 32

-- The longer of the backoff and the header's delay.
unfoldable pub backoff_of : ℕ → ℤ → ℤ
backoff_of failures retry_after =
    let backoff = exponential_backoff failures base_delay max_delay in
    if ltb_ℤ backoff retry_after then retry_after else backoff

-- MarkFailure, at the index that it finds.
unfoldable pub failure_at : ProxyPool → ℕ → ℤ → ℕ → ProxyPool
unfolding next_failures invalidate_cache
failure_at p now retry_after i =
    let failures = next_failures p i in
    invalidate_cache
      (record p {
        failure_counts = set p.failure_counts i failures;
        cooldown_until = set p.cooldown_until i (after now (backoff_of failures retry_after));
        healthy = if leb 3 failures then set p.healthy i false else p.healthy;
      })
      i

-- MarkFailure leaves an upstream's business error alone.
unfoldable pub is_business_error : ℕ → Bool → Bool
is_business_error status_code is_network_error =
    not is_network_error && (ltb 0 status_code && ltb status_code 500)

module _ (parse_time : String → Option ℤ) where
  -- MarkFailure
  unfoldable pub mark_failure : ProxyPool → ℕ → String → ℕ → Bool → String → ProxyPool
  unfolding is_business_error
  mark_failure p now url status_code is_network_error retry_after_header =
      if is_business_error status_code is_network_error then p else elim (index_of url p.proxies) [
        | none ↦ p
        | some i ↦ failure_at p now (parse_retry_after parse_time now retry_after_header) i
      ]

module _ (net : Net) where
  -- NewClient: on a nil pool it reads `p.timeout`, which panics.
  unfoldable pub new_client : Option ProxyPool → Result Client
  new_client none = panic
  new_client (some p) = do url ← current_of p; new_http_client net p.timeout url p.force_ipv6

  unfoldable pub build_client : ProxyPool → ℕ → Result (ProxyPool × Client)
  build_client p idx = do
    url ← index p.proxies idx
    c ← new_http_client net p.timeout url p.force_ipv6
    ok (record p { client_cache = set p.client_cache idx (some c) }, c)

  -- clientForIndex: the pool with the client cached, and the client.
  unfoldable pub client_for_index : ProxyPool → ℕ → Result (ProxyPool × Client)
  unfolding build_client
  client_for_index p idx = elim (get_or p.client_cache idx none) [
    | some c ↦ ok (p, c)
    | none ↦ build_client p idx
  ]

  direct_client : ProxyPool → Result (ProxyPool × Client)
  direct_client p = do c ← new_http_client net p.timeout "" p.force_ipv6; ok (p, c)

  -- ClientForSession: on a nil pool it reads `p.timeout`, which panics. Its loads are atomics without
  -- p.mu; its only caller, ServeHTTP, holds poolMu for the whole call, as do all calls that change the
  -- pool (handler.go 262, 297, 390, 413, 472).
  unfoldable pub client_for_session : Option ProxyPool → ℕ → String → Result (ProxyPool × Client)
  unfolding direct_client
  client_for_session none now session = panic
  client_for_session (some p) now session =
      if eqb (length p.proxies) 0
      then direct_client p
      else client_for_index p (select_index p now (preferred_index p session))
