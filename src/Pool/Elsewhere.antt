-- ===== src/Pool/Elsewhere.antt =====
-- What the failure of one proxy leaves of the others.
use opencode_proxy_api.Base.{ℕ, String, Bool, true, Option, some, ◌≡◌, ◌≢◌, ℤ, Bool-cases, inl, inr}
use opencode_proxy_api.Config.Transport.{Net}
use opencode_proxy_api.Pool.{
  ProxyPool, available, select_index, mark_failure, index_of, is_business_error,
}
use opencode_proxy_api.Pool.Invariant.{IsValid, index_of_lt}
use opencode_proxy_api.Pool.Health.{failed_elsewhere}

-- A failure of one proxy leaves the availability of every other one as it was.
failure_elsewhere :
    (net : Net) (parse_time : String → Option ℤ) (p : ProxyPool) (now : ℕ) (url : String)
    (status : ℕ) (network : Bool) (header : String) (i j t : ℕ)
    → IsValid net p
    → index_of url p.proxies ≡ some i
    → i ≢ j
    → available (mark_failure parse_time p now url status network header) t j ≡ available p t j
unfolding mark_failure
failure_elsewhere net parse_time p now url status network header i j t v found ne =
    elim (Bool-cases (is_business_error status network)) [
      | inl business ↦ rw (business, mark_failure)
      | inr real ↦
          rw (real, found, mark_failure)
            (failed_elsewhere net p now _ i v (index_of_lt url p.proxies i found) j t ne)
    ]

-- A network failure charged to one proxy never moves a session whose own proxy is another one and
-- is available: the session is given the same proxy again.
failure_keeps_session :
    (net : Net) (parse_time : String → Option ℤ) (p : ProxyPool) (now : ℕ) (url : String)
    (i preferred t : ℕ)
    → IsValid net p
    → index_of url p.proxies ≡ some i
    → i ≢ preferred
    → available p t preferred ≡ true
    → select_index (mark_failure parse_time p now url 0 true "") t preferred ≡ preferred
unfolding select_index
failure_keeps_session net parse_time p now url i preferred t v found ne up =
    rw (failure_elsewhere net parse_time p now url 0 true "" i preferred t v found ne, up)
