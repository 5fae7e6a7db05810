-- ===== src/Tests/Logging.antt =====
-- A long body in the log, and the health of a pool.
use opencode_proxy_api.Base.{
  ℕ, ◌<◌, length, take, String, Bool, true, List, ◌++◌, some, ok, ◌≡◌, refl, ◌⊎◌, arith,
}
use opencode_proxy_api.Base.Text.{trim_space}
use opencode_proxy_api.Base.Fnv.{bytes}
use opencode_proxy_api.Handler.Logged.{
  max_error_body_log, truncate_body, IsLongest, truncate_body-IsLongest,
}
use opencode_proxy_api.Pool.Status.{status_at, health_status, Absent, OfLast, health_status_lem}
use opencode_proxy_api.Tests.{net, down_pool, down_pool-IsValid}

health_status_lem_example :
    (m : List (String × Bool)) × (health_status net.url (some down_pool) ≡ ok (some m))
    × (Absent net.url "localhost:1080" down_pool.proxies (status_at "localhost:1080" m)
        ⊎ OfLast net.url "localhost:1080" down_pool.proxies down_pool.healthy
            (status_at "localhost:1080" m))
health_status_lem_example = health_status_lem net down_pool "localhost:1080" down_pool-IsValid

-- 518 bytes.
abbrev body : String
body =
    "upstream says no: xxxxxxxxxxxxxxxxxxxxxxxxxxxxxxxxxxxxxxxxxxxxxxxxxxxxxxxxxxxxxxxxxxxxxxxxxxxxxxxxxxxxxxxxxxxxxxxxxxxxxxxxxxxxxxxxxxxxxxxxxxxxxxxxxxxxxxxxxxxxxxxxxxxxxxxxxxxxxxxxxxxxxxxxxxxxxxxxxxxxxxxxxxxxxxxxxxxxxxxxxxxxxxxxxxxxxxxxxxxxxxxxxxxxxxxxxxxxxxxxxxxxxxxxxxxxxxxxxxxxxxxxxxxxxxxxxxxxxxxxxxxxxxxxxxxxxxxxxxxxxxxxxxxxxxxxxxxxxxxxxxxxxxxxxxxxxxxxxxxxxxxxxxxxxxxxxxxxxxxxxxxxxxxxxxxxxxxxxxxxxxxxxxxxxxxxxxxxxxxxxxxxxxxxxxxxxxxxxxxxxxxxxxxxxxxxxxxxxxxxxxxxxxxxxxxxxxxxxxxxxxxxxxxxxxxxxxxxxxxxxxxxxxxxxxxxxxxxxxxx"

too_long : max_error_body_log < length (bytes (trim_space body))
unfolding bytes trim_space
too_long = omega arith

truncate_body-IsLongest_example :
    (k : ℕ) × (truncate_body (λ bs. true) body
      ≡ take k (bytes (trim_space body)) ++ bytes "...(truncated)")
    × IsLongest (λ bs. true) max_error_body_log (bytes (trim_space body)) k
truncate_body-IsLongest_example = truncate_body-IsLongest (λ bs. true) body refl too_long
