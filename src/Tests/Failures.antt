-- ===== src/Tests/Failures.antt =====
-- Failures and successes of a pool's proxies, at concrete inputs.
use opencode_proxy_api.Base.{false, ◌≡◌, refl, arith, pos, some, List, [], ◌∷◌, inr, ◌*◌}
use opencode_proxy_api.Retry.{second}
use opencode_proxy_api.Base.Text.{parse_int64, parse_digits, digits}
use opencode_proxy_api.Retry.Header.{retry_after_seconds}
use opencode_proxy_api.Pool.{available, mark_failure, index_of, is_business_error}
use opencode_proxy_api.Pool.Streak.{Failure, failures, three_failures}
use opencode_proxy_api.Pool.Health.{failure_cooldown}
use opencode_proxy_api.Tests.{net, no_date, pool, pool-IsValid}

second_at : index_of "http://b" ("http://a" ∷ "http://b" ∷ []) ≡ some 1
unfolding index_of
second_at = refl

unavailable_counts : is_business_error 503 false ≡ false
unfolding is_business_error
unavailable_counts = refl

abbrev three : List Failure
three =
    record { now = 5; status_code = 503; is_network_error = false; header = "" }
    ∷ record { now = 6; status_code = 503; is_network_error = false; header = "" }
    ∷ record { now = 7; status_code = 503; is_network_error = false; header = "" }
    ∷ []

three_failures_example : available (failures net no_date "http://b" pool three) 99 1 ≡ false
three_failures_example =
    three_failures net no_date "http://b" pool three 1 99 pool-IsValid second_at
      (unavailable_counts, (unavailable_counts, (unavailable_counts, tt))) (omega arith)

two_minutes : parse_int64 "120" ≡ some (pos 120)
unfolding parse_int64 parse_digits digits
two_minutes = refl

failure_cooldown_example :
    available (mark_failure no_date pool 5 "http://b" 503 false "120") 100_000_000_000 1 ≡ false
failure_cooldown_example =
    failure_cooldown net no_date pool 5 "http://b" 503 false "120" 1 (120 * second) 100_000_000_000
      pool-IsValid second_at unavailable_counts
      (retry_after_seconds no_date 5 "120" 120 two_minutes (omega arith) (omega arith))
      (omega arith) (omega arith) (omega arith) (inr (omega arith))
