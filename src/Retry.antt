-- ===== src/Retry.antt =====
-- internal/retry/retry.go: the Retry-After header and the exponential backoff. A time.Duration is a
-- number of nanoseconds in an int64.
pub mod Bounds
pub mod Header
use opencode_proxy_api.Base.{
  ℕ, zero, suc, ◌-◌, ◌*◌, ◌^◌, String, Option, none, some, ltb, leb, if◌then◌else◌, ◌==◌,
}
use opencode_proxy_api.Base.{ℤ, pos, negsuc, pos_part, neg_part, sub_ℕ, leb_ℤ, ltb_ℤ, to_int64}
use opencode_proxy_api.Base.Text.{parse_int64}

abbrev pub second : ℕ
second = 1_000_000_000

-- The largest time.Duration.
abbrev pub max_duration : ℕ
max_duration = 2 ^ 63 - 1

-- `time.Until(t)`, read at the time `now`: `t - now`, which time.Time saturates.
until : ℤ → ℕ → ℤ
until (pos t) now =
    if leb now t
    then pos (if ltb max_duration (t - now) then max_duration else t - now)
    else negsuc (now - t - 1)
until (negsuc t) now = negsuc t

-- The second half of ParseRetryAfter: the header as an HTTP date. `parse_time` is http.ParseTime,
-- to nanoseconds since 1970.
after_date : Option ℤ → ℕ → ℤ
unfolding until
after_date none now = pos 0
after_date (some t) now = let delay = until t now in if ltb_ℤ (pos 0) delay then delay else pos 0

after_seconds : Option ℤ → ℤ → ℤ
after_seconds none rest = rest
after_seconds (some n) rest = if ltb_ℤ (pos 0) n then to_int64 (pos_part n * second) else rest

unfoldable pub parse_retry_after : (String → Option ℤ) → ℕ → String → ℤ
unfolding after_seconds after_date
parse_retry_after parse_time now header =
    if header == ""
    then pos 0
    else after_seconds (parse_int64 header) (after_date (parse_time header) now)

-- The exponent, capped.
unfoldable pub exponent : ℕ → ℕ
exponent n = if ltb 4 n then 4 else n

-- `1 << exponent` is a Duration, and so is the product: both wrap. The delays are not negative.
unfoldable pub exponential_backoff : ℕ → ℕ → ℕ → ℤ
exponential_backoff zero base_delay max_delay = pos 0
exponential_backoff (suc n) base_delay max_delay =
    let delay = to_int64 (base_delay * 2 ^ exponent n) in
    if ltb_ℤ (pos max_delay) delay then pos max_delay else delay
