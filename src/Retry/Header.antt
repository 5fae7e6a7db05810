-- ===== src/Retry/Header.antt =====
-- What ParseRetryAfter makes of a header.
use opencode_proxy_api.Base.{
  ℕ, ◌-◌, ◌*◌, ◌^◌, ◌≤◌, ◌<◌, String, Option, none, some, ◌≡◌, ◌≢◌, refl, ap, true, false, arith,
  eq_iff, Bool-cases, inl, inr, ◌==◌,
}
use opencode_proxy_api.Base.{ℤ, pos, ltb_ℤ, to_int64, to_int64_of_small, to_int64_of_large}
use opencode_proxy_api.Base.Text.{parse_int64}
use opencode_proxy_api.Retry.{second, parse_retry_after}

parse_int64-empty : parse_int64 "" ≡ none
unfolding parse_int64
parse_int64-empty = refl

parse_int64_filled :
    (header : String) (n : ℤ) → parse_int64 header ≡ some n → (header == "") ≡ false
parse_int64_filled header n e = elim (Bool-cases (header == "")) [
  | inl empty ↦ cc (e, parse_int64-empty, ap parse_int64 ((eq_iff header "").0 empty))
  | inr filled ↦ filled
]

module _ (parse_time : String → Option ℤ) (now : ℕ) (header : String) where
  seconds_form :
      (n : ℕ)
      → parse_int64 header ≡ some (pos n)
      → 0 < n
      → parse_retry_after parse_time now header ≡ to_int64 (n * second)
  unfolding parse_retry_after
  seconds_form n e h = rw (parse_int64_filled header (pos n) e, e) (ground arith)

  -- A positive number of seconds that fits a Duration is waited for exactly.
  pub retry_after_seconds :
      (n : ℕ)
      → parse_int64 header ≡ some (pos n)
      → 0 < n
      → n * second < 2 ^ 63
      → parse_retry_after parse_time now header ≡ pos (n * second)
  retry_after_seconds n e h small = rw (seconds_form n e h) (to_int64_of_small (n * second) small)

  -- A number of seconds whose nanoseconds lie between 2^63 and 2^64 becomes a negative delay.
  retry_after_overflow :
      (n : ℕ)
      → parse_int64 header ≡ some (pos n)
      → 2 ^ 63 ≤ n * second
      → n * second < 2 ^ 64
      → ltb_ℤ (parse_retry_after parse_time now header) (pos 0) ≡ true
  retry_after_overflow n e big fits =
      rw (seconds_form n e (omega arith))
        (rw (to_int64_of_large (n * second) big fits) (ground arith))

  -- A header that is no number is read as a date: the delay lasts until the date, and is zero when
  -- the date has passed.
  retry_after_date :
      (t : ℕ)
      → header ≢ ""
      → parse_int64 header ≡ none
      → parse_time header ≡ some (pos t)
      → t - now < 2 ^ 63
      → parse_retry_after parse_time now header ≡ pos (t - now)
  unfolding parse_retry_after
  retry_after_date t filled e d h = ground (arith, eq_iff header "")
