-- ===== src/Tests/Retrying.antt =====
-- The delays at concrete inputs.
use opencode_proxy_api.Base.{String, Option, none, some, ◌≡◌, refl, arith, ℤ, pos}
use opencode_proxy_api.Base.Text.{parse_int64, digits, parse_digits}
use opencode_proxy_api.Retry.{exponential_backoff}
use opencode_proxy_api.Retry.Bounds.{documented, backoff_documented}

backoff_documented_example : exponential_backoff 3 15 240 ≡ pos (documented 3 15 240)
backoff_documented_example = backoff_documented 3 15 240 (omega arith) (omega arith) (omega arith)

two_minutes : parse_int64 "120" ≡ some (pos 120)
unfolding parse_int64 parse_digits digits
two_minutes = refl

no_number : parse_int64 "soon" ≡ none
unfolding parse_int64 parse_digits digits
no_number = refl

abbrev at_nine : String → Option ℤ
at_nine header = some (pos 9)
