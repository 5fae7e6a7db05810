-- ===== src/Tests/Sessions.antt =====
-- The session identifiers of concrete requests.
use opencode_proxy_api.Base.{String, some, [], ◌∷◌, ◌≡◌, ◌≢◌, refl, arith, eq_iff}
use opencode_proxy_api.Base.Text.{trim_space}
use opencode_proxy_api.Json.{nil, cons, get}
use opencode_proxy_api.Session.{
  UuidBytes, extract_session_id, first_user_content, user_content, content_string, string_at,
  generate_uuid, hex_bytes, header_id, nonempty,
}
use opencode_proxy_api.Session.Laws.{extract_session_id_grows}
use opencode_proxy_api.Tests.{
  json, no_header, first_fields, second_fields, user_message, more_message,
}

abbrev random : UuidBytes
random = record {
  time_low = 1 ∷ [];
  time_mid = 2 ∷ [];
  time_high = 3 ∷ [];
  clock = 4 ∷ [];
  node = 5 ∷ [];
}

abbrev other_random : UuidBytes
other_random = record {
  time_low = 6 ∷ [];
  time_mid = 2 ∷ [];
  time_high = 3 ∷ [];
  clock = 4 ∷ [];
  node = 5 ∷ [];
}

said : first_user_content (cons user_message nil) ≡ some "hi"
unfolding first_user_content user_content content_string string_at get
said = refl

extract_session_id_grows_example :
    extract_session_id json no_header "second" random
    ≡ extract_session_id json no_header "first" random
unfolding get
extract_session_id_grows_example =
    extract_session_id_grows json no_header "first" "second" random first_fields second_fields
      (cons user_message nil) (cons more_message nil) "hi" (ground (arith, eq_iff "first" ""))
      (ground (arith, eq_iff "second" "")) refl refl refl refl refl refl refl said

abbrev with_header : String → String
with_header key = "abc"

given : extract_session_id json with_header "" random ≡ "abc"
unfolding extract_session_id header_id nonempty trim_space
given = refl

generated : generate_uuid random ≡ "01-02-03-04-05"
unfolding generate_uuid hex_bytes
generated = refl

from_header : extract_session_id json with_header "" random ≢ generate_uuid random
from_header e = ground (arith, given, generated, e, eq_iff "abc" "01-02-03-04-05")
