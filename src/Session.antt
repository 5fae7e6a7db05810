-- ===== src/Session.antt =====
-- internal/session/session.go
pub mod Laws
pub mod Filled
use opencode_proxy_api.Base.{
  ℕ, zero, suc, ◌+◌, ◌/◌, ◌%◌, String, Bool, true, false, List, [], ◌∷◌, Option, none, some, ◌==◌,
  if◌then◌else◌, get_or, length,
}
use opencode_proxy_api.Base.Text.{trim_space, append}
use opencode_proxy_api.Base.Fnv.{sum64}
use opencode_proxy_api.Json.{
  Json, Items, nil, cons, Fields, get, as_string, as_map, as_slice, to_map, JsonPackage,
}

hex_digit : ℕ → String
hex_digit n =
    get_or
      ("0" ∷ "1" ∷ "2" ∷ "3" ∷ "4" ∷ "5" ∷ "6" ∷ "7" ∷ "8" ∷ "9" ∷ "a" ∷ "b" ∷ "c" ∷ "d" ∷ "e" ∷ "f"
        ∷ [])
      n ""

-- The last `k` hexadecimal digits of `n`, with leading zeros.
unfoldable pub hex : ℕ → ℕ → String
unfolding hex_digit
hex zero n = ""
hex (suc k) n = append (hex k (n / 16)) (hex_digit (n % 16))

-- `%x` of a byte slice.
unfoldable pub hex_bytes : List ℕ → String
unfolding hex
hex_bytes [] = ""
hex_bytes (b ∷ bs) = append (hex 2 b) (hex_bytes bs)

-- hashString
unfoldable pub hash_string : String → String
unfolding hex
hash_string s = append "sess_" (hex 16 (sum64 s))

-- SessionHash
unfoldable pub session_hash : String → ℕ
session_hash session_id = sum64 session_id

-- The sixteen bytes that crypto/rand gives to generateUUID.
pub record UuidBytes : Type 0 where
  pub time_low : List ℕ
  pub time_mid : List ℕ
  pub time_high : List ℕ
  pub clock : List ℕ
  pub node : List ℕ

-- generateUUID
unfoldable pub generate_uuid : UuidBytes → String
generate_uuid b = append (hex_bytes b.time_low) (
    append "-" (
      append (hex_bytes b.time_mid) (
        append "-" (
          append (hex_bytes b.time_high)
            (append "-" (append (hex_bytes b.clock) (append "-" (hex_bytes b.node))))))))

abbrev prefixes : List String
prefixes = "proj" ∷ "workspace" ∷ "app" ∷ "service" ∷ "client" ∷ []

-- randomProject, of the first random byte and the four after it.
unfoldable pub random_project : ℕ → List ℕ → String
random_project b0 rest =
    append (get_or prefixes (b0 % length prefixes) "") (append "_" (hex_bytes rest))

abbrev versions : List String
versions = "0.9.12" ∷ "0.9.13" ∷ "0.9.14" ∷ "0.10.0" ∷ "0.10.1" ∷ []

abbrev platforms : List String
platforms = "darwin-arm64" ∷ "darwin-amd64" ∷ "linux-amd64" ∷ "win32-x64" ∷ []

-- OpencodeUserAgent, of two random bytes.
unfoldable pub opencode_user_agent : ℕ → ℕ → String
opencode_user_agent b0 b1 = append "OpenCode/" (
    append (get_or versions (b0 % length versions) "")
      (append " (" (append (get_or platforms (b1 % length platforms) "") ")")))

unfoldable pub string_of : Option Json → String
string_of v = elim (as_string v) [ some s ↦ s | none ↦ "" ]

-- stringAt
unfoldable pub string_at : Fields → String → String
unfolding string_of
string_at m key = string_of (get key m)

-- The texts of the blocks that have one.
block_texts : Items → List String
block_texts nil = []
block_texts (cons block rest) =
    let texts = block_texts rest in
    elim (as_map (some block)) [
      | some m ↦ if string_at m "text" == "" then texts else string_at m "text" ∷ texts
      | none ↦ texts
    ]

-- strings.Join with " "
join : List String → String
join [] = ""
join (x ∷ []) = x
join (x ∷ y ∷ ys) = append x (append " " (join (y ∷ ys)))

-- contentString
unfoldable pub content_string : Option Json → String
unfolding block_texts join string_at
content_string raw = elim (as_string raw) [
  | some s ↦ s
  | none ↦ elim (as_slice raw) [ some blocks ↦ join (block_texts blocks) | none ↦ "" ]
]

unfoldable pub nonempty : String → Option String
nonempty s = if s == "" then none else some s

infixl 20 ◌<|>◌
abbrev pub ◌<|>◌ : Option String → Option String → Option String
some s <|> other = some s
none <|> other = other

-- The content of a user message, if it has some.
unfoldable pub user_content : Json → Option String
unfolding string_at nonempty
user_content msg = elim (as_map (some msg)) [
  | none ↦ none
  | some m ↦
      if string_at m "role" == "user" then nonempty (content_string (get "content" m)) else none
]

-- The loop over the messages.
unfoldable pub first_user_content : Items → Option String
first_user_content nil = none
first_user_content (cons msg rest) =
    let later = first_user_content rest in
    elim (user_content msg) [ some c ↦ some c | none ↦ later ]

unfoldable pub metadata_id : Option Json → Option String
unfolding string_at nonempty
metadata_id metadata = elim (as_map metadata) [
  | none ↦ none
  | some m ↦ nonempty (string_at m "session_id")
]

unfoldable pub message_id : Option Json → Option String
message_id messages = elim (as_slice messages) [
  | none ↦ none
  | some msgs ↦ elim (first_user_content msgs) [ none ↦ none | some c ↦ some (hash_string c) ]
]

-- Priorities 2 and 3: the fields of the body, and its first user message.
unfoldable pub body_id : Fields → Option String
body_id payload =
    metadata_id (get "metadata" payload)
    <|> nonempty (string_of (get "conversation_id" payload))
    <|> nonempty (string_of (get "conversationId" payload))
    <|> message_id (get "messages" payload)

-- Priority 1. `header` is r.Header.Get.
unfoldable pub header_id : (String → String) → Option String
unfolding nonempty
header_id header =
    nonempty (trim_space (header "x-opencode-session"))
    <|> nonempty (trim_space (header "x-session-id"))
    <|> nonempty (trim_space (header "conversation-id"))
    <|> nonempty (trim_space (header "conversationid"))

unfoldable pub parsed_id : JsonPackage → String → Option String
parsed_id json body =
    if body == ""
    then none
    else elim (to_map (json.decode body)) [ none ↦ none | some payload ↦ body_id payload ]

-- extractSessionID, with the random bytes of its fallback.
unfoldable pub extract_session_id : JsonPackage → (String → String) → String → UuidBytes → String
extract_session_id json header body random = elim (header_id header <|> parsed_id json body) [
  | some id ↦ id
  | none ↦ generate_uuid random
]

-- IDs
pub record Ids : Type 0 where
  pub session : String
  pub request : String
  pub project : String

-- What crypto/rand gives to one request.
pub record Randomness : Type 0 where
  pub fallback : UuidBytes
  pub request : UuidBytes
  pub project_first : ℕ
  pub project_rest : List ℕ
  pub agent_first : ℕ
  pub agent_second : ℕ

-- ExtractFromRequest
unfoldable pub extract_from_request : JsonPackage → (String → String) → String → Randomness → Ids
extract_from_request json header body random = record {
  session = extract_session_id json header body random.fallback;
  request = generate_uuid random.request;
  project = random_project random.project_first random.project_rest;
}
