-- ===== src/Handler/Upstream.antt =====
-- internal/proxy/handler.go and respond.go: the upstream request, the attempts to send it, and what
-- of the answer goes back to the client.
use opencode_proxy_api.Base.Fnv.{bytes}
use opencode_proxy_api.Base.{
  ℕ, length, zero, suc, ◌*◌, String, Bool, true, false, ◌&&◌, ◌||◌, List, [], ◌∷◌, ◌++◌, map,
  Option, none, some, ◌==◌, ltb, leb, if◌then◌else◌, Result, ok, err, panic, ◌>>=◌, ℤ,
}
use opencode_proxy_api.Base.Text.{append, trim_right_slash}
use opencode_proxy_api.Config.{Config}
use opencode_proxy_api.Config.Transport.{Client, Net}
use opencode_proxy_api.Json.{struct_string, struct_bool, to_map, JsonPackage}
use opencode_proxy_api.Session.{Ids, Randomness, opencode_user_agent}
use opencode_proxy_api.Pool.{ProxyPool, current_of, client_for_session, mark_failure}
use opencode_proxy_api.Handler.{Handler, EndpointConfig}
use opencode_proxy_api.Handler.Auth.{Response, cors_headers, write_json_error}

meta_of : Option String → Option Bool → String × Bool
meta_of none stream = ("", false)
meta_of (some model) none = ("", false)
meta_of (some model) (some stream) = (model, stream)

-- parseRequestMeta: the model and the stream flag.
unfoldable pub parse_request_meta : JsonPackage → String → String × Bool
unfolding meta_of
parse_request_meta json body = elim (to_map (json.decode body)) [
  | none ↦ ("", false)
  | some fs ↦ meta_of (struct_string "model" (some "") fs) (struct_bool "stream" (some false) fs)
]

-- What reading a body comes to: its content, and whether the reader failed after it.
pub record Body : Type 0 where
  pub content : String
  pub fails : Bool

abbrev pub max_upstream_body_size : ℕ
max_upstream_body_size = 50 * 1_048_576

-- readUpstreamBody; `none` is an error.
unfoldable pub read_upstream_body : Body → Option String
read_upstream_body b =
    if ltb max_upstream_body_size (length (bytes b.content)) || b.fails
    then none
    else some b.content

pub record UpstreamRequest : Type 0 where
  pub url : String
  pub body : String
  pub headers : List (String × String)

-- An http.Response; a header has a list of values.
pub record UpstreamResponse : Type 0 where
  pub status : ℕ
  pub headers : List (String × List String)
  pub body : Body

-- client.Do
pub data DoResult : Type 0 where
  failed : DoResult
  answered : UpstreamResponse → DoResult

optional_header : String → String → List (String × String)
optional_header name v = if v == "" then [] else (name, v) ∷ []

-- newReq. `header` is the client's r.Header.Get.
unfoldable pub new_request :
    Config → (String → String) → Ids → Randomness → String → String → UpstreamRequest
unfolding optional_header
new_request cfg header ids random url body = record {
  url = url;
  body = body;
  headers =
      ("Content-Type", "application/json")
      ∷ ("Authorization", append "Bearer " cfg.upstream_token)
      ∷ ("x-opencode-client", "desktop")
      ∷ ("User-Agent", opencode_user_agent random.agent_first random.agent_second)
      ∷ ("Referer", "https://opencode.ai/")
      ∷ ("X-Title", "opencode")
      ∷ ("x-opencode-session", ids.session)
      ∷ ("x-opencode-request", ids.request)
      ∷ ("x-opencode-project", ids.project)
      ∷ (optional_header "anthropic-version" (header "anthropic-version")
          ++ optional_header "x-api-key" (header "x-api-key"));
}

unfoldable pub upstream_url : Config → EndpointConfig → String
upstream_url cfg ep = append (trim_right_slash cfg.upstream_base) ep.upstream_path

-- allowedHeaders
unfoldable pub allowed_header : String → Bool
allowed_header k =
    k == "Content-Type"
    || k == "Cache-Control"
    || k == "Connection"
    || k == "Transfer-Encoding"
    || k == "X-Request-Id"

-- forwardHeaders
unfoldable pub forward_headers : List (String × List String) → List (String × String)
forward_headers [] = []
forward_headers ((k, vs) ∷ rest) =
    if allowed_header k then map (λ v. (k, v)) vs ++ forward_headers rest else forward_headers rest

-- w.Header().Get, of a key in its canonical form.
unfoldable pub header_get : String → List (String × String) → String
header_get key [] = ""
header_get key ((k, v) ∷ rest) = let later = header_get key rest in if k == key then v else later

drop_header : String → List (String × String) → List (String × String)
drop_header key [] = []
drop_header key ((k, v) ∷ rest) =
    let later = drop_header key rest in if k == key then later else (k, v) ∷ later

-- w.Header().Set, of a key in its canonical form.
unfoldable pub header_set : String → String → List (String × String) → List (String × String)
unfolding drop_header
header_set key v headers = (key, v) ∷ drop_header key headers

-- The headers that are set when postUpstream calls w.WriteHeader.
set_headers : UpstreamResponse → Bool → List (String × String)
set_headers resp label_stream =
    let forwarded = forward_headers resp.headers in
    if label_stream && header_get "Content-Type" forwarded == ""
    then header_set "Content-Type" "text/event-stream" forwarded ++ cors_headers
    else forwarded ++ cors_headers

-- w.WriteHeader panics for any other status.
unfoldable pub is_writable : ℕ → Bool
is_writable status = leb 100 status && leb status 999

-- What postUpstream writes. If w.WriteHeader panics, nothing is written yet: the deferred recover of
-- ServeHTTP answers with 500, over the headers that are set.
unfoldable pub write_response : JsonPackage → UpstreamResponse → String → Bool → Response
unfolding set_headers
write_response json resp out label_stream =
    let headers = set_headers resp label_stream in
    if is_writable resp.status
    then record { status = resp.status; headers = headers; body = out }
    else record (write_json_error json 500 "internal server error" "server_error") {
      headers = header_set "Content-Type" "application/json" headers;
    }

-- How the attempts end: with an answer, with an error response, or with the client gone.
pub data Reached : Type 0 where
  reached : Handler → UpstreamResponse → List UpstreamRequest → Reached
  refused : Handler → Response → List UpstreamRequest → Reached
  abandoned : Handler → List UpstreamRequest → Reached

pub data Attempt : Type 0 where
  final : Reached → Attempt
  again : Handler → List UpstreamRequest → Attempt

-- What the packages and the network do: `send` is client.Do at an attempt, `cancelled` says whether
-- the client goes during the wait after it, `now` is the clock at it.
pub record World : Type 0 where
  pub send : Client → UpstreamRequest → ℕ → DoResult
  pub cancelled : ℕ → Bool
  pub now : ℕ → ℕ

module _ (net : Net) (json : JsonPackage) (parse_time : String → Option ℤ) (world : World) where
  -- The client of this session, and the handler with the pool that ClientForSession leaves.
  unfoldable pub session_client :
      Handler → Option ProxyPool → ℕ → String → Result (Handler × Client)
  session_client h none now session = ok (h, h.upstream)
  session_client h (some p) now session = do
    r ← client_for_session net (some p) now session
    ok (record h { proxy_pool = some r.0 }, r.1)

  -- A network failure is charged to the pool's current proxy.
  unfoldable pub note_network_failure : Handler → Option ProxyPool → ℕ → Result Handler
  note_network_failure h none now = ok h
  note_network_failure h (some p) now = do
    url ← current_of p
    ok (record h { proxy_pool = some (mark_failure parse_time p now url 0 true "") })

  -- After a failed attempt: the last one, the wait, or the next attempt.
  unfoldable pub after_failure : Handler → ℕ → List UpstreamRequest → Attempt
  after_failure h attempt sent =
      if leb 3 attempt
      then final
          (refused h (write_json_error json 502 "upstream request failed" "server_error") sent)
      else if world.cancelled attempt
      then final (abandoned h sent)
      else again h sent

  unfoldable pub sent_once :
      UpstreamRequest → ℕ → List UpstreamRequest → Handler → Client → Result Attempt
  unfolding after_failure
  sent_once req attempt sent h c = elim (world.send c req attempt) [
    | answered resp ↦ ok (final (reached h resp (sent ++ req ∷ [])))
    | failed ↦ do
      noted ← note_network_failure h h.proxy_pool (world.now attempt)
      ok (after_failure noted attempt (sent ++ req ∷ []))
  ]

  -- One round of the loop, the `attempt`-th, with the request that newReq builds in it.
  unfoldable pub try_once :
      UpstreamRequest → String → ℕ → Handler → List UpstreamRequest → Result Attempt
  try_once req session attempt h sent = elim (net.url.parse req.url) [
    | none ↦ ok (
        final (
          refused h (write_json_error json 500 "failed to create upstream request" "server_error")
            sent))
    | some _ ↦ elim (session_client h h.proxy_pool (world.now attempt) session) [
      | panic ↦ panic
      | err e ↦ ok (
          final
            (refused h (write_json_error json 500 "proxy configuration error" "server_error") sent))
      | ok (h', c) ↦ sent_once req attempt sent h' c
    ]
  ]

  -- The loop, with `rounds` rounds left after `attempt` of them. It needs three.
  unfoldable pub attempts :
      (ℕ → UpstreamRequest) → String → ℕ → ℕ → Handler → List UpstreamRequest → Result Reached
  attempts new_req session zero attempt h sent = panic
  attempts new_req session (suc rounds) attempt h sent =
      elim (try_once (new_req (suc attempt)) session (suc attempt) h sent) [
        | panic ↦ panic
        | err e ↦ err e
        | ok (final x) ↦ ok x
        | ok (again h' sent') ↦ attempts new_req session rounds (suc attempt) h' sent'
      ]
