-- ===== src/Handler/Serve.antt =====
-- internal/proxy/handler.go: ServeHTTP, from the guards to the response. The recover from a panic of
-- w.WriteHeader is in write_response; any other panic is left as it is, with the recover in Recover.
pub mod Allowed
pub mod Guards
pub mod Total
pub mod Recover
pub mod Unusable
use opencode_proxy_api.Base.{
  ℕ, length, ◌*◌, ◌<◌, String, Bool, true, false, ◌&&◌, ◌||◌, not, List, [], ◌∷◌, Option, none,
  some, ◌==◌, ltb, leb, if◌then◌else◌, Result, ok, err, panic, ◌>>=◌, ℤ,
}
use opencode_proxy_api.Base.Text.{append}
use opencode_proxy_api.Base.Fnv.{bytes}
use opencode_proxy_api.Config.{Config, is_model_allowed}
use opencode_proxy_api.Config.Transport.{Net}
use opencode_proxy_api.Json.{str, field, end, obj, JsonPackage}
use opencode_proxy_api.Session.{Ids, Randomness, extract_from_request}
use opencode_proxy_api.Reasoning.Body.{try_inject_reasoning}
use opencode_proxy_api.Translate.Chat.Wire.{normalize_chat_completion_request}
use opencode_proxy_api.Translate.Claude.{RawPackage}
use opencode_proxy_api.Translate.Claude.Request.{claude_request_to_upstream}
use opencode_proxy_api.Translate.Dsml.Message.{rewrite_message}
use opencode_proxy_api.Translate.Dsml.Events.{rewrite_stream}
use opencode_proxy_api.Handler.{Handler, EndpointConfig, endpoint, account}
use opencode_proxy_api.Handler.Auth.{
  check_auth, Response, cors_headers, write_json, write_json_error, handle_list_models,
}
use opencode_proxy_api.Handler.Upstream.{
  parse_request_meta, Body, read_upstream_body, UpstreamRequest, UpstreamResponse, write_response,
  new_request, upstream_url, Reached, reached, refused, abandoned, World, attempts,
}

-- An http.Request; `header` is Header.Get.
pub record Request : Type 0 where
  pub method : String
  pub path : String
  pub header : String → String
  pub body : Body

-- What the rewriting of bodies takes from outside: the times that are read for new call ids, raw
-- messages, and a number's literal as a float64 cut to an int.
pub record Translate : Type 0 where
  pub clock : ℕ → ℕ
  pub raw : RawPackage
  pub to_int : String → ℤ

-- What the guards let through.
pub record Admitted : Type 0 where
  pub ep : EndpointConfig
  pub model : String
  pub is_stream : Bool
  pub body : String

pub data Guarded : Type 0 where
  answer : Response → Guarded
  admitted : Admitted → Guarded

abbrev max_request_body : ℕ
max_request_body = 10 * 1_048_576

-- http.MaxBytesReader and io.ReadAll; `none` is an error.
unfoldable pub read_request_body : Body → Option String
read_request_body b =
    if ltb max_request_body (length (bytes b.content)) || b.fails then none else some b.content

module _ (json : JsonPackage) where
  check_model : Config → EndpointConfig → String → String × Bool → Guarded
  check_model cfg ep body meta =
      if meta.0 == ""
      then answer (write_json_error json 400 "model field is required" "invalid_request_error")
      else if not (is_model_allowed cfg meta.0)
      then answer (
          write_json json 403 (obj (field "error" (str (append "model not allowed: " meta.0)) end)))
      else admitted (record { ep = ep; model = meta.0; is_stream = meta.1; body = body })

  check_body : Config → EndpointConfig → Option String → Guarded
  unfolding check_model
  check_body cfg ep none =
      answer
        (write_json_error json 400 "request too large or cannot read body" "invalid_request_error")
  check_body cfg ep (some body) = check_model cfg ep body (parse_request_meta json body)

  check_endpoint : Config → Request → Option EndpointConfig → Guarded
  unfolding check_body
  check_endpoint cfg r none =
      answer (write_json_error json 404 (append "unknown endpoint: " r.path) "not_found")
  check_endpoint cfg r (some ep) =
      if not (r.method == "POST")
      then answer (write_json_error json 405 "method not allowed" "invalid_request_error")
      else if not (check_auth cfg r.header)
      then answer (write_json_error json 401 "invalid API key" "authentication_error")
      else check_body cfg ep (read_request_body r.body)

  -- The guards of ServeHTTP, in their order.
  unfoldable pub guards : Config → Request → Guarded
  unfolding check_endpoint
  guards cfg r =
      if r.method == "OPTIONS"
      then answer (record { status = 204; headers = cors_headers; body = "" })
      else if r.path == "/v1/models"
      then answer (handle_list_models json cfg r.method r.header)
      else check_endpoint cfg r (endpoint r.path)

  module _ (tr : Translate) where
    -- forwardBody
    unfoldable pub forward_body : Admitted → String
    forward_body a =
        let chat =
          if a.ep.normalize_chat_roles
          then normalize_chat_completion_request json tr.clock a.body
          else a.body in
        let claude =
          if a.ep.adapt_claude_tools
          then claude_request_to_upstream tr.raw json tr.clock chat
          else chat in
        if a.ep.need_inject then try_inject_reasoning json a.model claude else claude

    -- The body that goes back to the client.
    unfoldable pub rewritten : Admitted → ℕ → String → String
    rewritten a status out =
        if a.ep.rewrite_dsml && leb 200 status && ltb status 300
        then (if a.is_stream then rewrite_stream json tr.to_int out else rewrite_message json out)
        else out

-- Whether postUpstream may label the response a stream.
unfoldable pub label_stream : Admitted → ℕ → Bool
label_stream a status = if a.is_stream && not a.ep.rewrite_dsml then ltb status 400 else a.is_stream

first_value : List String → String
first_value [] = ""
first_value (v ∷ vs) = v

-- resp.Header.Get, of a key in its canonical form.
unfoldable pub response_header : String → List (String × List String) → String
unfolding first_value
response_header key [] = ""
response_header key ((k, vs) ∷ rest) =
    let later = response_header key rest in if k == key then first_value vs else later

-- What a request comes to: the state, the response, if the client waits for it, the upstream
-- requests sent and the commands run.
pub record Served : Type 0 where
  pub handler : Handler
  pub response : Option Response
  pub sent : List UpstreamRequest
  pub commands : List String

module _ (net : Net) (json : JsonPackage) (tr : Translate) (parse_time : String → Option ℤ)
    (world : World) where
  -- postUpstream, at the time `now`.
  unfoldable pub post_upstream :
      Handler → UpstreamResponse → String → Bool → ℕ → List UpstreamRequest → Result Served
  post_upstream h resp out label now sent = do
    counted ← account net parse_time h now resp.status (response_header "Retry-After" resp.headers)
    ok (record {
      handler = counted.0;
      response = some (write_response json resp out label);
      sent = sent;
      commands = counted.1;
    })

  read_answer :
      Admitted
      → Handler
      → UpstreamResponse
      → ℕ
      → List UpstreamRequest
      → Option String
      → Result Served
  read_answer a h resp now sent none = ok (record {
    handler = h;
    response = some (write_json_error json 502 "upstream response error" "server_error");
    sent = sent;
    commands = [];
  })
  read_answer a h resp now sent (some out) =
      post_upstream h resp (rewritten json tr a resp.status out) (label_stream a resp.status) now
        sent

  -- The rest of ServeHTTP, after the loop.
  unfoldable pub finish : Admitted → ℕ → Reached → Result Served
  unfolding read_answer
  finish a now (reached h resp sent) = read_answer a h resp now sent (read_upstream_body resp.body)
  finish a now (refused h resp sent) =
      ok (record { handler = h; response = some resp; sent = sent; commands = [] })
  finish a now (abandoned h sent) =
      ok (record { handler = h; response = none; sent = sent; commands = [] })

  -- The upstream request of an attempt; `random` is what crypto/rand gives in it.
  unfoldable pub request_of :
      Config → Request → Admitted → (ℕ → Randomness) → Ids → ℕ → UpstreamRequest
  request_of cfg r a random ids attempt =
      new_request cfg r.header ids (random attempt) (upstream_url cfg a.ep) (forward_body json tr a)

  unfoldable pub serve_admitted :
      Handler → Request → (ℕ → Randomness) → ℕ → Admitted → Result Served
  serve_admitted h r random now a = do
    let ids = extract_from_request json r.header a.body (random 0)
    end_state ←
        attempts net json parse_time world (request_of h.cfg r a random ids) ids.session 3 0 h []
    finish a now end_state

  serve_guarded : Handler → Request → (ℕ → Randomness) → ℕ → Guarded → Result Served
  serve_guarded h r random now (answer resp) =
      ok (record { handler = h; response = some resp; sent = []; commands = [] })
  serve_guarded h r random now (admitted a) = serve_admitted h r random now a

  -- ServeHTTP. `now` is the clock when the response has been read.
  unfoldable pub serve : Handler → Request → (ℕ → Randomness) → ℕ → Result Served
  unfolding serve_guarded
  serve h r random now = serve_guarded h r random now (guards json h.cfg r)
