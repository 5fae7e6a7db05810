-- ===== src/Server/Serve.antt =====
-- cmd/server/main.go: from the environment to the responses and the exit status.
use opencode_proxy_api.Base.{
  ℕ, String, List, [], ◌∷◌, Option, none, some, ◌==◌, if◌then◌else◌, Result, ok, err, panic, ◌>>=◌,
  ℤ,
}
use opencode_proxy_api.Base.Text.{append, decimal}
use opencode_proxy_api.Json.{JsonPackage}
use opencode_proxy_api.Config.{Config}
use opencode_proxy_api.Config.Env.{load}
use opencode_proxy_api.Config.Transport.{Net}
use opencode_proxy_api.Pool.Load.{FileRead}
use opencode_proxy_api.Handler.{Handler}
use opencode_proxy_api.Handler.Auth.{Response}
use opencode_proxy_api.Handler.Serve.{Request, Translate, Served, serve}
use opencode_proxy_api.Handler.Start.{Arrival, new_handler}
use opencode_proxy_api.Server.Shutdown.{Stopped, exit_status}
use opencode_proxy_api.Server.Env.{Environ, load_env_file}

-- The patterns that main registers; those but the last go to the handler.
abbrev pub patterns : List String
patterns = "/v1/chat/completions" ∷ "/v1/messages" ∷ "/v1/responses" ∷ "/v1/models" ∷ "/health" ∷ []

-- http.ServeMux: the pattern that a request goes to, or else the mux's own response.
pub record Mux : Type 0 where
  pub match : List String → Request → Option String
  pub other : Request → Response

unfoldable pub health : Response
health = record {
  status = 200;
  headers = ("Content-Type", "application/json") ∷ [];
  body = "{\"status\":\"ok\"}";
}

-- What loggingMiddleware logs.
pub record Entry : Type 0 where
  pub req_id : String
  pub method : String
  pub path : String
  pub status : ℕ

-- A request that is done: what the handler did, and the entry in the log.
pub record Handled : Type 0 where
  pub served : Served
  pub entry : Option Entry

-- How main ends: with an exit status before it listens, or with requests that are done, and with an
-- exit status if ListenAndServe has returned.
pub data Ending : Type 0 where
  not_started : String → ℕ → Ending
  served : Handler → List Handled → Option ℕ → Ending

-- The time, in nanoseconds, gives the id.
unfoldable pub request_id : ℕ → String
request_id nanos = append "req_" (decimal 19 nanos)

-- The id is a header of the response, set before the handler's.
unfoldable pub with_id : String → Option Response → Option Response
with_id id none = none
with_id id (some r) = some (record r { headers = ("X-Request-Id", id) ∷ r.headers })

-- The status that loggedResponseWriter holds: 200 until one is written.
written_status : Option Response → ℕ
written_status none = 200
written_status (some r) = r.status

unfoldable pub entry_of : String → Request → Option Response → Option Entry
unfolding written_status
entry_of id r resp =
    if r.path == "/health"
    then none
    else some
        (record { req_id = id; method = r.method; path = r.path; status = written_status resp })

answer_with : Handler → Response → Served
answer_with h resp = record { handler = h; response = some resp; sent = []; commands = [] }

module _ (net : Net) (json : JsonPackage) (tr : Translate) (parse_time : String → Option ℤ)
    (mux : Mux) where
  unfoldable pub to_target : Handler → Arrival → Option String → Result Served
  unfolding answer_with
  to_target h a none = ok (answer_with h (mux.other a.request))
  to_target h a (some pattern) =
      if pattern == "/health"
      then ok (answer_with h health)
      else serve net json tr parse_time a.world h a.request a.random a.now

  -- loggingMiddleware around the mux; `nanos` is the time at which the request comes.
  unfoldable pub handle : Handler → ℕ → Arrival → Result Handled
  unfolding with_id
  handle h nanos a = do
    s ← to_target h a (mux.match patterns a.request)
    ok (record {
      served = record s { response = with_id (request_id nanos) s.response };
      entry = entry_of (request_id nanos) a.request s.response;
    })

  unfoldable pub handle_all : Handler → List (ℕ × Arrival) → Result (Handler × List Handled)
  handle_all h [] = ok (h, [])
  handle_all h ((nanos, a) ∷ rest) = do
    x ← handle h nanos a
    later ← handle_all x.served.handler rest
    ok (later.0, x ∷ later.1)

  module _ (os : Environ) (parse_duration : String → Option ℤ) where
    -- The configuration that main starts with, after the file `.env`, if it could be opened.
    unfoldable pub startup_config : os.Env → Option (List String) → Config
    startup_config env none = (load net.url parse_duration (os.getenv env)).value
    startup_config env (some lines) =
        (load net.url parse_duration (os.getenv (load_env_file os env lines))).value

    -- main after New: an error of New ends it with status 1.
    after_new : Result Handler → List (ℕ × Arrival) → Option Stopped → Result Ending
    after_new (err e) arrivals stopped = ok (not_started e 1)
    after_new panic arrivals stopped = panic
    after_new (ok h) arrivals stopped = do
      r ← handle_all h arrivals
      ok (served r.0 r.1 (exit_status stopped))

    -- main: New with the configuration, then the requests, each served when the one before is done,
    -- then what ListenAndServe returns, if it does.
    unfoldable pub run :
        (String → FileRead)
        → os.Env
        → Option (List String)
        → List (ℕ × Arrival)
        → Option Stopped
        → Result Ending
    unfolding after_new
    run read env lines arrivals stopped =
        after_new (new_handler net read (startup_config env lines)) arrivals stopped
