-- ===== src/Tests/Serving.antt =====
-- Requests that are served, at concrete inputs: a network where every attempt fails.
use opencode_proxy_api.Base.{
  arith, leb, none, false, ◌<◌, ℕ, ◌≤◌, String, true, false, [], some, ◌==◌, if◌then◌else◌, ◌≡◌,
  refl, ok, pos, ◌↔◌, length,
}
use opencode_proxy_api.Config.Transport.{direct}
use opencode_proxy_api.Session.{Randomness}
use opencode_proxy_api.Handler.{Handler, endpoint}
use opencode_proxy_api.Handler.Auth.{check_auth, presented_key, write_json_error}
use opencode_proxy_api.Handler.RateLimit.{PoolIsValid}
use opencode_proxy_api.Handler.Upstream.{
  UpstreamRequest, UpstreamResponse, World, failed, answered, Reached, reached, attempts,
}
use opencode_proxy_api.Handler.Attempts.{handler_of, sent_of, tries, attempts_lem}
use opencode_proxy_api.Handler.Answered.{IsLost, attempts-answered}
use opencode_proxy_api.Handler.Serve.{Request, Translate, Admitted, admitted, guards, Served, serve}
use opencode_proxy_api.Handler.Serve.Guards.{IsAdmitted, guards_iff}
use opencode_proxy_api.Handler.Serve.Total.{serve-total}
use opencode_proxy_api.Tests.{site, net, json, no_date, cfg, no_header, pool, pool-IsValid}

abbrev pub offline : World
offline = record { send = λ c req n. failed; cancelled = λ n. false; now = λ n. n }

abbrev pub handler : Handler
handler = record {
  cfg = cfg;
  upstream = record {
    timeout = pos 30;
    transport = record {
      route = direct;
      max_idle_conns_per_host = 64;
      max_idle_conns = 256;
      idle_conn_timeout = 90_000_000_000;
    };
  };
  proxy_pool = some pool;
  rate_limit_count = 1;
}

abbrev ask : ℕ → UpstreamRequest
ask n = record { url = "https://opencode.ai/zen/v1/messages"; body = "{}"; headers = [] }

attempts_lem_example :
    (x : Reached) × (attempts net json no_date offline ask "s" 3 0 handler [] ≡ ok x)
    × PoolIsValid net (handler_of x).proxy_pool
    × ((handler_of x).rate_limit_count ≡ handler.rate_limit_count)
    × ((k : ℕ) × (k ≤ 3) × (sent_of x ≡ tries ask k))
attempts_lem_example = attempts_lem net json no_date offline ask "s" handler pool-IsValid

abbrev pub same : Translate
same = record {
  clock = λ n. n;
  raw = record { node = λ t. none; encode_values = λ vs. ""; encode_map = λ m. "" };
  to_int = λ s. pos 0;
}

abbrev pub random : ℕ → Randomness
random n = record {
  fallback = record { time_low = []; time_mid = []; time_high = []; clock = []; node = [] };
  request = record { time_low = []; time_mid = []; time_high = []; clock = []; node = [] };
  project_first = 1;
  project_rest = [];
  agent_first = 2;
  agent_second = 3;
}

abbrev pub with_key : String → String
with_key key = if key == "x-api-key" then "secret" else ""

abbrev pub request : (String → String) → Request
request header = record {
  method = "POST";
  path = "/v1/messages";
  header = header;
  body = record { content = "first"; fails = false };
}

serve-total_example :
    (s : Served) × (serve net json same no_date offline handler (request with_key) random 9 ≡ ok s)
    × PoolIsValid net s.handler.proxy_pool
    × (length s.sent ≤ 3)
serve-total_example =
    serve-total net json same no_date offline handler (request with_key) random 9 pool-IsValid

abbrev unauthorized : Served
unauthorized = record {
  handler = handler;
  response = some (write_json_error json 401 "invalid API key" "authentication_error");
  sent = [];
  commands = [];
}

turned_away :
    serve net json same no_date offline handler (request no_header) random 9 ≡ ok unauthorized
unfolding serve guards endpoint check_auth presented_key write_json_error
turned_away = refl

abbrev passed : Admitted
passed = record {
  ep = record {
    upstream_path = "/zen/v1/messages";
    need_inject = false;
    adapt_claude_tools = true;
    rewrite_dsml = true;
    normalize_chat_roles = false;
  };
  model = "m";
  is_stream = false;
  body = "first";
}

guards_iff_example :
    (guards json cfg (request with_key) ≡ admitted passed)
    ↔ IsAdmitted json cfg (request with_key) passed
guards_iff_example = guards_iff json cfg (request with_key) passed

abbrev reply : UpstreamResponse
reply = record { status = 200; headers = []; body = record { content = "{}"; fails = false } }

-- A network where the second attempt is answered.
abbrev shaky : World
shaky = record {
  send = λ c req n. if leb 2 n then answered reply else failed;
  cancelled = λ n. false;
  now = λ n. n;
}

abbrev plain : Handler
plain = record handler { proxy_pool = none }

early : (n : ℕ) → n ≤ 1 → leb 2 n ≡ false
early n h = ground arith

first-IsLost :
    (n : ℕ) → 0 < n → n ≤ 1 → IsLost net json no_date shaky ask "s" plain site refl (λ m. refl) n
first-IsLost n a b = (rw (early n b), refl)

attempts-answered_example :
    attempts net json no_date shaky ask "s" 3 0 plain [] ≡ ok (reached plain reply (tries ask 2))
attempts-answered_example =
    attempts-answered net json no_date shaky ask "s" plain site refl (λ m. refl) 1 reply
      (omega arith) first-IsLost refl
