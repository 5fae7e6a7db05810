-- ===== src/Tests/Refusal.antt =====
-- A request through a pool of one proxy whose URL has a scheme that no client goes through.
use opencode_proxy_api.Base.{
  String, true, false, [], ◌∷◌, none, some, get_or, ok, ◌≡◌, refl, pos, arith, err, inl, inr,
}
use opencode_proxy_api.Base.Text.{lower_is, eq_codes, lower, lower_code}
use opencode_proxy_api.Base.Fnv.{bytes}
use opencode_proxy_api.Json.{
  str, obj, field, end, struct_string, struct_bool, same_key, JsonPackage,
}
use opencode_proxy_api.Config.{is_model_allowed, has_model}
use opencode_proxy_api.Config.Transport.{Net, new_http_client}
use opencode_proxy_api.Config.Transport.Builds.{Usable, new_http_client-Usable}
use opencode_proxy_api.Session.{extract_from_request}
use opencode_proxy_api.Pool.{ProxyPool, available, preferred_index}
use opencode_proxy_api.Pool.Load.{fresh_pool}
use opencode_proxy_api.Pool.Invariant.{IsValid}
use opencode_proxy_api.Pool.Affinity.{preferred_index_lt}
use opencode_proxy_api.Pool.Steps.{fresh_pool-IsValid}
use opencode_proxy_api.Handler.{Handler, endpoint}
use opencode_proxy_api.Handler.Auth.{check_auth, presented_key, write_json_error}
use opencode_proxy_api.Handler.Upstream.{parse_request_meta}
use opencode_proxy_api.Handler.Serve.{Admitted, admitted, guards, read_request_body, serve}
use opencode_proxy_api.Handler.Serve.Unusable.{serve_unusable}
use opencode_proxy_api.Tests.{site, no_date, cfg}
use opencode_proxy_api.Tests.Serving.{handler, offline, same, random, with_key, request}

abbrev odd : Net
odd = record {
  url = record { parse = λ s. some (record site { scheme = "ftp" }); print = λ u. u.host };
  socks5 = λ host auth. none;
}

abbrev lone : ProxyPool
lone = record {
  proxies = "ftp://b" ∷ [];
  current = 0;
  healthy = true ∷ [];
  failure_counts = 0 ∷ [];
  cooldown_until = pos 0 ∷ [];
  client_cache = none ∷ [];
  timeout = pos 30;
  force_ipv6 = false;
}

lone-IsValid : IsValid odd lone
unfolding fresh_pool
lone-IsValid = fresh_pool-IsValid odd "ftp://b" [] (pos 30) false

abbrev model_only : JsonPackage
model_only = record {
  decode = λ s. some (obj (field "model" (str "m") end));
  encode = λ v. "{}";
  float = λ s. s;
}

abbrev passed : Admitted
passed = record {
  ep = record {
    upstream_path = "/zen/v1/messages";
    need_inject = false;
    adapt_claude_tools = true;
    rewrite_dsml = true;
    normalize_chat_roles = false;
  };
  model = "m";
  is_stream = false;
  body = "first";
}

abbrev gateway : Handler
gateway = record handler { proxy_pool = some lone }

let_in : guards model_only cfg (request with_key) ≡ admitted passed
unfolding guards endpoint check_auth presented_key read_request_body parse_request_meta
    struct_string struct_bool same_key eq_codes is_model_allowed has_model bytes
let_in = refl

abbrev session : String
session = (extract_from_request model_only with_key "first" (random 0)).session

only_one : preferred_index lone session ≡ 0
only_one = omega (arith, preferred_index_lt lone session (omega arith))

up : available lone (offline.now 1) (preferred_index lone session) ≡ true
unfolding available
up = rw only_one refl

no_client : new_http_client odd (pos 30) "ftp://b" false ≡ err "unsupported OPCODE_PROXY scheme"
unfolding new_http_client lower_is eq_codes lower lower_code
no_client = refl

ftp_refused : Usable odd "ftp://b" → ⊥
ftp_refused h = elim (new_http_client-Usable odd (pos 30) "ftp://b" false) [
  | inl (_, (c, built, _)) ↦ cc (built, no_client)
  | inr (unfit, _) ↦ unfit h
]

own_url : get_or lone.proxies (preferred_index lone session) "" ≡ "ftp://b"
own_url = rw only_one refl

unusable : Usable odd (get_or lone.proxies (preferred_index lone session) "") → ⊥
unusable h = ftp_refused (rw own_url at h)

serve_unusable_example :
    serve odd model_only same no_date offline gateway (request with_key) random 9
    ≡ ok (record {
      handler = gateway;
      response = some (write_json_error model_only 500 "proxy configuration error" "server_error");
      sent = [];
      commands = [];
    })
serve_unusable_example =
    serve_unusable odd model_only same no_date offline gateway lone (request with_key) random 9
      passed session (record site { scheme = "ftp" }) let_in refl lone-IsValid refl up unusable refl
