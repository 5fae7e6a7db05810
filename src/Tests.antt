-- ===== src/Tests.antt =====
-- Concrete data for the examples, and the examples: a pool of two proxies, a network that reaches
-- them, and a decoder that knows two documents.
mod Retrying
mod Pools
mod Selection
mod Failures
mod Sessions
mod Requests
mod Injection
mod Serving
mod Chats
mod Starting
mod Dialing
mod Markup
mod Conversion
mod Logging
mod Concurrency
mod Clients
mod Refusal
use opencode_proxy_api.Base.{
  ℕ, String, Bool, true, false, Option, none, some, List, [], ◌∷◌, ◌==◌, if◌then◌else◌, ◌≡◌, refl,
  arith, length, ℤ, pos, inl, inr, Result, ok,
}
use opencode_proxy_api.Json.{Json, str, arr, obj, cons, nil, field, end, Items, Fields, JsonPackage}
use opencode_proxy_api.Config.{Config}
use opencode_proxy_api.Config.Url.{Url}
use opencode_proxy_api.Config.Transport.{Net, Client, Transport, http_proxy}
use opencode_proxy_api.Pool.{ProxyPool}
use opencode_proxy_api.Pool.Load.{fresh_pool}
use opencode_proxy_api.Pool.Invariant.{IsValid}
use opencode_proxy_api.Pool.Steps.{fresh_pool-IsValid}

abbrev pub site : Url
site = record {
  scheme = "http";
  user = none;
  host = "localhost:1080";
  escaped_path = "";
  raw_query = "";
}

abbrev pub net : Net
net = record {
  url = record { parse = λ s. some site; print = λ u. u.host };
  socks5 = λ host auth. none;
}

abbrev pub no_date : String → Option ℤ
no_date header = none

abbrev pub pool : ProxyPool
pool = record {
  proxies = "http://a" ∷ "http://b" ∷ [];
  current = 0;
  healthy = true ∷ true ∷ [];
  failure_counts = 0 ∷ 0 ∷ [];
  cooldown_until = pos 0 ∷ pos 0 ∷ [];
  client_cache = none ∷ none ∷ [];
  timeout = pos 30;
  force_ipv6 = false;
}

pub pool-IsValid : IsValid net pool
unfolding fresh_pool
pool-IsValid = fresh_pool-IsValid net "http://a" ("http://b" ∷ []) (pos 30) false

-- The same pool with its second proxy unhealthy.
abbrev pub down_pool : ProxyPool
down_pool = record pool { healthy = true ∷ false ∷ [] }

pub down_pool-IsValid : IsValid net down_pool
down_pool-IsValid = record {
  filled = omega arith;
  in_range = omega arith;
  healthy_length = refl;
  counts_length = refl;
  cooldown_length = refl;
  cache_length = refl;
  counted = (inl refl, (inr (omega arith), tt));
  cached = (inl refl, (inl refl, tt));
}

-- The configuration, with a command that every second 429 runs.
abbrev pub cfg : Config
cfg = record {
  listen_addr = ":8080";
  api_key = "secret";
  allowed_models = "m" ∷ [];
  upstream_base = "https://opencode.ai/";
  upstream_token = "public";
  upstream_timeout = pos 30;
  proxy_url = "";
  proxy_pool_file = "";
  force_ipv6 = false;
  diag_egress = false;
  rate_limit_action = "warp-cli";
  rate_limit_action_threshold = pos 2;
}

abbrev pub user_message : Json
user_message = obj (field "role" (str "user") (field "content" (str "hi") end))

abbrev pub more_message : Json
more_message = obj (field "role" (str "user") (field "content" (str "more") end))

abbrev pub first_fields : Fields
first_fields = field "messages" (arr (cons user_message nil)) end

abbrev pub second_fields : Fields
second_fields = field "messages" (arr (cons user_message (cons more_message nil))) end

-- It knows two texts.
abbrev pub json : JsonPackage
json = record {
  decode = λ s.
      if s == "first"
      then some (obj first_fields)
      else if s == "second"
      then some (obj second_fields)
      else none;
  encode = λ v. "{}";
  float = λ s. s;
}

abbrev pub no_header : String → String
no_header key = ""
