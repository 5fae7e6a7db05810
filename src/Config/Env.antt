-- ===== src/Config/Env.antt =====
-- config/config.go: Load, over the process's environment. `env` is os.Getenv.
pub mod Threshold
use opencode_proxy_api.Base.{
  ℕ, zero, suc, ◌*◌, ◌<◌, ◌^◌, String, Bool, true, false, ◌||◌, ◌&&◌, not, List, [], ◌∷◌, ◌++◌,
  Option, none, some, ◌==◌, if◌then◌else◌, ℤ, pos, negsuc, ltb, ltb_ℤ,
}
use opencode_proxy_api.Base.Text.{trim_space, split, parse_int64, lower_is}
use opencode_proxy_api.Config.{Config}
use opencode_proxy_api.Config.Url.{UrlPackage}
use opencode_proxy_api.Pool.Load.{inline_name}
use opencode_proxy_api.Retry.{second}

-- The loop of parseModelList; the set is a list.
unfoldable pub model_names : List String → List String
model_names [] = []
model_names (part ∷ parts) =
    let rest = model_names parts in if trim_space part == "" then rest else trim_space part ∷ rest

unfoldable pub parse_model_list : String → List String
parse_model_list raw =
    if trim_space raw == "" then [] else model_names (split b',' (trim_space raw))

unfoldable pub parse_bool : String → Bool
parse_bool raw =
    lower_is (trim_space raw) "1"
    || lower_is (trim_space raw) "true"
    || lower_is (trim_space raw) "yes"
    || lower_is (trim_space raw) "on"

abbrev or_default : String → String → String
or_default value default = if value == "" then default else value

-- A setting, and the warnings that reading it logs.
pub record Setting {ℓ} (A : Type ℓ) : Type ℓ where
  pub value : A
  pub warnings : List String

timeout_of : Option ℤ → Setting ℤ
timeout_of (some d) = record { value = d; warnings = [] }
timeout_of none = record {
  value = pos (300 * second);
  warnings = "invalid OPCODE_UPSTREAM_TIMEOUT" ∷ [];
}

-- `parse_duration` is time.ParseDuration.
unfoldable pub upstream_timeout : (String → Option ℤ) → String → Setting ℤ
unfolding timeout_of
upstream_timeout parse_duration raw =
    if raw == ""
    then record { value = pos (300 * second); warnings = [] }
    else timeout_of (parse_duration raw)

default_threshold : Setting ℤ
default_threshold = record {
  value = pos 3;
  warnings = "invalid OPCODE_RATE_LIMIT_ACTION_THRESHOLD" ∷ [];
}

threshold_of : Option ℤ → Setting ℤ
unfolding default_threshold
threshold_of none = default_threshold
threshold_of (some n) =
    if ltb_ℤ (pos 0) n then record { value = n; warnings = [] } else default_threshold

-- strconv.Atoi reads an int of 64 bits.
unfoldable pub action_threshold : String → Setting ℤ
unfolding threshold_of
action_threshold raw =
    if raw == "" then record { value = pos 3; warnings = [] } else threshold_of (parse_int64 raw)

-- A single proxy with no pool file is a pool of one.
unfoldable pub pool_file : String → String → String
pool_file proxy_url file = if not (proxy_url == "") && file == "" then inline_name else file

-- proxyScheme, which lowers it too.
unfoldable pub proxy_scheme : UrlPackage → String → String
proxy_scheme pkg proxy_url =
    if proxy_url == "" then "" else elim (pkg.parse proxy_url) [ none ↦ "" | some u ↦ u.scheme ]

-- The warnings about a flag that has no effect.
unfoldable pub scheme_warnings : UrlPackage → Bool → String → List String
scheme_warnings pkg force_ipv6 proxy_url =
    let scheme = proxy_scheme pkg proxy_url in
    if not force_ipv6
    then []
    else if lower_is scheme "socks5h"
    then "OPCODE_FORCE_IPV6 has no effect with socks5h" ∷ []
    else if lower_is scheme "http" || lower_is scheme "https"
    then "OPCODE_FORCE_IPV6 has no effect with an http/https proxy" ∷ []
    else []

module _ (pkg : UrlPackage) (parse_duration : String → Option ℤ) where
  -- Load
  unfoldable pub load : (String → String) → Setting Config
  unfolding scheme_warnings
  load env =
      let timeout = upstream_timeout parse_duration (env "OPCODE_UPSTREAM_TIMEOUT") in
      let proxy_url = trim_space (env "OPCODE_PROXY") in
      let force_ipv6 = parse_bool (env "OPCODE_FORCE_IPV6") in
      let threshold = action_threshold (trim_space (env "OPCODE_RATE_LIMIT_ACTION_THRESHOLD")) in
      record {
        value = record {
          listen_addr = or_default (env "OPCODE_LISTEN") ":8080";
          api_key = env "OPCODE_API_KEY";
          allowed_models = parse_model_list (env "OPCODE_ALLOWED_MODELS");
          upstream_base = or_default (env "OPCODE_UPSTREAM_BASE") "https://opencode.ai";
          upstream_token = or_default (env "OPCODE_UPSTREAM_TOKEN") "public";
          upstream_timeout = timeout.value;
          proxy_url = proxy_url;
          proxy_pool_file = pool_file proxy_url (trim_space (env "OPCODE_PROXY_POOL_FILE"));
          force_ipv6 = force_ipv6;
          diag_egress = parse_bool (env "OPCODE_DIAG_EGRESS");
          rate_limit_action = trim_space (env "OPCODE_RATE_LIMIT_ACTION");
          rate_limit_action_threshold = threshold.value;
        };
        warnings =
            timeout.warnings ++ (threshold.warnings ++ scheme_warnings pkg force_ipv6 proxy_url);
      }
