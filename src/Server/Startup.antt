-- ===== src/Server/Startup.antt =====
-- cmd/server/main.go: what main logs before it listens.
use opencode_proxy_api.Base.{String, ◌==◌, if◌then◌else◌}
use opencode_proxy_api.Config.{Config}
use opencode_proxy_api.Config.Url.{UrlPackage, redact_proxy_url}

-- The entry "server starting".
pub record Starting : Type 0 where
  pub listen : String
  pub auth : String
  pub upstream : String
  pub proxy : String

unfoldable pub auth_mode : Config → String
auth_mode cfg = if cfg.api_key == "" then "no authentication" else "API key required"

unfoldable pub proxy_mode : UrlPackage → Config → String
proxy_mode pkg cfg = if cfg.proxy_url == "" then "direct" else redact_proxy_url pkg cfg.proxy_url

unfoldable pub starting : UrlPackage → Config → Starting
unfolding auth_mode proxy_mode
starting pkg cfg = record {
  listen = cfg.listen_addr;
  auth = auth_mode cfg;
  upstream = cfg.upstream_base;
  proxy = proxy_mode pkg cfg;
}
