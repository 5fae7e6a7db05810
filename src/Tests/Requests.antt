-- ===== src/Tests/Requests.antt =====
-- Authorization, the rate-limit command and the logged proxy URL at concrete inputs.
use opencode_proxy_api.Base.{
  String, some, List, [], ◌∷◌, ◌≡◌, refl, arith, eq_iff, ◌+◌, ◌*◌, ◌<◌, length, pos, ok,
}
use opencode_proxy_api.Config.Url.{Url, UrlPackage}
use opencode_proxy_api.Config.Transport.{Client, direct}
use opencode_proxy_api.Handler.{Handler}
use opencode_proxy_api.Handler.Actions.{Reply, account_all, too_many, actions_counted}
use opencode_proxy_api.Tests.{net, no_date, pool, pool-IsValid, cfg, site}

abbrev client : Client
client = record {
  timeout = pos 30;
  transport = record {
    route = direct;
    max_idle_conns_per_host = 64;
    max_idle_conns = 256;
    idle_conn_timeout = 90_000_000_000;
  };
}

abbrev handler : Handler
handler = record { cfg = cfg; upstream = client; proxy_pool = some pool; rate_limit_count = 1 }

abbrev replies : List Reply
replies =
    record { now = 5; status = 429; retry_after = "" }
    ∷ record { now = 6; status = 503; retry_after = "" }
    ∷ record { now = 7; status = 429; retry_after = "" }
    ∷ []

actions_counted_example :
    (x : Handler × List String) × (account_all net no_date handler replies ≡ ok x)
    × (2 * length x.1 + x.0.rate_limit_count ≡ handler.rate_limit_count + too_many replies)
    × (x.0.rate_limit_count < 2)
actions_counted_example =
    actions_counted net no_date 2 cfg (ground (arith, eq_iff "warp-cli" "")) refl (omega arith)
      (omega arith) handler replies refl pool-IsValid (omega arith)
      (omega arith, (omega arith, (omega arith, tt)))

abbrev with_password : String → Url
with_password secret = record site {
  user = some (record { username = "u"; password = some secret });
}

abbrev known : UrlPackage
known = record { parse = λ s. some (with_password s); print = λ u. u.host }
