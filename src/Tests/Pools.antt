-- ===== src/Tests/Pools.antt =====
-- Pools that are loaded, rotated and used.
use opencode_proxy_api.Base.{
  get_or, none, String, true, false, some, List, [], ◌∷◌, ◌≡◌, refl, pos, ok,
}
use opencode_proxy_api.Base.Text.{
  trim_space, has_prefix, contains, lower_is, eq_codes, lower, lower_code,
}
use opencode_proxy_api.Base.Fnv.{sum64}
use opencode_proxy_api.Config.Transport.{Client, new_http_client, http_proxy}
use opencode_proxy_api.Pool.{
  ProxyPool, rotate, select_index, preferred_index, available, client_for_session,
}
use opencode_proxy_api.Pool.Invariant.{IsValid}
use opencode_proxy_api.Pool.Load.{
  FileRead, lines, load_proxy_pool, proxy_lines, is_proxy_line, pool_of_lines, pool_of_file,
  fresh_pool,
}
use opencode_proxy_api.Pool.Clients.{built, chosen}
use opencode_proxy_api.Pool.Affinity.{client_for_session_sticky, rotate_keeps_sessions}
use opencode_proxy_api.Pool.Runs.{Op, success, failure, rotation, request, run, run-IsValid}
use opencode_proxy_api.Tests.{net, no_date, pool, pool-IsValid, site}

abbrev day : List Op
day =
    request 5 "s"
    ∷ failure 6 "http://a" 0 true ""
    ∷ rotation
    ∷ success "http://b"
    ∷ request 7 "s"
    ∷ []

run-IsValid_example : (q : ProxyPool) × (run net no_date pool day ≡ ok q) × IsValid net q
run-IsValid_example = run-IsValid net no_date pool day pool-IsValid

abbrev client : Client
client = record {
  timeout = pos 30;
  transport = record {
    route = http_proxy site;
    max_idle_conns_per_host = 64;
    max_idle_conns = 256;
    idle_conn_timeout = 90_000_000_000;
  };
}

serves : built net pool (chosen net pool 5 "s") ≡ ok client
unfolding new_http_client select_index preferred_index available sum64 lower_is eq_codes lower
    lower_code
serves = refl

client_for_session_sticky_example :
    (q : ProxyPool) × (client_for_session net (some pool) 5 "s" ≡ ok (q, client))
    × IsValid net q
    × (get_or q.client_cache (chosen net pool 5 "s") none ≡ some client)
    × (client_for_session net (some q) 5 "s" ≡ ok (q, client))
client_for_session_sticky_example =
    client_for_session_sticky net pool 5 "s" client pool-IsValid serves

abbrev read : String → FileRead
read path = lines ("# mine" ∷ " http://a " ∷ "" ∷ "http://b" ∷ [])

loaded : load_proxy_pool read "proxies.txt" (pos 30) false "" ≡ ok (some pool)
unfolding load_proxy_pool pool_of_lines pool_of_file proxy_lines is_proxy_line fresh_pool trim_space
    has_prefix contains
loaded = refl

rotated : rotate pool ≡ ok (record pool { current = 1 }, "http://b")
unfolding rotate
rotated = refl

rotate_keeps_sessions_example :
    select_index (record pool { current = 1 }) 5 (preferred_index (record pool { current = 1 }) "s")
    ≡ select_index pool 5 (preferred_index pool "s")
rotate_keeps_sessions_example =
    rotate_keeps_sessions pool (record pool { current = 1 }) "http://b" "s" 5 rotated
