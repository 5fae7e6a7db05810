-- ===== src/Handler/Start.antt =====
-- internal/proxy/handler.go: New, and the requests that its handler serves one after another.
use opencode_proxy_api.Base.{
  ℕ, suc, ◌≤◌, String, List, [], ◌∷◌, Option, none, some, ◌==◌, if◌then◌else◌, ◌≡◌, ◌≢◌, refl, sym,
  ap, ◌∙◌, Result, ok, err, panic, ◌>>=◌, ℤ, Bool-cases, Result-cases, inl, inr, ◌⊎◌, length, All,
}
use opencode_proxy_api.Config.{Config}
use opencode_proxy_api.Config.Transport.{Client, Net, new_http_client, new_http_client-ne-panic}
use opencode_proxy_api.Json.{JsonPackage}
use opencode_proxy_api.Session.{Randomness}
use opencode_proxy_api.Pool.{ProxyPool, new_client}
use opencode_proxy_api.Pool.Load.{FileRead, load_proxy_pool, load-ne-panic}
use opencode_proxy_api.Pool.Steps.{load-IsValid}
use opencode_proxy_api.Handler.{Handler}
use opencode_proxy_api.Handler.RateLimit.{PoolIsValid, current_of-ok, new_client_of}
use opencode_proxy_api.Handler.Upstream.{World}
use opencode_proxy_api.Handler.Serve.{Request, Translate, Served, serve}
use opencode_proxy_api.Handler.Serve.Total.{serve-total}

-- The pool that New loads. `read` is the file system.
unfoldable pub start_pool : (String → FileRead) → Config → Result (Option ProxyPool)
start_pool read cfg =
    if cfg.proxy_pool_file == ""
    then ok none
    else load_proxy_pool read cfg.proxy_pool_file cfg.upstream_timeout cfg.force_ipv6 cfg.proxy_url

-- NewUpstreamClient
unfoldable pub new_upstream_client : Net → Config → Result Client
new_upstream_client net cfg = new_http_client net cfg.upstream_timeout cfg.proxy_url cfg.force_ipv6

-- Its client: the pool's, or else the one that the configuration gives.
unfoldable pub start_client : Net → Config → Option ProxyPool → Result Client
start_client net cfg (some p) = new_client net (some p)
start_client net cfg none = new_upstream_client net cfg

-- New
unfoldable pub new_handler : Net → (String → FileRead) → Config → Result Handler
new_handler net read cfg = do
  pool ← start_pool read cfg
  client ← start_client net cfg pool
  ok (record { cfg = cfg; upstream = client; proxy_pool = pool; rate_limit_count = 0 })

start_pool-IsValid :
    (net : Net) (read : String → FileRead) (cfg : Config) (pool : Option ProxyPool)
    → start_pool read cfg ≡ ok pool
    → PoolIsValid net pool
unfolding start_pool
start_pool-IsValid net read cfg none e = tt
start_pool-IsValid net read cfg (some p) e = elim (Bool-cases (cfg.proxy_pool_file == "")) [
  | inl no_file ↦ cc (rw no_file at e)
  | inr file ↦ load-IsValid net read cfg.proxy_pool_file _ _ _ p (rw file at e)
]

start_pool-ne-panic : (read : String → FileRead) (cfg : Config) → start_pool read cfg ≢ panic
unfolding start_pool
start_pool-ne-panic read cfg e = elim (Bool-cases (cfg.proxy_pool_file == "")) [
  | inl no_file ↦ cc (rw no_file at e)
  | inr file ↦ load-ne-panic read cfg.proxy_pool_file _ _ _ (rw file at e)
]

start_client-ne-panic :
    (net : Net) (cfg : Config) (pool : Option ProxyPool)
    → PoolIsValid net pool
    → start_client net cfg pool ≢ panic
unfolding start_client new_upstream_client
start_client-ne-panic net cfg none v e = new_http_client-ne-panic net _ _ _ e
start_client-ne-panic net cfg (some p) v e =
    let (url, at) = current_of-ok net p v in
    new_http_client-ne-panic net p.timeout url p.force_ipv6 (sym (new_client_of net p url at) ∙ e)

-- New never panics: it returns an error, or a handler with this configuration, a well-formed pool
-- or none, and no 429 response counted.
pub new_handler-total :
    (net : Net) (read : String → FileRead) (cfg : Config)
    → ((e : String) × (new_handler net read cfg ≡ err e))
      ⊎ ((h : Handler) × (new_handler net read cfg ≡ ok h)
          × PoolIsValid net h.proxy_pool
          × (h.cfg ≡ cfg)
          × (h.rate_limit_count ≡ 0))
unfolding new_handler
new_handler-total net read cfg = elim (Result-cases (start_pool read cfg)) [
  | inl (pool, p) ↦
      let v = start_pool-IsValid net read cfg pool p in
      elim (Result-cases (start_client net cfg pool)) [
        | inl (c, built) ↦ inr (
          record { cfg = cfg; upstream = c; proxy_pool = pool; rate_limit_count = 0 },
          rw (p, new_handler) (rw built refl),
          v,
          refl,
          refl,
        )
        | inr (inl (e, failed)) ↦ inl (e, rw (p, new_handler) (rw failed refl))
        | inr (inr broke) ↦ absurd (start_client-ne-panic net cfg pool v broke)
      ]
  | inr (inl (e, failed)) ↦ inl (e, rw (failed, new_handler))
  | inr (inr broke) ↦ absurd (start_pool-ne-panic read cfg broke)
]

-- A request, with what the network, the clock and crypto/rand do while it is served.
pub record Arrival : Type 0 where
  pub request : Request
  pub world : World
  pub random : ℕ → Randomness
  pub now : ℕ

module _ (net : Net) (json : JsonPackage) (tr : Translate) (parse_time : String → Option ℤ) where
  -- The requests, each served when the one before it is done.
  unfoldable pub serve_all : Handler → List Arrival → Result (Handler × List Served)
  serve_all h [] = ok (h, [])
  serve_all h (a ∷ rest) = do
    s ← serve net json tr parse_time a.world h a.request a.random a.now
    later ← serve_all s.handler rest
    ok (later.0, s ∷ later.1)

  -- Few upstream requests were sent for it.
  abbrev pub IsModest : Served → Type 0
  IsModest s = length s.sent ≤ 3

  serve_all-total :
      (h : Handler) (arrivals : List Arrival)
      → PoolIsValid net h.proxy_pool
      → (r : Handler × List Served) × (serve_all h arrivals ≡ ok r)
        × PoolIsValid net r.0.proxy_pool
        × (length r.1 ≡ length arrivals)
        × All IsModest r.1
  unfolding serve_all
  serve_all-total h [] v = ((h, []), refl, v, refl, tt)
  serve_all-total h (a ∷ rest) v =
      let (s, e, w, few) =
        serve-total net json tr parse_time a.world h a.request a.random a.now v in
      let (r, e', w', n, all_few) = serve_all-total s.handler rest w in
      ((r.0, s ∷ r.1), rw (e, serve_all) (rw e' refl), w', ap suc n, (few, all_few))

  -- From the start on, whatever the configuration, the files and the network: New returns an error,
  -- or a handler that serves every sequence of requests, each with at most three upstream requests,
  -- and never panics.
  started-total :
      (read : String → FileRead) (cfg : Config) (arrivals : List Arrival)
      → ((e : String) × (new_handler net read cfg ≡ err e))
        ⊎ ((h : Handler) × (r : Handler × List Served) × (new_handler net read cfg ≡ ok h)
            × (serve_all h arrivals ≡ ok r)
            × PoolIsValid net r.0.proxy_pool
            × (length r.1 ≡ length arrivals)
            × All IsModest r.1)
  started-total read cfg arrivals = elim (new_handler-total net read cfg) [
    | inl failed ↦ inl failed
    | inr (h, e, v, _, _) ↦
        let (r, done, w, n, few) = serve_all-total h arrivals v in inr (h, r, e, done, w, n, few)
  ]
