-- ===== src/Handler/Serve/Recover.antt =====
-- internal/proxy/handler.go: the deferred recover of ServeHTTP.
use opencode_proxy_api.Base.{ℕ, String, Option, some, [], Result, ok, err, panic, ◌≡◌, ◌≢◌, refl, ℤ}
use opencode_proxy_api.Json.{JsonPackage}
use opencode_proxy_api.Config.Transport.{Net}
use opencode_proxy_api.Session.{Randomness}
use opencode_proxy_api.Handler.{Handler}
use opencode_proxy_api.Handler.Auth.{write_json_error}
use opencode_proxy_api.Handler.RateLimit.{PoolIsValid}
use opencode_proxy_api.Handler.Upstream.{World}
use opencode_proxy_api.Handler.Serve.{Request, Translate, Served, serve}
use opencode_proxy_api.Handler.Serve.Total.{serve-total}

module _ (json : JsonPackage) (left : Handler) where
  -- What a panic is answered with; `left` is the state that it leaves.
  unfoldable pub recovered : Result Served → Result Served
  recovered (ok s) = ok s
  recovered (err e) = err e
  recovered panic = ok (record {
    handler = left;
    response = some (write_json_error json 500 "internal server error" "server_error");
    sent = [];
    commands = [];
  })

  recovered-ne-panic : (r : Result Served) → recovered r ≢ panic
  unfolding recovered
  recovered-ne-panic (ok s) e = cc (e)
  recovered-ne-panic (err x) e = cc (e)
  recovered-ne-panic panic e = cc (e)

module _ (net : Net) (json : JsonPackage) (tr : Translate) (parse_time : String → Option ℤ)
    (world : World) where
  -- ServeHTTP, with its recover.
  unfoldable pub serve_http : Handler → Handler → Request → (ℕ → Randomness) → ℕ → Result Served
  serve_http left h r random now =
      recovered json left (serve net json tr parse_time world h r random now)

  -- Whatever the pool, no panic leaves ServeHTTP.
  pub serve_http-ne-panic :
      (left h : Handler) (r : Request) (random : ℕ → Randomness) (now : ℕ)
      → serve_http left h r random now ≢ panic
  unfolding serve_http
  serve_http-ne-panic left h r random now = recovered-ne-panic json left _

  -- On a well-formed pool, or none, the recover is never needed.
  pub serve_http_lem :
      (left h : Handler) (r : Request) (random : ℕ → Randomness) (now : ℕ)
      → PoolIsValid net h.proxy_pool
      → serve_http left h r random now ≡ serve net json tr parse_time world h r random now
  unfolding serve_http recovered
  serve_http_lem left h r random now v =
      let (s, e, _, _) = serve-total net json tr parse_time world h r random now v in
      rw (e, recovered) refl
