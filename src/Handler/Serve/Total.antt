-- ===== src/Handler/Serve/Total.antt =====
-- internal/proxy/handler.go: what serving a request comes to, on each branch.
use opencode_proxy_api.Base.{
  ℕ, zero, suc, ◌≤◌, ◌∙◌, length-append, String, List, [], Option, none, some, eqb, leb, ◌≡◌, refl,
  arith, ok, ℤ, Bool-cases, inl, inr, length,
}
use opencode_proxy_api.Config.Transport.{Net}
use opencode_proxy_api.Json.{JsonPackage}
use opencode_proxy_api.Session.{Randomness, extract_from_request}
use opencode_proxy_api.Handler.{Handler, account}
use opencode_proxy_api.Handler.RateLimit.{PoolIsValid, on_rate_limited-total}
use opencode_proxy_api.Handler.Actions.{note_failure_lem, note_success_lem}
use opencode_proxy_api.Handler.Upstream.{
  UpstreamRequest, UpstreamResponse, World, Reached, reached, refused, abandoned,
  read_upstream_body, write_response,
}
use opencode_proxy_api.Handler.Attempts.{handler_of, sent_of, tries, attempts_lem}
use opencode_proxy_api.Handler.Serve.{
  Request, Translate, Admitted, Guarded, answer, admitted, guards, Served, post_upstream, rewritten,
  label_stream, response_header, read_answer, finish, request_of, serve_admitted, serve_guarded,
  serve,
}

length-tries : (new_req : ℕ → UpstreamRequest) (k : ℕ) → length (tries new_req k) ≡ k
length-tries new_req zero = refl
length-tries new_req (suc k) =
    length-append (tries new_req k) _ ∙ omega (arith, length-tries new_req k)

module _ (net : Net) (json : JsonPackage) (tr : Translate) (parse_time : String → Option ℤ)
    (world : World) where
  -- The accounting of a response returns and keeps the pool well formed.
  account-total :
      (h : Handler) (now status : ℕ) (retry_after : String)
      → PoolIsValid net h.proxy_pool
      → (r : Handler × List String) × (account net parse_time h now status retry_after ≡ ok r)
        × PoolIsValid net r.0.proxy_pool
  unfolding account
  account-total h now status retry_after v = elim (Bool-cases (leb 400 status)) [
    | inl bad ↦
        let (h', noted, l) =
          note_failure_lem net parse_time h now status retry_after h.proxy_pool v v in
        elim (Bool-cases (eqb status 429)) [
          | inl limited ↦
              let (r, done, w) = on_rate_limited-total net h' l.valid in
              (r, rw (bad, noted, limited, account) done, w)
          | inr other ↦ ((h', []), rw (bad, noted, other, account), l.valid)
        ]
    | inr good ↦
        let (h', noted, l) =
          note_success_lem net parse_time (record h { rate_limit_count = 0 }) h.proxy_pool v v in
        ((h', []), rw (good, noted, account), l.valid)
  ]

  -- What a request leaves: a well-formed pool, and the requests that were sent.
  record Answers (sent : List UpstreamRequest) (s : Served) : Type 0 where
    valid : PoolIsValid net s.handler.proxy_pool
    same : s.sent ≡ sent

  read_answer-total :
      (a : Admitted) (h : Handler) (resp : UpstreamResponse) (now : ℕ) (sent : List UpstreamRequest)
      (out : Option String)
      → PoolIsValid net h.proxy_pool
      → (s : Served) × (read_answer net json tr parse_time world a h resp now sent out ≡ ok s)
        × Answers sent s
  unfolding read_answer post_upstream
  read_answer-total a h resp now sent none v = (_, refl, record { valid = v; same = refl })
  read_answer-total a h resp now sent (some out) v =
      let (r, e, w) =
        account-total h now resp.status (response_header "Retry-After" resp.headers) v in
      (
        record {
          handler = r.0;
          response = some (
              write_response json resp (rewritten json tr a resp.status out)
                (label_stream a resp.status));
          sent = sent;
          commands = r.1;
        },
        rw (e, post_upstream),
        record { valid = w; same = refl },
      )

  finish-total :
      (a : Admitted) (now : ℕ) (x : Reached)
      → PoolIsValid net (handler_of x).proxy_pool
      → (s : Served) × (finish net json tr parse_time world a now x ≡ ok s) × Answers (sent_of x) s
  unfolding finish
  finish-total a now (reached h resp sent) v =
      read_answer-total a h resp now sent (read_upstream_body resp.body) v
  finish-total a now (refused h resp sent) v = (_, refl, record { valid = v; same = refl })
  finish-total a now (abandoned h sent) v = (_, refl, record { valid = v; same = refl })

  -- Of an admitted request, one upstream request is sent in each of at most three attempts.
  serve_admitted-total :
      (h : Handler) (r : Request) (random : ℕ → Randomness) (now : ℕ) (a : Admitted)
      → PoolIsValid net h.proxy_pool
      → (s : Served) × (serve_admitted net json tr parse_time world h r random now a ≡ ok s)
        × PoolIsValid net s.handler.proxy_pool
        × (length s.sent ≤ 3)
  unfolding serve_admitted
  serve_admitted-total h r random now a v =
      let ids = extract_from_request json r.header a.body (random 0) in
      let new_req = request_of net json tr parse_time world h.cfg r a random ids in
      let (x, e, w, _, (k, few, sent)) =
        attempts_lem net json parse_time world new_req ids.session h v in
      let (s, e', l) = finish-total a now x w in
      (s, rw e e', l.valid, rw (l.same, sent, length-tries new_req k) few)

  serve_guarded-total :
      (h : Handler) (r : Request) (random : ℕ → Randomness) (now : ℕ) (g : Guarded)
      → PoolIsValid net h.proxy_pool
      → (s : Served) × (serve_guarded net json tr parse_time world h r random now g ≡ ok s)
        × PoolIsValid net s.handler.proxy_pool
        × (length s.sent ≤ 3)
  unfolding serve_guarded
  serve_guarded-total h r random now (answer resp) v = (_, refl, v, omega arith)
  serve_guarded-total h r random now (admitted a) v = serve_admitted-total h r random now a v

  -- Let each client.Do return, with whatever response or error. Then every request to a handler whose
  -- pool is well formed, if it has one, is served without a panic that leaves ServeHTTP: a status that
  -- w.WriteHeader refuses is answered with 500 by the recover. The pool is well formed afterwards, and
  -- at most three requests go upstream.
  pub serve-total :
      (h : Handler) (r : Request) (random : ℕ → Randomness) (now : ℕ)
      → PoolIsValid net h.proxy_pool
      → (s : Served) × (serve net json tr parse_time world h r random now ≡ ok s)
        × PoolIsValid net s.handler.proxy_pool
        × (length s.sent ≤ 3)
  unfolding serve
  serve-total h r random now v = serve_guarded-total h r random now (guards json h.cfg r) v
