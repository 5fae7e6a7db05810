-- ===== src/Handler/Serve/Guards.antt =====
-- internal/proxy/handler.go: what a request must be to go upstream.
use opencode_proxy_api.Base.{
  ℕ, ◌*◌, ◌≤◌, ltb, length, String, Bool, true, false, [], Option, none, some, ◌==◌, ◌≡◌, ◌≢◌, refl,
  sym, ap, ◌∙◌, arith, ok, ℤ, Bool-cases, inl, inr, ◌⊎◌, ◌↔◌, eq_iff,
}
use opencode_proxy_api.Base.Fnv.{bytes}
use opencode_proxy_api.Handler.Serve.Allowed.{
  IsAuthorized, IsAuthorized-iff, IsAllowed, IsAllowed-iff, Names, parsed-Names, Names-parsed,
}
use opencode_proxy_api.Config.{Config, is_model_allowed}
use opencode_proxy_api.Config.Transport.{Net}
use opencode_proxy_api.Json.{JsonPackage}
use opencode_proxy_api.Session.{Randomness}
use opencode_proxy_api.Handler.{Handler, EndpointConfig, endpoint}
use opencode_proxy_api.Handler.Auth.{check_auth}
use opencode_proxy_api.Handler.Upstream.{parse_request_meta, World}
use opencode_proxy_api.Handler.Serve.{
  Request, Translate, Admitted, Guarded, answer, admitted, read_request_body, check_model,
  check_body, check_endpoint, guards, Served, serve_guarded, serve,
}

-- A request that passes each test of the guards, and what they say of it.
record Passes (json : JsonPackage) (cfg : Config) (r : Request) (a : Admitted) : Type 0 where
  known : endpoint r.path ≡ some a.ep
  posted : r.method ≡ "POST"
  authorized : check_auth cfg r.header ≡ true
  body_read : read_request_body r.body ≡ some a.body
  meta : parse_request_meta json a.body ≡ (a.model, a.is_stream)
  named : a.model ≢ ""
  allowed : is_model_allowed cfg a.model ≡ true

-- A request that may go upstream, and what the guards say of it.
pub record IsAdmitted (json : JsonPackage) (cfg : Config) (r : Request) (a : Admitted)
    : Type 0 where
  pub known : endpoint r.path ≡ some a.ep
  pub posted : r.method ≡ "POST"
  pub authorized : IsAuthorized cfg r.header
  pub short : length (bytes r.body.content) ≤ 10 * 1_048_576
  pub readable : r.body.fails ≡ false
  pub body_is : r.body.content ≡ a.body
  pub meta : Names json a.body a.model a.is_stream
  pub named : a.model ≢ ""
  pub allowed : IsAllowed cfg a.model

models_no_endpoint : endpoint "/v1/models" ≡ none
unfolding endpoint
models_no_endpoint = refl

module _ (json : JsonPackage) (cfg : Config) (r : Request) (a : Admitted) where
  model_admitted :
      (ep : EndpointConfig) (body model : String) (is_stream : Bool)
      → check_model json cfg ep body (model, is_stream) ≡ admitted a
      → (a ≡ record { ep = ep; model = model; is_stream = is_stream; body = body })
        × (model ≢ "")
        × (is_model_allowed cfg model ≡ true)
  unfolding check_model
  model_admitted ep body model is_stream e = elim (Bool-cases (model == "")) [
    | inl empty ↦ cc (rw empty at e)
    | inr filled ↦ elim (Bool-cases (is_model_allowed cfg model)) [
      | inl allowed ↦ (ground arith, ground (arith, eq_iff model ""), allowed)
      | inr banned ↦ cc (rw (filled, banned) at e)
    ]
  ]

  body_admitted :
      (ep : EndpointConfig) (o : Option String)
      → read_request_body r.body ≡ o
      → endpoint r.path ≡ some ep
      → r.method ≡ "POST"
      → check_auth cfg r.header ≡ true
      → check_body json cfg ep o ≡ admitted a
      → Passes json cfg r a
  unfolding check_body
  body_admitted ep none b k p auth e = cc
  body_admitted ep (some body) b k p auth e =
      let meta = parse_request_meta json body in
      let (same, named, allowed) = model_admitted ep body meta.0 meta.1 e in
      record {
        known = k ∙ ap (λ (x : Admitted). some x.ep) (sym same);
        posted = p;
        authorized = auth;
        body_read = b ∙ ap (λ (x : Admitted). some x.body) (sym same);
        meta = rw same refl;
        named = rw same named;
        allowed = rw same allowed;
      }

  endpoint_admitted :
      (o : Option EndpointConfig)
      → endpoint r.path ≡ o
      → check_endpoint json cfg r o ≡ admitted a
      → Passes json cfg r a
  unfolding check_endpoint
  endpoint_admitted none k e = cc
  endpoint_admitted (some ep) k e = elim (Bool-cases (r.method == "POST")) [
    | inr other ↦ cc (rw other at e)
    | inl post ↦ elim (Bool-cases (check_auth cfg r.header)) [
      | inr unknown ↦ cc (rw (post, unknown) at e)
      | inl auth ↦
          body_admitted ep (read_request_body r.body) refl k ((eq_iff r.method "POST").0 post) auth
            (rw (post, auth) at e)
    ]
  ]

  guards-Passes : guards json cfg r ≡ admitted a → Passes json cfg r a
  unfolding guards
  guards-Passes e = elim (Bool-cases (r.method == "OPTIONS")) [
    | inl preflight ↦ cc (rw (preflight, guards) at e)
    | inr other ↦ elim (Bool-cases (r.path == "/v1/models")) [
      | inl models ↦ cc (rw (other, models, guards) at e)
      | inr path ↦ endpoint_admitted (endpoint r.path) refl (rw (other, path, guards) at e)
    ]
  ]

  -- Every such request is admitted.
  guards-admitted : Passes json cfg r a → guards json cfg r ≡ admitted a
  unfolding guards check_endpoint check_body check_model
  guards-admitted v =
      let preflight : (r.method == "OPTIONS") ≡ false = rw v.posted refl in
      let post : (r.method == "POST") ≡ true = rw v.posted refl in
      let models : (r.path == "/v1/models") ≡ false =
        ground (arith, eq_iff r.path "/v1/models", v.known, models_no_endpoint) in
      let named : (a.model == "") ≡ false = ground (arith, eq_iff a.model "", v.named) in
      rw (preflight, models, guards)
        (rw (v.known, check_endpoint)
          (rw (post, v.authorized)
            (rw (v.body_read, check_body) (rw (v.meta, check_model) (rw (named, v.allowed) refl)))))

  read_iff : (read_request_body r.body ≡ some a.body) ↔ (
      (length (bytes r.body.content) ≤ 10 * 1_048_576)
      × (r.body.fails ≡ false)
      × (r.body.content ≡ a.body))
  unfolding read_request_body
  read_iff = elim (Bool-cases (ltb (10 * 1_048_576) (length (bytes r.body.content)))) [
    | inl long ↦
        (λ h. cc (rw long at h), λ h. let (s, f, c) = h in absurd (ground (arith, long, s)))
    | inr short ↦ elim (Bool-cases r.body.fails) [
      | inl broken ↦
          (λ h. cc (rw (short, broken) at h), λ h. let (s, f, c) = h in absurd (cc (f, broken)))
      | inr fine ↦ (
        λ h. (ground (arith, short), fine, cc (rw (short, fine) at h)),
        λ h. let (s, f, c) = h in rw (short, fine) (ap some c),
      )
    ]
  ]

  Passes-iff : Passes json cfg r a ↔ IsAdmitted json cfg r a
  Passes-iff = (
    λ p.
        let (short, readable, same) = read_iff.0 p.body_read in
        record {
          known = p.known;
          posted = p.posted;
          authorized = (IsAuthorized-iff cfg r.header).0 p.authorized;
          short = short;
          readable = readable;
          body_is = same;
          meta = parsed-Names json a.body a.model a.is_stream p.named p.meta;
          named = p.named;
          allowed = (IsAllowed-iff cfg a.model).0 p.allowed;
        },
    λ v. record {
      known = v.known;
      posted = v.posted;
      authorized = (IsAuthorized-iff cfg r.header).1 v.authorized;
      body_read = read_iff.1 (v.short, v.readable, v.body_is);
      meta = Names-parsed json a.body a.model a.is_stream v.meta;
      named = v.named;
      allowed = (IsAllowed-iff cfg a.model).1 v.allowed;
    },
  )

  -- The guards let exactly those requests through that are a POST to a known endpoint; that present
  -- the configured key in x-api-key, or, where that is empty, after "Bearer " in Authorization, if a
  -- key is configured; whose body can be read and has at most 10 MB; and whose body is a JSON object
  -- with a model that is not empty and, if any are configured, is one of the allowed ones.
  pub guards_iff : (guards json cfg r ≡ admitted a) ↔ IsAdmitted json cfg r a
  guards_iff = (λ h. Passes-iff.0 (guards-Passes h), λ v. guards-admitted (Passes-iff.1 v))

module _ (net : Net) (json : JsonPackage) (tr : Translate) (parse_time : String → Option ℤ)
    (world : World) where
  guarded_gate :
      (h : Handler) (r : Request) (random : ℕ → Randomness) (now : ℕ) (s : Served) (g : Guarded)
      → guards json h.cfg r ≡ g
      → serve_guarded net json tr parse_time world h r random now g ≡ ok s
      → ((s.sent ≡ []) × (s.commands ≡ []) × (s.handler ≡ h))
        ⊎ ((a : Admitted) × IsAdmitted json h.cfg r a)
  unfolding serve_guarded
  guarded_gate h r random now s (answer resp) k e = inl (ground arith, ground arith, ground arith)
  guarded_gate h r random now s (admitted a) k e = inr (a, (guards_iff json h.cfg r a).0 k)

  -- A request that is served either leaves the handler as it was and sends nothing upstream, or is
  -- admitted: a POST to a known endpoint, with the configured key if there is one, a body of at most
  -- 10 MB that can be read, and a model that the configuration allows.
  serve-gate :
      (h : Handler) (r : Request) (random : ℕ → Randomness) (now : ℕ) (s : Served)
      → serve net json tr parse_time world h r random now ≡ ok s
      → ((s.sent ≡ []) × (s.commands ≡ []) × (s.handler ≡ h))
        ⊎ ((a : Admitted) × IsAdmitted json h.cfg r a)
  unfolding serve
  serve-gate h r random now s e = guarded_gate h r random now s (guards json h.cfg r) refl e
