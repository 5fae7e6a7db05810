-- ===== src/Handler/Serve/Allowed.antt =====
-- internal/proxy/handler.go and config/config.go: what the tests of the guards mean, said without them.
use mathlib.Core.List.{Mem, not-mem-nil, mem-cons_self, mem-cons_of_mem, eq-or-mem_of_mem-cons}
use mathlib.Core.Logic.Or
use opencode_proxy_api.Base.{
  String, Bool, true, false, List, [], ◌∷◌, some, ◌==◌, ◌≡◌, ◌≢◌, refl, sym, ap, ◌∙◌, arith,
  Bool-cases, Option-cases, inl, inr, ◌⊎◌, ◌↔◌, eq_iff,
}
use opencode_proxy_api.Base.Text.{append, cut_prefix}
use opencode_proxy_api.Base.Prefix.{cut_prefix-append, append-cut_prefix}
use opencode_proxy_api.Config.{Config, has_model, is_model_allowed}
use opencode_proxy_api.Json.{Fields, to_map, struct_string, struct_bool, JsonPackage}
use opencode_proxy_api.Handler.Auth.{presented_key, check_auth, check_auth_iff}
use opencode_proxy_api.Handler.Upstream.{parse_request_meta}

-- The key comes in x-api-key, or, where that is empty, as the bearer token.
pub Presents : String → (String → String) → Type 0
Presents key header =
    (header "x-api-key" ≡ key)
    ⊎ ((header "x-api-key" ≡ "") × (header "Authorization" ≡ append "Bearer " key))

Presents-presented :
    (key : String) (header : String → String)
    → key ≢ ""
    → Presents key header
    → presented_key header ≡ key
unfolding Presents presented_key
Presents-presented key header filled (inl own) =
    let given : (header "x-api-key" == "") ≡ false = ground (arith, own, eq_iff key "") in
    rw given own
Presents-presented key header filled (inr (empty, token)) =
    let none_own : (header "x-api-key" == "") ≡ true = (eq_iff (header "x-api-key") "").1 empty in
    rw none_own (rw token (rw (cut_prefix-append "Bearer " key) refl))

presented-Presents :
    (key : String) (header : String → String)
    → key ≢ ""
    → presented_key header ≡ key
    → Presents key header
unfolding Presents presented_key
presented-Presents key header filled e = elim (Bool-cases (header "x-api-key" == "")) [
  | inr given ↦ inl (rw given at e)
  | inl empty ↦ elim (Option-cases (cut_prefix "Bearer " (header "Authorization"))) [
    | inl other ↦ absurd (filled (sym (rw (empty, other) at e)))
    | inr (token, found) ↦
        let same : token ≡ key = rw (empty, found) at e in
        inr (
          (eq_iff (header "x-api-key") "").0 empty,
          rw (← same) (append-cut_prefix "Bearer " (header "Authorization") token found),
        )
  ]
]

-- No key is configured, or the request presents it.
pub IsAuthorized : Config → (String → String) → Type 0
IsAuthorized cfg header = (cfg.api_key ≡ "") ⊎ Presents cfg.api_key header

pub IsAuthorized-iff :
    (cfg : Config) (header : String → String)
    → (check_auth cfg header ≡ true) ↔ IsAuthorized cfg header
unfolding IsAuthorized
IsAuthorized-iff cfg header = elim (Bool-cases (cfg.api_key == "")) [
  | inl empty ↦
      let is = (eq_iff cfg.api_key "").0 empty in
      (λ h. inl is, λ h. (check_auth_iff cfg header).1 (inl is))
  | inr given ↦
      let filled : cfg.api_key ≢ "" = ground (arith, given, eq_iff cfg.api_key "") in
      (
        λ h. elim ((check_auth_iff cfg header).0 h) [
          | inl empty ↦ inl empty
          | inr same ↦ inr (presented-Presents cfg.api_key header filled same)
        ],
        λ h. elim h [
          | inl empty ↦ absurd (filled empty)
          | inr p ↦
              (check_auth_iff cfg header).1 (inr (Presents-presented cfg.api_key header filled p))
        ],
      )
]

-- No models are configured, or this is one of them.
abbrev pub IsAllowed : Config → String → Type 0
IsAllowed cfg model = (cfg.allowed_models ≡ []) ⊎ Mem model cfg.allowed_models

has_model-Mem : (model : String) (ms : List String) → has_model model ms ≡ true → Mem model ms
unfolding has_model
has_model-Mem model [] e = absurd (cc e)
has_model-Mem model (m ∷ ms) e = elim (Bool-cases (m == model)) [
  | inl same ↦ rw ((eq_iff m model).0 same) mem-cons_self
  | inr other ↦ mem-cons_of_mem m (has_model-Mem model ms (rw other at e))
]

Mem-has_model : (model : String) (ms : List String) → Mem model ms → has_model model ms ≡ true
unfolding has_model
Mem-has_model model [] h = absurd (not-mem-nil h)
Mem-has_model model (m ∷ ms) h =
    Or.elim (hlevel) (eq-or-mem_of_mem-cons h) (λ same. rw ((eq_iff m model).1 (sym same)) refl)
      (λ later. ground (arith, Mem-has_model model ms later))

models_at :
    (cfg : Config) (model : String) (ms : List String)
    → cfg.allowed_models ≡ ms
    → (is_model_allowed cfg model ≡ true) ↔ IsAllowed cfg model
unfolding is_model_allowed
models_at cfg model [] e = (λ h. inl e, λ h. rw e refl)
models_at cfg model (m ∷ ms) e = (
  λ h. inr (rw e (has_model-Mem model (m ∷ ms) (rw e at h))),
  λ h. elim h [
    | inl any ↦ absurd (cc (any, e))
    | inr there ↦ rw e (Mem-has_model model (m ∷ ms) (rw e at there))
  ],
)

pub IsAllowed-iff :
    (cfg : Config) (model : String) → (is_model_allowed cfg model ≡ true) ↔ IsAllowed cfg model
IsAllowed-iff cfg model = models_at cfg model cfg.allowed_models refl

-- The body is a JSON object, or null, with this model and this stream flag.
pub Names : JsonPackage → String → String → Bool → Type 0
Names json body model is_stream =
    (fs : Fields) × (to_map (json.decode body) ≡ some fs)
    × (struct_string "model" (some "") fs ≡ some model)
    × (struct_bool "stream" (some false) fs ≡ some is_stream)

module _ (json : JsonPackage) (body model : String) (is_stream : Bool) where
  pub parsed-Names :
      model ≢ ""
      → parse_request_meta json body ≡ (model, is_stream)
      → Names json body model is_stream
  unfolding Names parse_request_meta
  parsed-Names filled e = elim (Option-cases (to_map (json.decode body))) [
    | inl no_map ↦ absurd (filled (sym (ap (λ x. x.0) (rw (no_map, parse_request_meta) at e))))
    | inr (fs, map) ↦ elim (Option-cases (struct_string "model" (some "") fs)) [
      | inl no_model ↦
          absurd (filled (sym (ap (λ x. x.0) (rw (map, no_model, parse_request_meta) at e))))
      | inr (found, is_found) ↦ elim (Option-cases (struct_bool "stream" (some false) fs)) [
        | inl no_flag ↦
            absurd
              (filled (sym (ap (λ x. x.0) (rw (map, is_found, no_flag, parse_request_meta) at e))))
        | inr (flag, is_flag) ↦
            let both : (found, flag) ≡ (model, is_stream) =
              rw (map, is_found, is_flag, parse_request_meta) at e in
            (fs, map, is_found ∙ ap (λ x. some x.0) both, is_flag ∙ ap (λ x. some x.1) both)
      ]
    ]
  ]

  pub Names-parsed :
      Names json body model is_stream → parse_request_meta json body ≡ (model, is_stream)
  unfolding Names parse_request_meta
  Names-parsed (fs, map, named, flagged) = rw (map, named, flagged, parse_request_meta) refl
