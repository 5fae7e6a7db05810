-- ===== src/Pool/Runs.antt =====
-- Any sequence of operations on a pool. The handler makes every call of the pool while it holds its
-- poolMu (internal/proxy/handler.go 262, 297, 390, 413, 472, 551), so that the calls of concurrent
-- requests come one after another.
use opencode_proxy_api.Base.{
  ℕ, String, Bool, List, [], ◌∷◌, Option, some, ◌≡◌, refl, ◌∙◌, Result, ok, err, panic, inl, inr,
  Result-cases, ℤ,
}
use opencode_proxy_api.Config.Transport.{Net, new_http_client-ne-panic}
use opencode_proxy_api.Pool.{
  ProxyPool, rotate, mark_success, mark_failure, preferred_index, client_for_session,
}
use opencode_proxy_api.Pool.Invariant.{IsValid, mark_success-IsValid, mark_failure-IsValid}
use opencode_proxy_api.Pool.Steps.{rotate_lem}
use opencode_proxy_api.Pool.Select.{select_index_lt}
use opencode_proxy_api.Pool.Clients.{
  built, chosen, client_for_index_lem, client_for_index_refused, client_for_session_form,
}
use opencode_proxy_api.Pool.Affinity.{preferred_index_lt}

pub data Op : Type 0 where
  success : String → Op
  failure : ℕ → String → ℕ → Bool → String → Op
  rotation : Op
  request : ℕ → String → Op

module _ (net : Net) (parse_time : String → Option ℤ) where
  -- The pool after one operation; a request whose client cannot be built leaves it as it was.
  unfoldable pub apply : ProxyPool → Op → Result ProxyPool
  apply p (success url) = ok (mark_success p url)
  apply p (failure now url status network header) =
      ok (mark_failure parse_time p now url status network header)
  apply p rotation = elim (rotate p) [ ok (q, _) ↦ ok q | err e ↦ ok p | panic ↦ panic ]
  apply p (request now session) = elim (client_for_session net (some p) now session) [
    | ok (q, _) ↦ ok q
    | err e ↦ ok p
    | panic ↦ panic
  ]

  unfoldable pub run : ProxyPool → List Op → Result ProxyPool
  run p [] = ok p
  run p (op ∷ ops) = elim (apply p op) [ ok q ↦ run q ops | err e ↦ err e | panic ↦ panic ]

  pub apply_request :
      (p : ProxyPool) (now : ℕ) (session : String)
      → IsValid net p
      → (q : ProxyPool) × (apply p (request now session) ≡ ok q)
        × IsValid net q
        × (q ≡ record p { client_cache = q.client_cache })
  unfolding apply
  apply_request p now session v =
      let lt =
        select_index_lt p now (preferred_index p session) (preferred_index_lt p session v.filled) in
      let form = client_for_session_form net p now session v in
      elim (Result-cases (built net p (chosen net p now session))) [
        | inl (c, b) ↦
            let (q, served, s) = client_for_index_lem net p (chosen net p now session) c v lt b in
            (q, rw (form ∙ served, apply), s.valid, s.kept)
        | inr (inl (e, b)) ↦
            (p, rw (form ∙ client_for_index_refused net p _ e v lt b, apply), v, refl)
        | inr (inr b) ↦ absurd (new_http_client-ne-panic net _ _ _ b)
      ]

  apply-IsValid :
      (p : ProxyPool) (op : Op)
      → IsValid net p
      → (q : ProxyPool) × (apply p op ≡ ok q) × IsValid net q
  unfolding apply
  apply-IsValid p (success url) v =
      (mark_success p url, refl, mark_success-IsValid net parse_time p url v)
  apply-IsValid p (failure now url status network header) v =
      (_, refl, mark_failure-IsValid net parse_time p now url status network header v)
  apply-IsValid p rotation v =
      let (q, url, e, w, _, _) = rotate_lem net p v in (q, rw (e, apply), w)
  apply-IsValid p (request now session) v =
      let (q, e, w, _) = apply_request p now session v in (q, e, w)

  -- From a well-formed pool, every sequence of calls, each made under the handler's poolMu, runs
  -- without a panic and leaves a well-formed pool.
  pub run-IsValid :
      (p : ProxyPool) (ops : List Op)
      → IsValid net p
      → (q : ProxyPool) × (run p ops ≡ ok q) × IsValid net q
  unfolding run
  run-IsValid p [] v = (p, refl, v)
  run-IsValid p (op ∷ ops) v =
      let (q, e, w) = apply-IsValid p op v in
      let (r, e', w') = run-IsValid q ops w in (r, rw (e, run) e', w')
