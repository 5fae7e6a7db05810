-- ===== src/Handler/RateLimit.antt =====
-- internal/proxy/handler.go: the reaction to 429 responses.
use native.Mathlib.Decide.{dec_lt}
use opencode_proxy_api.Base.{
  ℕ, ◌+◌, ◌*◌, ◌%◌, ◌^◌, ◌<◌, ◌≤◌, String, true, false, List, [], Option, none, some, ◌==◌, ◌≡◌,
  ◌≢◌, refl, ◌∙◌, arith, ok, pos, to_int32_of_small, length, eq_iff, Bool-cases, Result-cases,
  index_of_lt, inl, inr,
}
use opencode_proxy_api.Config.{Config}
use opencode_proxy_api.Config.Transport.{Net, new_http_client, new_http_client-ne-panic}
use opencode_proxy_api.Pool.{ProxyPool, current_of, new_client}
use opencode_proxy_api.Pool.Invariant.{IsValid}
use opencode_proxy_api.Pool.Steps.{rotate_lem}
use opencode_proxy_api.Handler.{
  Handler, rebuild, rotate_proxy, react, runs_action, finish_action, on_rate_limited,
}

module _ (net : Net) where
  -- The pool, if there is one, is well formed.
  abbrev pub PoolIsValid : Option ProxyPool → Type 0
  PoolIsValid none = Unit
  PoolIsValid (some p) = IsValid net p

  -- What an operation leaves of a handler: its configuration, a well-formed pool, and the counter
  -- that is given.
  pub record Leaves (h : Handler) (count : ℕ) (h' : Handler) : Type 0 where
    pub cfg : h'.cfg ≡ h.cfg
    pub valid : PoolIsValid h'.proxy_pool
    pub counter : h'.rate_limit_count ≡ count

  pub current_of-ok : (p : ProxyPool) → IsValid net p → (url : String) × (current_of p ≡ ok url)
  unfolding current_of
  current_of-ok p v = index_of_lt p.proxies p.current v.in_range

  pub new_client_of :
      (q : ProxyPool) (url : String)
      → current_of q ≡ ok url
      → new_client net (some q) ≡ new_http_client net q.timeout url q.force_ipv6
  unfolding new_client
  new_client_of q url at = rw (at, new_client)

  rebuild_lem :
      (h : Handler) (q : ProxyPool) (url : String)
      → IsValid net q
      → current_of q ≡ ok url
      → (h' : Handler) × (rebuild net h q ≡ ok h') × Leaves h h.rate_limit_count h'
  unfolding rebuild
  rebuild_lem h q url w at = elim (Result-cases (new_http_client net q.timeout url q.force_ipv6)) [
    | inl (c, built) ↦ (
      record h { proxy_pool = some q; upstream = c },
      rw (new_client_of q url at ∙ built, rebuild),
      record { cfg = refl; valid = w; counter = refl },
    )
    | inr (inl (x, failed)) ↦ (
      record h { proxy_pool = some q },
      rw (new_client_of q url at ∙ failed, rebuild),
      record { cfg = refl; valid = w; counter = refl },
    )
    | inr (inr broke) ↦ absurd (new_http_client-ne-panic net _ _ _ broke)
  ]

  rotate_proxy_lem :
      (h : Handler) (p : ProxyPool)
      → IsValid net p
      → (h' : Handler) × (rotate_proxy net h p ≡ ok h') × Leaves h h.rate_limit_count h'
  unfolding rotate_proxy
  rotate_proxy_lem h p v =
      let (q, url, e, w, _, at) = rotate_lem net p v in
      let (h', e', l) = rebuild_lem h q url w at in (h', rw (e, rotate_proxy) e', l)

  finish_action-valid :
      (h : Handler) (n : ℕ)
      → PoolIsValid h.proxy_pool
      → PoolIsValid (finish_action net h n).0.proxy_pool
  unfolding finish_action
  finish_action-valid h n v = elim (Bool-cases (runs_action net h.cfg n)) [
    | inl runs ↦ rw runs v
    | inr quiet ↦ rw quiet v
  ]

  react-total :
      (h : Handler) (n : ℕ) (pool : Option ProxyPool)
      → PoolIsValid h.proxy_pool
      → PoolIsValid pool
      → (r : Handler × List String) × (react net h n pool ≡ ok r) × PoolIsValid r.0.proxy_pool
  unfolding react
  react-total h n none v w = elim (Bool-cases (h.cfg.rate_limit_action == "")) [
    | inl no_action ↦ ((h, []), rw no_action, v)
    | inr given ↦ (finish_action net h n, rw given, finish_action-valid h n v)
  ]
  react-total h n (some p) v w =
      let (h', e, l) = rotate_proxy_lem h p w in
      (finish_action net h' n, rw (e, react), finish_action-valid h' n l.valid)

  -- The reaction returns, whatever the configuration, and keeps the pool well formed.
  pub on_rate_limited-total :
      (h : Handler)
      → PoolIsValid h.proxy_pool
      → (r : Handler × List String) × (on_rate_limited net h ≡ ok r) × PoolIsValid r.0.proxy_pool
  unfolding on_rate_limited
  on_rate_limited-total h v =
      react-total (record h { rate_limit_count = (h.rate_limit_count + 1) % 2 ^ 32 })
        ((h.rate_limit_count + 1) % 2 ^ 32) h.proxy_pool v v

  module _ (t : ℕ) (cfg : Config) (some_action : cfg.rate_limit_action ≢ "")
      (threshold : cfg.rate_limit_action_threshold ≡ pos t) (t_pos : 0 < t)
      (t_small : t < 2 ^ 31) where
    runs_action_below : (n : ℕ) → n < t → runs_action net cfg n ≡ false
    unfolding runs_action
    runs_action_below n h =
        rw (threshold, to_int32_of_small n (omega arith), to_int32_of_small t t_small)
          (ground (arith, eq_iff cfg.rate_limit_action ""))

    pub runs_action_from : (n : ℕ) → n < 2 ^ 31 → runs_action net cfg n ≡ true → t ≤ n
    runs_action_from n h runs = elim (dec_lt n t) [
      | yes lt ↦
          let quiet : runs_action net cfg n ≡ false = runs_action_below n lt in
          absurd (cc (runs, quiet))
      | no ge ↦ omega arith
    ]

    pub runs_action_past : (n : ℕ) → t ≤ n → n < 2 ^ 31 → runs_action net cfg n ≡ true
    unfolding runs_action
    runs_action_past n le h =
        rw (threshold, to_int32_of_small n h, to_int32_of_small t t_small)
          (ground (arith, eq_iff cfg.rate_limit_action ""))

    runs_action_at : runs_action net cfg t ≡ true
    runs_action_at = runs_action_past t (omega arith) t_small

    -- One reaction: the counter, which stays below the threshold, and the commands that ran account
    -- for one more 429 response.
    pub record Ticked (before : ℕ) (r : Handler × List String) : Type 0 where
      pub tick : t * length r.1 + r.0.rate_limit_count ≡ before + 1
      pub below : r.0.rate_limit_count < t
      pub cfg_kept : r.0.cfg ≡ cfg
      pub valid : PoolIsValid r.0.proxy_pool

    finish_action_lem :
        (h : Handler) (n : ℕ)
        → h.cfg ≡ cfg
        → PoolIsValid h.proxy_pool
        → h.rate_limit_count ≡ n + 1
        → n < t
        → Ticked n (finish_action net h (n + 1))
    unfolding finish_action
    finish_action_lem h n same v c lt = elim (dec_lt (n + 1) t) [
      | yes more ↦
          let quiet : runs_action net h.cfg (n + 1) ≡ false =
            rw same (runs_action_below (n + 1) more) in
          rw (quiet, finish_action)
            (record { tick = omega arith; below = omega arith; cfg_kept = same; valid = v })
      | no full ↦
          let e : n + 1 ≡ t = omega arith in
          let runs : runs_action net h.cfg (n + 1) ≡ true = rw (same, e) runs_action_at in
          rw (runs, finish_action)
            (record { tick = omega arith; below = omega arith; cfg_kept = same; valid = v })
    ]

    react_lem :
        (h : Handler) (n : ℕ) (pool : Option ProxyPool)
        → h.cfg ≡ cfg
        → PoolIsValid h.proxy_pool
        → PoolIsValid pool
        → h.rate_limit_count ≡ n + 1
        → n < t
        → (r : Handler × List String) × (react net h (n + 1) pool ≡ ok r) × Ticked n r
    unfolding react
    react_lem h n none same v w c lt =
        let given : (h.cfg.rate_limit_action == "") ≡ false =
          rw same (ground (arith, eq_iff cfg.rate_limit_action "")) in
        (finish_action net h (n + 1), rw (given, react), finish_action_lem h n same v c lt)
    react_lem h n (some p) same v w c lt =
        let (h', e, l) = rotate_proxy_lem h p w in
        (
          finish_action net h' (n + 1),
          rw (e, react),
          finish_action_lem h' n (l.cfg ∙ same) l.valid (l.counter ∙ c) lt,
        )

    pub on_rate_limited_lem :
        (h : Handler)
        → h.cfg ≡ cfg
        → PoolIsValid h.proxy_pool
        → h.rate_limit_count < t
        → (r : Handler × List String) × (on_rate_limited net h ≡ ok r) × Ticked h.rate_limit_count r
    unfolding on_rate_limited
    on_rate_limited_lem h same v lt =
        let e : (h.rate_limit_count + 1) % 2 ^ 32 ≡ h.rate_limit_count + 1 = omega arith in
        let (r, done, ticked) =
          react_lem (record h { rate_limit_count = h.rate_limit_count + 1 }) h.rate_limit_count
            h.proxy_pool same v v refl lt in
        (r, rw (on_rate_limited, e) done, ticked)
