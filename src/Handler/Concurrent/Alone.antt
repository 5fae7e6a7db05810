-- ===== src/Handler/Concurrent/Alone.antt =====
-- internal/proxy/handler.go: onRateLimited as a run of its own steps with no other goroutine between.
use opencode_proxy_api.Base.{
  ℕ, suc, ◌+◌, String, true, false, List, [], ◌∷◌, Option, none, some, ok, ◌≡◌, refl, ◌∙◌, sym,
  arith, length, Bool-cases, Result-cases, inl, inr, ◌==◌,
}
use opencode_proxy_api.Handler.{
  Handler, rebuild, rotate_proxy, react, runs_action, finish_action, on_rate_limited,
}
use opencode_proxy_api.Pool.{ProxyPool}
use opencode_proxy_api.Config.{Config}
use opencode_proxy_api.Config.Transport.{Net}
use opencode_proxy_api.Handler.Concurrent.{Shared, bump, Step, add, fire, pass, Reach, here, next}

module _ (net : Net) where
  -- The shared state with no goroutine inside onRateLimited.
  abbrev pub idle : ℕ → ℕ → ℕ → Shared
  idle c a r = record { count = c; held = []; arrived = a; ran = r }

  -- A goroutine that holds the counter's value c, and has it tested next.
  tested :
      (cfg : Config) (h : Handler) (a n c : ℕ)
      → h.cfg ≡ cfg
      → h.rate_limit_count ≡ c
      → Step net cfg
          (record { count = c; held = c ∷ []; arrived = a; ran = n })
          (idle (finish_action net h c).0.rate_limit_count a (n + length (finish_action net h c).1))
  unfolding finish_action
  tested cfg h a n c same at = elim (Bool-cases (runs_action net h.cfg c)) [
    | inl runs ↦
        let e : suc n ≡ n + 1 = omega arith in
        rw (runs, sym e) (fire [] c [] refl (rw (sym same) runs))
    | inr quiet ↦
        let e : n ≡ n + 0 = omega arith in
        rw (quiet, at, sym e) (pass [] c [] refl (rw (sym same) quiet))
  ]

  quiet_without :
      (cfg : Config) (c : ℕ) → (cfg.rate_limit_action == "") ≡ true → runs_action net cfg c ≡ false
  unfolding runs_action
  quiet_without cfg c no_action = rw no_action refl

  rotate_proxy-kept :
      (h : Handler) (p : ProxyPool) (h' : Handler)
      → rotate_proxy net h p ≡ ok h'
      → (h'.cfg ≡ h.cfg) × (h'.rate_limit_count ≡ h.rate_limit_count)
  unfolding rotate_proxy rebuild
  rotate_proxy-kept h p h' e = ground arith

  reacted :
      (cfg : Config) (h : Handler) (a n c : ℕ) (pool : Option ProxyPool) (r : Handler × List String)
      → h.cfg ≡ cfg
      → h.rate_limit_count ≡ c
      → react net h c pool ≡ ok r
      → Step net cfg
          (record { count = c; held = c ∷ []; arrived = a; ran = n })
          (idle r.0.rate_limit_count a (n + length r.1))
  unfolding react
  reacted cfg h a n c none r same at e = elim (Bool-cases (h.cfg.rate_limit_action == "")) [
    | inl no_action ↦
        let f : ok (h, []) ≡ ok r = rw no_action at e in
        let r_is : (h, []) ≡ r = cc f in
        let n_is : n ≡ n + 0 = omega arith in
        let quiet : runs_action net cfg c ≡ false = quiet_without cfg c (rw (sym same) no_action) in
        rw (sym r_is, at, sym n_is) (pass [] c [] refl quiet)
    | inr given ↦
        let f : ok (finish_action net h c) ≡ ok r = rw given at e in
        let r_is : finish_action net h c ≡ r = cc f in rw (sym r_is) (tested cfg h a n c same at)
  ]
  reacted cfg h a n c (some p) r same at e = elim (Result-cases (rotate_proxy net h p)) [
    | inl (h', done) ↦
        let f : ok (finish_action net h' c) ≡ ok r = rw done at e in
        let r_is : finish_action net h' c ≡ r = cc f in
        let (cfg_is, count_is) = rotate_proxy-kept h p h' done in
        rw (sym r_is) (tested cfg h' a n c (cfg_is ∙ same) (count_is ∙ at))
    | inr (inl (x, failed)) ↦ absurd (cc (failed, e))
    | inr (inr broke) ↦ absurd (cc (broke, e))
  ]

  pub on_rate_limited-cfg :
      (h : Handler) (r : Handler × List String) → on_rate_limited net h ≡ ok r → r.0.cfg ≡ h.cfg
  unfolding on_rate_limited react finish_action rotate_proxy rebuild
  on_rate_limited-cfg h r e = ground arith

  -- A reaction to a 429 response that returns, and runs the commands `r.1`, is a run of the steps:
  -- its Add and then its own test, one command for one that fires.
  pub on_rate_limited-Reach :
      (h : Handler) (arrived ran : ℕ) (r : Handler × List String)
      → on_rate_limited net h ≡ ok r
      → Reach net h.cfg
          (idle h.rate_limit_count arrived ran)
          (idle r.0.rate_limit_count (suc arrived) (ran + length r.1))
  unfolding on_rate_limited
  on_rate_limited-Reach h arrived ran r e = next (next here add) (
      reacted h.cfg (record h { rate_limit_count = bump h.rate_limit_count }) _ _ _ h.proxy_pool r
        refl refl e)
