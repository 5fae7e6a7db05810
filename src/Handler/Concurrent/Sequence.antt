-- ===== src/Handler/Concurrent/Sequence.antt =====
-- internal/proxy/handler.go: responses that postUpstream accounts for one after another, as a run of the
-- atomic steps.
use opencode_proxy_api.Base.{
  ℕ, suc, ◌+◌, String, false, List, [], ◌∷◌, ◌++◌, Option, none, some, ok, ◌≡◌, refl, ◌∙◌, sym,
  arith, length, length-append, Bool-cases, Result-cases, inl, inr, leb, eqb, ℤ, if◌then◌else◌,
}
use opencode_proxy_api.Config.{Config}
use opencode_proxy_api.Config.Transport.{Net}
use opencode_proxy_api.Pool.{ProxyPool}
use opencode_proxy_api.Handler.{Handler, note_failure, note_success, account, on_rate_limited}
use opencode_proxy_api.Handler.Actions.{Reply, account_all, too_many}
use opencode_proxy_api.Handler.Concurrent.{Shared, succeed, Reach, here, next}
use opencode_proxy_api.Handler.Concurrent.Alone.{idle, on_rate_limited-Reach, on_rate_limited-cfg}

module _ (net : Net) (parse_time : String → Option ℤ) where
  Reach_trans :
      {cfg : Config} (s t : Shared) {u : Shared}
      → Reach net cfg s t
      → Reach net cfg t u
      → Reach net cfg s u
  Reach_trans s t r here = r
  Reach_trans s t r (next q st) = next (Reach_trans s t r q) st

  note_failure-kept :
      (h : Handler) (now status : ℕ) (header : String) (pool : Option ProxyPool) (h' : Handler)
      → note_failure net parse_time h now status header pool ≡ ok h'
      → (h'.cfg ≡ h.cfg) × (h'.rate_limit_count ≡ h.rate_limit_count)
  unfolding note_failure
  note_failure-kept h now status header none h' e = ground arith
  note_failure-kept h now status header (some p) h' e = ground arith

  note_success-kept :
      (h : Handler) (pool : Option ProxyPool) (h' : Handler)
      → note_success net parse_time h pool ≡ ok h'
      → (h'.cfg ≡ h.cfg) × (h'.rate_limit_count ≡ h.rate_limit_count)
  unfolding note_success
  note_success-kept h none h' e = ground arith
  note_success-kept h (some p) h' e = ground arith

  -- The steps of a call that counts `k` responses of status 429, and its configuration.
  record Ran (cfg : Config) (h : Handler) (k : ℕ) (x : Handler × List String) (a n : ℕ)
      : Type 0 where
    kept : x.0.cfg ≡ cfg
    steps :
        Reach net cfg
          (idle net h.rate_limit_count a n)
          (idle net x.0.rate_limit_count (a + k) (n + length x.1))

  quiet-Ran :
      (cfg : Config) (h : Handler) (x : Handler × List String) (a n : ℕ)
      → x.0.cfg ≡ cfg
      → x.0.rate_limit_count ≡ h.rate_limit_count
      → x.1 ≡ []
      → Ran cfg h 0 x a n
  quiet-Ran cfg h x a n same count none_ran =
      let ea : a + 0 ≡ a = omega arith in
      let en : n + 0 ≡ n = omega arith in
      record { kept = same; steps = rw (none_ran, count, ea, en) here }

  on_rate_limited-Ran :
      (cfg : Config) (h : Handler) (x : Handler × List String) (a n : ℕ)
      → h.cfg ≡ cfg
      → on_rate_limited net h ≡ ok x
      → Ran cfg h 1 x a n
  on_rate_limited-Ran cfg h x a n same e =
      let ea : a + 1 ≡ suc a = omega arith in
      record {
        kept = on_rate_limited-cfg net h x e ∙ same;
        steps = rw (ea, sym same) (on_rate_limited-Reach net h a n x e);
      }

  Ran-from :
      (cfg : Config) (h h' : Handler) (k : ℕ) (x : Handler × List String) (a n : ℕ)
      → h'.rate_limit_count ≡ h.rate_limit_count
      → Ran cfg h' k x a n
      → Ran cfg h k x a n
  Ran-from cfg h h' k x a n count r = record { kept = r.kept; steps = rw (sym count) r.steps }

  success-Ran :
      (cfg : Config) (h h' : Handler) (a n : ℕ)
      → h'.cfg ≡ cfg
      → h'.rate_limit_count ≡ 0
      → Ran cfg h 0 (h', []) a n
  success-Ran cfg h h' a n same count =
      let ea : a + 0 ≡ a = omega arith in
      let en : n + 0 ≡ n = omega arith in
      record { kept = same; steps = rw (count, ea, en) (next here succeed) }

  failure-Ran :
      (cfg : Config) (h noted : Handler) (status : ℕ) (x : Handler × List String) (a n : ℕ)
      → noted.cfg ≡ cfg
      → noted.rate_limit_count ≡ h.rate_limit_count
      → (if eqb status 429 then on_rate_limited net noted else ok (noted, [])) ≡ ok x
      → Ran cfg h (if eqb status 429 then 1 else 0) x a n
  failure-Ran cfg h noted status x a n same count e = elim (Bool-cases (eqb status 429)) [
    | inl limited ↦ rw limited (
        Ran-from cfg h noted 1 x a n count
          (on_rate_limited-Ran cfg noted x a n same (rw limited at e)))
    | inr other ↦
        let f : ok (noted, []) ≡ ok x = rw other at e in
        let x_is : (noted, []) ≡ x = cc f in
        rw (other, sym x_is) (quiet-Ran cfg h (noted, []) a n same count refl)
  ]

  account-Ran :
      (cfg : Config) (h : Handler) (r : Reply) (x : Handler × List String) (a n : ℕ)
      → h.cfg ≡ cfg
      → account net parse_time h r.now r.status r.retry_after ≡ ok x
      → Ran cfg h (if eqb r.status 429 then 1 else 0) x a n
  unfolding account
  account-Ran cfg h r x a n same e = elim (Bool-cases (leb 400 r.status)) [
    | inl bad ↦
        elim (Result-cases
          (note_failure net parse_time h r.now r.status r.retry_after h.proxy_pool)) [
            | inl (noted, done) ↦
                let (cfg_is, count) =
                  note_failure-kept h r.now r.status r.retry_after h.proxy_pool noted done in
                failure-Ran cfg h noted r.status x a n (cfg_is ∙ same) count (rw (bad, done) at e)
            | inr (inl (m, failed)) ↦ absurd (cc (rw (bad, failed) at e))
            | inr (inr broke) ↦ absurd (cc (rw (bad, broke) at e))
          ]
    | inr good ↦
        elim (Result-cases
          (note_success net parse_time (record h { rate_limit_count = 0 }) h.proxy_pool)) [
            | inl (noted, done) ↦
                let (cfg_is, count) = note_success-kept _ h.proxy_pool noted done in
                let f : ok (noted, []) ≡ ok x = rw (good, done) at e in
                let x_is : (noted, []) ≡ x = cc f in
                let other : eqb r.status 429 ≡ false = ground (arith, good) in
                rw (other, sym x_is) (success-Ran cfg h noted a n (cfg_is ∙ same) count)
            | inr (inl (m, failed)) ↦ absurd (cc (rw (good, failed) at e))
            | inr (inr broke) ↦ absurd (cc (rw (good, broke) at e))
          ]
  ]

  both-Ran :
      (cfg : Config) (h : Handler) (k l : ℕ) (x y : Handler × List String) (a n : ℕ)
      → Ran cfg h k x a n
      → Ran cfg x.0 l y (a + k) (n + length x.1)
      → Ran cfg h (k + l) (y.0, x.1 ++ y.1) a n
  both-Ran cfg h k l x y a n r q =
      let ea : a + (k + l) ≡ a + k + l = omega arith in
      let en : n + length (x.1 ++ y.1) ≡ n + length x.1 + length y.1 =
        omega (arith, length-append x.1 y.1) in
      record { kept = q.kept; steps = rw (ea, en) (Reach_trans _ _ r.steps q.steps) }

  account_all-Ran :
      (cfg : Config) (h : Handler) (rs : List Reply) (x : Handler × List String) (a n : ℕ)
      → h.cfg ≡ cfg
      → account_all net parse_time h rs ≡ ok x
      → Ran cfg h (too_many rs) x a n
  unfolding account_all
  account_all-Ran cfg h [] x a n same e =
      let x_is : (h, []) ≡ x = cc e in rw (sym x_is) (quiet-Ran cfg h (h, []) a n same refl refl)
  account_all-Ran cfg h (r ∷ rs) x a n same e =
      elim (Result-cases (account net parse_time h r.now r.status r.retry_after)) [
        | inl (y, first) ↦ elim (Result-cases (account_all net parse_time y.0 rs)) [
          | inl (z, rest) ↦
              let ran = account-Ran cfg h r y a n same first in
              let f : ok (z.0, y.1 ++ z.1) ≡ ok x = rw (first, rest) at e in
              let x_is : (z.0, y.1 ++ z.1) ≡ x = cc f in
              rw (sym x_is) (
                both-Ran cfg h (if eqb r.status 429 then 1 else 0) (too_many rs) y z a n ran
                  (account_all-Ran cfg y.0 rs z _ _ ran.kept rest))
          | inr (inl (m, failed)) ↦ absurd (cc (rw (first, failed) at e))
          | inr (inr broke) ↦ absurd (cc (rw (first, broke) at e))
        ]
        | inr (inl (m, failed)) ↦ absurd (cc (rw (failed, account_all) at e))
        | inr (inr broke) ↦ absurd (cc (rw (broke, account_all) at e))
      ]

  -- Responses that are accounted for one after another are a run of the steps: from the handler's counter
  -- to the one at the end, with as many Adds as responses of status 429 and as many commands as ran.
  pub account_all-Reach :
      (h : Handler) (rs : List Reply) (x : Handler × List String) (a n : ℕ)
      → account_all net parse_time h rs ≡ ok x
      → Reach net h.cfg
          (idle net h.rate_limit_count a n)
          (idle net x.0.rate_limit_count (a + too_many rs) (n + length x.1))
  account_all-Reach h rs x a n e = (account_all-Ran h.cfg h rs x a n refl e).steps
