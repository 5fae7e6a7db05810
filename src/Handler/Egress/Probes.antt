-- ===== src/Handler/Egress/Probes.antt =====
-- internal/proxy/handler.go: the egress probes of New and rotateProxy beside logActiveEgress.
use opencode_proxy_api.Base.{
  String, true, false, Option, none, some, if◌then◌else◌, ◌≡◌, ◌⊎◌, refl, Result, ok, err, panic,
  Bool-cases, Result-cases, inl, inr, sym, ◌∙◌, ap,
}
use opencode_proxy_api.Config.{Config}
use opencode_proxy_api.Config.Transport.{Client, Net}
use opencode_proxy_api.Config.Egress.{Probe}
use opencode_proxy_api.Pool.{ProxyPool, current_of, new_client}
use opencode_proxy_api.Pool.Invariant.{IsValid}
use opencode_proxy_api.Pool.Steps.{rotate_lem}
use opencode_proxy_api.Pool.Load.{FileRead}
use opencode_proxy_api.Config.Transport.{new_http_client-ne-panic}
use opencode_proxy_api.Handler.{Handler, rebuild, rotate_proxy}
use opencode_proxy_api.Handler.RateLimit.{PoolIsValid, current_of-ok, new_client_of}
use opencode_proxy_api.Handler.Start.{new_handler, new_handler-total}
use opencode_proxy_api.Handler.Egress.{
  EgressEntry, log_egress, log_pool_egress, active_egress, log_active_egress, new_handler_probed,
  rebuild_probed, rotate_proxy_probed,
}

module _ (net : Net) (probe : Probe) where
  quiet_egress :
      (cfg : Config) (url : String) (c : Client)
      → cfg.diag_egress ≡ false
      → log_egress net probe cfg url (some c) ≡ none
  unfolding log_egress
  quiet_egress cfg url c off = rw off refl

  active_on :
      (h : Handler)
      → h.cfg.diag_egress ≡ true
      → log_active_egress net probe h ≡ active_egress net probe h h.proxy_pool
  unfolding log_active_egress
  active_on h on = rw on refl

  active_off : (h : Handler) → h.cfg.diag_egress ≡ false → log_active_egress net probe h ≡ ok none
  unfolding log_active_egress
  active_off h off = rw off refl

  active_some :
      (h : Handler) (q : ProxyPool) (url : String)
      → current_of q ≡ ok url
      → active_egress net probe h (some q)
        ≡ log_pool_egress net probe h.cfg url (new_client net (some q))
  unfolding active_egress
  active_some h q url at = rw (at, active_egress) refl

  -- The entry for a client that could be built.
  logged_entry : Config → String → Result Client → Option EgressEntry
  logged_entry cfg url (ok c) = log_egress net probe cfg url (some c)
  logged_entry cfg url (err e) = none
  logged_entry cfg url panic = none

  log_pool_egress_lem :
      (cfg : Config) (q : ProxyPool) (url : String)
      → current_of q ≡ ok url
      → log_pool_egress net probe cfg url (new_client net (some q))
        ≡ ok (logged_entry cfg url (new_client net (some q)))
  unfolding log_pool_egress logged_entry
  log_pool_egress_lem cfg q url at = elim (Result-cases (new_client net (some q))) [
    | inl (c, built) ↦ rw (built, log_pool_egress, logged_entry) refl
    | inr (inl (x, failed)) ↦ rw (failed, log_pool_egress, logged_entry) refl
    | inr (inr broke) ↦
        absurd (new_http_client-ne-panic net _ _ _ (sym (new_client_of net q url at) ∙ broke))
  ]

  entry_off :
      (cfg : Config) (url : String) (r : Result Client)
      → cfg.diag_egress ≡ false
      → logged_entry cfg url r ≡ none
  unfolding logged_entry
  entry_off cfg url (ok c) off = quiet_egress cfg url c off
  entry_off cfg url (err e) off = refl
  entry_off cfg url panic off = refl

  pool_egress :
      (h : Handler) (q : ProxyPool) (url : String)
      → h.proxy_pool ≡ some q
      → current_of q ≡ ok url
      → log_active_egress net probe h ≡ ok (logged_entry h.cfg url (new_client net (some q)))
  pool_egress h q url pool at = elim (Bool-cases h.cfg.diag_egress) [
    | inl on ↦
        active_on h on
        ∙ ap (active_egress net probe h) pool
        ∙ active_some h q url at
        ∙ log_pool_egress_lem h.cfg q url at
    | inr off ↦ active_off h off ∙ ap ok (sym (entry_off h.cfg url (new_client net (some q)) off))
  ]

  -- On a well-formed pool, the probe changes nothing that a rotation does, and what it logs is what
  -- logActiveEgress logs of the handler after it: the new proxy and the address seen through its client,
  -- or nothing if OPCODE_DIAG_EGRESS is off or no client could be built.
  rotation_probed :
      (h : Handler) (p : ProxyPool)
      → IsValid net p
      → (h' : Handler) × (entry : Option EgressEntry) × (rotate_proxy_probed net probe h p
          ≡ ok (h', entry))
        × (rotate_proxy net h p ≡ ok h')
        × (log_active_egress net probe h' ≡ ok entry)
  unfolding rotate_proxy_probed rotate_proxy rebuild rebuild_probed logged_entry
  rotation_probed h p v =
      let (q, url, e, w, _, at) = rotate_lem net p v in
      elim (Result-cases (new_client net (some q))) [
        | inl (c, built) ↦ (
          record h { proxy_pool = some q; upstream = c },
          log_egress net probe h.cfg url (some c),
          rw (e, rotate_proxy_probed) (rw (built, rebuild_probed) refl),
          rw (e, rotate_proxy) (rw (built, rebuild) refl),
          pool_egress _ q url refl at
              ∙ ap (λ (r : Result Client). ok (logged_entry h.cfg url r)) built,
        )
        | inr (inl (x, failed)) ↦ (
          record h { proxy_pool = some q },
          none,
          rw (e, rotate_proxy_probed) (rw (failed, rebuild_probed) refl),
          rw (e, rotate_proxy) (rw (failed, rebuild) refl),
          pool_egress _ q url refl at
              ∙ ap (λ (r : Result Client). ok (logged_entry h.cfg url r)) failed,
        )
        | inr (inr broke) ↦
            absurd (new_http_client-ne-panic net _ _ _ (sym (new_client_of net q url at) ∙ broke))
      ]

  active_egress-total :
      (h : Handler)
      → PoolIsValid net h.proxy_pool
      → (entry : Option EgressEntry) × (log_active_egress net probe h ≡ ok entry)
  unfolding active_egress
  active_egress-total h v = of_pool h.proxy_pool refl v
    where
      of_pool :
          (pool : Option ProxyPool)
          → h.proxy_pool ≡ pool
          → PoolIsValid net pool
          → (entry : Option EgressEntry) × (log_active_egress net probe h ≡ ok entry)
      of_pool none e w = elim (Bool-cases h.cfg.diag_egress) [
        | inl on ↦ (_, active_on h on ∙ ap (active_egress net probe h) e)
        | inr off ↦ (none, active_off h off)
      ]
      of_pool (some q) e w = let (url, at) = current_of-ok net q w in (_, pool_egress h q url e at)

  probed :
      (cfg : Config) (h : Handler) (entry : Option EgressEntry)
      → h.cfg ≡ cfg
      → log_active_egress net probe h ≡ ok entry
      → (if cfg.diag_egress then log_active_egress net probe h else ok none) ≡ ok entry
  probed cfg h entry same logged = elim (Bool-cases cfg.diag_egress) [
    | inl on ↦ rw on logged
    | inr off ↦ rw off (sym (active_off h (rw same off)) ∙ logged)
  ]

  -- New with its probe ends as New does, with the same error or handler; the probe logs what
  -- logActiveEgress logs of that handler, and never panics.
  start_probed :
      (read : String → FileRead) (cfg : Config)
      → ((e : String) × (new_handler net read cfg ≡ err e)
          × (new_handler_probed net probe read cfg ≡ err e))
        ⊎ ((h : Handler) × (entry : Option EgressEntry) × (new_handler net read cfg ≡ ok h)
            × (new_handler_probed net probe read cfg ≡ ok (h, entry))
            × (log_active_egress net probe h ≡ ok entry))
  unfolding new_handler_probed
  start_probed read cfg = elim (new_handler-total net read cfg) [
    | inl (e, failed) ↦ inl (e, failed, rw (failed, new_handler_probed) refl)
    | inr (h, started, v, same, _) ↦
        let (entry, logged) = active_egress-total h v in
        let p : (if cfg.diag_egress then log_active_egress net probe h else ok none) ≡ ok entry =
          probed cfg h entry same logged in
        inr (h, entry, started, rw (started, new_handler_probed) (rw p refl), logged)
  ]
