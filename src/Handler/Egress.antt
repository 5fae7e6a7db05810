-- ===== src/Handler/Egress.antt =====
-- internal/proxy/handler.go: logEgress and logActiveEgress, and where New and rotateProxy probe.
pub mod Probes
use opencode_proxy_api.Base.{
  String, Bool, true, false, Option, none, some, not, if◌then◌else◌, ◌≡◌, refl, arith, Result, ok,
  err, panic, ◌>>=◌, Bool-cases, Result-cases, inl, inr, sym, ◌∙◌, ap,
}
use opencode_proxy_api.Config.{Config}
use opencode_proxy_api.Config.Url.{redact_proxy_url}
use opencode_proxy_api.Config.Transport.{Client, Net}
use opencode_proxy_api.Config.Egress.{Probe, egress_ip}
use opencode_proxy_api.Pool.{ProxyPool, current_of, rotate, new_client}
use opencode_proxy_api.Pool.Load.{FileRead}
use opencode_proxy_api.Handler.{Handler}
use opencode_proxy_api.Handler.Start.{new_handler}

-- The entry "proxy egress" of the log.
pub record EgressEntry : Type 0 where
  pub proxy : String
  pub egress : String

module _ (net : Net) (probe : Probe) where
  -- logEgress
  unfoldable pub log_egress : Config → String → Option Client → Option EgressEntry
  log_egress cfg proxy_url none = none
  log_egress cfg proxy_url (some client) =
      if not cfg.diag_egress
      then none
      else some (record {
        proxy = redact_proxy_url net.url proxy_url;
        egress = egress_ip probe (some client);
      })

  log_pool_egress : Config → String → Result Client → Result (Option EgressEntry)
  unfolding log_egress
  log_pool_egress cfg proxy_url (ok client) = ok (log_egress cfg proxy_url (some client))
  log_pool_egress cfg proxy_url (err e) = ok none
  log_pool_egress cfg proxy_url panic = panic

  active_egress : Handler → Option ProxyPool → Result (Option EgressEntry)
  unfolding log_pool_egress
  active_egress h none = ok (log_egress h.cfg "" (some h.upstream))
  active_egress h (some p) = do
    url ← current_of p
    log_pool_egress h.cfg url (new_client net (some p))

  -- logActiveEgress; a handler that New made has an upstream client.
  unfoldable pub log_active_egress : Handler → Result (Option EgressEntry)
  unfolding active_egress
  log_active_egress h = if not h.cfg.diag_egress then ok none else active_egress h h.proxy_pool

  -- New, with its probe.
  unfoldable pub new_handler_probed :
      (String → FileRead) → Config → Result (Handler × Option EgressEntry)
  new_handler_probed read cfg = do
    h ← new_handler net read cfg
    entry ← if cfg.diag_egress then log_active_egress h else ok none
    ok (h, entry)

  rebuild_probed :
      Handler → ProxyPool → String → Result Client → Result (Handler × Option EgressEntry)
  rebuild_probed h p url (ok c) =
      ok (record h { proxy_pool = some p; upstream = c }, log_egress h.cfg url (some c))
  rebuild_probed h p url (err e) = ok (record h { proxy_pool = some p }, none)
  rebuild_probed h p url panic = panic

  -- rotateProxy, with its probe.
  unfoldable pub rotate_proxy_probed : Handler → ProxyPool → Result (Handler × Option EgressEntry)
  unfolding rebuild_probed
  rotate_proxy_probed h p = do r ← rotate p; rebuild_probed h r.0 r.1 (new_client net (some r.0))
