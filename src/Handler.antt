-- ===== src/Handler.antt =====
-- internal/proxy/handler.go: the handler's state, its rate-limit reaction and the tail of a request.
-- Logging is left out; the egress probes, which are logged, are in Egress.
pub mod Auth
pub mod RateLimit
pub mod Actions
pub mod Upstream
pub mod Failover
pub mod Attempts
pub mod Serve
pub mod Start
pub mod Threshold
pub mod Headers
pub mod Trace
pub mod Logged
pub mod Answered
pub mod Concurrent
pub mod RequestId
pub mod Egress
use opencode_proxy_api.Base.{
  ℕ, ◌+◌, ◌%◌, ◌^◌, String, Bool, true, false, ◌&&◌, ◌||◌, List, [], ◌∷◌, ◌++◌, Option, none, some,
  ◌==◌, eqb, leb, if◌then◌else◌, Result, ok, err, panic, ◌>>=◌, ℤ, pos, pos_part, neg_part, leb_ℤ,
  ltb_ℤ, to_int32, map,
}
use opencode_proxy_api.Config.{Config}
use opencode_proxy_api.Config.Transport.{Client, Net}
use opencode_proxy_api.Pool.{ProxyPool, current_of, rotate, mark_success, mark_failure, new_client}

-- Handler; `rate_limit_count` is the bit pattern of its int32.
pub record Handler : Type 0 where
  pub cfg : Config
  pub upstream : Client
  pub proxy_pool : Option ProxyPool
  pub rate_limit_count : ℕ

-- endpointConfig
pub record EndpointConfig : Type 0 where
  pub upstream_path : String
  pub need_inject : Bool
  pub adapt_claude_tools : Bool
  pub rewrite_dsml : Bool
  pub normalize_chat_roles : Bool

-- endpoints
unfoldable pub endpoint : String → Option EndpointConfig
endpoint path =
    if path == "/v1/chat/completions"
    then some (record {
      upstream_path = "/zen/v1/chat/completions";
      need_inject = true;
      adapt_claude_tools = false;
      rewrite_dsml = false;
      normalize_chat_roles = true;
    })
    else if path == "/v1/messages"
    then some (record {
      upstream_path = "/zen/v1/messages";
      need_inject = false;
      adapt_claude_tools = true;
      rewrite_dsml = true;
      normalize_chat_roles = false;
    })
    else if path == "/v1/responses"
    then some (record {
      upstream_path = "/zen/v1/responses";
      need_inject = false;
      adapt_claude_tools = false;
      rewrite_dsml = false;
      normalize_chat_roles = false;
    })
    else none

module _ (net : Net) where
  -- The client for the active proxy becomes the upstream one, if it can be built.
  unfoldable pub rebuild : Handler → ProxyPool → Result Handler
  rebuild h p = elim (new_client net (some p)) [
    | ok c ↦ ok (record h { proxy_pool = some p; upstream = c })
    | err e ↦ ok (record h { proxy_pool = some p })
    | panic ↦ panic
  ]

  -- rotateProxy, with a pool: the rotation stands even if no client can be built.
  unfoldable pub rotate_proxy : Handler → ProxyPool → Result Handler
  unfolding rebuild
  rotate_proxy h p = do r ← rotate p; rebuild h r.0

  -- The threshold test of onRateLimited, at the counter's new value.
  unfoldable pub runs_action : Config → ℕ → Bool
  runs_action cfg count =
      if cfg.rate_limit_action == ""
        || leb_ℤ cfg.rate_limit_action_threshold (pos 0)
        || ltb_ℤ (to_int32 count) (to_int32 (pos_part cfg.rate_limit_action_threshold))
      then false
      else true

  finish_action : Handler → ℕ → Handler × List String
  finish_action h count =
      if runs_action h.cfg count
      then (record h { rate_limit_count = 0 }, h.cfg.rate_limit_action ∷ [])
      else (h, [])

  unfoldable pub react : Handler → ℕ → Option ProxyPool → Result (Handler × List String)
  unfolding finish_action
  react h count none =
      if h.cfg.rate_limit_action == "" then ok (h, []) else ok (finish_action h count)
  react h count (some p) = do rotated ← rotate_proxy h p; ok (finish_action rotated count)

  -- onRateLimited: the new state, and the commands that it runs.
  unfoldable pub on_rate_limited : Handler → Result (Handler × List String)
  unfolding react
  on_rate_limited h =
      let count = (h.rate_limit_count + 1) % 2 ^ 32 in
      react (record h { rate_limit_count = count }) count h.proxy_pool

  module _ (parse_time : String → Option ℤ) where
    unfoldable pub note_failure : Handler → ℕ → ℕ → String → Option ProxyPool → Result Handler
    note_failure h now status retry_after none = ok h
    note_failure h now status retry_after (some p) = do
      url ← current_of p
      ok (record h {
        proxy_pool = some (mark_failure parse_time p now url status false retry_after);
      })

    unfoldable pub note_success : Handler → Option ProxyPool → Result Handler
    note_success h none = ok h
    note_success h (some p) = do
      url ← current_of p
      ok (record h { proxy_pool = some (mark_success p url) })

    -- The state part of postUpstream, for a status and a Retry-After header.
    unfoldable pub account : Handler → ℕ → ℕ → String → Result (Handler × List String)
    unfolding note_failure note_success
    account h now status retry_after =
        if leb 400 status
        then (do
          noted ← note_failure h now status retry_after h.proxy_pool
          if eqb status 429 then on_rate_limited noted else ok (noted, []))
        else (do
          noted ← note_success (record h { rate_limit_count = 0 }) h.proxy_pool
          ok (noted, []))
