-- ===== src/Config/Transport.antt =====
-- config/config.go: newHTTPClient and newTransport. golang.org/x/net/proxy is a parameter.
pub mod Builds
pub mod Forced
use opencode_proxy_api.Base.{
  ℕ, ◌*◌, ◌≢◌, arith, String, Bool, ◌||◌, Option, none, some, ◌==◌, if◌then◌else◌, Result, ok, err,
  panic, ◌>>=◌, ℤ,
}
use opencode_proxy_api.Base.Text.{lower_is}
use opencode_proxy_api.Retry.{second}
use opencode_proxy_api.Config.Url.{Url, Userinfo, UrlPackage}

-- proxy.Auth
pub record Auth : Type 0 where
  pub user : String
  pub password : String

-- What the transport dials.
pub data Route : Type 0 where
  direct : Route
  direct_ipv6 : Route
  http_proxy : Url → Route
  -- names are resolved by the proxy
  socks_remote : String → Option Auth → Route
  -- names are resolved here, by a localResolveDialer with its `forceIPv6`
  socks_local : String → Option Auth → Bool → Route

pub record Transport : Type 0 where
  pub route : Route
  pub max_idle_conns_per_host : ℕ
  pub max_idle_conns : ℕ
  pub idle_conn_timeout : ℕ

-- http.Client
pub record Client : Type 0 where
  pub timeout : ℤ
  pub transport : Transport

-- The packages that build a transport: net/url, and proxy.SOCKS5, which may refuse a host.
pub record Net : Type 0 where
  pub url : UrlPackage
  pub socks5 : String → Option Auth → Option String

tune_transport : Route → Transport
tune_transport r = record {
  route = r;
  max_idle_conns_per_host = 64;
  max_idle_conns = 256;
  idle_conn_timeout = 90 * second;
}

auth_of : Option Userinfo → Option Auth
auth_of none = none
auth_of (some info) =
    some (record { user = info.username; password = elim info.password [ none ↦ "" | some p ↦ p ] })

socks_route : Net → Url → Bool → Result Route
unfolding auth_of
socks_route net u force_ipv6 =
    let auth = auth_of u.user in
    elim (net.socks5 u.host auth) [
      | some e ↦ err "socks5 proxy setup failed"
      | none ↦ ok (
          if lower_is u.scheme "socks5"
          then socks_local u.host auth force_ipv6
          else socks_remote u.host auth)
    ]

url_route : Net → Url → Bool → Result Route
unfolding socks_route
url_route net u force_ipv6 =
    if u.host == ""
    then err "invalid OPCODE_PROXY URL: missing host"
    else if lower_is u.scheme "http" || lower_is u.scheme "https"
    then ok (http_proxy u)
    else if lower_is u.scheme "socks5" || lower_is u.scheme "socks5h"
    then socks_route net u force_ipv6
    else err "unsupported OPCODE_PROXY scheme"

route_of : Net → String → Bool → Result Route
unfolding url_route
route_of net proxy_url force_ipv6 =
    if proxy_url == ""
    then ok (if force_ipv6 then direct_ipv6 else direct)
    else elim (net.url.parse proxy_url) [
      | none ↦ err "invalid OPCODE_PROXY URL"
      | some u ↦ url_route net u force_ipv6
    ]

-- newTransport
new_transport : Net → String → Bool → Result Transport
unfolding route_of tune_transport
new_transport net proxy_url force_ipv6 = do
  r ← route_of net proxy_url force_ipv6
  ok (tune_transport r)

-- newHTTPClient
unfoldable pub new_http_client : Net → ℤ → String → Bool → Result Client
unfolding new_transport
new_http_client net timeout proxy_url force_ipv6 = do
  t ← new_transport net proxy_url force_ipv6
  ok (record { timeout = timeout; transport = t })

-- Building a client never panics.
pub new_http_client-ne-panic :
    (net : Net) (timeout : ℤ) (proxy_url : String) (force_ipv6 : Bool)
    → new_http_client net timeout proxy_url force_ipv6 ≢ panic
unfolding new_http_client
new_http_client-ne-panic net timeout proxy_url force_ipv6 = ground arith
