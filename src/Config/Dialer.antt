-- ===== src/Config/Dialer.antt =====
-- config/config.go: localResolveDialer, which resolves a name here and dials through a SOCKS5 proxy.
pub mod Order
pub mod Cancel
use opencode_proxy_api.Base.{
  ℕ, suc, ◌+◌, String, Bool, true, false, ◌&&◌, ◌||◌, not, List, [], ◌∷◌, Option, none, some, ◌==◌,
  if◌then◌else◌,
}

-- net.IP, as its bytes.
abbrev pub Ip : Type 0
Ip = List ℕ

-- The functions of package net: SplitHostPort, ParseIP, `To4() != nil`, IP.String and JoinHostPort.
pub record Addresses : Type 0 where
  pub split_host_port : String → Option (String × String)
  pub parse_ip : String → Option Ip
  pub is_ipv4 : Ip → Bool
  pub text : Ip → String
  pub join_host_port : String → String → String

-- The network, for one call: LookupIP, of every address or only of IPv6, `none` for an error; whether
-- the inner dialer connects to an address; and whether the context is done before the `i`-th of them.
pub record Reach : Type 0 where
  pub lookup_ip : Bool → String → Option (List Ip)
  pub dial : String → Bool
  pub cancelled : ℕ → Bool

-- What a call does: the address that it connects to, `none` for an error, and what it dials.
pub record Dialed : Type 0 where
  pub conn : Option String
  pub tried : List (Ip × String)

abbrev pub nothing : Dialed
nothing = record { conn = none; tried = [] }

module _ (net : Addresses) (reach : Reach) where
  -- dialOne
  unfoldable pub dial_one : Ip → String → Dialed
  dial_one ip address = record {
    conn = if reach.dial address then some address else none;
    tried = (ip, address) ∷ [];
  }

  -- The loop over the resolved addresses, from the `i`-th on.
  unfoldable pub dial_each : String → ℕ → List Ip → Dialed
  dial_each port i [] = nothing
  dial_each port i (ip ∷ ips) =
      let later = dial_each port (suc i) ips in
      let address = net.join_host_port (net.text ip) port in
      if reach.cancelled i
      then nothing
      else if reach.dial address
      then record { conn = some address; tried = (ip, address) ∷ [] }
      else record { conn = later.conn; tried = (ip, address) ∷ later.tried }

  unfoldable pub dial_literal : Bool → String → Ip → Dialed
  dial_literal force_ipv6 address ip =
      if force_ipv6 && net.is_ipv4 ip then nothing else dial_one ip address

  unfoldable pub dial_resolved : String → Option (List Ip) → Dialed
  dial_resolved port none = nothing
  dial_resolved port (some ips) = dial_each port 0 ips

  unfoldable pub dial_host : Bool → String → String × String → Dialed
  unfolding dial_literal dial_resolved
  dial_host force_ipv6 address (host, port) = elim (net.parse_ip host) [
    | some ip ↦ dial_literal force_ipv6 address ip
    | none ↦ dial_resolved port (reach.lookup_ip force_ipv6 host)
  ]

  -- DialContext
  unfoldable pub dial_context : Bool → String → Dialed
  unfolding dial_host
  dial_context force_ipv6 address = elim (net.split_host_port address) [
    | none ↦ nothing
    | some hp ↦ dial_host force_ipv6 address hp
  ]

-- Dial: its context is never done.
unfoldable pub dial : Addresses → Reach → Bool → String → Dialed
dial net reach force_ipv6 address =
    dial_context net (record reach { cancelled = λ i. false }) force_ipv6 address
