-- ===== src/Config/Dialer/Order.antt =====
-- config/config.go: what localResolveDialer dials, and in which order.
use opencode_proxy_api.Base.{
  ℕ, suc, String, Bool, true, false, List, [], ◌∷◌, ◌++◌, map, All, none, some, ◌≡◌, refl, ap, ◌∙◌,
  sym, Bool-cases, Option-cases, ◌⊎◌, inl, inr,
}
use mathlib.Core.Path.{subst}
use opencode_proxy_api.Config.Dialer.{
  Ip, Addresses, Reach, Dialed, dial_one, dial_each, dial_literal, dial_resolved, dial_host,
  dial_context,
}

module _ (net : Addresses) (reach : Reach) where
  abbrev pub IsIpv6 : Ip → Type 0
  IsIpv6 ip = net.is_ipv4 ip ≡ false

  -- The addresses that are dialed are IPv6.
  abbrev pub TriesIpv6 : Dialed → Type 0
  TriesIpv6 d = All (λ x. IsIpv6 x.0) d.tried

  dial_each-ipv6 :
      (port : String) (i : ℕ) (ips : List Ip)
      → All IsIpv6 ips
      → TriesIpv6 (dial_each net reach port i ips)
  unfolding dial_each
  dial_each-ipv6 port i [] h = tt
  dial_each-ipv6 port i (ip ∷ ips) (six, rest) = elim (Bool-cases (reach.cancelled i)) [
    | inl done ↦ rw (done, dial_each) tt
    | inr going ↦ elim (Bool-cases (reach.dial (net.join_host_port (net.text ip) port))) [
      | inl up ↦ rw (going, up, dial_each) (six, tt)
      | inr down ↦ rw (going, down, dial_each) (six, dial_each-ipv6 port (suc i) ips rest)
    ]
  ]

  dial_literal-ipv6 :
      (address : String) (ip : Ip) → TriesIpv6 (dial_literal net reach true address ip)
  unfolding dial_literal dial_one
  dial_literal-ipv6 address ip = elim (Bool-cases (net.is_ipv4 ip)) [
    | inl four ↦ rw (four, dial_literal) tt
    | inr six ↦ rw (six, dial_literal) (six, tt)
  ]

  dial_context_name :
      (force_ipv6 : Bool) (address host port : String)
      → net.split_host_port address ≡ some (host, port)
      → net.parse_ip host ≡ none
      → dial_context net reach force_ipv6 address
        ≡ dial_resolved net reach port (reach.lookup_ip force_ipv6 host)
  unfolding dial_context dial_host
  dial_context_name force_ipv6 address host port split name =
      rw (split, dial_context, name, dial_host) refl

  dial_resolved-ipv6 :
      (port host : String)
      → ((ips : List Ip) → reach.lookup_ip true host ≡ some ips → All IsIpv6 ips)
      → TriesIpv6 (dial_resolved net reach port (reach.lookup_ip true host))
  unfolding dial_resolved
  dial_resolved-ipv6 port host only_six = elim (Option-cases (reach.lookup_ip true host)) [
    | inl unknown ↦ rw unknown tt
    | inr (ips, found) ↦ rw found (dial_each-ipv6 port 0 ips (only_six ips found))
  ]

  dial_host-ipv6 :
      (address host port : String)
      → ((ips : List Ip) → reach.lookup_ip true host ≡ some ips → All IsIpv6 ips)
      → TriesIpv6 (dial_host net reach true address (host, port))
  unfolding dial_host
  dial_host-ipv6 address host port only_six = elim (Option-cases (net.parse_ip host)) [
    | inr (ip, literal) ↦ rw (literal, dial_host) (dial_literal-ipv6 address ip)
    | inl name ↦ rw (name, dial_host) (dial_resolved-ipv6 port host only_six)
  ]

  -- Where a lookup of IPv6 addresses gives no others, OPCODE_FORCE_IPV6 keeps every dial on IPv6, for
  -- names and for literal addresses.
  pub dial_context-ipv6 :
      ((host : String) (ips : List Ip) → reach.lookup_ip true host ≡ some ips → All IsIpv6 ips)
      → (address : String) → TriesIpv6 (dial_context net reach true address)
  unfolding dial_context
  dial_context-ipv6 only_six address = elim (Option-cases (net.split_host_port address)) [
    | inl bad ↦ rw (bad, dial_context) tt
    | inr ((host, port), split) ↦
        rw (split, dial_context) (dial_host-ipv6 address host port (only_six host))
  ]

  abbrev pub with_port : String → Ip → Ip × String
  with_port port ip = (ip, net.join_host_port (net.text ip) port)

  -- An address that does not answer.
  abbrev pub IsShut : String → Ip → Type 0
  IsShut port ip = reach.dial (net.join_host_port (net.text ip) port) ≡ false

  -- All the addresses were dialed in vain, in their order.
  abbrev pub AllShut : String → List Ip → Dialed → Type 0
  AllShut port ips d =
      All (IsShut port) ips × (d.conn ≡ none) × (d.tried ≡ map (with_port port) ips)

  -- They were dialed up to the first that answers, which is the connection.
  abbrev pub FirstOpen : String → List Ip → Dialed → Type 0
  FirstOpen port ips d =
      (before : List Ip) × (ip : Ip) × (after : List Ip) × (ips ≡ before ++ (ip ∷ after))
      × All (IsShut port) before
      × (reach.dial (net.join_host_port (net.text ip) port) ≡ true)
      × (d.conn ≡ some (net.join_host_port (net.text ip) port))
      × (d.tried ≡ map (with_port port) (before ++ (ip ∷ [])))

  -- What is known of the dials to a list of addresses.
  abbrev pub Ordered : String → List Ip → Dialed → Type 0
  Ordered port ips d = AllShut port ips d ⊎ FirstOpen port ips d

  dial_each_first :
      (port : String) (i : ℕ) (ip : Ip) (ips : List Ip)
      → reach.cancelled i ≡ false
      → reach.dial (net.join_host_port (net.text ip) port) ≡ true
      → dial_each net reach port i (ip ∷ ips) ≡ record {
        conn = some (net.join_host_port (net.text ip) port);
        tried = with_port port ip ∷ [];
      }
  unfolding dial_each
  dial_each_first port i ip ips going up = rw (going, up, dial_each) refl

  dial_each_later :
      (port : String) (i : ℕ) (ip : Ip) (ips : List Ip)
      → reach.cancelled i ≡ false
      → reach.dial (net.join_host_port (net.text ip) port) ≡ false
      → dial_each net reach port i (ip ∷ ips) ≡ record {
        conn = (dial_each net reach port (suc i) ips).conn;
        tried = with_port port ip ∷ (dial_each net reach port (suc i) ips).tried;
      }
  unfolding dial_each
  dial_each_later port i ip ips going down = rw (going, down, dial_each) refl

  Ordered-later :
      (port : String) (ip : Ip) (ips : List Ip) (d : Dialed)
      → IsShut port ip
      → Ordered port ips d
      → Ordered port (ip ∷ ips) (record { conn = d.conn; tried = with_port port ip ∷ d.tried })
  Ordered-later port ip ips d down (inl (all_shut, conn, tried)) =
      inl ((down, all_shut), conn, ap (λ xs. with_port port ip ∷ xs) tried)
  Ordered-later port ip ips d down
        (inr (before, found, after, split, before_shut, up, conn, tried)) =
      inr (
        ip ∷ before,
        found,
        after,
        ap (λ xs. ip ∷ xs) split,
        (down, before_shut),
        up,
        conn,
        ap (λ xs. with_port port ip ∷ xs) tried,
      )

  dial_each-Ordered :
      ((i : ℕ) → reach.cancelled i ≡ false)
      → (port : String) (i : ℕ) (ips : List Ip) → Ordered port ips (dial_each net reach port i ips)
  unfolding dial_each
  dial_each-Ordered going port i [] = inl (tt, refl, refl)
  dial_each-Ordered going port i (ip ∷ ips) =
      elim (Bool-cases (reach.dial (net.join_host_port (net.text ip) port))) [
        | inl up ↦
            subst (Ordered port (ip ∷ ips)) (sym (dial_each_first port i ip ips (going i) up))
              (inr ([], ip, ips, refl, tt, up, refl, refl))
        | inr down ↦
            subst (Ordered port (ip ∷ ips)) (sym (dial_each_later port i ip ips (going i) down)) (
              Ordered-later port ip ips (dial_each net reach port (suc i) ips) down
                (dial_each-Ordered going port (suc i) ips))
      ]

  -- A name that resolves, while the context lasts: the addresses are dialed in the order of the lookup,
  -- up to the first that answers, to which the connection is; it is an error only where none answers.
  pub dial_context-Ordered :
      ((i : ℕ) → reach.cancelled i ≡ false)
      → (force_ipv6 : Bool) (address host port : String) (ips : List Ip)
      → net.split_host_port address ≡ some (host, port)
      → net.parse_ip host ≡ none
      → reach.lookup_ip force_ipv6 host ≡ some ips
      → Ordered port ips (dial_context net reach force_ipv6 address)
  unfolding dial_resolved
  dial_context-Ordered going force_ipv6 address host port ips split name found =
      subst (Ordered port ips)
        (sym (
          dial_context_name force_ipv6 address host port split name
          ∙ ap (dial_resolved net reach port) found))
        (dial_each-Ordered going port 0 ips)
