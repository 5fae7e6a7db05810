-- ===== src/Tests/Dialing.antt =====
-- A name with two IPv6 addresses, of which the second answers.
use opencode_proxy_api.Base.{true, false, List, [], ◌∷◌, none, some, ◌==◌, if◌then◌else◌, refl, All}
use opencode_proxy_api.Config.Dialer.{Ip, Addresses, Reach, dial_context}
use opencode_proxy_api.Config.Dialer.Order.{
  IsIpv6, TriesIpv6, Ordered, dial_context-ipv6, dial_context-Ordered,
}

abbrev addresses : Addresses
addresses = record {
  split_host_port = λ address. if address == "site:443" then some ("site", "443") else none;
  parse_ip = λ host. none;
  is_ipv4 = λ ip. false;
  text = λ ip. elim ip [ [] ↦ "" | _ ∷ rest ↦ elim rest [ [] ↦ "::1" | _ ∷ _ ↦ "::2" ] ];
  join_host_port = λ host port. host;
}

abbrev found : List Ip
found = (1 ∷ []) ∷ (2 ∷ 2 ∷ []) ∷ []

abbrev reach : Reach
reach = record {
  lookup_ip = λ six host. some found;
  dial = λ address. address == "::2";
  cancelled = λ i. false;
}

found_six : (ips : List Ip) → All (IsIpv6 addresses reach) ips
found_six [] = tt
found_six (ip ∷ ips) = (refl, found_six ips)

dial_context-ipv6_example : TriesIpv6 addresses reach (dial_context addresses reach true "site:443")
dial_context-ipv6_example =
    dial_context-ipv6 addresses reach (λ host ips e. found_six ips) "site:443"

dial_context-Ordered_example :
    Ordered addresses reach "443" found (dial_context addresses reach true "site:443")
dial_context-Ordered_example =
    dial_context-Ordered addresses reach (λ i. refl) true "site:443" "site" "443" found refl refl
      refl
