-- ===== src/Tests/Clients.antt =====
-- The clients for a proxy URL.
use opencode_proxy_api.Base.{
  String, ◌==◌, if◌then◌else◌, ℤ, Option, none, true, false, ok, err, ◌≡◌, ◌⊎◌, refl, pos,
}
use opencode_proxy_api.Base.Text.{trim_space, lower_is, eq_codes, lower, lower_code}
use opencode_proxy_api.Config.Env.{load, parse_bool}
use opencode_proxy_api.Config.Transport.{Client, http_proxy, new_http_client}
use opencode_proxy_api.Config.Transport.Builds.{Usable, new_http_client-Usable}
use opencode_proxy_api.Config.Transport.Forced.{Agree, force_ipv6_warned}
use opencode_proxy_api.Tests.{site, net}

new_http_client-Usable_example :
    (Usable net "http://a"
      × ((c : Client) × (new_http_client net (pos 30) "http://a" false ≡ ok c)
          × (c.timeout ≡ pos 30)))
    ⊎ ((Usable net "http://a" → ⊥)
        × ((e : String) × (new_http_client net (pos 30) "http://a" false ≡ err e)))
new_http_client-Usable_example = new_http_client-Usable net (pos 30) "http://a" false

abbrev through_site : Client
through_site = record {
  timeout = pos 30;
  transport = record {
    route = http_proxy site;
    max_idle_conns_per_host = 64;
    max_idle_conns = 256;
    idle_conn_timeout = 90_000_000_000;
  };
}

forced : new_http_client net (pos 30) "http://a" true ≡ ok through_site
unfolding new_http_client lower_is eq_codes lower lower_code
forced = refl

free : new_http_client net (pos 30) "http://a" false ≡ ok through_site
unfolding new_http_client lower_is eq_codes lower lower_code
free = refl

abbrev env : String → String
env key =
    if key == "OPCODE_PROXY" then "http://a" else if key == "OPCODE_FORCE_IPV6" then "1" else ""

abbrev no_duration : String → Option ℤ
no_duration s = none

flag_on : parse_bool (env "OPCODE_FORCE_IPV6") ≡ true
unfolding parse_bool trim_space lower_is eq_codes lower lower_code
flag_on = refl

proxy_is : (load net.url no_duration env).value.proxy_url ≡ "http://a"
unfolding load trim_space
proxy_is = refl

force_ipv6_warned_example : Agree net no_duration env through_site through_site
force_ipv6_warned_example =
    force_ipv6_warned net no_duration env (pos 30) through_site through_site flag_on
      (rw proxy_is forced) (rw proxy_is free)
