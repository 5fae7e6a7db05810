-- ===== src/Config/Egress.antt =====
-- config/config.go: EgressIP, the probe of the address that a client's requests leave from. The
-- client's Do and the text of a byte string are parameters.
use opencode_proxy_api.Base.{
  ℕ, String, Bool, List, [], ◌∷◌, Option, none, some, eqb, ltb, ◌&&◌, not, if◌then◌else◌, length,
  take,
}
use opencode_proxy_api.Base.Text.{trim_space}
use opencode_proxy_api.Config.Transport.{Client}

pub record ProbeRequest : Type 0 where
  pub method : String
  pub url : String
  pub headers : List (String × String)

-- The answer: its status, the bytes that its body gives, and whether the body fails after them.
pub record ProbeResponse : Type 0 where
  pub status : ℕ
  pub content : List ℕ
  pub fails : Bool

abbrev pub max_egress_body : ℕ
max_egress_body = 128

unfoldable pub egress_request : ProbeRequest
egress_request = record {
  method = "GET";
  url = "https://ifconfig.co";
  headers = ("Accept", "text/plain") ∷ ("User-Agent", "opencode-proxy-diagnostics") ∷ [];
}

-- io.ReadAll over io.LimitReader: a failure after the limit is not met.
unfoldable pub read_limited : ℕ → ProbeResponse → Option (List ℕ)
read_limited limit resp =
    if ltb (length resp.content) limit && resp.fails then none else some (take limit resp.content)

-- The packages that the probe is sent with.
pub record Probe : Type 0 where
  pub send : Client → ProbeRequest → Option ProbeResponse
  pub text : List ℕ → String

module _ (probe : Probe) where
  address_of : Option (List ℕ) → String
  address_of none = ""
  address_of (some bs) = trim_space (probe.text bs)

  answer_of : Option ProbeResponse → String
  unfolding address_of
  answer_of none = ""
  answer_of (some resp) =
      if not (eqb resp.status 200) then "" else address_of (read_limited max_egress_body resp)

  -- EgressIP
  unfoldable pub egress_ip : Option Client → String
  unfolding answer_of
  egress_ip none = ""
  egress_ip (some client) = answer_of (probe.send client egress_request)
