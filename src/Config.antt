-- ===== src/Config.antt =====
-- config/config.go: the configuration.
pub mod Url
pub mod Transport
pub mod Env
pub mod Dialer
pub mod Egress
use opencode_proxy_api.Base.{ℕ, String, Bool, true, false, List, [], ◌∷◌, ◌==◌, ℤ, if◌then◌else◌}

-- Config; a set of models is a list, a nil one is empty.
pub record Config : Type 0 where
  pub listen_addr : String
  pub api_key : String
  pub allowed_models : List String
  pub upstream_base : String
  pub upstream_token : String
  pub upstream_timeout : ℤ
  pub proxy_url : String
  pub proxy_pool_file : String
  pub force_ipv6 : Bool
  pub diag_egress : Bool
  pub rate_limit_action : String
  pub rate_limit_action_threshold : ℤ

unfoldable pub has_model : String → List String → Bool
has_model model [] = false
has_model model (m ∷ ms) = let later = has_model model ms in if m == model then true else later

-- IsModelAllowed
unfoldable pub is_model_allowed : Config → String → Bool
is_model_allowed c model = elim c.allowed_models [
  | [] ↦ true
  | _ ∷ _ ↦ has_model model c.allowed_models
]
