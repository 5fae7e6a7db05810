-- ===== src/Handler/Auth.antt =====
-- internal/proxy/handler.go: checkAuth, and the answers that need no upstream.
use opencode_proxy_api.Base.{
  ℕ, String, Bool, true, false, ◌||◌, List, [], ◌∷◌, Option, none, some, ◌==◌, ◌≡◌, ◌↔◌, ◌⊎◌, arith,
  if◌then◌else◌, eq_iff,
}
use opencode_proxy_api.Base.Text.{cut_prefix, append}
use opencode_proxy_api.Config.{Config}
use opencode_proxy_api.Json.{Json, str, arr, obj, Items, nil, cons, end, field, JsonPackage}

bearer : Option String → String
bearer none = ""
bearer (some token) = token

-- The key that a request presents: x-api-key, or else the bearer token. `header` is r.Header.Get.
unfoldable pub presented_key : (String → String) → String
unfolding bearer cut_prefix
presented_key header =
    if header "x-api-key" == ""
    then bearer (cut_prefix "Bearer " (header "Authorization"))
    else header "x-api-key"

-- checkAuth. The constant-time comparison is an equality.
unfoldable pub check_auth : Config → (String → String) → Bool
check_auth cfg header =
    if cfg.api_key == ""
    then true
    else if presented_key header == ""
    then false
    else cfg.api_key == presented_key header

-- A request passes exactly if no key is configured or it presents the configured one.
pub check_auth_iff :
    (cfg : Config) (header : String → String)
    → (check_auth cfg header ≡ true) ↔ ((cfg.api_key ≡ "") ⊎ (presented_key header ≡ cfg.api_key))
unfolding check_auth
check_auth_iff cfg header = ground (
  arith,
  eq_iff cfg.api_key "",
  eq_iff (presented_key header) "",
  eq_iff cfg.api_key (presented_key header),
)

-- A response: its status, the headers that it adds, and its body.
pub record Response : Type 0 where
  pub status : ℕ
  pub headers : List (String × String)
  pub body : String

-- The headers that every response has.
abbrev pub cors_headers : List (String × String)
cors_headers =
    ("Access-Control-Allow-Origin", "*")
    ∷ ("Access-Control-Allow-Methods", "GET, POST, OPTIONS")
    ∷ ("Access-Control-Allow-Headers", "Content-Type, Authorization, x-api-key, anthropic-version")
    ∷ []

-- writeJSON
unfoldable pub write_json : JsonPackage → ℕ → Json → Response
write_json json status v = record {
  status = status;
  headers = ("Content-Type", "application/json") ∷ cors_headers;
  body = append (json.encode v) "\n";
}

-- writeJSONError
unfoldable pub write_json_error : JsonPackage → ℕ → String → String → Response
unfolding write_json
write_json_error json status message err_type = write_json json status (
    obj (field "error" (obj (field "message" (str message) (field "type" (str err_type) end))) end))

model_entries : List String → Items
model_entries [] = nil
model_entries (id ∷ ids) =
    cons
      (obj (
        field "id" (str id) (field "object" (str "model") (field "owned_by" (str "opencode") end))))
      (model_entries ids)

-- handleListModels
unfoldable pub handle_list_models : JsonPackage → Config → String → (String → String) → Response
unfolding model_entries
handle_list_models json cfg method header =
    if method == "GET" || method == "HEAD"
    then (if check_auth cfg header
        then write_json json 200 (
            obj (
              field "object" (str "list")
                (field "data" (arr (model_entries cfg.allowed_models)) end)))
        else write_json_error json 401 "invalid API key" "authentication_error")
    else write_json_error json 405 "method not allowed" "invalid_request_error"
