-- ===== src/Handler/RequestId.antt =====
-- internal/proxy/handler.go: the request's id in its context, the logger that has it, and the shell
-- command of the rate-limit action.
use opencode_proxy_api.Base.{
  String, List, [], ◌∷◌, Option, none, some, ◌==◌, if◌then◌else◌, ◌≡◌, ◌≢◌, refl, arith, eq_iff,
}

-- Package context: WithValue and Value under a key of the program's own type, for texts.
pub record ContextPackage : Type 1 where
  pub Context : Type 0
  pub with_value : Context → String → String → Context
  pub value : Context → String → Option String

abbrev pub req_id_key : String
req_id_key = "request_id"

module _ (pkg : ContextPackage) where
  -- WithRequestID
  unfoldable pub with_request_id : pkg.Context → String → pkg.Context
  with_request_id ctx id = pkg.with_value ctx req_id_key id

  -- GetRequestID
  unfoldable pub get_request_id : pkg.Context → String
  get_request_id ctx = elim (pkg.value ctx req_id_key) [ none ↦ "" | some id ↦ id ]

  -- reqLog: the attributes of the logger.
  unfoldable pub req_log : pkg.Context → List (String × String)
  req_log ctx =
      let id = get_request_id ctx in
      ("component", "proxy") ∷ (if id == "" then [] else ("req_id", id) ∷ [])

  got :
      ((ctx : pkg.Context) (k v : String) → pkg.value (pkg.with_value ctx k v) k ≡ some v)
      → (ctx : pkg.Context) (id : String) → get_request_id (with_request_id ctx id) ≡ id
  unfolding get_request_id with_request_id
  got set ctx id = rw (set ctx req_id_key id, get_request_id) refl

  -- Value gives what WithValue set. Then the logger of a request has the id that the request was given.
  pub req_log_lem :
      ((ctx : pkg.Context) (k v : String) → pkg.value (pkg.with_value ctx k v) k ≡ some v)
      → (ctx : pkg.Context) (id : String) → id ≢ ""
      → req_log (with_request_id ctx id) ≡ ("component", "proxy") ∷ (("req_id", id) ∷ [])
  unfolding req_log
  req_log_lem set ctx id given = rw (got set ctx id) (ground (arith, eq_iff id "", given))

-- rateLimitCommand: the program and its arguments.
unfoldable pub rate_limit_command : String → String → String × List String
rate_limit_command goos action =
    if goos == "windows" then ("cmd", "/C" ∷ (action ∷ [])) else ("sh", "-c" ∷ (action ∷ []))
