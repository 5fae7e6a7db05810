-- ===== src/Tests/Starting.antt =====
-- The program's start, from an environment and a file `.env`.
use opencode_proxy_api.Base.{
  ◌≢◌, inl, inr, Bool-cases, eq_iff, arith, ℕ, length, String, List, [], ◌∷◌, Option, none, some,
  ◌==◌, if◌then◌else◌, ok, ℤ, ◌≡◌, ◌⊎◌, refl, All,
}
use opencode_proxy_api.Pool.Load.{FileRead, lines}
use opencode_proxy_api.Handler.{Handler}
use opencode_proxy_api.Handler.RateLimit.{PoolIsValid}
use opencode_proxy_api.Handler.Start.{Arrival}
use opencode_proxy_api.Base.Text.{trim_space, has_prefix, cut_prefix, up_to}
use opencode_proxy_api.Server.Env.{Environ, set_missing, setting, unquoted, load_env_file}
use opencode_proxy_api.Server.Kept.{load_env_file_keeps}
use opencode_proxy_api.Server.Serve.{Mux, Handled, not_started, served, run}
use opencode_proxy_api.Server.Shutdown.{failed}
use opencode_proxy_api.Server.Total.{SentFew, Exits, run-total}
use opencode_proxy_api.Tests.{net, json, no_date}
use opencode_proxy_api.Tests.Serving.{offline, same, random, with_key, request}

abbrev os : Environ
os = record {
  Env = String → String;
  getenv = λ env key. env key;
  setenv = λ env key val. λ name. if name == key then val else env name;
}

abbrev env : os.Env
env name = if name == "OPCODE_API_KEY" then "secret" else ""

abbrev dot_env : List String
dot_env = "# mine" ∷ "OPCODE_API_KEY=other" ∷ "OPCODE_RATE_LIMIT_ACTION_THRESHOLD = \"7\"" ∷ []

-- The file adds a threshold, without its quotes.
added : load_env_file os env dot_env "OPCODE_RATE_LIMIT_ACTION_THRESHOLD" ≡ "7"
unfolding load_env_file set_missing setting unquoted trim_space has_prefix cut_prefix up_to
added = refl

abbrev parse_duration : String → Option ℤ
parse_duration s = none

abbrev mux : Mux
mux = record {
  match = λ ps r. some r.path;
  other = λ r. record { status = 404; headers = []; body = "404 page not found" };
}

abbrev arrivals : List (ℕ × Arrival)
arrivals =
    (1, record { request = request with_key; world = offline; random = random; now = 9 }) ∷ []

abbrev read : String → FileRead
read path = lines []

run-total_example :
    ((e : String) × (run net json same no_date mux os parse_duration read env
          (some dot_env)
          arrivals
          (some failed)
        ≡ ok (not_started e 1)))
    ⊎ ((h : Handler) × (xs : List Handled) × (code : Option ℕ) × (run net json same no_date mux os
            parse_duration read env
            (some dot_env)
            arrivals
            (some failed)
          ≡ ok (served h xs code))
        × PoolIsValid net h.proxy_pool
        × (length xs ≡ length arrivals)
        × All (SentFew net json same no_date mux) xs
        × Exits net json same no_date mux (some failed) code)
run-total_example =
    run-total net json same no_date mux os parse_duration read env (some dot_env) arrivals
      (some failed)

others :
    (e : os.Env) (key val name : String)
    → name ≢ key
    → os.getenv (os.setenv e key val) name ≡ os.getenv e name
others e key val name ne = elim (Bool-cases (name == key)) [
  | inl same ↦ absurd (ne ((eq_iff name key).0 same))
  | inr other ↦ rw other refl
]

key_set : os.getenv env "OPCODE_API_KEY" ≢ ""
key_set e = ground (arith, e, eq_iff "secret" "")

load_env_file_keeps_example :
    os.getenv (load_env_file os env dot_env) "OPCODE_API_KEY" ≡ os.getenv env "OPCODE_API_KEY"
load_env_file_keeps_example = load_env_file_keeps os others env dot_env "OPCODE_API_KEY" key_set
