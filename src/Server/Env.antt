-- ===== src/Server/Env.antt =====
-- cmd/server/main.go: loadEnvFile, and the settings of the log.
use Prim.Native.Char.{code}
use Prim.Native.String.{[], ◌∷◌}
use mathlib.Core.List.{List}
use opencode_proxy_api.Base.{
  ℕ, String, Bool, false, ◌&&◌, ◌||◌, Option, none, some, ◌==◌, eqb, if◌then◌else◌,
}
use opencode_proxy_api.Base.Text.{trim_space, has_prefix, up_to, lower_is}

-- The process's environment, as os reads and writes it; a write that is refused changes nothing.
pub record Environ : Type 1 where
  pub Env : Type 0
  pub getenv : Env → String → String
  pub setenv : Env → String → String → Env

last_is : ℕ → String → Bool
last_is k [] = false
last_is k (c ∷ []) = eqb (code c) k
last_is k (c ∷ d ∷ s) = last_is k (d ∷ s)

drop_last : String → String
drop_last [] = []
drop_last (c ∷ []) = []
drop_last (c ∷ d ∷ s) = c ∷ drop_last (d ∷ s)

-- A value without the quotes around it.
unfoldable pub unquoted : String → String
unfolding last_is drop_last
unquoted [] = []
unquoted (c ∷ s) =
    let whole = c ∷ s in
    if (eqb (code c) b'"' || eqb (code c) b'\'') && last_is (code c) s then drop_last s else whole

-- A line of the file that sets a variable, with the value.
unfoldable pub setting : String → Option (String × String)
setting text =
    let line = trim_space text in
    if line == "" || has_prefix "#" line then none else elim (up_to b'=' line) [
      | none ↦ none
      | some parts ↦ some (trim_space parts.0, unquoted (trim_space parts.1))
    ]

module _ (os : Environ) where
  unfoldable pub set_missing : os.Env → Option (String × String) → os.Env
  set_missing env none = env
  set_missing env (some (key, val)) = if os.getenv env key == "" then os.setenv env key val else env

  -- loadEnvFile, over the lines of a file that could be opened.
  unfoldable pub load_env_file : os.Env → List String → os.Env
  unfolding set_missing
  load_env_file env List.[] = env
  load_env_file env (List.◌∷◌ line lines) = load_env_file (set_missing env (setting line)) lines

-- slog's levels and handlers, as main chooses them.
pub data Level : Type 0 where
  debug info warn error : Level

unfoldable pub log_level : String → Level
log_level s =
    if lower_is s "debug"
    then debug
    else if lower_is s "warn"
    then warn
    else if lower_is s "error"
    then error
    else info

unfoldable pub log_as_json : String → Bool
log_as_json s = lower_is s "json"
