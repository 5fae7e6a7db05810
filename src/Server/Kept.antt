-- ===== src/Server/Kept.antt =====
-- cmd/server/main.go: what loadEnvFile does to the environment.
use mathlib.Core.List.{List}
use opencode_proxy_api.Base.{
  String, Option, none, some, ◌==◌, ◌≡◌, ◌≢◌, refl, ap, ◌∙◌, sym, eq_iff, Bool-cases, inl, inr,
}
use opencode_proxy_api.Server.Env.{Environ, setting, set_missing, load_env_file}

module _ (os : Environ)
    (others : (env : os.Env) (key val name : String)
      → name ≢ key
      → os.getenv (os.setenv env key val) name ≡ os.getenv env name) where
  set_missing_keeps :
      (env : os.Env) (found : Option (String × String)) (name : String)
      → os.getenv env name ≢ ""
      → os.getenv (set_missing os env found) name ≡ os.getenv env name
  unfolding set_missing
  set_missing_keeps env none name h = refl
  set_missing_keeps env (some (key, val)) name h = elim (Bool-cases (os.getenv env key == "")) [
    | inl missing ↦
        rw (missing, set_missing)
          (others env key val name
            (λ same. h (ap (os.getenv env) same ∙ (eq_iff (os.getenv env key) "").0 missing)))
    | inr there ↦ rw (there, set_missing) refl
  ]

  -- Where os.Setenv changes no variable but its own, the file leaves every variable as it is that the
  -- process was started with, if it was not empty.
  pub load_env_file_keeps :
      (env : os.Env) (lines : List String) (name : String)
      → os.getenv env name ≢ ""
      → os.getenv (load_env_file os env lines) name ≡ os.getenv env name
  unfolding load_env_file
  load_env_file_keeps env List.[] name h = refl
  load_env_file_keeps env (List.◌∷◌ line lines) name h =
      let kept = set_missing_keeps env (setting line) name h in
      load_env_file_keeps (set_missing os env (setting line)) lines name (λ e. h (sym kept ∙ e))
      ∙ kept
