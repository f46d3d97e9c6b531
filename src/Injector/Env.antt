-- ===== src/Injector/Env.antt =====
-- Injecting a list of variables into the environment of a container: envIsSet and its loop.
use marblerun.Base.{
  List, Str, [], ap, arith, if◌then◌else◌, refl, str_eq_iff, suc, sym, true, zero, ℕ, ◌++◌, ◌||◌,
  ◌∙◌, ◌∷◌, ◌≡◌,
}
use marblerun.Injector.{
  EnvVar, Injection, env_is_set, env_marble_uuid_file, inject_env, new_env_vars, uuid_var,
}
use mathlib.Core.List.{append_assoc}

-- the variables that every marble needs
abbrev pub required : Injection → List EnvVar
required j = new_env_vars j ++ uuid_var j ∷ []

pub inject_env-append :
    (env vs ws : List EnvVar) → inject_env env (vs ++ ws) ≡ inject_env (inject_env env vs) ws
unfolding inject_env
inject_env-append env [] ws = refl
inject_env-append env (v ∷ vs) ws =
    inject_env-append (if env_is_set env v.name then env else env ++ v ∷ []) vs ws

pub env_is_set-append :
    (env vs : List EnvVar) (n : Str)
    → env_is_set (env ++ vs) n ≡ (env_is_set env n || env_is_set vs n)
unfolding env_is_set
env_is_set-append [] vs n = ground arith
env_is_set-append (v ∷ env) vs n = ground (arith, env_is_set-append env vs n)

env_is_set_self : (v : EnvVar) → env_is_set (v ∷ []) v.name ≡ true
unfolding env_is_set
env_is_set_self v = ground (arith, str_eq_iff v.name v.name)

pub env_is_set-inject_env :
    (env vs : List EnvVar) (n : Str)
    → env_is_set env n ≡ true
    → env_is_set (inject_env env vs) n ≡ true
unfolding inject_env
env_is_set-inject_env env [] n h = h
env_is_set-inject_env env (v ∷ vs) n h =
    env_is_set-inject_env (if env_is_set env v.name then env else env ++ v ∷ []) vs n
      (ground (arith, env_is_set-append env (v ∷ []) n))

inject_one :
    (env : List EnvVar) (v : EnvVar)
    → env_is_set (if env_is_set env v.name then env else env ++ v ∷ []) v.name ≡ true
inject_one env v = ground (arith, env_is_set-append env (v ∷ []) v.name, env_is_set_self v)

copies : ℕ → EnvVar → List EnvVar
copies zero v = []
copies (suc n) v = v ∷ copies n v

copies-snoc : (n : ℕ) (v : EnvVar) → copies n v ++ v ∷ [] ≡ copies (suc n) v
unfolding copies
copies-snoc zero v = refl
copies-snoc (suc n) v = ap (λ l. v ∷ l) (copies-snoc n v)

inject_env-copies_set :
    (env : List EnvVar) (v : EnvVar) (n : ℕ)
    → env_is_set env v.name ≡ true
    → inject_env env (copies n v) ≡ env
unfolding copies inject_env
inject_env-copies_set env v zero h = refl
inject_env-copies_set env v (suc n) h = rw (h, inject_env) (inject_env-copies_set env v n h)

inject_env-copies :
    (env : List EnvVar) (v : EnvVar) (n : ℕ)
    → inject_env env (copies (suc n) v) ≡ inject_env env (v ∷ [])
unfolding copies inject_env
inject_env-copies env v n =
    inject_env-copies_set (if env_is_set env v.name then env else env ++ v ∷ []) v n
      (inject_one env v)

-- The list of variables after some containers: the UUID file may stand in it more than once.
unfoldable pub grown : Injection → ℕ → List EnvVar
unfolding copies
grown j n = new_env_vars j ++ copies n (uuid_var j)

pub grown-snoc : (j : Injection) (n : ℕ) → grown j n ++ uuid_var j ∷ [] ≡ grown j (suc n)
unfolding grown
grown-snoc j n =
    append_assoc (new_env_vars j) (copies n (uuid_var j)) (uuid_var j ∷ [])
    ∙ ap (λ l. new_env_vars j ++ l) (copies-snoc n (uuid_var j))

-- a container that lacks the variable
pub inject_grown_unset :
    (j : Injection) (env : List EnvVar) (n : ℕ)
    → inject_env env (grown j (suc n)) ≡ inject_env env (required j)
unfolding grown
inject_grown_unset j env n =
    inject_env-append env (new_env_vars j) (copies (suc n) (uuid_var j))
    ∙ inject_env-copies (inject_env env (new_env_vars j)) (uuid_var j) n
    ∙ sym (inject_env-append env (new_env_vars j) (uuid_var j ∷ []))

-- a container that has it
pub inject_grown_set :
    (j : Injection) (env : List EnvVar) (n : ℕ)
    → env_is_set env env_marble_uuid_file ≡ true
    → inject_env env (grown j n) ≡ inject_env env (required j)
unfolding grown copies uuid_var
inject_grown_set j env n h =
    let kept = env_is_set-inject_env env (new_env_vars j) env_marble_uuid_file h in
    inject_env-append env (new_env_vars j) (copies n (uuid_var j))
    ∙ inject_env-copies_set (inject_env env (new_env_vars j)) (uuid_var j) n kept
    ∙ sym (inject_env-copies_set (inject_env env (new_env_vars j)) (uuid_var j) 1 kept)
    ∙ sym (inject_env-append env (new_env_vars j) (uuid_var j ∷ []))
