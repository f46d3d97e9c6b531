-- ===== src/Injector/Provided.antt =====
-- What a container has after the webhook, and that the webhook leaves such a container alone.
use marblerun.Injector.Env.{required}
use marblerun.Injector.Injected.{
  all_injected, injected, mutate_pod-eq-all_injected, some_lacks_uuid,
}
use marblerun.Injector.Pods.{
  K8sContainer, is_left_out, supply_sgx, K8sPod, mutate_pod, with_toleration, with_volume,
}
use marblerun.Base.Pure.{◌>>=◌}
use marblerun.Base.{
  List, Option, Str, [], arith, if◌then◌else◌, is_nil, none, not, refl, some, str_eq, str_eq_iff,
  true, ◌++◌, ◌||◌, ◌∙◌, ◌∷◌, ◌≡◌, Bool, Bool-cases, Map, Result, ap, deadlock, err, false, inl,
  inr, ok, panic, subst, ◌⊎◌, sym,
}
use marblerun.Injector.{
  EnvVar, env_is_set, inject_env, Injection, Kubernetes, env_marble_uuid_file, inject_limits,
  uuid_mount,
}

-- the value of a variable: the first entry of the name counts
unfoldable pub env_value : List EnvVar → Str → Option Str
env_value [] n = none
env_value (v ∷ env) n = if str_eq v.name n then some v.value else env_value env n

abbrev pub or_value : Option Str → Option Str → Option Str
or_value none w = w
or_value (some v) w = some v

env_value-append :
    (env vs : List EnvVar) (n : Str)
    → env_value (env ++ vs) n ≡ or_value (env_value env n) (env_value vs n)
unfolding env_value
env_value-append [] vs n = refl
env_value-append (v ∷ env) vs n = ground (arith, env_value-append env vs n)

env_is_set_iff : (env : List EnvVar) (n : Str) → env_is_set env n ≡ not (is_nil (env_value env n))
unfolding env_value env_is_set
env_is_set_iff [] n = refl
env_is_set_iff (v ∷ env) n = ground (arith, env_is_set_iff env n)

-- A variable that is set keeps its value; one that is not takes the injected one.
pub env_value-inject_env :
    (env vs : List EnvVar) (n : Str)
    → env_value (inject_env env vs) n ≡ or_value (env_value env n) (env_value vs n)
unfolding inject_env
env_value-inject_env env [] n = unfold env_value in ground arith
env_value-inject_env env (v ∷ vs) n =
    env_value-inject_env (if env_is_set env v.name then env else env ++ v ∷ []) vs n
    ∙ unfold env_value in
      ground
        (arith, env_value-append env (v ∷ []) n, env_is_set_iff env v.name, str_eq_iff v.name n)

-- variables that are all set are not injected again
abbrev AllSet : List EnvVar → List EnvVar → Type 0
AllSet env [] = Unit {0}
AllSet env (v ∷ vs) = (env_is_set env v.name ≡ true) × AllSet env vs

inject_env_idle : (env vs : List EnvVar) → AllSet env vs → inject_env env vs ≡ env
unfolding inject_env
inject_env_idle env [] h = refl
inject_env_idle env (v ∷ vs) h = rw (h.0, inject_env) (inject_env_idle env vs h.1)

pub env_is_set-inject :
    (env vs : List EnvVar) (n : Str)
    → env_is_set (inject_env env vs) n ≡ (env_is_set env n || env_is_set vs n)
env_is_set-inject env vs n = ground (
  arith,
  env_is_set_iff (inject_env env vs) n,
  env_is_set_iff env n,
  env_is_set_iff vs n,
  env_value-inject_env env vs n,
)

AllSet-inject :
    (env vs ws : List EnvVar)
    → ((n : Str) → env_is_set ws n ≡ true → env_is_set vs n ≡ true)
    → AllSet (inject_env env vs) ws
unfolding env_is_set
AllSet-inject env vs [] h = tt
AllSet-inject env vs (w ∷ ws) h = (
  ground (arith, env_is_set-inject env vs w.name, h w.name, str_eq_iff w.name w.name),
  AllSet-inject env vs ws (λ n s. h n (ground (arith, s))),
)

pub inject_env_twice :
    (env vs : List EnvVar) → inject_env (inject_env env vs) vs ≡ inject_env env vs
inject_env_twice env vs =
    inject_env_idle (inject_env env vs) vs (AllSet-inject env vs vs (λ n s. s))

module _ (k : Kubernetes) where
  -- The container is named by the label, or the label is missing, and it has what it had, the required
  -- variables that it lacked, and the mount of the UUID file if it lacked the variable.
  pub record IsProvided (j : Injection) (c c' : K8sContainer k) : Type 0 where
    pub chosen : is_left_out k j c ≡ false
    pub name_same : c'.name ≡ c.name
    pub rest_same : c'.rest ≡ c.rest
    pub values :
        (n : Str) → env_value c'.env n ≡ or_value (env_value c.env n) (env_value (required j) n)
    pub mounted : c'.volume_mounts ≡ (
        if env_is_set c.env env_marble_uuid_file
        then c.volume_mounts
        else c.volume_mounts ++ uuid_mount j ∷ [])

  -- Each container is provided, or is left out and unchanged.
  abbrev pub AllProvided : Injection → List (K8sContainer k) → List (K8sContainer k) → Type 0
  AllProvided j [] [] = Unit {0}
  AllProvided j [] (d ∷ ds) = ⊥
  AllProvided j (c ∷ cs) [] = ⊥
  AllProvided j (c ∷ cs) (d ∷ ds) =
      (((is_left_out k j c ≡ true) × (d ≡ c)) ⊎ IsProvided j c d) × AllProvided j cs ds

  -- SGX resources change nothing but the limits
  pub supply_sgx-kept :
      (j : Injection) (c c' : K8sContainer k)
      → supply_sgx k j c ≡ ok c'
      → (c'.name ≡ c.name)
        × (c'.rest ≡ c.rest)
        × (c'.env ≡ c.env)
        × (c'.volume_mounts ≡ c.volume_mounts)
  unfolding supply_sgx
  supply_sgx-kept j c c' e =
      split (inject_limits k j.resource_key c.limits) (Bool-cases j.inject_sgx) e
    where
      split :
          (r : Result (Map k.Quantity))
          → ((j.inject_sgx ≡ true) ⊎ (j.inject_sgx ≡ false))
          → (if j.inject_sgx then (do limits ← r; ok (record c { limits = some limits })) else ok c)
            ≡ ok c'
          → (c'.name ≡ c.name)
            × (c'.rest ≡ c.rest)
            × (c'.env ≡ c.env)
            × (c'.volume_mounts ≡ c.volume_mounts)
      split (ok m) h e = ground (arith, h)
      split (err x) h e = ground (arith, h)
      split (panic x) h e = ground (arith, h)
      split deadlock h e = ground (arith, h)

  injected-IsProvided :
      (j : Injection) (c c' : K8sContainer k)
      → injected k j c ≡ ok c'
      → ((is_left_out k j c ≡ true) × (c' ≡ c)) ⊎ IsProvided j c c'
  unfolding injected
  injected-IsProvided j c c' e = split (is_left_out k j c) refl e
    where
      given : K8sContainer k
      given = record c {
        env = inject_env c.env (required j);
        volume_mounts =
            if env_is_set c.env env_marble_uuid_file
            then c.volume_mounts
            else c.volume_mounts ++ uuid_mount j ∷ [];
      }

      split :
          (b : Bool)
          → is_left_out k j c ≡ b
          → (if b then ok c else supply_sgx k j given) ≡ ok c'
          → ((is_left_out k j c ≡ true) × (c' ≡ c)) ⊎ IsProvided j c c'
      split true h e = inl (h, ground (arith, e))
      split false h e =
          let (same_name, same_rest, same_env, same_mounts) = supply_sgx-kept j given c' e in
          inr (record {
            chosen = h;
            name_same = same_name;
            rest_same = same_rest;
            values =
                λ n. ap (λ l. env_value l n) same_env ∙ env_value-inject_env c.env (required j) n;
            mounted = same_mounts;
          })

  all_injected-AllProvided :
      (j : Injection) (cs ds : List (K8sContainer k))
      → all_injected k j cs ≡ ok ds
      → AllProvided j cs ds
  unfolding all_injected
  all_injected-AllProvided j [] [] e = tt
  all_injected-AllProvided j [] (d ∷ ds) e = cc
  all_injected-AllProvided j (c ∷ cs) ds e =
      both (injected k j c) refl (all_injected k j cs)
        (λ others h. all_injected-AllProvided j cs others h) e
    where
      both :
          (first : Result (K8sContainer k))
          → injected k j c ≡ first
          → (others : Result (List (K8sContainer k)))
          → ((l : List (K8sContainer k)) → others ≡ ok l → AllProvided j cs l)
          → (do f ← first; o ← others; ok (f ∷ o)) ≡ ok ds
          → AllProvided j (c ∷ cs) ds
      both (ok f) h (ok o) rec e =
          let same : f ∷ o ≡ ds = cc in
          subst (AllProvided j (c ∷ cs)) same (injected-IsProvided j c f h, rec o refl)
      both (ok f) h (err x) rec e = cc
      both (ok f) h (panic x) rec e = cc
      both (ok f) h deadlock rec e = cc
      both (err x) h others rec e = cc
      both (panic x) h others rec e = cc
      both deadlock h others rec e = cc

  pub containers-kept :
      (j : Injection) (need : Bool) (pod : K8sPod k)
      → (with_toleration k j (with_volume k j need pod)).containers ≡ pod.containers
  unfolding with_toleration with_volume
  containers-kept j need pod = ground arith

  -- If the webhook answers with a pod, each container that the label names, or each one if there is no
  -- such label, has the variables that it had, with their values, and the required ones that it
  -- lacked; it has the mount of the UUID file if it lacked the variable; every other container is
  -- unchanged.
  pub mutate_pod-AllProvided :
      (j : Injection) (pod pod' : K8sPod k)
      → mutate_pod k j pod ≡ ok pod'
      → AllProvided j pod.containers pod'.containers
  mutate_pod-AllProvided j pod pod' e =
      split (all_injected k j pod.containers) refl (sym (mutate_pod-eq-all_injected k j pod) ∙ e)
    where
      f : List (K8sContainer k) → K8sPod k
      f cs =
          with_toleration k j
            (with_volume k j (some_lacks_uuid k j pod.containers) (record pod { containers = cs }))

      split :
          (r : Result (List (K8sContainer k)))
          → all_injected k j pod.containers ≡ r
          → (do cs ← r; ok (f cs)) ≡ ok pod'
          → AllProvided j pod.containers pod'.containers
      split (ok cs) h e =
          let same : f cs ≡ pod' = cc in
          subst (λ p. AllProvided j pod.containers p.containers) same
            (subst (AllProvided j pod.containers)
              (sym (
                containers-kept j (some_lacks_uuid k j pod.containers)
                  (record pod { containers = cs })))
              (all_injected-AllProvided j pod.containers cs h))
      split (err x) h e = cc
      split (panic x) h e = cc
      split deadlock h e = cc
