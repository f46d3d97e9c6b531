-- ===== src/Injector/Twice.antt =====
-- A pod that the webhook has answered with is left alone by the webhook, but for the toleration.
use marblerun.Base.{
  Bool, Bool-cases, List, Map, Option, Result, Str, [], ap, arith, codes, deadlock, err, false,
  get-put, has, if◌then◌else◌, inl, inr, none, ok, panic, put, refl, some, str_eq, str_eq_iff,
  subst, sym, true, ◌++◌, ◌||◌, ◌∙◌, ◌∷◌, ◌≡◌, ◌⊎◌,
}
use marblerun.Injector.{
  Injection, Kubernetes, env_is_set, env_marble_uuid_file, inject_env, inject_limits, new_env_vars,
  set_resource_limit, uuid_mount, uuid_var,
}
use marblerun.Util.{get_epc_resource_limit, intel_enclave, intel_epc, intel_provision}
use marblerun.Injector.Pods.{
  K8sContainer, K8sPod, is_left_out, mutate_pod, supply_sgx, with_toleration, with_volume,
}
use marblerun.Base.Pure.{◌>>=◌, bind-returns}
use marblerun.Injector.Env.{required}
use marblerun.Injector.Injected.{
  injected, mutate_pod-eq-all_injected, all_injected, some_lacks_uuid, lacks_uuid,
}
use marblerun.Injector.Provided.{
  env_is_set-inject, inject_env_twice, supply_sgx-kept, containers-kept,
}

module _ (k : Kubernetes) where
  set_resource_limit-has :
      (m m' : Map k.Quantity) (key value j : Str)
      → set_resource_limit k m key value ≡ ok m'
      → has m' j ≡ (has m j || str_eq key j)
  unfolding set_resource_limit
  set_resource_limit-has m m' key value j e = split (k.must_parse value) (Bool-cases (has m key)) e
    where
      split :
          (r : Result k.Quantity)
          → ((has m key ≡ true) ⊎ (has m key ≡ false))
          → (if has m key then ok m else (do q ← r; ok (put m key q))) ≡ ok m'
          → has m' j ≡ (has m j || str_eq key j)
      split (ok q) h e = ground (arith, h, get-put m key j q, str_eq_iff key j)
      split (err x) h e = ground (arith, h, str_eq_iff key j)
      split (panic x) h e = ground (arith, h, str_eq_iff key j)
      split deadlock h e = ground (arith, h, str_eq_iff key j)

  set_resource_limit_idle :
      (m : Map k.Quantity) (key value : Str)
      → has m key ≡ true
      → set_resource_limit k m key value ≡ ok m
  unfolding set_resource_limit
  set_resource_limit_idle m key value h = rw (h, set_resource_limit) refl

  -- three limits that are set one after the other are all there, and setting them again is idle
  three_limits_twice :
      (a b c x y z : Str) (l m : Map k.Quantity)
      → (do
        one ← set_resource_limit k l a x
        two ← set_resource_limit k one b y
        set_resource_limit k two c z)
        ≡ ok m
      → (do
        one ← set_resource_limit k m a x
        two ← set_resource_limit k one b y
        set_resource_limit k two c z)
        ≡ ok m
  three_limits_twice a b c x y z l m e =
      let (one, e₁, first) = bind-returns _ (set_resource_limit k l a x) e in
      let (two, third, second) = bind-returns _ (set_resource_limit k one b y) e₁ in
      let set_a = set_resource_limit-has l one a x a first in
      let set_b = set_resource_limit-has one two b y b second in
      let keep_a = set_resource_limit-has one two b y a second in
      let has_a : has m a ≡ true =
        ground (arith, set_resource_limit-has two m c z a third, str_eq_iff a a) in
      let has_b : has m b ≡ true =
        ground (arith, set_resource_limit-has two m c z b third, str_eq_iff b b) in
      let has_c : has m c ≡ true =
        ground (arith, set_resource_limit-has two m c z c third, str_eq_iff c c) in
      rw (set_resource_limit_idle m a x has_a)
        (rw (set_resource_limit_idle m b y has_b) (set_resource_limit_idle m c z has_c))

  -- limits that are injected again stay as they are
  inject_limits_twice :
      (key : Str) (l : Option (Map k.Quantity)) (m : Map k.Quantity)
      → inject_limits k key l ≡ ok m
      → inject_limits k key (some m) ≡ ok m
  unfolding inject_limits
  inject_limits_twice key l m e = split (str_eq key intel_epc) refl e
    where
      target : Map k.Quantity
      target = elim l [ none ↦ [] | some n ↦ n ]

      run : Bool → Map k.Quantity → Result (Map k.Quantity)
      run b n =
          if b
          then (do
            one ← set_resource_limit k n intel_epc (get_epc_resource_limit key)
            two ← set_resource_limit k one intel_enclave (codes "1")
            set_resource_limit k two intel_provision (codes "1"))
          else set_resource_limit k n key (get_epc_resource_limit key)

      split : (b : Bool) → str_eq key intel_epc ≡ b → run b target ≡ ok m → run b m ≡ ok m
      split true h e =
          three_limits_twice intel_epc intel_enclave intel_provision (get_epc_resource_limit key)
            (codes "1") (codes "1") target m e
      split false h e = set_resource_limit_idle m key (get_epc_resource_limit key) (
          ground (
            arith,
            set_resource_limit-has target m key (get_epc_resource_limit key) key e,
            str_eq_iff key key,
          ))

  supply_sgx_twice :
      (j : Injection) (c c' : K8sContainer k) → supply_sgx k j c ≡ ok c' → supply_sgx k j c' ≡ ok c'
  unfolding supply_sgx
  supply_sgx_twice j c c' e =
      split (inject_limits k j.resource_key c.limits) refl (Bool-cases j.inject_sgx) e
    where
      split :
          (r : Result (Map k.Quantity))
          → inject_limits k j.resource_key c.limits ≡ r
          → ((j.inject_sgx ≡ true) ⊎ (j.inject_sgx ≡ false))
          → (if j.inject_sgx then (do limits ← r; ok (record c { limits = some limits })) else ok c)
            ≡ ok c'
          → supply_sgx k j c' ≡ ok c'
      split (ok m) f (inl h) e =
          let same : record c { limits = some m } ≡ c' = ground (arith, h, e) in
          subst (λ d. supply_sgx k j d ≡ ok d) same
            (rw (h, supply_sgx) (rw (inject_limits_twice j.resource_key c.limits m f) refl))
      split (err x) f (inl h) e = ground (arith, h, e)
      split (panic x) f (inl h) e = ground (arith, h, e)
      split deadlock f (inl h) e = ground (arith, h, e)
      split r f (inr h) e = rw (h, supply_sgx) refl

  required_has_uuid : (j : Injection) → env_is_set (required j) env_marble_uuid_file ≡ true
  unfolding env_is_set new_env_vars uuid_var str_eq
  required_has_uuid j = refl

  injected_twice :
      (j : Injection) (c c' : K8sContainer k)
      → injected k j c ≡ ok c'
      → (injected k j c' ≡ ok c') × (lacks_uuid k j c' ≡ false)
  unfolding injected lacks_uuid
  injected_twice j c c' e = split (is_left_out k j c) refl e
    where
      given : K8sContainer k
      given = record c {
        env = inject_env c.env (required j);
        volume_mounts =
            if env_is_set c.env env_marble_uuid_file
            then c.volume_mounts
            else c.volume_mounts ++ uuid_mount j ∷ [];
      }

      left_out_same : (d : K8sContainer k) → d.name ≡ c.name → is_left_out k j d ≡ is_left_out k j c
      left_out_same d h = unfold is_left_out in rw h refl

      split :
          (b : Bool)
          → is_left_out k j c ≡ b
          → (if b then ok c else supply_sgx k j given) ≡ ok c'
          → (injected k j c' ≡ ok c') × (lacks_uuid k j c' ≡ false)
      split true h e =
          let same : c ≡ c' = cc in
          subst (λ d. (injected k j d ≡ ok d) × (lacks_uuid k j d ≡ false)) same
            (rw (h, injected) refl, rw (h, lacks_uuid) refl)
      split false h e =
          let (same_name, same_rest, same_env, same_mounts) = supply_sgx-kept k j given c' e in
          let out : is_left_out k j c' ≡ false = left_out_same c' same_name ∙ h in
          let env_again : inject_env c'.env (required j) ≡ c'.env =
            ap (λ l. inject_env l (required j)) same_env
            ∙ inject_env_twice c.env (required j)
            ∙ sym same_env in
          let set : env_is_set c'.env env_marble_uuid_file ≡ true =
            ap (λ l. env_is_set l env_marble_uuid_file) same_env
            ∙ env_is_set-inject c.env (required j) env_marble_uuid_file
            ∙ ground (arith, required_has_uuid j) in
          (
            rw (out, injected) (rw (env_again, set) (supply_sgx_twice j given c' e)),
            rw (out, lacks_uuid) (rw set refl),
          )

  all_injected_twice :
      (j : Injection) (cs ds : List (K8sContainer k))
      → all_injected k j cs ≡ ok ds
      → (all_injected k j ds ≡ ok ds) × (some_lacks_uuid k j ds ≡ false)
  unfolding all_injected some_lacks_uuid
  all_injected_twice j [] ds e =
      let same : ◌≡◌ {A = List (K8sContainer k)} [] ds = cc in
      subst (λ l. (all_injected k j l ≡ ok l) × (some_lacks_uuid k j l ≡ false)) same (refl, refl)
  all_injected_twice j (c ∷ cs) ds e =
      let (f, e₁, first) = bind-returns _ (injected k j c) e in
      let (o, e₂, others) = bind-returns _ (all_injected k j cs) e₁ in
      let same : f ∷ o ≡ ds = cc in
      let (again, set) = injected_twice j c f first in
      let (all_again, all_set) = all_injected_twice j cs o others in
      subst (λ l. (all_injected k j l ≡ ok l) × (some_lacks_uuid k j l ≡ false)) same
        (rw (again, all_injected) (rw all_again refl), rw (set, some_lacks_uuid) all_set)

  -- If the webhook answers with a pod, then on that pod it answers with the same pod again, with one
  -- more toleration if SGX resources are injected: the containers and the volumes stay as they are.
  pub mutate_pod_twice :
      (j : Injection) (pod pod' : K8sPod k)
      → mutate_pod k j pod ≡ ok pod'
      → mutate_pod k j pod' ≡ ok (with_toleration k j pod')
  unfolding with_volume
  mutate_pod_twice j pod pod' e =
      let (cs, e', done) =
        bind-returns _ (all_injected k j pod.containers)
          (sym (mutate_pod-eq-all_injected k j pod) ∙ e) in
      let need = some_lacks_uuid k j pod.containers in
      let same : with_toleration k j (with_volume k j need (record pod { containers = cs }))
          ≡ pod' =
        cc in
      let held : pod'.containers ≡ cs =
        ap (λ (p : K8sPod k). p.containers) (sym same)
        ∙ containers-kept k j need (record pod { containers = cs }) in
      let (again, set) = all_injected_twice j pod.containers cs done in
      let all_again : all_injected k j pod'.containers ≡ ok pod'.containers =
        subst (λ l. all_injected k j l ≡ ok l) (sym held) again in
      let none_lacks : some_lacks_uuid k j pod'.containers ≡ false =
        subst (λ l. some_lacks_uuid k j l ≡ false) (sym held) set in
      mutate_pod-eq-all_injected k j pod' ∙ rw (all_again, none_lacks) refl
