-- ===== src/Injector/Injected.antt =====
-- The loop over the containers treats each of them as if it were alone, whatever has been appended to
-- the list of variables for the containers before it.
use marblerun.Base.{
  Bool, Bool-cases, List, Result, [], ap, arith, deadlock, err, false, if◌then◌else◌, inl, inr, not,
  ok, panic, refl, suc, sym, true, ℕ, ◌&&◌, ◌++◌, ◌||◌, ◌∙◌, ◌∷◌, ◌≡◌,
}
use marblerun.Injector.{
  Injection, Kubernetes, env_is_set, env_marble_uuid_file, inject_env, new_env_vars, uuid_mount,
  uuid_var,
}
use marblerun.Injector.Pods.{
  K8sContainer, K8sPod, LoopState, inject_container, inject_containers, is_left_out, mutate_pod,
  supply_sgx, supply_uuid, with_toleration, with_volume,
}
use marblerun.Base.Pure.{◌>>=◌}
use mathlib.Core.List.{append-nil}
use marblerun.Injector.Env.{required, grown, grown-snoc, inject_grown_set, inject_grown_unset}

module _ (k : Kubernetes) where
  -- One container on its own: the variables that it lacks of those that every marble needs, the mount
  -- if it lacks the UUID file, and the limits.
  unfoldable pub injected : Injection → K8sContainer k → Result (K8sContainer k)
  injected j c =
      if is_left_out k j c
      then ok c
      else supply_sgx k j (record c {
        env = inject_env c.env (required j);
        volume_mounts =
            if env_is_set c.env env_marble_uuid_file
            then c.volume_mounts
            else c.volume_mounts ++ uuid_mount j ∷ [];
      })

  unfoldable pub lacks_uuid : Injection → K8sContainer k → Bool
  lacks_uuid j c = not (is_left_out k j c) && not (env_is_set c.env env_marble_uuid_file)

  unfoldable pub all_injected : Injection → List (K8sContainer k) → Result (List (K8sContainer k))
  unfolding injected
  all_injected j [] = ok []
  all_injected j (c ∷ cs) = do first ← injected j c; others ← all_injected j cs; ok (first ∷ others)

  unfoldable pub some_lacks_uuid : Injection → List (K8sContainer k) → Bool
  unfolding lacks_uuid
  some_lacks_uuid j [] = false
  some_lacks_uuid j (c ∷ cs) = lacks_uuid j c || some_lacks_uuid j cs

  -- what the code goes on to use of the loop
  abbrev pub outcome :
      Result (List (K8sContainer k) × LoopState k) → Result (List (K8sContainer k) × Bool)
  outcome r = do (cs, s) ← r; ok (cs, s.need_uuid_volume)

  supply_uuid_set :
      (j : Injection) (c : K8sContainer k) (s : LoopState k)
      → env_is_set c.env env_marble_uuid_file ≡ true
      → supply_uuid k j c s ≡ (c, s)
  unfolding supply_uuid
  supply_uuid_set j c s h = rw (h, supply_uuid) refl

  supply_uuid_unset :
      (j : Injection) (c : K8sContainer k) (s : LoopState k)
      → env_is_set c.env env_marble_uuid_file ≡ false
      → supply_uuid k j c s ≡ (
        record c { volume_mounts = c.volume_mounts ++ uuid_mount j ∷ [] },
        record { need_uuid_volume = true; env_vars = s.env_vars ++ uuid_var j ∷ [] },
      )
  unfolding supply_uuid
  supply_uuid_unset j c s h = rw (h, supply_uuid) refl

  abbrev with_state : Result (K8sContainer k) → LoopState k → Result (K8sContainer k × LoopState k)
  with_state r t = do c ← r; ok (c, t)

  -- one round of the loop
  step :
      (j : Injection) (c : K8sContainer k) (s : LoopState k) (n : ℕ)
      → s.env_vars ≡ grown j n
      → (m : ℕ) × (t : LoopState k) × (inject_container k j c s
          ≡ (do c' ← injected j c; ok (c', t)))
        × (t.env_vars ≡ grown j m)
        × (t.need_uuid_volume ≡ (s.need_uuid_volume || lacks_uuid j c))
  unfolding inject_container injected lacks_uuid
  step j c s n e = elim (Bool-cases (is_left_out k j c)) [
    | inl out ↦ (n, s, rw (out, inject_container, injected) refl, e, ground (arith, out))
    | inr chosen ↦ elim (Bool-cases (env_is_set c.env env_marble_uuid_file)) [
      | inl has_it ↦ (
        n,
        s,
        rw (chosen, inject_container, injected)
            (rw (supply_uuid_set j c s has_it)
              (rw (e, has_it) (rw (inject_grown_set j c.env n has_it) refl))),
        e,
        ground (arith, chosen, has_it),
      )
      | inr lacks_it ↦ (
        suc n,
        record { need_uuid_volume = true; env_vars = s.env_vars ++ uuid_var j ∷ [] },
        rw (chosen, inject_container, injected)
            (rw (supply_uuid_unset j c s lacks_it)
              (rw (e, lacks_it) (rw (grown-snoc j n) (rw (inject_grown_unset j c.env n) refl)))),
        rw e (grown-snoc j n),
        ground (arith, chosen, lacks_it),
      )
    ]
  ]

  -- the rest of the loop after one round
  add_others :
      (c : K8sContainer k) (r : Result (List (K8sContainer k) × LoopState k))
      (others : Result (List (K8sContainer k))) (need : Bool)
      → outcome r ≡ (do cs ← others; ok (cs, need))
      → outcome (do o ← r; ok (c ∷ o.0, o.1)) ≡ (do cs ← (do o ← others; ok (c ∷ o)); ok (cs, need))
  add_others c (ok (cs, s)) (ok others) need e = ground (arith, e)
  add_others c (ok r) (err y) need e = cc
  add_others c (ok r) (panic y) need e = cc
  add_others c (ok r) deadlock need e = cc
  add_others c (err x) (ok others) need e = cc
  add_others c (err x) (err y) need e = ground (arith, e)
  add_others c (err x) (panic y) need e = cc
  add_others c (err x) deadlock need e = cc
  add_others c (panic x) (ok others) need e = cc
  add_others c (panic x) (err y) need e = cc
  add_others c (panic x) (panic y) need e = ground (arith, e)
  add_others c (panic x) deadlock need e = cc
  add_others c deadlock (ok others) need e = cc
  add_others c deadlock (err y) need e = cc
  add_others c deadlock (panic y) need e = cc
  add_others c deadlock deadlock need e = refl

  add_first :
      (first : Result (K8sContainer k)) (t : LoopState k)
      (rest : LoopState k → Result (List (K8sContainer k) × LoopState k))
      (others : Result (List (K8sContainer k))) (need : Bool)
      → outcome (rest t) ≡ (do cs ← others; ok (cs, need))
      → outcome (do f ← with_state first t; o ← rest f.1; ok (f.0 ∷ o.0, o.1))
        ≡ (do cs ← (do f ← first; o ← others; ok (f ∷ o)); ok (cs, need))
  add_first (ok c) t rest others need e = add_others c (rest t) others need e
  add_first (err x) t rest others need e = refl
  add_first (panic x) t rest others need e = refl
  add_first deadlock t rest others need e = refl

  containers_from :
      (j : Injection) (cs : List (K8sContainer k)) (s : LoopState k) (n : ℕ)
      → s.env_vars ≡ grown j n
      → outcome (inject_containers k j cs s)
        ≡ (do done ← all_injected j cs; ok (done, s.need_uuid_volume || some_lacks_uuid j cs))
  unfolding inject_containers all_injected some_lacks_uuid
  containers_from j [] s n e = ground arith
  containers_from j (c ∷ cs) s n e =
      let (m, t, round, e', flag) = step j c s n e in
      let need : s.need_uuid_volume || (lacks_uuid j c || some_lacks_uuid j cs)
          ≡ (t.need_uuid_volume || some_lacks_uuid j cs) =
        ground (arith, flag) in
      rw round (
        rw need (
          add_first (injected j c) t (λ u. inject_containers k j cs u) (all_injected j cs)
            (t.need_uuid_volume || some_lacks_uuid j cs) (containers_from j cs t m e')))

  abbrev with_flag : List (K8sContainer k) → Bool → Result (List (K8sContainer k) × Bool)
  with_flag cs need = ok (cs, need)

  rest_of_mutate :
      (r : Result (List (K8sContainer k) × LoopState k))
      (f : List (K8sContainer k) → Bool → K8sPod k)
      → (do done ← r; ok (f done.0 done.1.need_uuid_volume))
        ≡ (do done ← outcome r; ok (f done.0 done.1))
  rest_of_mutate (ok r) f = refl
  rest_of_mutate (err x) f = refl
  rest_of_mutate (panic x) f = refl
  rest_of_mutate deadlock f = refl

  flatten :
      (r : Result (List (K8sContainer k))) (need : Bool)
      (f : List (K8sContainer k) → Bool → K8sPod k)
      → (do done ← (do cs ← r; with_flag cs need); ok (f done.0 done.1))
        ≡ (do cs ← r; ok (f cs need))
  flatten (ok r) need f = refl
  flatten (err x) need f = refl
  flatten (panic x) need f = refl
  flatten deadlock need f = refl

  -- Whatever the pod, its containers are treated one by one, each as if it were the only one; the
  -- volume of the UUID file is added if some of them lacks the variable, and the toleration if SGX
  -- resources are injected. The pod is the same but for that.
  pub mutate_pod-eq-all_injected :
      (j : Injection) (pod : K8sPod k)
      → mutate_pod k j pod ≡ (do
        cs ← all_injected j pod.containers
        ok (
            with_toleration k j (
              with_volume k j (some_lacks_uuid j pod.containers) (record pod { containers = cs }))))
  unfolding mutate_pod grown
  mutate_pod-eq-all_injected j pod =
      let f : List (K8sContainer k) → Bool → K8sPod k =
        λ cs need. with_toleration k j (with_volume k j need (record pod { containers = cs })) in
      let start : LoopState k = record { need_uuid_volume = false; env_vars = new_env_vars j } in
      rest_of_mutate (inject_containers k j pod.containers start) f
      ∙ ap (λ (r : Result (List (K8sContainer k) × Bool)). do done ← r; ok (f done.0 done.1))
          (containers_from j pod.containers start 0 (sym (append-nil (new_env_vars j))))
      ∙ flatten (all_injected j pod.containers) (some_lacks_uuid j pod.containers) f
