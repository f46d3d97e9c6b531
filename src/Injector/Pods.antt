-- ===== src/Injector/Pods.antt =====
-- mutate, generateResponse and the loop over the containers of injector/injector.go.
use marblerun.Base.{
  or_error, Bool, Bytes, List, Map, Result, Str, [], codes, err, errorf, false, get, if◌then◌else◌,
  is_empty, none, not, ok, some, str_eq, true, ◌&&◌, ◌++◌, ◌∷◌,
}
use marblerun.Injector.{
  AdmissionRequest, Container, EnvVar, Injection, Kubernetes, Pod, downward, env_is_set,
  env_marble_uuid_file, inject_env, inject_limits, label_marble_container, label_marble_type,
  label_resource_injection, new_env_vars, uuid_mount, uuid_var, uuid_volume_name,
}
use marblerun.Base.Pure.{◌>>=◌}

-- labels[name], and "" for a missing one
abbrev pub label : Map Str → Str → Str
label labels name = elim (get labels name) [ none ↦ [] | some v ↦ v ]

module _ (k : Kubernetes) where
  abbrev pub K8sContainer : Type 0
  K8sContainer = Container k.Quantity k.ContainerRest

  abbrev pub K8sPod : Type 0
  K8sPod = Pod k.Quantity k.ContainerRest k.PodRest

  -- the variables of the loop over the containers
  pub record LoopState : Type 0 where
    pub need_uuid_volume : Bool
    pub env_vars : List EnvVar

  -- `(container.Name != marbleContainer) && !injectAllContainers`
  unfoldable pub is_left_out : Injection → K8sContainer → Bool
  is_left_out j c = not (str_eq c.name j.marble_container) && not (is_empty j.marble_container)

  -- the test for the UUID file
  unfoldable pub supply_uuid : Injection → K8sContainer → LoopState → K8sContainer × LoopState
  unfolding env_is_set uuid_mount uuid_var
  supply_uuid j c s = if env_is_set c.env env_marble_uuid_file then (c, s) else (
    record c { volume_mounts = c.volume_mounts ++ uuid_mount j ∷ [] },
    record { need_uuid_volume = true; env_vars = s.env_vars ++ uuid_var j ∷ [] },
  )

  -- `if injectSgx`
  unfoldable pub supply_sgx : Injection → K8sContainer → Result K8sContainer
  unfolding inject_limits
  supply_sgx j c =
      if j.inject_sgx
      then (do
        limits ← inject_limits k j.resource_key c.limits
        ok (record c { limits = some limits }))
      else ok c

  -- the body of the loop
  unfoldable pub inject_container :
      Injection → K8sContainer → LoopState → Result (K8sContainer × LoopState)
  inject_container j c s = if is_left_out j c then ok (c, s) else (do
    let supplied = supply_uuid j c s
    let c' = supplied.0
    changed ← supply_sgx j (record c' { env = inject_env c'.env supplied.1.env_vars })
    ok (changed, supplied.1))

  -- the loop
  unfoldable pub inject_containers :
      Injection → List K8sContainer → LoopState → Result (List K8sContainer × LoopState)
  unfolding inject_container
  inject_containers j [] s = ok ([], s)
  inject_containers j (c ∷ cs) s = do
    first ← inject_container j c s
    others ← inject_containers j cs first.1
    ok (first.0 ∷ others.0, others.1)

  -- generateResponse
  unfoldable pub generate_response : K8sPod → AdmissionRequest → Bool → Str → Result Bytes
  generate_response pod request allowed message = do
    marshaled ← or_error (k.encode_pod pod) (errorf "unable to marshal patched pod: %v" [])
    patch ← or_error (k.patch_response request marshaled) (errorf "patching failed: %v" [])
    or_error
        (k.encode_answer (record {
          patch = patch;
          allowed = allowed;
          status = if allowed then codes "Success" else codes "Failure";
          message = message;
        }))
        (errorf "unable to marshal admission response: %v" [])

  -- the volumes and tolerations that are appended after the loop
  unfoldable pub with_volume : Injection → Bool → K8sPod → K8sPod
  unfolding uuid_volume_name
  with_volume j need pod =
      if need
      then record pod {
        volumes =
            pod.volumes
            ++ downward (uuid_volume_name j) (codes "uuid-file") (codes "metadata.uid") ∷ [];
      }
      else pod

  unfoldable pub with_toleration : Injection → K8sPod → K8sPod
  with_toleration j pod =
      if j.inject_sgx
      then record pod {
        tolerations =
            pod.tolerations
            ++ (record {
              key = j.resource_key;
              operator = codes "Exists";
              value = [];
              effect = codes "NoSchedule";
              seconds = none;
            })
              ∷ [];
      }
      else pod

  -- what mutate reads from the pod and the request
  unfoldable pub injection_of : Str → Str → Str → AdmissionRequest → Map Str → Str → Injection
  injection_of coord_addr domain_name resource_key request labels marble_type = record {
    coord_addr = coord_addr;
    domain_name = domain_name;
    resource_key = resource_key;
    marble_type = marble_type;
    namespace = if is_empty request.namespace then codes "default" else request.namespace;
    uid = request.uid;
    marble_container = label labels label_marble_container;
    inject_sgx = not (str_eq (label labels label_resource_injection) (codes "disabled"));
  }

  -- the pod that mutate answers with once the type of the marble is known
  unfoldable pub mutate_pod : Injection → K8sPod → Result K8sPod
  unfolding inject_containers with_volume with_toleration new_env_vars
  mutate_pod j pod = do
    done ←
        inject_containers j pod.containers
          (record { need_uuid_volume = false; env_vars = new_env_vars j })
    ok (
        with_toleration j
          (with_volume j done.1.need_uuid_volume (record pod { containers = done.0 })))

  -- mutate
  unfoldable pub mutate : Bytes → Str → Str → Str → Result Bytes
  unfolding generate_response injection_of mutate_pod
  mutate body coord_addr domain_name resource_key = do
    review ← or_error (k.decode_review body) (errorf "invalid admission review: %v" [])
    elim review [
      | none ↦ err (errorf "empty admission request" [])
      | some request ↦ (do
        decoded ← or_error (k.decode_pod request.object_raw) (errorf "invalid pod: %v" [])
        let labels : Map Str = elim decoded.labels [ none ↦ [] | some m ↦ m ]
        let pod : K8sPod = record decoded { labels = some labels }
        elim (get labels label_marble_type) [
          | none ↦
              generate_response pod request false
                (codes "Error: missing [marblerun/marbletype] label, request denied")
          | some marble_type ↦
              if is_empty marble_type
              then generate_response pod request false
                  (codes "Error: empty [marblerun/marbletype] label, request denied")
              else (do
                mutated ←
                    mutate_pod
                      (injection_of coord_addr domain_name resource_key request labels marble_type)
                      pod
                generate_response mutated request true (
                    codes "Mutation request for pod of marble type ["
                    ++ marble_type
                    ++ codes "] successful"))
        ])
    ]
