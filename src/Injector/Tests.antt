-- ===== src/Injector/Tests.antt =====
-- The webhook on a pod with two containers, one of which has a UUID file.
use marblerun.Base.{
  Bytes, Result, Str, [], codes, err, foreign, none, ok, refl, str_eq, true, ◌∷◌, ◌≡◌, get, put,
}
use marblerun.Injector.{
  Injection, Kubernetes, env_is_set, inject_env, inject_limits, set_resource_limit, uuid_mount,
  uuid_var,
}
use marblerun.Util.{get_epc_resource_limit}
use marblerun.Injector.Injected.{mutate_pod-eq-all_injected, all_injected, some_lacks_uuid}
use marblerun.Injector.Provided.{AllProvided, mutate_pod-AllProvided}
use marblerun.Injector.Twice.{mutate_pod_twice}
use marblerun.Injector.Pods.{
  with_volume, with_toleration, mutate_pod, K8sPod, K8sContainer, inject_container,
  inject_containers, is_left_out, supply_sgx, supply_uuid,
}
use marblerun.Base.Pure.{◌>>=◌}

abbrev small_kubernetes : Kubernetes
small_kubernetes = record {
  Quantity = Str;
  ContainerRest = Unit {0};
  PodRest = Unit {0};
  Patch = Bytes;
  decode_review = λ raw. ok none;
  decode_pod = λ raw. err (foreign "json");
  encode_pod = λ pod. ok [];
  patch_response = λ request raw. ok raw;
  encode_answer = λ answer. ok [];
  must_parse = λ s. ok s;
}

abbrev backend : Injection
backend = record {
  coord_addr = codes "coordinator:2001";
  domain_name = codes "cluster.local";
  resource_key = codes "sgx.intel.com/epc";
  marble_type = codes "backend";
  namespace = codes "default";
  uid = codes "17";
  marble_container = [];
  inject_sgx = true;
}

abbrev with_file : K8sContainer small_kubernetes
with_file = record {
  name = codes "a";
  env = (record { name = codes "EDG_MARBLE_UUID_FILE"; value = codes "/uuid" }) ∷ [];
  volume_mounts = [];
  limits = none;
  rest = tt;
}

abbrev without_file : K8sContainer small_kubernetes
without_file = record { name = codes "b"; env = []; volume_mounts = []; limits = none; rest = tt }

abbrev two_containers : K8sPod small_kubernetes
two_containers = record {
  labels = none;
  containers = with_file ∷ without_file ∷ [];
  volumes = [];
  tolerations = [];
  rest = tt;
}

abbrev answered_pod : Result (K8sPod small_kubernetes) → K8sPod small_kubernetes
answered_pod (ok pod) = pod
answered_pod _ = two_containers

abbrev answered : K8sPod small_kubernetes
answered = answered_pod (mutate_pod small_kubernetes backend two_containers)

answers : mutate_pod small_kubernetes backend two_containers ≡ ok answered
unfolding mutate_pod inject_containers inject_container is_left_out supply_uuid inject_env
    supply_sgx inject_limits set_resource_limit get_epc_resource_limit env_is_set uuid_var
    uuid_mount str_eq get put
answers = refl

mutate_pod-eq-all_injected_example : mutate_pod small_kubernetes backend two_containers ≡ (do
  cs ← all_injected small_kubernetes backend two_containers.containers
  ok (
      with_toleration small_kubernetes backend (
        with_volume small_kubernetes backend
          (some_lacks_uuid small_kubernetes backend two_containers.containers)
          (record two_containers { containers = cs }))))
mutate_pod-eq-all_injected_example =
    mutate_pod-eq-all_injected small_kubernetes backend two_containers

mutate_pod-AllProvided_example :
    AllProvided small_kubernetes backend two_containers.containers answered.containers
mutate_pod-AllProvided_example =
    mutate_pod-AllProvided small_kubernetes backend two_containers answered answers

mutate_pod_twice_example :
    mutate_pod small_kubernetes backend answered
    ≡ ok (with_toleration small_kubernetes backend answered)
mutate_pod_twice_example = mutate_pod_twice small_kubernetes backend two_containers answered answers
