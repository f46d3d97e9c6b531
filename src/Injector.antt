-- ===== src/Injector.antt =====
-- injector/injector.go: the webhook that adds to the pods of marbles what they need to run. The types
-- of kubernetes are cut to the fields that the code reads or writes; the others stand in `rest`.
pub mod Pods
pub mod Env
pub mod Injected
pub mod Provided
pub mod Twice
pub mod Handler
mod Tests
use marblerun.Util.{get_epc_resource_limit, intel_epc, intel_enclave, intel_provision}
use marblerun.Base.Pure.{◌>>=◌}
use marblerun.Base.{
  Bool, Bytes, List, Map, Option, Result, Str, [], codes, false, has, if◌then◌else◌, map, none, ok,
  put, some, status, str_eq, to_lower, true, ◌++◌, ◌/◌, ◌∷◌, ℕ,
}

abbrev pub env_marble_coordinator_addr : Str
env_marble_coordinator_addr = codes "EDG_MARBLE_COORDINATOR_ADDR"

abbrev pub env_marble_type : Str
env_marble_type = codes "EDG_MARBLE_TYPE"

abbrev pub env_marble_dns_name : Str
env_marble_dns_name = codes "EDG_MARBLE_DNS_NAMES"

abbrev pub env_marble_uuid_file : Str
env_marble_uuid_file = codes "EDG_MARBLE_UUID_FILE"

abbrev pub label_marble_type : Str
label_marble_type = codes "marblerun/marbletype"

abbrev pub label_marble_container : Str
label_marble_container = codes "marblerun/marblecontainer"

abbrev pub label_resource_injection : Str
label_resource_injection = codes "marblerun/resource-injection"

pub record EnvVar : Type 0 where
  pub name : Str
  pub value : Str

pub record VolumeMount : Type 0 where
  pub mount_path : Str
  pub name : Str

pub record Container (Quantity Rest : Type 0) : Type 0 where
  pub name : Str
  pub env : List EnvVar
  pub volume_mounts : List VolumeMount
  pub limits : Option (Map Quantity)
  pub rest : Rest

-- a volume: one with a single file that the downward API fills from a field of the pod, or another
pub data Volume : Type 0 where
  downward : (name path field_path : Str) → Volume
  other_volume : Bytes → Volume

pub record Toleration : Type 0 where
  pub key : Str
  pub operator : Str
  pub value : Str
  pub effect : Str
  pub seconds : Option ℕ

pub record Pod (Quantity ContainerRest Rest : Type 0) : Type 0 where
  pub labels : Option (Map Str)
  pub containers : List (Container Quantity ContainerRest)
  pub volumes : List Volume
  pub tolerations : List Toleration
  pub rest : Rest

pub record AdmissionRequest : Type 0 where
  pub uid : Str
  pub namespace : Str
  pub object_raw : Bytes

-- the answer: what the patch library made, and the fields that the code sets
pub record AdmissionAnswer (Patch : Type 0) : Type 0 where
  pub patch : Patch
  pub allowed : Bool
  pub status : Str
  pub message : Str

-- What the code calls of kubernetes: the decoders and encoders of reviews and pods, the patch between
-- two texts of a pod (PatchResponseFromRaw and Complete), and resource.MustParse.
pub record Kubernetes : Type 1 where
  pub Quantity : Type 0
  pub ContainerRest : Type 0
  pub PodRest : Type 0
  pub Patch : Type 0
  pub decode_review : Bytes → Result (Option AdmissionRequest)
  pub decode_pod : Bytes → Result (Pod Quantity ContainerRest PodRest)
  pub encode_pod : Pod Quantity ContainerRest PodRest → Result Bytes
  pub patch_response : AdmissionRequest → Bytes → Result Patch
  pub encode_answer : AdmissionAnswer Patch → Result Bytes
  pub must_parse : Str → Result Quantity

-- envIsSet
unfoldable pub env_is_set : List EnvVar → Str → Bool
env_is_set [] name = false
env_is_set (v ∷ vars) name = if str_eq v.name name then true else env_is_set vars name

-- the loop that injects the variables that are not set
unfoldable pub inject_env : List EnvVar → List EnvVar → List EnvVar
unfolding env_is_set
inject_env env [] = env
inject_env env (v ∷ vars) = inject_env (if env_is_set env v.name then env else env ++ v ∷ []) vars

-- what the webhook is told, and what it reads from one request
pub record Injection : Type 0 where
  pub coord_addr : Str
  pub domain_name : Str
  pub resource_key : Str
  pub marble_type : Str
  pub namespace : Str
  pub uid : Str
  pub marble_container : Str
  pub inject_sgx : Bool

-- newEnvVars before the loop
unfoldable pub new_env_vars : Injection → List EnvVar
new_env_vars j =
    (record { name = env_marble_coordinator_addr; value = j.coord_addr })
    ∷ (record { name = env_marble_type; value = j.marble_type })
    ∷ (record {
      name = env_marble_dns_name;
      value = to_lower (
          j.marble_type
          ++ codes ","
          ++ j.marble_type
          ++ codes "."
          ++ j.namespace
          ++ codes ","
          ++ j.marble_type
          ++ codes "."
          ++ j.namespace
          ++ codes ".svc."
          ++ j.domain_name);
    })
    ∷ []

-- the variable and the mount of the file with the UUID
unfoldable pub uuid_var : Injection → EnvVar
uuid_var j = record {
  name = env_marble_uuid_file;
  value = codes "/" ++ j.marble_type ++ codes "-uid/uuid-file";
}

unfoldable pub uuid_volume_name : Injection → Str
uuid_volume_name j = codes "uuid-file-" ++ j.uid

unfoldable pub uuid_mount : Injection → VolumeMount
unfolding uuid_volume_name
uuid_mount j = record {
  mount_path = codes "/" ++ j.marble_type ++ codes "-uid";
  name = uuid_volume_name j;
}

module _ (k : Kubernetes) where
  -- setResourceLimit
  unfoldable pub set_resource_limit : Map k.Quantity → Str → Str → Result (Map k.Quantity)
  set_resource_limit target key value =
      if has target key then ok target else (do q ← k.must_parse value; ok (put target key q))

  -- the switch on the resource key, on a map that is made if it is nil
  unfoldable pub inject_limits : Str → Option (Map k.Quantity) → Result (Map k.Quantity)
  inject_limits key limits =
      let target : Map k.Quantity = elim limits [ none ↦ [] | some m ↦ m ] in
      if str_eq key intel_epc
      then (do
        one ← set_resource_limit target intel_epc (get_epc_resource_limit key)
        two ← set_resource_limit one intel_enclave (codes "1")
        set_resource_limit two intel_provision (codes "1"))
      else set_resource_limit target key (get_epc_resource_limit key)
