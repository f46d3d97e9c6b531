-- ===== src/Util.antt =====
-- util/util.go: the environment, exclusive or, and the limits of SGX memory.
pub mod Xor
pub mod Tls
mod Tests
use marblerun.Base.{
  Bytes, Map, Result, Str, [], codes, errorf, get, if◌then◌else◌, is_empty, length, none, not, ok,
  panic, some, str_eq, ◌==◌, ◌∷◌, err,
}
use Prim.Native.Nat.{bit_xor}
use marblerun.Base.Pure.{◌>>=◌, ◌>>◌, reject_if}

-- os.Getenv: a variable that is not set reads as the empty text
abbrev pub os_getenv : Map Str → Str → Str
os_getenv env name = elim (get env name) [ none ↦ [] | some v ↦ v ]

-- Getenv
unfoldable pub getenv : Map Str → Str → Str → Str
getenv env name fallback =
    let value = os_getenv env name in if is_empty value then fallback else value

-- MustGetenv; log.Fatalln ends the process
unfoldable pub must_getenv : Map Str → Str → Result Str
must_getenv env name =
    let value = os_getenv env name in
    if is_empty value then panic "environment variable not set" else ok value

-- MustGetwd, with the outcome of os.Getwd
unfoldable pub must_getwd : Map Str → Result Str → Result Str
must_getwd env getwd =
    let wd = os_getenv env (codes "EDG_CWD") in if is_empty wd then or_panic getwd else ok wd
  where
    or_panic : Result Str → Result Str
    or_panic (err e) = panic "os.Getwd failed"
    or_panic r = r

-- the loop of XORBytes over two slices of the same length
unfoldable pub xor_all : Bytes → Bytes → Bytes
xor_all [] b = []
xor_all (x ∷ a) [] = []
xor_all (x ∷ a) (y ∷ b) = bit_xor x y ∷ xor_all a b

-- XORBytes
unfoldable pub xor_bytes : Bytes → Bytes → Result Bytes
unfolding xor_all
xor_bytes a b = do
  reject_if (not (length a == length b)) (errorf "lengths of byte slices differ: %v != %v" [])
  ok (xor_all a b)

abbrev pub intel_epc : Str
intel_epc = codes "sgx.intel.com/epc"

abbrev pub intel_enclave : Str
intel_enclave = codes "sgx.intel.com/enclave"

abbrev pub intel_provision : Str
intel_provision = codes "sgx.intel.com/provision"

abbrev pub azure_epc : Str
azure_epc = codes "kubernetes.azure.com/sgx_epc_mem_in_MiB"

abbrev pub alibaba_epc : Str
alibaba_epc = codes "alibabacloud.com/sgx_epc_MiB"

-- GetEPCResourceLimit
unfoldable pub get_epc_resource_limit : Str → Str
get_epc_resource_limit key =
    if str_eq key azure_epc
    then codes "10"
    else if str_eq key alibaba_epc
    then codes "10"
    else if str_eq key intel_epc
    then codes "10Mi"
    else codes "10"
