-- ===== src/Premain/Tests.antt =====
-- A marble whose files are a map, started twice, and with a coordinator at the other end.
use marblerun.Base.Post.{Post}
use marblerun.Core.{stored}
use marblerun.Core.Activation.{ActivationReq}
use marblerun.Core.Activation.Parameters.{RpcParameters}
use marblerun.Premain.Admitted.{AdmitsOrEnds, call_coordinator, pre_main_ex-AdmitsOrEnds}
use marblerun.Premain.Applied.{AreDistinct, HasMaps, clean_paths}
use marblerun.Premain.Started.{Started, pre_main_ex-Started}
use marblerun.Util.{getenv, must_getenv, must_getwd}
use marblerun.Util.Tls.{Credentials, generate_csr, generate_marble_cert, load_grpc_tls_credentials}
use marblerun.Core.Concrete.{concrete_services, accepting}
use marblerun.Premain.{
  FileSystem, MarbleServices, Process, get_uuid, parsed_uuid, read_uuid, store_uuid, found_or_new,
  apply_parameters, create_files, generate_certificate, pre_main_ex, set_variables, setenv,
}
use marblerun.Premain.Restart.{FsLaws, get_uuid_again, ReadsUuids}
use marblerun.Base.{
  Bytes, Map, Option, Str, [], codes, err, get, get-put, none, not_exist, ok, put, refl, some,
  str_eq, ◌++◌, ◌∷◌, ◌≡◌, contains,
}
use marblerun.Base.Exec.{Exec, proceed}

abbrev found_in : Option Bytes → Exec (Map Bytes) Bytes
found_in none w = (err not_exist, w)
found_in (some b) w = (ok b, w)

abbrev map_fs : FileSystem (Map Bytes)
map_fs = record {
  read_file = λ path w. found_in (get w path) w;
  write_file = λ path b perm w. (ok tt, put w path b);
  mkdir_all = λ path perm w. (ok tt, w);
}

found_in-held :
    (held : Option Bytes) (w : Map Bytes) (path : Str)
    → get w path ≡ held
    → Post (λ b w'. get w' path ≡ some b) (found_in held w)
found_in-held none w path e = tt
found_in-held (some b) w path e = e

abbrev map_files : FsLaws map_fs
map_files = record {
  content = get;
  clean = λ path. path;
  read-found = λ path w b e. rw e refl;
  read-content = λ path w. found_in-held (get w path) w path refl;
  write-content = λ path b perm w q. get-put w path q b;
  mkdir-content = λ path perm w q. refl;
}

abbrev marble_services : MarbleServices concrete_services
marble_services = record {
  marshal_uuid = λ u. ok u;
  unmarshal_uuid = λ raw. ok raw;
  dir = λ path. path;
  join = λ a b. a ++ b;
  getwd = ok (codes "/");
  text_of = λ b. b;
  create_request = λ names addrs key x. (ok (6 ∷ []), x);
}

abbrev started_marble : {Peer : Type 0} → Peer → Process concrete_services (Map Bytes) Peer
started_marble c = record {
  environ = (codes "EDG_MARBLE_TYPE", codes "frontend") ∷ [];
  args = codes "./app" ∷ [];
  process_entropy = 0;
  files = [];
  peer = c;
}

abbrev with_uuid : Process concrete_services (Map Bytes) (Unit {0})
with_uuid = record (started_marble tt) { process_entropy = 1; files = (codes "uuid", 1 ∷ []) ∷ [] }

abbrev restarted : Process concrete_services (Map Bytes) (Unit {0})
restarted = record (started_marble tt) {
  process_entropy = 5;
  files = (codes "log", 4 ∷ []) ∷ (codes "uuid", 1 ∷ []) ∷ [];
}

first_uuid :
    get_uuid concrete_services marble_services map_fs (codes "uuid") (started_marble tt)
    ≡ (ok (1 ∷ []), with_uuid)
unfolding get_uuid found_or_new read_uuid parsed_uuid store_uuid get put str_eq proceed
first_uuid = refl

reads_uuids : ReadsUuids marble_services
reads_uuids u raw e = cc

file_kept : get restarted.files (codes "uuid") ≡ get with_uuid.files (codes "uuid")
unfolding get str_eq
file_kept = refl

get_uuid_again_example :
    get_uuid concrete_services marble_services map_fs (codes "uuid") restarted
    ≡ (ok (1 ∷ []), record restarted { process_entropy = 6 })
get_uuid_again_example =
    get_uuid_again marble_services map_fs map_files (codes "uuid") (started_marble tt) with_uuid
      restarted (1 ∷ []) (1 ∷ []) 6 reads_uuids first_uuid file_kept refl

abbrev answer : RpcParameters
answer = record {
  rpc_argv = codes "app" ∷ codes "-v" ∷ [];
  rpc_files = (codes "config", 8 ∷ []) ∷ (codes "key", 9 ∷ []) ∷ [];
  rpc_env = (codes "NAME", codes "x") ∷ [];
}

abbrev answered_by :
    ActivationReq → Str → Credentials concrete_services → Exec (Unit {0}) (Option RpcParameters)
answered_by req addr tls c = (ok (some answer), c)

abbrev running : Process concrete_services (Map Bytes) (Unit {0})
running = record (started_marble tt) {
  environ = (codes "EDG_MARBLE_TYPE", codes "frontend") ∷ (codes "NAME", codes "x") ∷ [];
  args = codes "app" ∷ codes "-v" ∷ [];
  process_entropy = 6;
  files = (codes "/uuid", 1 ∷ []) ∷ (codes "config", 8 ∷ []) ∷ (codes "key", 9 ∷ []) ∷ [];
}

answer-HasMaps : HasMaps marble_services map_fs map_files (some answer)
unfolding AreDistinct clean_paths
answer-HasMaps = ((((λ e. cc), tt), (tt, tt)), (tt, tt))

runs :
    pre_main_ex concrete_services marble_services concrete_services.issue_quote answered_by map_fs
      map_fs
      (started_marble tt)
    ≡ (ok tt, running)
unfolding pre_main_ex must_getenv must_getwd getenv generate_certificate generate_marble_cert
    load_grpc_tls_credentials get_uuid found_or_new read_uuid parsed_uuid store_uuid generate_csr
    apply_parameters create_files set_variables setenv contains get put str_eq proceed
runs = refl

pre_main_ex-Started_example :
    Started marble_services map_fs map_files answered_by (started_marble tt) running
pre_main_ex-Started_example =
    pre_main_ex-Started marble_services map_fs map_files answered_by concrete_services.issue_quote
      map_fs (started_marble tt) running (λ req addr tls c. answer-HasMaps) runs

pre_main_ex-AdmitsOrEnds_example :
    AdmitsOrEnds marble_services (codes "frontend") (stored accepting) (
      pre_main_ex concrete_services marble_services concrete_services.issue_quote call_coordinator
        map_fs map_fs
        (started_marble accepting))
unfolding get str_eq
pre_main_ex-AdmitsOrEnds_example =
    pre_main_ex-AdmitsOrEnds marble_services concrete_services.issue_quote map_fs map_fs
      (started_marble accepting) refl
