-- ===== src/Premain.antt =====
-- marble/premain/premain.go and the names of marble/config/config.go: what runs before the main
-- function of a marble.
pub mod Restart
pub mod Applied
pub mod Ends
pub mod Started
pub mod Admitted
mod Tests
use marblerun.Util.Tls.{Credentials, generate_csr, generate_marble_cert, load_grpc_tls_credentials}
use marblerun.Core.Activation.{ActivationReq}
use marblerun.Core.Activation.Parameters.{RpcParameters}
use marblerun.Core.Certs.{default_ip_addresses}
use marblerun.Manifest.{Certificate}
use marblerun.Util.{getenv, must_getenv, must_getwd}
use marblerun.Services.{Services}
use marblerun.Base.{
  Bytes, List, Map, Option, Result, Str, [], codes, contains, deadlock, err, errorf, foreign,
  if◌then◌else◌, is_empty, none, not_exist, ok, or_error, panic, put, some, ℕ, ◌==◌, ◌||◌, ◌∷◌,
  bytes_of, false, true,
}
use marblerun.Base.Exec.{Exec, ◌>>=◌, ◌>>◌, pure, lift, proceed}

abbrev pub coordinator_addr : Str
coordinator_addr = codes "EDG_MARBLE_COORDINATOR_ADDR"

abbrev pub coordinator_addr_default : Str
coordinator_addr_default = codes "localhost:2001"

abbrev pub type_variable : Str
type_variable = codes "EDG_MARBLE_TYPE"

abbrev pub dns_names_variable : Str
dns_names_variable = codes "EDG_MARBLE_DNS_NAMES"

abbrev pub dns_names_default : Str
dns_names_default = codes "localhost"

abbrev pub uuid_file : Str
uuid_file = codes "EDG_MARBLE_UUID_FILE"

-- strings.Split(s, sep) for one character
unfoldable pub split : ℕ → Str → List Str
split sep [] = [] ∷ []
split sep (c ∷ s) = let parts = split sep s in if c == sep then [] ∷ parts else extended c parts
  where
    extended : ℕ → List Str → List Str
    extended c [] = (c ∷ []) ∷ []
    extended c (p ∷ ps) = (c ∷ p) ∷ ps

-- os.Setenv: names that are empty or hold '=' or a zero byte, and values with a zero byte, are
-- refused
unfoldable pub setenv : Str → Str → Map Str → Result (Unit {0}) × Map Str
setenv key value env =
    if is_empty key || (contains b'=' key || contains 0 key) || contains 0 value
    then (err (foreign "invalid argument"), env)
    else (ok tt, put env key value)

-- afero.Fs: what the premain calls of it, as actions on the files
pub record FileSystem (Files : Type 0) : Type 0 where
  pub read_file : Str → Exec Files Bytes
  pub write_file : Str → Bytes → ℕ → Exec Files (Unit {0})
  pub mkdir_all : Str → ℕ → Exec Files (Unit {0})

-- What the premain calls outside the source beside the services of the coordinator: google/uuid,
-- path/filepath, os and x509.CreateCertificateRequest.
pub record MarbleServices (ext : Services) : Type 0 where
  pub marshal_uuid : Bytes → Result Bytes
  pub unmarshal_uuid : Bytes → Result Bytes
  pub dir : Str → Str
  pub join : Str → Str → Str
  pub getwd : Result Str
  pub text_of : Bytes → Str
  pub create_request : List Str → List Bytes → ext.Key → Exec ext.Entropy Bytes

-- The process of the marble, the files that its file systems share, and the other end of its
-- connection.
pub record Process (ext : Services) (Files Peer : Type 0) : Type 0 where
  pub environ : Map Str
  pub args : List Str
  pub process_entropy : ext.Entropy
  pub files : Files
  pub peer : Peer

-- the quote of PreMainEx: an error of the issuer means simulation mode, with an empty quote
abbrev pub quote_or_empty : Result Bytes → Result Bytes
quote_or_empty (err e) = ok []
quote_or_empty r = r

abbrev pub args_or_default : List Str → List Str
args_or_default [] = codes "./marble" ∷ []
args_or_default (a ∷ argv) = a ∷ argv

-- the outcome of UnmarshalText in readUUID
abbrev pub uuid_of : Result Bytes → Result (Option Bytes)
uuid_of (ok marble_uuid) = ok (some marble_uuid)
uuid_of (err e) = err (errorf "failed to unmarshal UUID: %v" [])
uuid_of (panic m) = panic m
uuid_of deadlock = deadlock

module _ (ext : Services) where
  -- ActivateRPC over grpc.Dial and the call of the client
  unfoldable pub activate_rpc :
      {Peer Connection : Type 0}
      → (Str → Credentials ext → Exec Peer Connection)
      → (Connection → ActivationReq → Exec Peer (Option RpcParameters))
      → ActivationReq
      → Str
      → Credentials ext
      → Exec Peer (Option RpcParameters)
  activate_rpc dial call req coord_addr tls_credentials = do
    connection ← dial coord_addr tls_credentials
    call connection req

module _ (ext : Services) (os : MarbleServices ext) where
  module _ {Files : Type 0} where
    -- storeUUID
    unfoldable pub store_uuid : FileSystem Files → Bytes → Str → Exec Files (Unit {0})
    store_uuid fs marble_uuid filename = do
      uuid_bytes ←
          lift (or_error (os.marshal_uuid marble_uuid) (errorf "failed to marshal UUID: %v" []))
      λ w.
          let (r, w') = fs.write_file filename uuid_bytes 0o600 w in
          (or_error r (errorf "failed to store uuid to file: %v" []), w')

    -- the loops of applyParameters
    unfoldable pub create_files : FileSystem Files → Map Bytes → Exec Files (Unit {0})
    create_files fs [] = pure tt
    create_files fs ((path, content) ∷ rest) = do
      fs.mkdir_all (os.dir path) 0o700
      fs.write_file path content 0o600
      create_files fs rest

  unfoldable pub set_variables : Map Bytes → Map Str → Result (Unit {0}) × Map Str
  set_variables [] env = (ok tt, env)
  set_variables ((key, value) ∷ rest) env =
      proceed (setenv key (os.text_of value) env) λ u. set_variables rest

  -- FailIssuer.Issue
  abbrev pub fail_issue : Bytes → Exec ext.Entropy Bytes
  fail_issue message e = (err (foreign "OE_UNSUPPORTED"), e)

  module _ {Files Peer : Type 0} where
    -- an action on the files, on the random source, and on the other end of the connection
    abbrev pub on_files : {A : Type 0} → Exec Files A → Exec (Process ext Files Peer) A
    on_files f p = let (r, w) = f p.files in (r, record p { files = w })

    abbrev pub on_random : {A : Type 0} → Exec ext.Entropy A → Exec (Process ext Files Peer) A
    on_random f p = let (r, e) = f p.process_entropy in (r, record p { process_entropy = e })

    abbrev pub on_peer : {A : Type 0} → Exec Peer A → Exec (Process ext Files Peer) A
    on_peer f p = let (r, c) = f p.peer in (r, record p { peer = c })

    abbrev pub on_environ :
        {A : Type 0} → (Map Str → Result A × Map Str) → Exec (Process ext Files Peer) A
    on_environ f p = let (r, env) = f p.environ in (r, record p { environ = env })

    -- what readUUID makes of the outcome of ReadFile; the new UUID is overwritten by the stored one
    parsed_uuid : Result Bytes → Exec (Process ext Files Peer) (Option Bytes)
    parsed_uuid (ok uuid_bytes) = do
      overwritten ← on_random ext.new_uuid
      lift (uuid_of (os.unmarshal_uuid uuid_bytes))
    parsed_uuid (err not_exist) = pure none
    parsed_uuid (err e) = lift (err e)
    parsed_uuid (panic m) = lift (panic m)
    parsed_uuid deadlock = lift deadlock

    -- readUUID
    unfoldable pub read_uuid : FileSystem Files → Str → Exec (Process ext Files Peer) (Option Bytes)
    unfolding parsed_uuid
    read_uuid fs filename p =
        let (r, w) = fs.read_file filename p.files in parsed_uuid r (record p { files = w })

    -- the UUID that getUUID goes on with: a stored one, or a new one that is stored
    found_or_new : FileSystem Files → Str → Option Bytes → Exec (Process ext Files Peer) Bytes
    found_or_new fs filename (some marble_uuid) = pure marble_uuid
    found_or_new fs filename none = do
      marble_uuid ← on_random ext.new_uuid
      on_files (store_uuid fs marble_uuid filename)
      pure marble_uuid

    -- getUUID
    unfoldable pub get_uuid : FileSystem Files → Str → Exec (Process ext Files Peer) Bytes
    unfolding found_or_new
    get_uuid fs filename = do
      existing_uuid ← read_uuid fs filename
      found_or_new fs filename existing_uuid

    -- generateCertificate
    unfoldable pub generate_certificate : Exec (Process ext Files Peer) (Certificate × ext.Key)
    generate_certificate p =
        on_random
          (generate_marble_cert ext
            (split b',' (getenv p.environ dns_names_variable dns_names_default))
            default_ip_addresses false)
          p

    -- applyParameters
    unfoldable pub apply_parameters :
        Option RpcParameters → FileSystem Files → Exec (Process ext Files Peer) (Unit {0})
    apply_parameters none fs = lift (panic "nil pointer")
    apply_parameters (some params) fs = do
      on_files (create_files fs params.rpc_files)
      on_environ (set_variables params.rpc_env)
      λ p. (ok tt, record p { args = args_or_default params.rpc_argv })

    -- PreMainEx. An issuer is a function, and the default issuer stands for nil; the default of the
    -- UUID file is computed in any case.
    unfoldable pub pre_main_ex :
        (Bytes → Exec ext.Entropy Bytes)
        → (ActivationReq → Str → Credentials ext → Exec Peer (Option RpcParameters))
        → FileSystem Files
        → FileSystem Files
        → Exec (Process ext Files Peer) (Unit {0})
    pre_main_ex issue activate_func hostfs enclavefs p =
        let env = p.environ in
        (do
          let coord_addr = getenv env coordinator_addr coordinator_addr_default
          marble_type ← lift (must_getenv env type_variable)
          let marble_dns_names = split b',' (getenv env dns_names_variable dns_names_default)
          cwd ← lift (must_getwd env os.getwd)
          let uuid_path = getenv env uuid_file (os.join cwd (codes "uuid"))
          cert ← generate_certificate
          tls_credentials ← lift (load_grpc_tls_credentials ext cert.0 cert.1 true)
          marble_uuid ← get_uuid hostfs uuid_path
          csr ← on_random (generate_csr ext os.create_request marble_dns_names cert.1)
          quote ← (λ p.
              let (r, p') = on_random (issue (bytes_of cert.0.raw)) p in (quote_or_empty r, p'))
          params ← on_peer (
              activate_func
                (record {
                  csr = csr.0;
                  marble_type = marble_type;
                  req_quote = quote;
                  uuid = ext.uuid_string marble_uuid;
                })
                coord_addr tls_credentials)
          apply_parameters params enclavefs)
          p

    -- PreMain, after the memory file system is mounted, and PreMainEgo
    unfoldable pub pre_main :
        Exec (Process ext Files Peer) (Unit {0})
        → (Bytes → Exec ext.Entropy Bytes)
        → (ActivationReq → Str → Credentials ext → Exec Peer (Option RpcParameters))
        → (Str → FileSystem Files)
        → FileSystem Files
        → Exec (Process ext Files Peer) (Unit {0})
    pre_main mount issue activate_func base_path_fs os_fs = do
      mount
      pre_main_ex issue activate_func (base_path_fs (os.join (codes "/edg") (codes "hostfs"))) os_fs

    unfoldable pub pre_main_ego :
        (Bytes → Exec ext.Entropy Bytes)
        → (ActivationReq → Str → Credentials ext → Exec Peer (Option RpcParameters))
        → (Str → FileSystem Files)
        → FileSystem Files
        → Exec (Process ext Files Peer) (Unit {0})
    pre_main_ego issue activate_func base_path_fs os_fs =
        pre_main_ex issue activate_func (base_path_fs (os.join (codes "/edg") (codes "hostfs")))
          os_fs

    -- PreMainMock: the issuer fails, and both file systems are one
    unfoldable pub pre_main_mock :
        (ActivationReq → Str → Credentials ext → Exec Peer (Option RpcParameters))
        → FileSystem Files
        → Exec (Process ext Files Peer) (Unit {0})
    pre_main_mock activate_func os_fs = pre_main_ex fail_issue activate_func os_fs os_fs
