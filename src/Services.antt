-- ===== src/Services.antt =====
-- What the coordinator's core calls outside its own code: encoding/json, crypto and crypto/x509,
-- text/template, the clock and the random source, and the quote validator and issuer of NewCore.
use marblerun.Base.{Bool, Bytes, List, Map, Option, Result, Str, String, ℕ}
use marblerun.Quote.{InfrastructureProperties, PackageProperties}
use marblerun.User.{User}
use marblerun.Store.{DataCodec}
use marblerun.Manifest.{Certificate, Manifest, Marble, Secret, TlsTag, UserSecret}
use marblerun.Base.Exec.{Exec}

-- json.Marshal and json.Unmarshal at one type
pub record Codec (A : Type 0) : Type 0 where
  pub encode : A → Result Bytes
  pub decode : Bytes → Result A

-- the fields of x509.Certificate that only a certificate being created has
pub record Template : Type 0 where
  pub cert : Certificate
  pub serial_number : ℕ
  pub not_before : ℕ
  pub basic_constraints_valid : Bool

-- the two function maps for templates, of files and of environment variables
pub data FuncMap : Type 0 where
  file_funcs env_funcs : FuncMap

pub record ReservedSecrets : Type 0 where
  pub root_ca : Secret
  pub marble_cert : Secret

pub record SecretsWrapper : Type 0 where
  pub marble_run : ReservedSecrets
  pub secrets : Map Secret

-- what generateCertFromCSR reads of a certificate request
pub record CertRequest : Type 0 where
  pub csr_other_names : List Str
  pub csr_dns_names : Option (List Str)
  pub csr_ip_addresses : Option (List Bytes)

-- the configuration of a connection and of a marble in setTTLSConfig; an outgoing connection has no
-- clientAuth
pub record ConnConf : Type 0 where
  pub cacrt : Str
  pub clicrt : Str
  pub clikey : Str
  pub client_auth : Option Bool

pub record TtlsConf : Type 0 where
  pub outgoing_confs : Map ConnConf
  pub incoming_confs : Map ConnConf

-- The names of environment variables are those of the package marble of EGo.
-- `Key` is a private key of any kind, with its public key in the form that x509 writes; `Entropy` is
-- all that the clock and the random source will give. Times are nanoseconds.
pub record Services : Type 1 where
  pub Key : Type 0
  pub Entropy : Type 0
  pub marble_json : Codec Marble
  pub package_json : Codec PackageProperties
  pub infrastructure_json : Codec InfrastructureProperties
  pub secret_json : Codec Secret
  pub tls_json : Codec TlsTag
  pub user_json : Codec (User Certificate)
  pub manifest_json : Codec Manifest
  pub user_secrets_json : Codec (Map UserSecret)
  pub data_json : DataCodec
  pub ttls_json : TtlsConf → Result Str
  pub parse_certificate : Bytes → Result Certificate
  pub parse_ec_private_key : Bytes → Result Key
  pub marshal_ec_private_key : Key → Result Bytes
  pub marshal_pkcs8_private_key : Key → Result Bytes
  pub marshal_pkix_public_key : Bytes → Result Bytes
  pub public_key_of : Key → Bytes
  pub key_bytes : Key → Bytes
  pub hkdf : Bytes → Bytes → ℕ → Result Bytes
  pub generate_rsa : ℕ → Exec Entropy Key
  pub generate_ed25519 : Exec Entropy Key
  pub generate_ecdsa : ℕ → Exec Entropy Key
  pub random_bytes : ℕ → Exec Entropy Bytes
  pub random_int : ℕ → Exec Entropy ℕ
  pub new_uuid : Exec Entropy Bytes
  pub now : Exec Entropy ℕ
  pub add_days : ℕ → ℕ → ℕ
  pub create_certificate : Template → Certificate → Bytes → Option Key → Exec Entropy Bytes
  pub parse_request : Bytes → Result CertRequest
  pub request_is_signed : Bytes → Bool
  pub parse_uuid : Str → Result Bytes
  pub uuid_string : Bytes → Str
  pub pem_encode : String → Bytes → Str
  pub pem_decode : Str → Option Bytes
  pub env_root_ca : Str
  pub env_certificate_chain : Str
  pub env_private_key : Str
  pub sha256 : Bytes → Bytes
  pub execute_template : Str → FuncMap → SecretsWrapper → Result Str
  pub log_line : String → List Str → Exec Entropy Str
  pub verify_quote :
      Bytes → Bytes → PackageProperties → InfrastructureProperties → Result (Unit {0})
  pub issue_quote : Bytes → Exec Entropy Bytes
