-- ===== src/Manifest.antt =====
-- coordinator/manifest/manifest.go: the data of a manifest.
pub mod Loops
pub mod Check
pub mod Update
pub mod Secrets
pub mod Encode
mod Tests
use marblerun.Base.{Bool, Bytes, List, Map, Option, Slice, Str, ℕ}
use marblerun.Quote.{InfrastructureProperties, PackageProperties}

-- What the source uses of x509.Certificate; a zero NotAfter is `none`. The subject is its common
-- name, its organization and its other attributes.
pub record Certificate : Type 0 where
  pub raw : Slice
  pub public_key : Bytes
  pub dns_names : Option (List Str)
  pub ip_addresses : Option (List Bytes)
  pub key_usage : ℕ
  pub ext_key_usage : Option (List ℕ)
  pub common_name : Str
  pub organization : List Str
  pub other_names : List Str
  pub issuer_organization : List Str
  pub not_after : Option ℕ
  pub is_ca : Bool

pub record Secret : Type 0 where
  pub type_name : Str
  pub size : ℕ
  pub shared : Bool
  pub user_defined : Bool
  pub cert : Certificate
  pub valid_for : ℕ
  pub private_key : Slice
  pub public_key : Slice

pub record File : Type 0 where
  pub file_data : Str
  pub encoding : Str
  pub no_templates : Bool

pub record Parameters : Type 0 where
  pub files : Map File
  pub env : Option (Map File)
  pub argv : List Str

pub record Marble : Type 0 where
  pub package_name : Str
  pub max_activations : ℕ
  pub parameters : Parameters
  pub tls : List Str

pub record TlsTagEntry : Type 0 where
  pub port : Str
  pub addr : Str
  pub cert_name : Str
  pub disable_client_auth : Bool

pub record TlsTag : Type 0 where
  pub outgoing : List TlsTagEntry
  pub incoming : List TlsTagEntry

-- manifest.User
pub record ManifestUser : Type 0 where
  pub certificate : Str
  pub roles : List Str

pub record Role : Type 0 where
  pub resource_type : Str
  pub resource_names : List Str
  pub actions : List Str

pub record Manifest : Type 0 where
  pub packages : Map PackageProperties
  pub infrastructures : Map InfrastructureProperties
  pub marbles : Map Marble
  pub users : Map ManifestUser
  pub secrets : Map Secret
  pub recovery_keys : Map Str
  pub roles : Map Role
  pub tls : Map TlsTag

pub record UserSecret : Type 0 where
  pub cert : Certificate
  pub private_key : Slice
  pub key : Slice
