-- ===== src/Core/Getters.antt =====
-- coordinator/core/storewrapper.go: the keys of the store, and reading through the store or through a
-- transaction, which is the same function of their data.
use marblerun.Base.{
  Bytes, List, Map, Result, Str, [], codes, deadlock, err, if◌then◌else◌, ok, panic, put,
  trim_prefix, ℕ, ◌++◌, ◌∷◌,
}
use marblerun.Manifest.{Certificate, Manifest, Marble, Secret, TlsTag}
use marblerun.Quote.{InfrastructureProperties, PackageProperties}
use marblerun.Store.{is_unset, read}
use marblerun.Store.Iterator.{with_prefix}
use marblerun.Strconv.{atoi, parse_hex, ℤ}
use marblerun.User.{User}
use marblerun.Base.Pure.{◌>>=◌}
use marblerun.Services.{Services, Codec}

-- strings.Join([]string{kind, name}, ":")
abbrev pub request : Str → Str → Str
request kind name = kind ++ b':' ∷ name

abbrev pub request_activations : Str
request_activations = codes "activations"

abbrev pub request_cert : Str
request_cert = codes "certificate"

abbrev pub request_infrastructure : Str
request_infrastructure = codes "infrastructure"

abbrev pub request_manifest : Str
request_manifest = codes "manifest"

abbrev pub request_marble : Str
request_marble = codes "marble"

abbrev pub request_package : Str
request_package = codes "package"

abbrev pub request_priv_key : Str
request_priv_key = codes "privateKey"

abbrev pub request_secret : Str
request_secret = codes "secret"

abbrev pub request_state : Str
request_state = codes "state"

abbrev pub request_tls : Str
request_tls = codes "TLS"

abbrev pub request_user : Str
request_user = codes "user"

abbrev pub request_update_log : Str
request_update_log = codes "updateLog"

-- the names that a wrapped iterator gives one after the other
unfoldable pub iterator_names : Str → List Str → List Str
iterator_names kind [] = []
iterator_names kind (k ∷ ks) = trim_prefix (kind ++ b':' ∷ []) k ∷ iterator_names kind ks

-- getIterator with GetNext and HasNext of the wrapped iterator: the names that are still to come
unfoldable pub get_iterator : Map Bytes → Str → List Str
unfolding iterator_names with_prefix
get_iterator m kind = iterator_names kind (with_prefix kind m)

-- the value of an optional number: an unset key counts as 0
unfoldable pub unset_as_zero : Result ℕ → Result ℕ
unset_as_zero (ok n) = ok n
unset_as_zero (err e) = if is_unset e then ok 0 else err e
unset_as_zero (panic m) = panic m
unset_as_zero deadlock = deadlock

-- getActivations
unfoldable pub get_activations : Map Bytes → Str → Result ℕ
get_activations m marble_type = do
  raw ← read m (request request_activations marble_type)
  parse_hex raw

-- getState; a state is Go's int
unfoldable pub get_state : Map Bytes → Result ℤ
get_state m = do raw ← read m request_state; atoi raw

-- getRawManifest
unfoldable pub get_raw_manifest : Map Bytes → Result Bytes
get_raw_manifest m = read m request_manifest

-- getUpdateLog
unfoldable pub get_update_log : Map Bytes → Result Str
get_update_log m = read m request_update_log

-- _get
unfoldable pub get_value : {A : Type 0} → Codec A → Str → Map Bytes → Str → Result A
get_value json kind m name = do raw ← read m (request kind name); json.decode raw

module _ (ext : Services) where
  -- getCertificate
  unfoldable pub get_certificate : Map Bytes → Str → Result Certificate
  get_certificate m cert_type = do
    raw ← read m (request request_cert cert_type)
    ext.parse_certificate raw

  -- getPrivK
  unfoldable pub get_priv_k : Map Bytes → Str → Result ext.Key
  get_priv_k m key_type = do
    raw ← read m (request request_priv_key key_type)
    ext.parse_ec_private_key raw

  -- getInfrastructure
  abbrev pub get_infrastructure : Map Bytes → Str → Result InfrastructureProperties
  get_infrastructure = get_value ext.infrastructure_json request_infrastructure

  -- getMarble
  abbrev pub get_marble : Map Bytes → Str → Result Marble
  get_marble = get_value ext.marble_json request_marble

  -- getPackage
  abbrev pub get_package : Map Bytes → Str → Result PackageProperties
  get_package = get_value ext.package_json request_package

  -- getSecret
  abbrev pub get_secret : Map Bytes → Str → Result Secret
  get_secret = get_value ext.secret_json request_secret

  -- getTLS
  abbrev pub get_tls : Map Bytes → Str → Result TlsTag
  get_tls = get_value ext.tls_json request_tls

  -- getUser
  abbrev pub get_user : Map Bytes → Str → Result (User Certificate)
  get_user = get_value ext.user_json request_user

  -- getManifest
  unfoldable pub get_manifest : Map Bytes → Result Manifest
  get_manifest m = do raw ← get_raw_manifest m; ext.manifest_json.decode raw

  -- the loop of getSecretMap over the iterator
  unfoldable pub read_secrets : Map Bytes → List Str → Map Secret → Result (Map Secret)
  read_secrets m [] secrets = ok secrets
  read_secrets m (name ∷ names) secrets = do
    secret ← get_secret m name
    read_secrets m names (put secrets name secret)

  -- getSecretMap
  unfoldable pub get_secret_map : Map Bytes → Result (Map Secret)
  unfolding read_secrets
  get_secret_map m = read_secrets m (get_iterator m request_secret) []
