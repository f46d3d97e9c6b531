-- ===== src/Core/Putters.antt =====
-- coordinator/core/storewrapper.go: writing through a transaction.
use marblerun.Base.{Bytes, Str, bytes_of, ok, ℕ, ◌%◌, ◌++◌, ◌+◌, ◌^◌}
use marblerun.Core.Getters.{
  get_activations, get_update_log, request, request_activations, request_cert,
  request_infrastructure, request_manifest, request_marble, request_package, request_priv_key,
  request_secret, request_state, request_tls, request_update_log, request_user, unset_as_zero,
}
use marblerun.Manifest.{Certificate, Marble, Secret, TlsTag}
use marblerun.Quote.{InfrastructureProperties, PackageProperties}
use marblerun.Store.{Transaction, tx_put}
use marblerun.Strconv.{format_hex, itoa, ℤ}
use marblerun.User.{User}
use marblerun.Base.Exec.{Exec, ◌>>=◌, lift}
use marblerun.Services.{Services, Codec}

-- store.Put of a transaction
abbrev pub put_raw : Str → Bytes → Exec Transaction (Unit {0})
put_raw key value t = (ok tt, tx_put key value t)

-- putActivations
unfoldable pub put_activations : Str → ℕ → Exec Transaction (Unit {0})
put_activations marble_type activations =
    put_raw (request request_activations marble_type) (format_hex activations)

-- incrementActivations; `uint` has 64 bits
unfoldable pub increment_activations : Str → Exec Transaction (Unit {0})
unfolding unset_as_zero
increment_activations marble_type = do
  activations ← (λ t. (unset_as_zero (get_activations t.tx_data marble_type), t))
  put_activations marble_type ((activations + 1) % 2 ^ 64)

-- putState
unfoldable pub put_state : ℤ → Exec Transaction (Unit {0})
put_state s = put_raw request_state (itoa s)

-- putRawManifest
unfoldable pub put_raw_manifest : Bytes → Exec Transaction (Unit {0})
put_raw_manifest manifest = put_raw request_manifest manifest

-- putUpdateLog
unfoldable pub put_update_log : Str → Exec Transaction (Unit {0})
put_update_log log = put_raw request_update_log log

-- appendUpdateLog
unfoldable pub append_update_log : Str → Exec Transaction (Unit {0})
append_update_log log = do old ← (λ t. (get_update_log t.tx_data, t)); put_update_log (old ++ log)

-- _put
unfoldable pub put_value : {A : Type 0} → Codec A → Str → Str → A → Exec Transaction (Unit {0})
put_value json kind name target = do
  raw ← lift (json.encode target)
  put_raw (request kind name) raw

module _ (ext : Services) where
  -- putCertificate
  unfoldable pub put_certificate : Str → Certificate → Exec Transaction (Unit {0})
  put_certificate cert_type cert = put_raw (request request_cert cert_type) (bytes_of cert.raw)

  -- putPrivK
  unfoldable pub put_priv_k : Str → ext.Key → Exec Transaction (Unit {0})
  put_priv_k key_type key = do
    raw ← lift (ext.marshal_ec_private_key key)
    put_raw (request request_priv_key key_type) raw

  -- putInfrastructure
  abbrev pub put_infrastructure : Str → InfrastructureProperties → Exec Transaction (Unit {0})
  put_infrastructure = put_value ext.infrastructure_json request_infrastructure

  -- putMarble
  abbrev pub put_marble : Str → Marble → Exec Transaction (Unit {0})
  put_marble = put_value ext.marble_json request_marble

  -- putPackage
  abbrev pub put_package : Str → PackageProperties → Exec Transaction (Unit {0})
  put_package = put_value ext.package_json request_package

  -- putSecret
  abbrev pub put_secret : Str → Secret → Exec Transaction (Unit {0})
  put_secret = put_value ext.secret_json request_secret

  -- putTLS
  abbrev pub put_tls : Str → TlsTag → Exec Transaction (Unit {0})
  put_tls = put_value ext.tls_json request_tls

  -- putUser
  abbrev pub put_user : User Certificate → Exec Transaction (Unit {0})
  put_user user = put_value ext.user_json request_user user.name user
