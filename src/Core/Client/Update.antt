-- ===== src/Core/Client/Update.antt =====
-- UpdateManifest of coordinator/core/clientapi.go.
use marblerun.Base.{
  Bytes, Map, Option, Result, Slice, Str, [], codes, deadlock, err, errorf, get, if◌then◌else◌,
  keys, none, not, ok, panic, put, some, str_eq, ℕ, ◌&&◌, ◌∷◌,
}
use marblerun.Core.Certs.{
  coordinator_intermediate_name, generate_cert, sk_intermediate_cert, sk_intermediate_key,
  sk_marble_root_cert, sk_root_cert, sk_root_key,
}
use marblerun.Core.Client.Upload.{log_info, reset_log}
use marblerun.Core.Getters.{get_certificate, get_package, get_priv_k, get_secret_map}
use marblerun.Core.Putters.{append_update_log, put_certificate, put_package, put_priv_k, put_secret}
use marblerun.Core.Secrets.{generate_secrets, nil_uuid}
use marblerun.Core.States.{require_state, state_accepting_marbles}
use marblerun.Core.Transactions.{commit_tx, in_transaction, on_core, on_tx}
use marblerun.Manifest.{Certificate, Secret}
use marblerun.Manifest.Update.{check_update}
use marblerun.Quote.{PackageProperties}
use marblerun.User.{User, is_granted, new_permission, update_package}
use marblerun.Base.Exec.{Exec, ◌>>=◌, ◌>>◌, pure, lift, reject_if}
use marblerun.Strconv.{pos, itoa}
use marblerun.Services.{Services}
use marblerun.Recovery.{Recovery}
use marblerun.Store.{Sealer, Transaction, set_recovery_data}
use marblerun.Core.{Core, on_disk, on_entropy, on_recovery, stored}

-- `*currentPackages[name].SecurityVersion = *pkg.SecurityVersion`
unfoldable pub set_version : PackageProperties → Option ℕ → Result PackageProperties
set_version current none = panic "nil pointer dereference"
set_version current (some v) = elim current.security_version [
  | none ↦ panic "nil pointer dereference"
  | some old ↦ ok (record current { security_version = some v })
]

-- the loop that increases the security versions
unfoldable pub raise_versions :
    Map PackageProperties → Map PackageProperties → Result (Map PackageProperties)
unfolding set_version
raise_versions [] current = ok current
raise_versions ((name, p) ∷ packages) current = elim (get current name) [
  | none ↦ panic "nil pointer dereference"
  | some q ↦ elim (set_version q p.security_version) [
    | ok r ↦ raise_versions packages (put current name r)
    | err e ↦ err e
    | panic x ↦ panic x
    | deadlock ↦ deadlock
  ]
]

-- the shared secrets that an update generates again
unfoldable pub to_regenerate : Map Secret → Map Secret
to_regenerate [] = []
to_regenerate ((name, secret) ∷ secrets) =
    let rest = to_regenerate secrets in
    if secret.shared && not (str_eq secret.type_name (codes "symmetric-key"))
    then (name, secret) ∷ rest
    else rest

-- the text of an optional number
abbrev pub version_text : Option ℕ → Str
version_text none = []
version_text (some v) = itoa (pos v)

module _ (ext : Services) where
  -- the loop that reads the current packages
  unfoldable pub read_packages :
      Map Bytes → Map PackageProperties → Map PackageProperties → Result (Map PackageProperties)
  read_packages m [] current = ok current
  read_packages m ((name, p) ∷ packages) current = elim (get_package ext m name) [
    | ok q ↦ read_packages m packages (put current name q)
    | err e ↦ err e
    | panic x ↦ panic x
    | deadlock ↦ deadlock
  ]

  -- the loops that write packages and secrets
  unfoldable pub put_packages : Map PackageProperties → Exec Transaction (Unit {0})
  put_packages [] = pure tt
  put_packages ((name, p) ∷ packages) = do put_package ext name p; put_packages packages

  unfoldable pub put_secrets : Map Secret → Exec Transaction (Unit {0})
  put_secrets [] = pure tt
  put_secrets ((name, secret) ∷ secrets) = do put_secret ext name secret; put_secrets secrets

module _ {sl : Sealer} {rc : Recovery} {ext : Services} where
  -- the loop that logs the new versions
  unfoldable pub log_versions : Str → Map PackageProperties → Exec (Core sl rc ext) (Unit {0})
  log_versions updater [] = pure tt
  log_versions updater ((name, p) ∷ packages) = do
    log_info "SecurityVersion increased" (updater ∷ name ∷ version_text p.security_version ∷ [])
    log_versions updater packages

  -- what UpdateManifest does in its transaction before the commit
  unfoldable pub edit_update :
      Certificate × ext.Key
      → Certificate
      → Map PackageProperties
      → Map Secret
      → Slice
      → Exec (Core sl rc ext × Transaction) (Unit {0})
  edit_update intermediate marble_root packages secrets recovery_data = do
    on_tx (put_certificate ext sk_intermediate_cert intermediate.0)
    on_tx (put_certificate ext sk_marble_root_cert marble_root)
    on_tx (put_priv_k ext sk_intermediate_key intermediate.1)
    log ← (λ s. (ok s.0.update_log, s))
    on_tx (append_update_log log)
    on_tx (put_packages ext packages)
    on_tx (put_secrets ext secrets)
    on_core (on_disk (λ d. (ok tt, record d { store = set_recovery_data recovery_data d.store })))

  -- UpdateManifest
  unfoldable pub update_manifest : Bytes → User Certificate → Exec (Core sl rc ext) (Unit {0})
  unfolding edit_update
  update_manifest raw_update_manifest updater = do
    require_state (state_accepting_marbles ∷ [])
    update ← lift (ext.manifest_json.decode raw_update_manifest)
    reject_if (not (is_granted updater (new_permission update_package (keys update.packages)))) (
        errorf "user %s is not allowed to update one or more packages of %v"
          (updater.name ∷ keys update.packages))
    current ← (λ c. (read_packages ext (stored c) update.packages [], c))
    lift (check_update update current)
    raised ← lift (raise_versions update.packages current)
    root_cert ← (λ c. (get_certificate ext (stored c) sk_root_cert, c))
    root_key ← (λ c. (get_priv_k ext (stored c) sk_root_key, c))
    intermediate ← on_entropy (
        generate_cert ext root_cert.dns_names coordinator_intermediate_name none
          (some (root_cert, root_key)))
    marble_root ← on_entropy (
        generate_cert ext root_cert.dns_names coordinator_intermediate_name (some intermediate.1)
          none)
    secrets ← (λ c. (get_secret_map ext (stored c), c))
    regenerated ← (λ c.
        on_entropy
          (generate_secrets ext (stored c) (to_regenerate secrets) nil_uuid marble_root.0
            (some intermediate.1))
          c)
    recovery_data ← on_recovery rc.get_recovery_data
    reset_log
    log_versions updater.name update.packages
    in_transaction
        (do edit_update intermediate marble_root.0 raised regenerated recovery_data; commit_tx)
