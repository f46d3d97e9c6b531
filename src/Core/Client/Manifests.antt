-- ===== src/Core/Client/Manifests.antt =====
-- SetManifest of coordinator/core/clientapi.go.
pub mod Kept
pub mod Installed
pub mod Settled
pub mod Committed
use marblerun.Seal.Aes.{set_encryption_key}
use marblerun.Base.{
  Bytes, List, Map, Result, Slice, Str, [], err, if◌then◌else◌, ok, put, put_all, some, ◌∷◌, not,
}
use marblerun.Core.Certs.{sk_intermediate_key, sk_marble_root_cert}
use marblerun.Core.Client.Upload.{log_info}
use marblerun.Core.DryRun.{template_dry_run, with_dummy, dummy}
use marblerun.Core.Getters.{get_certificate, get_priv_k}
use marblerun.Core.Putters.{
  put_infrastructure, put_marble, put_package, put_raw_manifest, put_secret, put_tls,
  put_update_log, put_user,
}
use marblerun.Core.Secrets.{generate_secrets, nil_uuid}
use marblerun.Core.States.{
  advance_state, require_state, state_accepting_manifest, state_accepting_marbles, state_recovery,
}
use marblerun.Core.Transactions.{commit_tx, in_transaction, on_core, on_tx}
use marblerun.Core.Users.{generate_users}
use marblerun.Manifest.{Certificate, Manifest, Secret}
use marblerun.Manifest.Check.{check}
use marblerun.User.{User}
use marblerun.Base.Exec.{Exec, ◌>>=◌, ◌>>◌, pure, lift}
use marblerun.Services.{Services}
use marblerun.Recovery.{Recovery, generate_encryption_key, generate_recovery_data}
use marblerun.Store.{Sealer, Transaction, set_recovery_data}
use marblerun.Core.{Core, on_disk, on_entropy, on_recovery, on_sealer, stored}

-- the loops that write a map entry by entry
unfoldable pub put_each :
    {A : Type 0} → (Str → A → Exec Transaction (Unit {0})) → Map A → Exec Transaction (Unit {0})
put_each put_one [] = pure tt
put_each put_one ((k, v) ∷ m) = do put_one k v; put_each put_one m

module _ (ext : Services) where
  -- the loop over the secrets that users define: what the templates see of them are dummy values
  unfoldable pub put_user_defined : Map Secret → Map Secret → Exec Transaction (Map Secret)
  put_user_defined [] secrets = pure secrets
  put_user_defined ((k, v) ∷ m) secrets =
      if v.user_defined
      then (do put_secret ext k v; put_user_defined m (put secrets k (with_dummy v)))
      else put_user_defined m secrets

  unfoldable pub put_users : List (User Certificate) → Exec Transaction (Unit {0})
  put_users [] = pure tt
  put_users (u ∷ us) = do put_user ext u; put_users us

-- a call whose error is dropped, or only logged
abbrev pub ignore : {S : Type 0} → Exec S (Unit {0}) → Exec S (Unit {0})
ignore f s = ignored (f s)
  where
    ignored : {S : Type 0} → Result (Unit {0}) × S → Result (Unit {0}) × S
    ignored (err e, s) = (ok tt, s)
    ignored (r, s) = (r, s)

module _ {sl : Sealer} {rc : Recovery} {ext : Services} where
  -- what is written after the text of the manifest, up to the log entry
  unfoldable pub store_entries :
      Manifest → List (User Certificate) → Exec (Core sl rc ext × Transaction) (Unit {0})
  store_entries mnf users = do
    on_tx (put_each (put_package ext) mnf.packages)
    on_tx (put_each (put_infrastructure ext) mnf.infrastructures)
    on_tx (put_each (put_marble ext) mnf.marbles)
    on_tx (put_each (put_tls ext) mnf.tls)
    on_tx (put_users ext users)
    on_core (log_info "initial manifest set" [])
    log ← (λ s. (ok s.0.update_log, s))
    on_tx (put_update_log log)

  -- the body of the transaction of SetManifest up to the log entry
  unfoldable pub store_manifest :
      Bytes
      → Manifest
      → Map Secret
      → List (User Certificate)
      → Exec (Core sl rc ext × Transaction) (Unit {0})
  store_manifest raw_manifest mnf secrets users = do
    on_tx (put_each (put_secret ext) secrets)
    for_templates ← on_tx (put_user_defined ext mnf.secrets secrets)
    lift (template_dry_run ext mnf for_templates)
    on_tx (put_raw_manifest raw_manifest)
    store_entries mnf users

  -- the body up to Commit; the error of advanceState is dropped
  unfoldable pub edit_manifest :
      Bytes
      → Manifest
      → Map Secret
      → List (User Certificate)
      → Slice
      → Exec (Core sl rc ext × Transaction) (Unit {0})
  edit_manifest raw_manifest mnf secrets users recovery_data = do
    store_manifest raw_manifest mnf secrets users
    ignore (on_tx (advance_state state_accepting_marbles))
    on_core (on_disk (λ d. (ok tt, record d { store = set_recovery_data recovery_data d.store })))

  -- SetManifest: the errors of SetEncryptionKey, advanceState and Commit are not returned
  unfoldable pub set_manifest : Bytes → Exec (Core sl rc ext) (Map Bytes)
  set_manifest raw_manifest = do
    require_state (state_accepting_manifest ∷ state_recovery ∷ [])
    mnf ← lift (ext.manifest_json.decode raw_manifest)
    lift (check mnf)
    marble_root ← (λ c. (get_certificate ext (stored c) sk_marble_root_cert, c))
    intermediate_key ← (λ c. (get_priv_k ext (stored c) sk_intermediate_key, c))
    secrets ← (λ c.
        on_entropy
          (generate_secrets ext (stored c) mnf.secrets nil_uuid marble_root (some intermediate_key))
          c)
    uuid ← on_entropy ext.new_uuid
    private ← (λ c.
        on_entropy
          (generate_secrets ext (stored c) mnf.secrets uuid marble_root (some intermediate_key)) c)
    key ← on_recovery (rc.generate_encryption_key mnf.recovery_keys)
    recovery ← on_recovery (rc.generate_recovery_data mnf.recovery_keys)
    ignore (on_sealer (sl.set_encryption_key key))
    users ← lift (generate_users ext mnf.users mnf.roles)
    in_transaction (do
      edit_manifest raw_manifest mnf (put_all secrets private) users recovery.1
      ignore commit_tx)
    pure recovery.0
