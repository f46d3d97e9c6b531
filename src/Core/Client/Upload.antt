-- ===== src/Core/Client/Upload.antt =====
-- WriteSecrets of coordinator/core/clientapi.go.
use marblerun.Core.DryRun.{fill_dummies, template_dry_run}
use marblerun.Base.{Bytes, List, Map, Str, String, [], errorf, not, ok, put_all, ◌++◌, ◌∷◌}
use marblerun.Core.Getters.{get_manifest, get_secret_map}
use marblerun.Core.Putters.{append_update_log, put_secret}
use marblerun.Core.States.{require_state, state_accepting_marbles}
use marblerun.Core.Transactions.{commit_tx, in_transaction, on_core, on_tx}
use marblerun.Manifest.{Certificate, Secret}
use marblerun.Manifest.Secrets.{parse_user_secrets}
use marblerun.User.{User, is_granted, new_permission, write_secret}
use marblerun.Base.Exec.{Exec, ◌>>=◌, ◌>>◌, pure, lift, reject_if}
use marblerun.Services.{Services}
use marblerun.Recovery.{Recovery}
use marblerun.Store.{Sealer, Transaction}
use marblerun.Core.{Core, on_entropy, stored}

module _ {sl : Sealer} {rc : Recovery} {ext : Services} where
  -- updateLogger.Reset()
  abbrev pub reset_log : Exec (Core sl rc ext) (Unit {0})
  reset_log c = (ok tt, record c { update_log = [] })

  -- updateLogger.Info(message, fields...)
  unfoldable pub log_info : String → List Str → Exec (Core sl rc ext) (Unit {0})
  log_info message fields = do
    line ← on_entropy (ext.log_line message fields)
    λ c. (ok tt, record c { update_log = c.update_log ++ line })

  -- the loop of WriteSecrets over the new secrets
  unfoldable pub write_all :
      User Certificate → Map Secret → Exec (Core sl rc ext × Transaction) (Unit {0})
  unfolding log_info
  write_all updater [] = pure tt
  write_all updater ((name, secret) ∷ secrets) = do
    reject_if (not (is_granted updater (new_permission write_secret (name ∷ []))))
        (errorf "user %s is not allowed to update secret: %s" (updater.name ∷ name ∷ []))
    on_tx (put_secret ext name secret)
    on_core (log_info "secret set" (updater.name ∷ name ∷ secret.type_name ∷ []))
    write_all updater secrets

  -- what WriteSecrets does in its transaction before the commit
  unfoldable pub edit_secrets :
      User Certificate → Map Secret → Exec (Core sl rc ext × Transaction) (Unit {0})
  unfolding write_all
  edit_secrets updater new = do
    on_core reset_log
    write_all updater new
    log ← (λ s. (ok s.0.update_log, s))
    on_tx (append_update_log log)

  -- WriteSecrets
  unfoldable pub write_secrets : Bytes → User Certificate → Exec (Core sl rc ext) (Unit {0})
  unfolding edit_secrets
  write_secrets raw_secret_manifest updater = do
    require_state (state_accepting_marbles ∷ [])
    secret_manifest ← lift (ext.user_secrets_json.decode raw_secret_manifest)
    meta ← (λ c. (get_secret_map ext (stored c), c))
    new ← lift (parse_user_secrets ext.marshal_pkix_public_key secret_manifest meta)
    mnf ← (λ c. (get_manifest ext (stored c), c))
    lift (template_dry_run ext mnf (put_all (fill_dummies meta) new))
    in_transaction (do edit_secrets updater new; commit_tx)
