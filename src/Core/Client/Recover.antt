-- ===== src/Core/Client/Recover.antt =====
-- Recover and performRecovery of coordinator/core/clientapi.go.
use marblerun.Base.{
  Bytes, Result, Slice, [], bytes_of, deadlock, err, if◌then◌else◌, none, ok, panic, some, ℕ, ◌==◌,
  ◌∷◌,
}
use marblerun.Core.Certs.{sk_root_cert}
use marblerun.Core.Getters.{get_certificate}
use marblerun.Core.States.{require_state, state_recovery, refresh_quote}
use marblerun.Base.Exec.{Exec, ◌>>=◌, ◌>>◌, pure}
use marblerun.Services.{Services}
use marblerun.Recovery.{Recovery}
use marblerun.Store.{Sealer, Disk, Loaded, load_state, new_std_store}
use marblerun.Core.{Core, on_recovery, on_sealer, stored}

module _ {sl : Sealer} {rc : Recovery} {ext : Services} where
  -- the new store takes the place of the old one only if LoadState has succeeded
  take_over : Core sl rc ext → Result Loaded × Disk sl → Result Slice × Core sl rc ext
  take_over c (ok l, d) = elim l.load_error [
    | none ↦ (ok l.encoded_recovery_data, record c { disk = d })
    | some e ↦ (err e, record c { disk = record c.disk { sealer = d.sealer } })
  ]
  take_over c (err e, d) = (err e, record c { disk = record c.disk { sealer = d.sealer } })
  take_over c (panic m, d) = (panic m, record c { disk = record c.disk { sealer = d.sealer } })
  take_over c (deadlock, d) = (deadlock, record c { disk = record c.disk { sealer = d.sealer } })

  -- `store := store.NewStdStore(c.sealer); store.LoadState()` and the assignments after it
  unfoldable pub load_new_store : Exec (Core sl rc ext) Slice
  unfolding take_over
  load_new_store c =
      take_over c
        (load_state sl ext.data_json (record { store = new_std_store; sealer = c.disk.sealer }))

  -- performRecovery; an error of SetRecoveryData is only logged
  unfoldable pub perform_recovery : Bytes → Exec (Core sl rc ext) (Unit {0})
  unfolding load_new_store
  perform_recovery key = do
    on_sealer (sl.set_encryption_key key)
    recovery_data ← load_new_store
    λ c. (ok tt, (on_recovery (rc.set_recovery_data recovery_data) c).1)
    root_cert ← (λ c. (get_certificate ext (stored c) sk_root_cert, c))
    refresh_quote (bytes_of root_cert.raw)

  -- Recover: the number of keys that are still missing, which its caller drops beside an error
  unfoldable pub recover : Bytes → Exec (Core sl rc ext) ℕ
  unfolding perform_recovery
  recover secret = do
    require_state (state_recovery ∷ [])
    r ← on_recovery (rc.recover_key secret)
    if r.0 == 0 then (do perform_recovery r.1; pure 0) else pure r.0
