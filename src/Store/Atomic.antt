-- ===== src/Store/Atomic.antt =====
-- A transaction takes effect as a whole or not at all, and always gives the lock back.
use marblerun.Base.Exec.{proceed}
use marblerun.Base.{
  deadlock, err, panic, subst, sym, Bytes, if◌then◌else◌, Map, Result, Str, false, ok, put, true,
  ◌≡◌, ◌≢◌, arith, refl,
}
use marblerun.Store.{
  DataCodec, Disk, Sealer, Transaction, commit_and_rollback, finish, publish, seal_state, store_put,
  begin_transaction, tx_put,
}

-- What a write transaction does to the store: the lock is free, and the data are the new ones
-- exactly after a success.
pub record Applies {sl : Sealer} (d : Disk sl) (new : Map Bytes) (r : Result (Unit {0}))
    (d' : Disk sl) : Type 0 where
  pub unlocked : d'.store.locked ≡ false
  pub applied : r ≡ ok tt → d'.store.data_map ≡ new
  pub kept : r ≢ ok tt → d'.store.data_map ≡ d.store.data_map

module _ (sl : Sealer) (js : DataCodec) where
  pub commit_and_rollback-Applies :
      (t : Transaction) (d : Disk sl)
      → t.active ≡ true
      → Applies d t.tx_data (commit_and_rollback sl js t d).0 (commit_and_rollback sl js t d).1
  unfolding commit_and_rollback seal_state publish finish proceed
  commit_and_rollback-Applies t d a = ground arith

  -- what encoding the data and, outside of recovery mode, sealing them returns
  abbrev pub encoded_and_sealed : Map Bytes → Disk sl → Result (Unit {0})
  encoded_and_sealed m d = elim (js.marshal m) [
    | ok raw ↦
        if d.store.recovery_mode then ok tt else (sl.seal d.store.recovery_data raw d.sealer).0
    | err e ↦ err e
    | panic x ↦ panic x
    | deadlock ↦ deadlock
  ]

  commit_and_rollback-result :
      (t : Transaction) (d : Disk sl)
      → t.active ≡ true
      → (commit_and_rollback sl js t d).0 ≡ encoded_and_sealed t.tx_data d
  unfolding commit_and_rollback seal_state publish finish proceed
  commit_and_rollback-result t d a = ground arith

  -- Put on a store whose lock is free succeeds exactly if the data with the one key set can be
  -- encoded and, outside of recovery mode, sealed, and otherwise ends the way these do, so that it
  -- does not block by itself. It frees the lock on every branch, and either sets exactly the one
  -- key or, if it does not succeed, leaves all data as they were.
  pub store_put-Applies :
      (d : Disk sl) (k : Str) (v : Bytes)
      → d.store.locked ≡ false
      → ((store_put sl js k v d).0 ≡ encoded_and_sealed (put d.store.data_map k v) d)
        × Applies d (put d.store.data_map k v) (store_put sl js k v d).0 (store_put sl js k v d).1
  unfolding store_put tx_put proceed
  store_put-Applies d k v free =
      let t : Transaction = record { tx_data = put d.store.data_map k v; active = true } in
      let locked : Disk sl = record d { store = record d.store { locked = true } } in
      let done = commit_and_rollback-Applies t locked refl in
      let same : store_put sl js k v d ≡ commit_and_rollback sl js t locked =
        rw (free, begin_transaction) refl in
      subst
        (λ x.
          (x.0 ≡ encoded_and_sealed (put d.store.data_map k v) d)
          × Applies d (put d.store.data_map k v) x.0 x.1)
        (sym same)
        (
          commit_and_rollback-result t locked refl,
          record { unlocked = done.unlocked; applied = done.applied; kept = done.kept },
        )
