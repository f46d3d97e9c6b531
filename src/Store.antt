-- ===== src/Store.antt =====
-- coordinator/store: the key-value store of the coordinator and its transactions (stdstore.go).
-- The sealer and encoding/json are parameters. `mux` is held only inside single operations, which
-- are atomic here; `txmux` is the field `locked`.
pub mod Iterator
pub mod Atomic
pub mod Durable
mod Tests
pub mod Concrete
use marblerun.Base.{
  Bool, Bytes, Error, Map, Option, Result, Slice, Str, [], deadlock, err, false, get, if◌then◌else◌,
  none, ok, panic, put, some, true, unset, ◌∷◌,
}
use marblerun.Base.Exec.{Exec, ◌>>=◌, ◌>>◌, pure, lift}

-- What Sealer.Unseal returns when it does not panic: the unencrypted data, the decrypted data, and
-- the error.
pub record Unsealed : Type 0 where
  pub unencrypted : Slice
  pub decrypted : Slice
  pub error : Option Error

-- What LoadState returns: the recovery data on every branch, and the error.
pub record Loaded : Type 0 where
  pub encoded_recovery_data : Slice
  pub load_error : Option Error

abbrev pub loaded : Slice → Option Error → Loaded
loaded d e = record { encoded_recovery_data = d; load_error = e }

-- seal.Sealer, with the state that an implementation keeps in memory and on disk
pub record Sealer : Type 1 where
  pub State : Type 0
  pub seal : Slice → Bytes → State → Result (Unit {0}) × State
  pub unseal : State → Result Unsealed × State
  pub set_encryption_key : Bytes → State → Result (Unit {0}) × State

-- json.Marshal and json.Unmarshal at map[string][]byte
pub record DataCodec : Type 0 where
  pub marshal : Map Bytes → Result Bytes
  pub unmarshal : Bytes → Result (Map Bytes)

pub record StdStore : Type 0 where
  pub data_map : Map Bytes
  pub locked : Bool
  pub recovery_data : Slice
  pub recovery_mode : Bool

-- NewStdStore
unfoldable pub new_std_store : StdStore
new_std_store = record {
  data_map = [];
  locked = false;
  recovery_data = none;
  recovery_mode = false;
}

-- `active` says that the pointer to the store is not nil
pub record Transaction : Type 0 where
  pub tx_data : Map Bytes
  pub active : Bool

-- map access with the store's error for a missing key
unfoldable pub read : Map Bytes → Str → Result Bytes
read m request = elim (get m request) [ none ↦ err (unset request) | some v ↦ ok v ]

-- StdStore.Get
unfoldable pub store_get : StdStore → Str → Result Bytes
unfolding read
store_get s request = read s.data_map request

-- transaction.Get
unfoldable pub tx_get : Transaction → Str → Result Bytes
unfolding read
tx_get t request = read t.tx_data request

-- transaction.Put
unfoldable pub tx_put : Str → Bytes → Transaction → Transaction
tx_put request value t = record t { tx_data = put t.tx_data request value }

-- store.IsStoreValueUnsetError
abbrev pub is_unset : Error → Bool
is_unset (unset k) = true
is_unset _ = false

-- SetRecoveryData
unfoldable pub set_recovery_data : Slice → StdStore → StdStore
set_recovery_data d s = record s { recovery_data = d; recovery_mode = false }

-- a store beside the sealer that it was given
pub record Disk (sl : Sealer) : Type 0 where
  pub store : StdStore
  pub sealer : sl.State

module _ (sl : Sealer) where
  -- StdStore.BeginTransaction: waiting for a lock that is never released is a deadlock
  unfoldable pub begin_transaction : Exec (Disk sl) Transaction
  begin_transaction d = if d.store.locked then (deadlock, d) else (
    ok (record { tx_data = d.store.data_map; active = true }),
    record d { store = record d.store { locked = true } },
  )

  -- txmux.Unlock()
  unfoldable pub unlock : Disk sl → Disk sl
  unlock d = record d { store = record d.store { locked = false } }

  -- the call of the sealer in StdStore.commit
  seal_state : Bytes → Exec (Disk sl) (Unit {0})
  seal_state raw d =
      if d.store.recovery_mode
      then (ok tt, d)
      else let (r, s) = sl.seal d.store.recovery_data raw d.sealer in (r, record d { sealer = s })

  -- `s.data = data` and the unlocking at the end of StdStore.commit
  publish : Map Bytes → Exec (Disk sl) (Unit {0})
  unfolding unlock
  publish m d = (ok tt, unlock (record d { store = record d.store { data_map = m } }))

  -- the end of transaction.Commit: the pointer to the store is dropped if the commit succeeded
  finish : Transaction → Result (Unit {0}) × Disk sl → Result (Unit {0}) × Disk sl × Transaction
  finish t (ok u, d) = (ok u, d, record t { active = false })
  finish t (err e, d) = (err e, d, t)
  finish t (panic m, d) = (panic m, d, t)
  finish t (deadlock, d) = (deadlock, d, t)

  -- transaction.Rollback
  unfoldable pub rollback : Transaction → Disk sl → Disk sl
  unfolding unlock
  rollback t d = if t.active then unlock d else d

module _ (sl : Sealer) (js : DataCodec) where
  -- StdStore.commit
  unfoldable pub commit_data : Map Bytes → Exec (Disk sl) (Unit {0})
  unfolding seal_state publish
  commit_data m = do raw ← lift (js.marshal m); seal_state sl raw; publish sl m

  -- transaction.Commit
  unfoldable pub commit : Transaction → Disk sl → Result (Unit {0}) × Disk sl × Transaction
  unfolding commit_data finish
  commit t d =
      if t.active
      then finish sl t (commit_data t.tx_data d)
      else (panic "nil pointer dereference", d, t)

  -- a commit and the deferred Rollback after it
  unfoldable pub commit_and_rollback : Transaction → Exec (Disk sl) (Unit {0})
  unfolding commit rollback
  commit_and_rollback t d = let (r, d', t') = commit t d in (r, rollback sl t' d')

  -- StdStore.Put
  unfoldable pub store_put : Str → Bytes → Exec (Disk sl) (Unit {0})
  unfolding begin_transaction commit_and_rollback
  store_put request value = do
    t ← begin_transaction sl
    commit_and_rollback (tx_put request value t)

  -- the part of LoadState after a successful Unseal
  load_raw : Slice → Slice → Disk sl → Result Loaded × Disk sl
  load_raw recovery none d = (ok (loaded recovery none), d)
  load_raw recovery (some []) d = (ok (loaded recovery none), d)
  load_raw recovery (some (b ∷ raw)) d = elim (js.unmarshal (b ∷ raw)) [
    | ok m ↦ (ok (loaded recovery none), record d { store = record d.store { data_map = m } })
    | err e ↦ (ok (loaded recovery (some e)), d)
    | panic p ↦ (panic p, d)
    | deadlock ↦ (deadlock, d)
  ]

  after_unseal : Result Unsealed → Disk sl → Result Loaded × Disk sl
  unfolding load_raw
  after_unseal (ok u) d = elim u.error [
    | some e ↦ (
      ok (loaded u.unencrypted (some e)),
      record d { store = record d.store { recovery_mode = true } },
    )
    | none ↦ load_raw u.unencrypted u.decrypted d
  ]
  after_unseal (err e) d = (err e, d)
  after_unseal (panic m) d = (panic m, d)
  after_unseal deadlock d = (deadlock, d)

  -- StdStore.LoadState
  unfoldable pub load_state : Disk sl → Result Loaded × Disk sl
  unfolding after_unseal
  load_state d = let (u, s) = sl.unseal d.sealer in after_unseal u (record d { sealer = s })
