-- ===== src/Core/Transactions/Atomic.antt =====
-- A transaction of a handler takes effect as a whole or not at all.
use marblerun.Base.Exec.{proceed}
use marblerun.Base.{
  Bytes, Map, Result, arith, deadlock, err, false, ok, panic, refl, subst, sym, true, ◌∙◌, ◌≡◌, ◌≢◌,
}
use marblerun.Core.Transactions.{commit_tx, in_transaction, roll_back}
use marblerun.Store.Atomic.{commit_and_rollback-Applies}
use marblerun.Base.Exec.{Exec, ◌>>◌, proceed}
use marblerun.Base.Post.{Post}
use marblerun.Base.Keeps.{Keeps}
use marblerun.Core.{Core, stored}
use marblerun.Services.{Services}
use marblerun.Recovery.{Recovery}
use marblerun.Store.{
  Sealer, Transaction, begin_transaction, rollback, unlock, commit, commit_and_rollback,
}

module _ {sl : Sealer} {rc : Recovery} {ext : Services} where
  -- Outside a transaction: the lock is free, and the store has the data `m`.
  abbrev pub IsIdle : Map Bytes → Core sl rc ext → Type 0
  IsIdle m c = (c.disk.store.locked ≡ false) × (stored c ≡ m)

  -- Inside a transaction: the lock is held, the store has the data `m`, and the transaction is open.
  abbrev pub IsOpen : Map Bytes → Core sl rc ext × Transaction → Type 0
  IsOpen m s = (s.0.disk.store.locked ≡ true) × (s.0.disk.store.data_map ≡ m) × (s.1.active ≡ true)

  -- After a transaction: the lock is free, the new data satisfy `P` after a success, and the data
  -- are the old ones otherwise.
  pub record IsAtomic (P : Map Bytes → Type 0) (m : Map Bytes)
      (r : Result (Unit {0}) × Core sl rc ext) : Type 0 where
    pub lock_free : r.1.disk.store.locked ≡ false
    pub changed : r.0 ≡ ok tt → P (stored r.1)
    pub unchanged : r.0 ≢ ok tt → stored r.1 ≡ m

  -- the state in which the body of a transaction starts
  abbrev pub begun : Core sl rc ext → Core sl rc ext × Transaction
  begun c = (
    record c { disk = record c.disk { store = record c.disk.store { locked = true } } },
    record { tx_data = c.disk.store.data_map; active = true },
  )

  ended :
      (P : Map Bytes → Type 0) (m : Map Bytes)
      (r : Result (Unit {0}) × (Core sl rc ext × Transaction))
      → IsOpen m r.1
      → Post (λ u s. P s.1.tx_data) r
      → IsAtomic P m (roll_back (proceed r (λ u. commit_tx)))
  unfolding roll_back commit_tx rollback unlock commit commit_and_rollback proceed
  ended P m (ok u, (c, t)) o h =
      let done = commit_and_rollback-Applies sl ext.data_json t c.disk o.2 in
      record {
        lock_free = done.unlocked;
        changed = λ e. subst P (sym (done.applied e)) h;
        unchanged = λ n. done.kept n ∙ o.1;
      }
  ended P m (err e, (c, t)) o h = ground (arith, o.2, o.1)
  ended P m (panic x, (c, t)) o h = ground (arith, o.2, o.1)
  ended P m (deadlock, (c, t)) o h = ground (arith, o.2, o.1)

  -- A transaction whose body edits, and never touches the store itself, is atomic.
  pub in_transaction-IsAtomic :
      (P : Map Bytes → Type 0) (c : Core sl rc ext)
      (f : Exec (Core sl rc ext × Transaction) (Unit {0}))
      → c.disk.store.locked ≡ false
      → Keeps (IsOpen (stored c)) f
      → Post (λ u s. P s.1.tx_data) (f (begun c))
      → IsAtomic P (stored c) (in_transaction (f >> commit_tx) c)
  unfolding in_transaction begin_transaction proceed
  in_transaction-IsAtomic P c f free k h =
      rw free (ended P (stored c) (f (begun c)) (k (begun c) (refl, refl, refl)) h)
