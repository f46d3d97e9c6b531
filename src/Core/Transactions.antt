-- ===== src/Core/Transactions.antt =====
-- The transactions of the handlers: BeginTransaction, the deferred Rollback, and the Commit inside.
pub mod Atomic
pub mod Outcome
pub mod Edits
use marblerun.Base.{Result, err}
use marblerun.Base.Exec.{Exec, ◌>>=◌}
use marblerun.Core.{Core, on_disk}
use marblerun.Services.{Services}
use marblerun.Recovery.{Recovery}
use marblerun.Store.{Sealer, Transaction, begin_transaction, commit, rollback}

module _ {sl : Sealer} {rc : Recovery} {ext : Services} where
  -- an action on the transaction alone, and one on the core alone
  abbrev pub on_tx : {A : Type 0} → Exec Transaction A → Exec (Core sl rc ext × Transaction) A
  on_tx f (c, t) = let (r, t') = f t in (r, (c, t'))

  abbrev pub on_core :
      {A : Type 0} → Exec (Core sl rc ext) A → Exec (Core sl rc ext × Transaction) A
  on_core f (c, t) = let (r, c') = f c in (r, (c', t))

  -- tx.Commit()
  unfoldable pub commit_tx : Exec (Core sl rc ext × Transaction) (Unit {0})
  commit_tx (c, t) =
      let (r, d, t') = commit sl ext.data_json t c.disk in (r, (record c { disk = d }, t'))

  -- the deferred tx.Rollback()
  unfoldable pub roll_back :
      {A : Type 0} → Result A × (Core sl rc ext × Transaction) → Result A × Core sl rc ext
  roll_back (r, (c, t)) = (r, record c { disk = rollback sl t c.disk })

  -- `tx, err := c.store.BeginTransaction(); defer tx.Rollback()` and what follows
  unfoldable pub in_transaction :
      {A : Type 0} → Exec (Core sl rc ext × Transaction) A → Exec (Core sl rc ext) A
  in_transaction body = do t ← on_disk (begin_transaction sl); λ c. roll_back (body (c, t))
