-- ===== src/Core/Transactions/Outcome.antt =====
-- How a handler ends: with its changes made, or with none, and the lock free in any case.
use marblerun.Base.{
  Bytes, Map, Result, deadlock, err, false, ok, panic, refl, subst, sym, ◌∙◌, ◌≡◌, ◌≢◌,
}
use marblerun.Core.Transactions.{commit_tx, in_transaction}
use marblerun.Core.Transactions.Atomic.{IsIdle, IsOpen, begun, in_transaction-IsAtomic}
use marblerun.Base.Exec.{Exec, ◌>>◌, pure, proceed}
use marblerun.Base.Post.{Post}
use marblerun.Base.Keeps.{Keeps}
use marblerun.Core.{Core, stored}
use marblerun.Services.{Services}
use marblerun.Recovery.{Recovery}
use marblerun.Store.{Sealer, Transaction}

module _ {sl : Sealer} {rc : Recovery} {ext : Services} where
  -- The lock is free; a value that is returned and the data satisfy `P`; and if no value is
  -- returned, the data are still `m`.
  pub record Outcome {A : Type 0} (P : A → Map Bytes → Type 0) (m : Map Bytes)
      (r : Result A × Core sl rc ext) : Type 0 where
    pub lock_free : r.1.disk.store.locked ≡ false
    pub done : (a : A) → r.0 ≡ ok a → P a (stored r.1)
    pub undone : ((a : A) → r.0 ≢ ok a) → stored r.1 ≡ m

  module _ {A B : Type 0} (P : B → Map Bytes → Type 0) (m : Map Bytes) where
    -- after an action that leaves the store alone
    pub Outcome-bind :
        (r : Result A × Core sl rc ext) (f : A → Exec (Core sl rc ext) B)
        → IsIdle m r.1
        → ((a : A) (s : Core sl rc ext) → r ≡ (ok a, s) → IsIdle m s → Outcome P m (f a s))
        → Outcome P m (proceed r f)
    unfolding proceed
    Outcome-bind (ok a, s) f i k = k a s refl i
    Outcome-bind (err e, s) f i k = record { lock_free = i.0; done = λ a h. cc; undone = λ n. i.1 }
    Outcome-bind (panic x, s) f i k = record {
      lock_free = i.0;
      done = λ a h. cc;
      undone = λ n. i.1;
    }
    Outcome-bind (deadlock, s) f i k = record {
      lock_free = i.0;
      done = λ a h. cc;
      undone = λ n. i.1;
    }

    -- after an action that only computes a result from the state
    pub Outcome-read :
        (r : Result A) (s : Core sl rc ext) (f : A → Exec (Core sl rc ext) B)
        → IsIdle m s
        → ((a : A) → r ≡ ok a → Outcome P m (f a s))
        → Outcome P m (proceed (r, s) f)
    unfolding proceed
    Outcome-read (ok a) s f i k = k a refl
    Outcome-read (err e) s f i k = record { lock_free = i.0; done = λ a h. cc; undone = λ n. i.1 }
    Outcome-read (panic x) s f i k = record { lock_free = i.0; done = λ a h. cc; undone = λ n. i.1 }
    Outcome-read deadlock s f i k = record { lock_free = i.0; done = λ a h. cc; undone = λ n. i.1 }

    -- before an action that only returns a value
    pub Outcome-pure :
        (b : B) (r : Result A × Core sl rc ext)
        → Outcome (λ a m'. P b m') m r
        → Outcome P m (proceed r (λ a. pure b))
    unfolding proceed
    Outcome-pure b (ok a, s) o = record {
      lock_free = o.lock_free;
      done = λ x h. let same : b ≡ x = cc in subst (λ y. P y (stored s)) same (o.done a refl);
      undone = λ n. elim (n b refl) [ ];
    }
    Outcome-pure b (err e, s) o = record {
      lock_free = o.lock_free;
      done = λ a h. cc;
      undone = λ n. o.undone λ a h. cc;
    }
    Outcome-pure b (panic x, s) o = record {
      lock_free = o.lock_free;
      done = λ a h. cc;
      undone = λ n. o.undone λ a h. cc;
    }
    Outcome-pure b (deadlock, s) o = record {
      lock_free = o.lock_free;
      done = λ a h. cc;
      undone = λ n. o.undone λ a h. cc;
    }

  pub Outcome-mono :
      {A : Type 0} (P Q : A → Map Bytes → Type 0) (m : Map Bytes) (r : Result A × Core sl rc ext)
      → ((a : A) (m' : Map Bytes) → P a m' → Q a m')
      → Outcome P m r
      → Outcome Q m r
  Outcome-mono P Q m r f o = record {
    lock_free = o.lock_free;
    done = λ a e. f a (stored r.1) (o.done a e);
    undone = o.undone;
  }

  -- an action that changes no data
  pub Outcome-idle :
      {A : Type 0} (P : A → Map Bytes → Type 0) (m : Map Bytes) (r : Result A × Core sl rc ext)
      → IsIdle m r.1
      → ((a : A) → r.0 ≡ ok a → P a m)
      → Outcome P m r
  Outcome-idle P m r i h = record {
    lock_free = i.0;
    done = λ a e. subst (P a) (sym i.1) (h a e);
    undone = λ n. i.1;
  }

  -- a transaction whose body edits and never touches the store itself
  pub Outcome-transaction :
      (P : Map Bytes → Type 0) (m : Map Bytes) (c : Core sl rc ext)
      (f : Exec (Core sl rc ext × Transaction) (Unit {0}))
      → IsIdle m c
      → Keeps (IsOpen m) f
      → Post (λ u s. P s.1.tx_data) (f (begun c))
      → Outcome (λ u m'. P m') m (in_transaction (f >> commit_tx) c)
  Outcome-transaction P m c f i k h =
      let atomic =
        in_transaction-IsAtomic P c f i.0 (subst (λ n. Keeps (IsOpen n) f) (sym i.1) k) h in
      record {
        lock_free = atomic.lock_free;
        done = λ u e. atomic.changed e;
        undone = λ n. atomic.unchanged (n tt) ∙ i.1;
      }
