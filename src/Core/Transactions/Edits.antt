-- ===== src/Core/Transactions/Edits.antt =====
-- Actions on the transaction alone, inside the transaction of a handler.
use marblerun.Base.{Bytes, Map, Result, deadlock, err, ok, panic, true, ◌≡◌}
use marblerun.Core.Transactions.{on_tx, on_core}
use marblerun.Core.Transactions.Atomic.{IsOpen}
use marblerun.Base.Exec.{Exec}
use marblerun.Base.Post.{Post}
use marblerun.Base.Keeps.{Keeps}
use marblerun.Core.{Core, stored}
use marblerun.Services.{Services}
use marblerun.Recovery.{Recovery}
use marblerun.Store.{Sealer, Transaction}

module _ {sl : Sealer} {rc : Recovery} {ext : Services} where
  pub on_tx-IsOpen :
      {A : Type 0} (m : Map Bytes) (f : Exec Transaction A)
      → Keeps (λ t. t.active ≡ true) f
      → Keeps (IsOpen m) (on_tx {sl = sl} {rc = rc} {ext = ext} f)
  on_tx-IsOpen m f k s o = (o.0, o.1, k s.1 o.2)

  -- the part of IsOpen that is about the core
  abbrev pub IsHeld : Map Bytes → Core sl rc ext → Type 0
  IsHeld m c = (c.disk.store.locked ≡ true) × (stored c ≡ m)

  pub on_core-IsOpen :
      {A : Type 0} (m : Map Bytes) (f : Exec (Core sl rc ext) A)
      → Keeps (IsHeld m) f
      → Keeps (IsOpen m) (on_core f)
  on_core-IsOpen m f k s o = let q = k s.0 (o.0, o.1) in (q.0, q.1, o.2)

  pub on_tx-Post :
      {A : Type 0} (P : Transaction → Type 0) (f : Exec Transaction A)
      (s : Core sl rc ext × Transaction)
      → Post (λ a t. P t) (f s.1)
      → Post (λ a s'. P s'.1) (on_tx f s)
  on_tx-Post P f (c, t) h = moved (f t) h
    where
      moved :
          {A : Type 0} (r : Result A × Transaction)
          → Post (λ a t'. P t') r
          → Post {S = Core sl rc ext × Transaction} (λ a s'. P s'.1) (r.0, (c, r.1))
      moved (ok a, t') h = h
      moved (err e, t') h = tt
      moved (panic x, t') h = tt
      moved (deadlock, t') h = tt
