-- ===== src/Core/Client/Quiet.antt =====
-- Handlers that only read, and what Recover does to the lock.
use marblerun.Core.Getters.{get_state}
use marblerun.Base.Exec.{pure, ◌>>◌, proceed}
use marblerun.Base.{
  Bytes, Map, [], arith, false, refl, ◌∷◌, ◌≡◌, Bool, bytes_of, if◌then◌else◌, ok, true, ℕ, ◌==◌,
}
use marblerun.Core.{Core, stored}
use marblerun.Core.Client.{get_cert_quote, get_log}
use marblerun.Core.Client.Recover.{load_new_store, perform_recovery, recover}
use marblerun.Core.States.{
  get_status, refresh_quote, state_accepting_manifest, state_accepting_marbles, state_recovery,
  one_of, require_state,
}
use marblerun.Core.States.Required.{require_state-KeepsIdle}
use marblerun.Core.Transactions.Atomic.{IsIdle}
use marblerun.Recovery.{Recovery}
use marblerun.Services.{Services}
use marblerun.Store.{DataCodec, Disk, Sealer, load_state, new_std_store}
use marblerun.Base.Keeps.{Keeps, Keeps-bind, Keeps-reject_if}

module _ {sl : Sealer} {rc : Recovery} {ext : Services} where
  pub get_status-KeepsIdle :
      (m : Map Bytes) → Keeps (IsIdle m) (get_status {sl = sl} {rc = rc} {ext = ext})
  unfolding get_status
  get_status-KeepsIdle m = Keeps-bind (IsIdle m) _ _ (λ s i. i) λ current s i. i

  pub get_log-KeepsIdle :
      (m : Map Bytes) → Keeps (IsIdle m) (get_log {sl = sl} {rc = rc} {ext = ext})
  unfolding get_log
  get_log-KeepsIdle m =
      Keeps-bind (IsIdle m) _ _ (require_state-KeepsIdle (state_accepting_marbles ∷ []) m)
        λ u s i. i

  pub get_cert_quote-KeepsIdle :
      (m : Map Bytes) → Keeps (IsIdle m) (get_cert_quote {sl = sl} {rc = rc} {ext = ext})
  unfolding get_cert_quote
  get_cert_quote-KeepsIdle m =
      let I : Core sl rc ext → Type 0 = IsIdle m in
      Keeps-bind I _ _
        (require_state-KeepsIdle
          (state_accepting_manifest ∷ state_accepting_marbles ∷ state_recovery ∷ []) m)
        λ u₁.
          Keeps-bind I _ _ (λ s i. i)
            λ root.
              Keeps-bind I _ _ (λ s i. i)
                λ intermediate.
                  Keeps-bind I _ _ (Keeps-reject_if I _ _)
                    λ u₂. Keeps-bind I _ _ (Keeps-reject_if I _ _) λ u₃ s i. i

  -- the lock of the store is free
  abbrev pub IsFree : Core sl rc ext → Type 0
  IsFree c = c.disk.store.locked ≡ false

load_state-free :
    (sl : Sealer) (js : DataCodec) (d : Disk sl)
    → d.store.locked ≡ false
    → (load_state sl js d).1.store.locked ≡ false
unfolding load_state
load_state-free sl js d free = ground (arith, free)

module _ {sl : Sealer} {rc : Recovery} {ext : Services} where
  load_new_store-IsFree : (c : Core sl rc ext) → IsFree c → IsFree (load_new_store c).1
  unfolding load_new_store new_std_store
  load_new_store-IsFree c free = ground (
    arith,
    free,
    load_state-free sl ext.data_json (record { store = new_std_store; sealer = c.disk.sealer })
        refl,
  )

  refresh_quote-IsFree :
      (cert : Bytes) → Keeps (IsFree {sl = sl} {rc = rc} {ext = ext}) (refresh_quote cert)
  unfolding refresh_quote
  refresh_quote-IsFree cert c free = ground (arith, free)

  perform_recovery-IsFree :
      (key : Bytes) → Keeps IsFree (perform_recovery {sl = sl} {rc = rc} {ext = ext} key)
  unfolding perform_recovery
  perform_recovery-IsFree key =
      Keeps-bind IsFree _ _ (λ c free. free)
        λ u₁. Keeps-bind IsFree _ _ load_new_store-IsFree λ recovery_data.
          Keeps-bind IsFree _ _ (λ c free. free)
            λ u₂.
              Keeps-bind IsFree _ _ (λ c free. free)
                λ root. refresh_quote-IsFree (bytes_of root.raw)

  -- Whatever the key, Recover leaves the lock of the store free, also when it puts the recovered store
  -- in the place of the old one.
  pub recover-IsFree :
      (secret : Bytes) → Keeps IsFree (recover {sl = sl} {rc = rc} {ext = ext} secret)
  unfolding recover
  recover-IsFree secret =
      Keeps-bind IsFree _ _
        (λ c free. (require_state-KeepsIdle (state_recovery ∷ []) (stored c) c (free, refl)).0)
        λ u. Keeps-bind IsFree _ _ (λ c free. free) λ r. decide r (r.0 == 0)
    where
      decide :
          (r : ℕ × Bytes) (b : Bool)
          → Keeps
              (IsFree {sl = sl} {rc = rc} {ext = ext})
              (if b then (do perform_recovery r.1; pure 0) else pure r.0)
      decide r true = Keeps-bind IsFree _ _ (perform_recovery-IsFree r.1) λ u c free. free
      decide r false = λ c free. free

  -- A coordinator that accepts marbles does not recover.
  pub recover_rejected :
      (secret : Bytes) (c : Core sl rc ext)
      → get_state (stored c) ≡ ok state_accepting_marbles
      → (recover secret c).1 ≡ c
  unfolding recover require_state one_of proceed
  recover_rejected secret c known = rw known refl
