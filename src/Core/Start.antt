-- ===== src/Core/Start.antt =====
-- The start of the coordinator: NewCore and setCAData of coordinator/core/core.go.
use marblerun.Base.{
  Bool, Bytes, Error, List, Option, Result, Slice, Str, [], bytes_of, deadlock, encryption_key, err,
  false, if◌then◌else◌, none, ok, panic, some, true,
}
use marblerun.Core.Certs.{
  coordinator_intermediate_name, coordinator_name, generate_cert, sk_intermediate_cert,
  sk_intermediate_key, sk_marble_root_cert, sk_root_cert, sk_root_key,
}
use marblerun.Core.Getters.{get_certificate, get_raw_manifest, get_state}
use marblerun.Core.Putters.{put_certificate, put_priv_k, put_state}
use marblerun.Core.States.{
  advance_state, state_accepting_manifest, state_recovery, state_uninitialized, refresh_quote,
}
use marblerun.Core.Transactions.{commit_tx, in_transaction, on_core, on_tx}
use marblerun.Strconv.{ℤ}
use marblerun.Base.Exec.{Exec, ◌>>=◌, ◌>>◌, pure, lift, fail}
use marblerun.Services.{Services}
use marblerun.Recovery.{Recovery}
use marblerun.Store.{
  Sealer, Transaction, Loaded, is_unset, load_state, new_std_store, set_recovery_data,
}
use marblerun.Core.{Core, on_disk, on_entropy, on_recovery, stored}

-- loadErr == seal.ErrEncryptionKey
abbrev pub is_encryption_key : Error → Bool
is_encryption_key encryption_key = true
is_encryption_key _ = false

-- a state that is not set becomes stateUninitialized
init_state : Result ℤ → Exec Transaction (Unit {0})
init_state (ok s) = pure tt
init_state (err e) = if is_unset e then put_state state_uninitialized else fail e
init_state (panic m) = lift (panic m)
init_state deadlock = lift deadlock

module _ {sl : Sealer} {rc : Recovery} {ext : Services} where
  -- setCAData
  unfoldable pub set_ca_data : Option (List Str) → Exec (Core sl rc ext × Transaction) (Unit {0})
  set_ca_data dns_names = do
    root ← on_core (on_entropy (generate_cert ext dns_names coordinator_name none none))
    intermediate ←
        on_core
          (on_entropy (generate_cert ext dns_names coordinator_intermediate_name none (some root)))
    marble_root ← on_core (
        on_entropy
          (generate_cert ext dns_names coordinator_intermediate_name (some intermediate.1) none))
    on_tx (put_certificate ext sk_root_cert root.0)
    on_tx (put_certificate ext sk_intermediate_cert intermediate.0)
    on_tx (put_certificate ext sk_marble_root_cert marble_root.0)
    on_tx (put_priv_k ext sk_root_key root.1)
    on_tx (put_priv_k ext sk_intermediate_key intermediate.1)

  -- the branches of NewCore over what was loaded; SetRecoveryData acts on the store
  start_manifest :
      Option (List Str) → Slice → Result Bytes → Exec (Core sl rc ext × Transaction) (Unit {0})
  start_manifest dns_names recovery_data (ok raw) =
      on_core (on_disk (λ d. (ok tt, record d { store = set_recovery_data recovery_data d.store })))
  start_manifest dns_names recovery_data (err e) =
      if is_unset e
      then (do set_ca_data dns_names; on_tx (put_state state_accepting_manifest))
      else fail e
  start_manifest dns_names recovery_data (panic m) = lift (panic m)
  start_manifest dns_names recovery_data deadlock = lift deadlock

  start_from : Option (List Str) → Loaded → Exec (Core sl rc ext × Transaction) (Unit {0})
  unfolding start_manifest
  start_from dns_names l = elim l.load_error [
    | none ↦ (do
      raw ← (λ s. (ok (get_raw_manifest s.1.tx_data), s))
      start_manifest dns_names l.encoded_recovery_data raw)
    | some e ↦
        if is_encryption_key e
        then (do set_ca_data dns_names; on_tx (advance_state state_recovery))
        else fail e
  ]

  -- NewCore, on the sealer, the recovery and the entropy that it is given; an error of
  -- SetRecoveryData is only logged
  unfoldable pub new_core : Option (List Str) → Exec (Core sl rc ext) (Unit {0})
  unfolding init_state start_from
  new_core dns_names = do
    l ← on_disk (load_state sl ext.data_json)
    λ c. (ok tt, (on_recovery (rc.set_recovery_data l.encoded_recovery_data) c).1)
    in_transaction (do
      current ← (λ s. (ok (get_state s.1.tx_data), s))
      on_tx (init_state current)
      start_from dns_names l
      commit_tx)
    root_cert ← (λ c. (get_certificate ext (stored c) sk_root_cert, c))
    refresh_quote (bytes_of root_cert.raw)

  -- the core that NewCore starts from
  abbrev pub blank : sl.State → rc.State → ext.Entropy → Core sl rc ext
  blank s r x = record {
    disk = record { store = new_std_store; sealer = s };
    recovery = r;
    quote = none;
    update_log = [];
    entropy = x;
  }
