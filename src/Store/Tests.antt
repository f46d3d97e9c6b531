-- ===== src/Store/Tests.antt =====
-- The store over a sealer that keeps the last sealed state in memory.
use marblerun.Base.Exec.{proceed}
use marblerun.Base.{
  Slice, [], ap, arith, bytes_of, codes, none, ok, put, refl, some, sym, true, ◌∷◌, ◌≡◌, Bytes,
  subst,
}
use marblerun.Store.{Disk, Sealer, Transaction, commit, load_state, new_std_store, store_put}
use marblerun.Store.Atomic.{Applies, encoded_and_sealed, store_put-Applies}
use marblerun.Store.Concrete.{concrete_codec, concrete_codec-laws, encode_map}
use marblerun.Store.Durable.{Reads, SealsThrough, load_state-commit, reopened, Fits}

-- MockSealer of coordinator/seal/seal.go, whose UnsealError is nil
abbrev memory_sealer : Sealer
memory_sealer = record {
  State = Slice × Slice;
  seal = λ u raw s. (ok tt, (u, some raw));
  unseal = λ s. (ok (record { unencrypted = s.0; decrypted = s.1; error = none }), s);
  set_encryption_key = λ k s. (ok tt, s);
}

abbrev empty_disk : Disk memory_sealer
empty_disk = record { store = new_std_store; sealer = (none, none) }

store_put-Applies_example :
    ((store_put memory_sealer concrete_codec (codes "k") (1 ∷ []) empty_disk).0
      ≡ encoded_and_sealed memory_sealer concrete_codec
          (put empty_disk.store.data_map (codes "k") (1 ∷ []))
          empty_disk)
    × Applies empty_disk
        (put empty_disk.store.data_map (codes "k") (1 ∷ []))
        (store_put memory_sealer concrete_codec (codes "k") (1 ∷ []) empty_disk).0
        (store_put memory_sealer concrete_codec (codes "k") (1 ∷ []) empty_disk).1
unfolding new_std_store proceed
store_put-Applies_example =
    store_put-Applies memory_sealer concrete_codec empty_disk (codes "k") (1 ∷ []) refl

memory_sealer-SealsThrough : SealsThrough memory_sealer (λ s. Unit {0}) (λ s. s)
memory_sealer-SealsThrough = record {
  unseals = λ u raw s s' v fits e. record {
    unsealed = record { unencrypted = s'.0; decrypted = s'.1; error = none };
    result = refl;
    no_error = refl;
    decrypted_same = ground arith;
    unencrypted_same = let same : u ≡ s'.0 = ground arith in ap bytes_of (sym same);
  };
}

abbrev one_key : Transaction
one_key = record { tx_data = (codes "k", 1 ∷ []) ∷ []; active = true }

one_key-Fits : (raw : Bytes) → concrete_codec.marshal one_key.tx_data ≡ ok raw → Fits none raw
unfolding encode_map proceed
one_key-Fits raw e =
    let same : 1 ∷ encode_map one_key.tx_data ≡ raw = ground arith in
    subst (λ b. Fits none b) same (omega arith)

load_state-commit_example : Reads one_key.tx_data empty_disk.store.recovery_data (
    load_state memory_sealer concrete_codec
      (reopened (λ s. s) (commit memory_sealer concrete_codec one_key empty_disk).1))
unfolding new_std_store commit encode_map proceed
load_state-commit_example =
    load_state-commit memory_sealer concrete_codec (λ s. Unit {0}) (λ s. s) concrete_codec-laws
      memory_sealer-SealsThrough one_key empty_disk refl tt one_key-Fits refl
