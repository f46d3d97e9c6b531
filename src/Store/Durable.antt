-- ===== src/Store/Durable.antt =====
-- What a commit has sealed, a store that loads the state afterwards reads back.
use marblerun.Base.Exec.{proceed}
use marblerun.Base.{
  Bytes, Map, Result, Slice, Str, [], arith, bytes_of, false, get, length, none, ok, some, ◌<◌, ◌^◌,
  ◌≡◌, ◌≢◌, deadlock, err, panic, refl, ◌∷◌, ◌+◌,
}
use marblerun.Store.{
  DataCodec, Disk, Sealer, Transaction, commit, finish, load_state, new_std_store, publish, read,
  seal_state, after_unseal, load_raw, Loaded, Unsealed, loaded,
}

-- What the program relies on of encoding/json for maps of byte slices: a map is never written as
-- the empty text, and reading it back gives a map with the same entries.
pub record DataCodecLaws (js : DataCodec) : Type 0 where
  pub not_empty : (m : Map Bytes) → js.marshal m ≢ ok []
  pub reads_back :
      (m : Map Bytes) (raw : Bytes)
      → js.marshal m ≡ ok raw
      → (n : Map Bytes) × (js.unmarshal raw ≡ ok n) × ((k : Str) → get n k ≡ get m k)

-- What was sealed fits a file whose length a uint32 can hold.
abbrev pub Fits : Slice → Bytes → Type 0
Fits u raw = length (bytes_of u) + length raw + 32 < 2 ^ 32

-- Unsealing has given `raw` and the unencrypted data of `u`, with no error.
pub record Unseals (r : Result Unsealed) (u : Slice) (raw : Bytes) : Type 0 where
  pub unsealed : Unsealed
  pub result : r ≡ ok unsealed
  pub no_error : unsealed.error ≡ none
  pub decrypted_same : unsealed.decrypted ≡ some raw
  pub unencrypted_same : bytes_of unsealed.unencrypted ≡ bytes_of u

-- The promise of a sealer whose state is valid: after a successful Seal, Unseal returns what was
-- sealed, also after the memory of the sealer went through `restart`.
pub record SealsThrough (sl : Sealer) (Valid : sl.State → Type 0) (restart : sl.State → sl.State)
    : Type 0 where
  pub unseals :
      (u : Slice) (raw : Bytes) (s s' : sl.State)
      → Valid s
      → Fits u raw
      → sl.seal u raw s ≡ (ok tt, s')
      → Unseals (sl.unseal (restart s')).0 u raw

-- A store that has loaded the state `m` and the recovery data `u`.
pub record Reads {sl : Sealer} (m : Map Bytes) (u : Slice) (l : Result Loaded × Disk sl)
    : Type 0 where
  pub recovered : Slice
  pub succeeded : l.0 ≡ ok (loaded recovered none)
  pub same : bytes_of recovered ≡ bytes_of u
  pub entries : (k : Str) → read l.1.store.data_map k ≡ read m k

-- a new store on the disk of an old one
abbrev pub reopened : {sl : Sealer} → (sl.State → sl.State) → Disk sl → Disk sl
reopened restart d = record { store = new_std_store; sealer = restart d.sealer }

module _ (sl : Sealer) (js : DataCodec) (Valid : sl.State → Type 0) (restart : sl.State → sl.State)
    (laws : DataCodecLaws js) (seals : SealsThrough sl Valid restart) where
  -- what a successful commit has written and sealed
  sealed_by :
      (t : Transaction) (d : Disk sl) (r : Result Bytes)
      → js.marshal t.tx_data ≡ r
      → d.store.recovery_mode ≡ false
      → (commit sl js t d).0 ≡ ok tt
      → (raw : Bytes) × (js.marshal t.tx_data ≡ ok raw)
        × (sl.seal d.store.recovery_data raw d.sealer ≡ (ok tt, (commit sl js t d).1.sealer))
  unfolding commit seal_state publish finish proceed
  sealed_by t d (ok raw) h m e = (raw, h, ground arith)
  sealed_by t d (err x) h m e = ground arith
  sealed_by t d (panic p) h m e = ground arith
  sealed_by t d deadlock h m e = ground arith

  -- loading a state that unseals without an error
  loads :
      (m : Map Bytes) (u : Slice) (raw : Bytes) (d : Disk sl)
      → js.marshal m ≡ ok raw
      → Unseals (sl.unseal d.sealer).0 u raw
      → Reads m u (load_state sl js d)
  unfolding load_state after_unseal load_raw read proceed
  loads m u [] d h v = absurd (laws.not_empty m h)
  loads m u (b ∷ raw) d h v =
      let (n, parsed, same) = laws.reads_back m (b ∷ raw) h in
      record {
        recovered = v.unsealed.unencrypted;
        succeeded = ground (arith, v.result, v.no_error, v.decrypted_same);
        same = v.unencrypted_same;
        entries = λ k. ground (arith, v.result, v.no_error, v.decrypted_same, same k);
      }

  -- After a successful commit outside of recovery mode, a store that is opened on the same disk
  -- loads the committed data and the recovery data, if the sealer was in a valid state, what was
  -- sealed fits a file of less than 2^32 bytes, the sealer unseals after a restart what it sealed
  -- in a valid state, and the encoding of the data is read back.
  pub load_state-commit :
      (t : Transaction) (d : Disk sl)
      → d.store.recovery_mode ≡ false
      → Valid d.sealer
      → ((raw : Bytes) → js.marshal t.tx_data ≡ ok raw → Fits d.store.recovery_data raw)
      → (commit sl js t d).0 ≡ ok tt
      → Reads t.tx_data d.store.recovery_data
          (load_state sl js (reopened restart (commit sl js t d).1))
  load_state-commit t d m v l e =
      let (raw, h, s) = sealed_by t d (js.marshal t.tx_data) refl m e in
      loads t.tx_data d.store.recovery_data raw _ h
        (seals.unseals d.store.recovery_data raw d.sealer _ v (l raw h) s)
