-- ===== src/Recovery.antt =====
-- coordinator/recovery: the interface to the recovery of the encryption key, and the recovery by a
-- single party (single.go). parseRSAPublicKeyFromPEM with util.EncryptOAEP, and the random source,
-- are parameters.
use marblerun.Base.{
  Map, Bytes, Slice, Str, [], bytes_of, errorf, keys, length, ltb, none, ok, put, some, ℕ, ◌∷◌,
  Result, deadlock, err, panic,
}
use marblerun.Base.Exec.{Exec, ◌>>=◌, ◌>>◌, pure, reject_if}

-- recovery.Recovery, with the state that an implementation keeps
pub record Recovery : Type 1 where
  pub State : Type 0
  pub generate_encryption_key : Map Str → Exec State Bytes
  pub generate_recovery_data : Map Str → Exec State (Map Bytes × Slice)
  pub recover_key : Bytes → Exec State (ℕ × Bytes)
  pub get_recovery_data : Exec State Slice
  pub set_recovery_data : Slice → Exec State (Unit {0})

-- what the single-party recovery calls outside its code
pub record RecoveryCrypto : Type 1 where
  pub Random : Type 0
  pub random_key : ℕ → Exec Random Bytes
  pub encrypt_for : Str → Bytes → Exec Random Bytes

pub record SingleParty (rc : RecoveryCrypto) : Type 0 where
  pub encryption_key : Slice
  pub random : rc.Random

module _ (rc : RecoveryCrypto) where
  pub on_random : {A : Type 0} → Exec rc.Random A → Exec (SingleParty rc) A
  on_random f s = let (r, x) = f s.random in (r, record s { random = x })

  -- `r.encryptionKey, err = generateRandomKey()`: an error sets the key to nil
  keep_key : Result Bytes × SingleParty rc → Result Bytes × SingleParty rc
  keep_key (ok key, s) = (ok key, record s { encryption_key = some key })
  keep_key (err e, s) = (err e, record s { encryption_key = none })
  keep_key (panic m, s) = (panic m, s)
  keep_key (deadlock, s) = (deadlock, s)

  -- GenerateEncryptionKey
  unfoldable pub generate_encryption_key : Map Str → Exec (SingleParty rc) Bytes
  unfolding on_random keep_key
  generate_encryption_key recovery_keys = do
    reject_if (ltb 1 (length recovery_keys))
        (errorf "multi-party recovery is not supported in this version of MarbleRun" [])
    λ s. keep_key (on_random (rc.random_key 16) s)

  -- the loop over the recovery keys
  encrypt_all : Map Str → Map Bytes → Exec (SingleParty rc) (Map Bytes)
  encrypt_all [] secret_map = pure secret_map
  encrypt_all ((index, value) ∷ keys) secret_map = do
    key ← (λ s. (ok s.encryption_key, s))
    encrypted ← on_random (rc.encrypt_for value (bytes_of key))
    encrypt_all keys (put secret_map index encrypted)

  -- GenerateRecoveryData
  unfoldable pub generate_recovery_data : Map Str → Exec (SingleParty rc) (Map Bytes × Slice)
  unfolding encrypt_all
  generate_recovery_data recovery_keys = do
    secret_map ← encrypt_all recovery_keys []
    pure (secret_map, none)

  -- SinglePartyRecovery as a recovery.Recovery
  abbrev pub single_party : Recovery
  single_party = record {
    State = SingleParty rc;
    generate_encryption_key = generate_encryption_key;
    generate_recovery_data = generate_recovery_data;
    recover_key = λ secret. pure (0, secret);
    get_recovery_data = pure none;
    set_recovery_data = λ encoded. pure tt;
  }
