-- ===== src/Seal/NoEnclave.antt =====
-- NoEnclaveSealer of coordinator/seal/seal.go: the key lies in plaintext beside the sealed data.
pub mod Roundtrip
use marblerun.Base.{
  Bytes, Error, Result, Slice, bytes_of, deadlock, encryption_key, err, if◌then◌else◌, is_nil, none,
  ok, panic, some,
}
use marblerun.Seal.{
  KeySealer, Platform, is_not_exist, on_platform, sealed_data_fname, sealed_key_fname,
}
use marblerun.Seal.Framing.{frame, unframe_plain}
use marblerun.Store.{Sealer, Unsealed}
use marblerun.Base.Exec.{Exec, ◌>>=◌, ◌>>◌, pure, lift, gets}

module _ (p : Platform) where
  -- SetEncryptionKey: the key in memory changes even if it cannot be written
  unfoldable pub set_encryption_key : Bytes → Exec (KeySealer p) (Unit {0})
  set_encryption_key key s =
      on_platform (p.write_file sealed_key_fname key) (record s { encryption_key = some key })

  -- the end of loadEncryptionKey
  hold_key : Bytes → Exec (KeySealer p) (Unit {0})
  hold_key key s = (ok tt, record s { encryption_key = some key })

  -- loadEncryptionKey
  unfoldable pub load_encryption_key : Exec (KeySealer p) (Unit {0})
  unfolding hold_key
  load_encryption_key s =
      if is_nil s.encryption_key
      then (lift (p.read_file sealed_key_fname s.platform) >>= hold_key) s
      else (ok tt, s)

  -- generateNewEncryptionKey
  unfoldable pub generate_plain_key : Exec (KeySealer p) (Unit {0})
  generate_plain_key = do key ← on_platform (p.random_bytes 16); set_encryption_key key

  -- a missing key file is answered by a new key, any other error is returned
  unfoldable pub loaded_or_new : Result (Unit {0}) × KeySealer p → Result (Unit {0}) × KeySealer p
  loaded_or_new (err e, s) = if is_not_exist e then generate_plain_key s else (err e, s)
  loaded_or_new (r, s) = (r, s)

  -- Seal
  unfoldable pub seal : Slice → Bytes → Exec (KeySealer p) (Unit {0})
  seal unencrypted to_be_encrypted = do
    λ s. loaded_or_new (load_encryption_key s)
    key ← gets (λ s. s.encryption_key)
    encrypted ← on_platform (p.encrypt to_be_encrypted (bytes_of key))
    on_platform (p.write_file sealed_data_fname (frame unencrypted encrypted))
    on_platform (p.write_file sealed_key_fname (bytes_of key))

  -- an error before the unencrypted data are known
  refuse_all : Error → Unsealed
  refuse_all e = record { unencrypted = none; decrypted = none; error = some e }

  -- Unseal after decryption
  decrypted_with : Slice → Result Bytes → Result Unsealed
  decrypted_with u (ok b) = ok (record { unencrypted = u; decrypted = some b; error = none })
  decrypted_with u (err e) =
      ok (record { unencrypted = u; decrypted = none; error = some encryption_key })
  decrypted_with u (panic m) = panic m
  decrypted_with u deadlock = deadlock

  -- Unseal after the file has been taken apart
  unseal_framed : Bytes → Result (Slice × Bytes) → Result Unsealed
  unfolding decrypted_with
  unseal_framed key_data (ok (u, c)) = decrypted_with u (p.decrypt c key_data)
  unseal_framed key_data (err e) = ok (refuse_all e)
  unseal_framed key_data (panic m) = panic m
  unseal_framed key_data deadlock = deadlock

  -- Unseal after the key has been read
  unseal_with_key : Bytes → Result Bytes → Result Unsealed
  unfolding unseal_framed
  unseal_with_key sealed (ok key_data) = unseal_framed key_data (unframe_plain sealed)
  unseal_with_key sealed (err e) = ok (refuse_all e)
  unseal_with_key sealed (panic m) = panic m
  unseal_with_key sealed deadlock = deadlock

  -- Unseal after the data have been read
  unseal_data : Result Bytes → Result Bytes → Result Unsealed
  unfolding unseal_with_key
  unseal_data (ok sealed) key = unseal_with_key sealed key
  unseal_data (err e) key =
      if is_not_exist e
      then ok (record { unencrypted = none; decrypted = none; error = none })
      else ok (refuse_all e)
  unseal_data (panic m) key = panic m
  unseal_data deadlock key = deadlock

  -- Unseal
  pub unseal : KeySealer p → Result Unsealed × KeySealer p
  unfolding unseal_data
  unseal s = (
    unseal_data (p.read_file sealed_data_fname s.platform)
        (p.read_file sealed_key_fname s.platform),
    s,
  )

  -- NoEnclaveSealer as a seal.Sealer
  abbrev pub no_enclave_sealer : Sealer
  no_enclave_sealer = record {
    State = KeySealer p;
    seal = seal;
    unseal = unseal;
    set_encryption_key = set_encryption_key;
  }
