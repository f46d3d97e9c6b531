-- ===== src/Seal/Aes.antt =====
-- AESGCMSealer of coordinator/seal/seal.go.
pub mod Roundtrip
use marblerun.Base.{
  Bytes, Error, Result, Slice, bytes_of, deadlock, encryption_key, err, has, if◌then◌else◌, is_nil,
  none, ok, panic, some,
}
use marblerun.Seal.{
  KeySealer, Platform, backup_fname, is_not_exist, on_platform, sealed_data_fname, sealed_key_fname,
}
use marblerun.Seal.Framing.{frame, unframe}
use marblerun.Store.{Sealer, Unsealed, read}
use marblerun.Base.Exec.{Exec, ◌>>=◌, ◌>>◌, pure, lift, fail, gets}

module _ (p : Platform) where
  -- backupEncryptionKey: errors of reading and writing are dropped
  unfoldable pub backup_encryption_key : KeySealer p → KeySealer p
  backup_encryption_key s = elim (p.read_file sealed_key_fname s.platform) [
    | ok key_data ↦ record s {
      platform = (p.write_file (backup_fname (p.format_now s.platform)) key_data s.platform).1;
    }
    | _ ↦ s
  ]

  -- the steps of unsealEncryptionKey when no key is in memory
  unfoldable pub load_key : Exec (KeySealer p) (Unit {0})
  load_key = do
    key_data ← gets (λ s. p.read_file sealed_key_fname s.platform)
    key_data ← lift key_data
    key ← lift (p.unseal_key key_data)
    λ s. (ok tt, record s { encryption_key = some key })

  -- unsealEncryptionKey
  unfoldable pub unseal_encryption_key : Exec (KeySealer p) (Unit {0})
  unfolding load_key
  unseal_encryption_key s = if is_nil s.encryption_key then load_key s else (ok tt, s)

  -- SetEncryptionKey
  unfoldable pub set_encryption_key : Bytes → Exec (KeySealer p) (Unit {0})
  unfolding backup_encryption_key
  set_encryption_key key = do
    λ s. (ok tt, backup_encryption_key s)
    sealed_key ← on_platform (p.seal_with_product_key key)
    on_platform (p.write_file sealed_key_fname sealed_key)
    λ s. (ok tt, record s { encryption_key = some key })

  -- generateNewEncryptionKey
  unfoldable pub generate_new_encryption_key : Exec (KeySealer p) (Unit {0})
  generate_new_encryption_key = do key ← on_platform (p.random_bytes 16); set_encryption_key key

  -- a missing key file is answered by a new key, any other error is returned
  unfoldable pub or_generate : Result (Unit {0}) × KeySealer p → Result (Unit {0}) × KeySealer p
  or_generate (ok u, s) = (ok u, s)
  or_generate (err e, s) = if is_not_exist e then generate_new_encryption_key s else (err e, s)
  or_generate (panic m, s) = (panic m, s)
  or_generate (deadlock, s) = (deadlock, s)

  -- the first block of Seal
  unfoldable pub ensure_key : Exec (KeySealer p) (Unit {0})
  ensure_key s = or_generate (unseal_encryption_key s)

  -- Seal
  unfoldable pub seal : Slice → Bytes → Exec (KeySealer p) (Unit {0})
  seal unencrypted to_be_encrypted = do
    ensure_key
    key ← gets (λ s. s.encryption_key)
    encrypted ← on_platform (p.encrypt to_be_encrypted (bytes_of key))
    on_platform (p.write_file sealed_data_fname (frame unencrypted encrypted))

  -- decryption with the key in memory, at the end of Unseal
  decrypt_part : Slice → Bytes → Result (Unit {0}) × KeySealer p → Result Unsealed × KeySealer p
  decrypt_part u c (ok k, s) = elim (p.decrypt c (bytes_of s.encryption_key)) [
    | ok b ↦ (ok (record { unencrypted = u; decrypted = some b; error = none }), s)
    | err e ↦ (ok (record { unencrypted = u; decrypted = none; error = some e }), s)
    | panic m ↦ (panic m, s)
    | deadlock ↦ (deadlock, s)
  ]
  decrypt_part u c (err e, s) =
      (ok (record { unencrypted = u; decrypted = none; error = some encryption_key }), s)
  decrypt_part u c (panic m, s) = (panic m, s)
  decrypt_part u c (deadlock, s) = (deadlock, s)

  -- an error of Unseal before the unencrypted data are known
  refuse : Error → Unsealed
  refuse e = record { unencrypted = none; decrypted = none; error = some e }

  -- Unseal after the file has been taken apart
  unseal_parts : Result (Slice × Bytes) → KeySealer p → Result Unsealed × KeySealer p
  unseal_parts (ok (u, c)) s = decrypt_part u c (unseal_encryption_key s)
  unseal_parts (err e) s = (ok (refuse e), s)
  unseal_parts (panic m) s = (panic m, s)
  unseal_parts deadlock s = (deadlock, s)

  -- Unseal after the file has been read
  unseal_file : Result Bytes → KeySealer p → Result Unsealed × KeySealer p
  unseal_file (ok sealed) s = unseal_parts (unframe sealed) s
  unseal_file (err e) s =
      if is_not_exist e
      then (
        ok (record { unencrypted = none; decrypted = none; error = none }),
        backup_encryption_key s,
      )
      else (ok (refuse e), s)
  unseal_file (panic m) s = (panic m, s)
  unseal_file deadlock s = (deadlock, s)

  -- Unseal
  pub unseal : KeySealer p → Result Unsealed × KeySealer p
  unfolding unseal_file
  unseal s = unseal_file (p.read_file sealed_data_fname s.platform) s

  -- AESGCMSealer as a seal.Sealer
  abbrev pub aes_sealer : Sealer
  aes_sealer = record {
    State = KeySealer p;
    seal = seal;
    unseal = unseal;
    set_encryption_key = set_encryption_key;
  }
