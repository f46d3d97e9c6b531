-- ===== src/Seal/Tests.antt =====
-- A corrupted sealed file, and a platform that meets its laws.
use marblerun.Seal.{KeySealer}
use marblerun.Seal.Aes.{
  backup_encryption_key, generate_new_encryption_key, seal, set_encryption_key, unseal,
  unseal_encryption_key, ensure_key, load_key, or_generate,
}
use marblerun.Seal.Aes.Roundtrip.{IsSynced, restarted, unseal-seal}
use marblerun.Seal.Concrete.{concrete_platform, concrete_platform-laws, read_map}
use marblerun.Store.Durable.{Unseals}
use marblerun.Seal.NoEnclave
use marblerun.Seal.NoEnclave.{generate_plain_key, load_encryption_key, loaded_or_new}
use marblerun.Seal.NoEnclave.Roundtrip.{no_enclave_unseal-seal}
use marblerun.Base.Exec.{proceed}
use marblerun.Base.{
  Bytes, [], arith, none, ok, panic, refl, some, ◌-◌, ◌^◌, ◌∷◌, ◌≡◌, get, put, str_eq,
}
use marblerun.Seal.Framing.{uint32_of, unframe}
use marblerun.Seal.Framing.Layout.{unframe_wraps}

-- a header of 2^32 - 1 and one byte of data
abbrev corrupted : Bytes
corrupted = 255 ∷ 255 ∷ 255 ∷ 255 ∷ 1 ∷ []

corrupted_header : uint32_of corrupted ≡ ok (2 ^ 32 - 1)
unfolding uint32_of proceed
corrupted_header = refl

unframe_wraps_example : unframe corrupted ≡ panic "slice bounds out of range"
unframe_wraps_example =
    unframe_wraps corrupted (2 ^ 32 - 1) (omega arith) (omega arith) corrupted_header (omega arith)
      (omega arith)

-- a sealer that has no key yet, on an empty disk
abbrev fresh : KeySealer concrete_platform
fresh = record { encryption_key = none; platform = [] }

fresh-IsSynced : IsSynced concrete_platform fresh
fresh-IsSynced = record { on_disk = λ k e. cc }

abbrev sealed_once : KeySealer concrete_platform
sealed_once = (seal concrete_platform (some (5 ∷ [])) (6 ∷ 7 ∷ []) fresh).1

seal_succeeds : seal concrete_platform (some (5 ∷ [])) (6 ∷ 7 ∷ []) fresh ≡ (ok tt, sealed_once)
unfolding seal ensure_key or_generate unseal_encryption_key load_key generate_new_encryption_key
    proceed set_encryption_key backup_encryption_key read_map get put str_eq
seal_succeeds = refl

unseal-seal_example :
    Unseals (unseal concrete_platform (restarted sealed_once)).0 (some (5 ∷ [])) (6 ∷ 7 ∷ [])
unseal-seal_example =
    unseal-seal concrete_platform concrete_platform-laws (some (5 ∷ [])) (6 ∷ 7 ∷ []) fresh
      sealed_once fresh-IsSynced (omega arith) seal_succeeds

abbrev plain_once : KeySealer concrete_platform
plain_once = (NoEnclave.seal concrete_platform (some (5 ∷ [])) (6 ∷ 7 ∷ []) fresh).1

plain_seal_succeeds :
    NoEnclave.seal concrete_platform (some (5 ∷ [])) (6 ∷ 7 ∷ []) fresh ≡ (ok tt, plain_once)
unfolding NoEnclave.seal loaded_or_new load_encryption_key generate_plain_key
    NoEnclave.set_encryption_key read_map get put str_eq proceed
plain_seal_succeeds = refl

no_enclave_unseal-seal_example :
    Unseals
      (NoEnclave.unseal concrete_platform (restarted plain_once)).0
      (some (5 ∷ []))
      (6 ∷ 7 ∷ [])
no_enclave_unseal-seal_example =
    no_enclave_unseal-seal concrete_platform concrete_platform-laws (some (5 ∷ [])) (6 ∷ 7 ∷ [])
      fresh plain_once (restarted plain_once) (omega arith) plain_seal_succeeds refl
