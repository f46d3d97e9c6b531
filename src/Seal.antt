-- ===== src/Seal.antt =====
-- coordinator/seal/seal.go: sealing the state to files. The file system, the random numbers and
-- package ecrypto are the parameter `Platform`; file names are relative to the seal directory.
pub mod Framing
mod Tests
pub mod Concrete
pub mod Mock
pub mod Aes
pub mod NoEnclave
use marblerun.Base.{
  Bool, Bytes, Error, Result, Slice, Str, codes, encryption_key, false, length, not_exist, ok,
  str_eq, true, ℕ, ◌++◌, ◌+◌, ◌≡◌,
}
use marblerun.Base.Exec.{Exec}

-- What the sealers use of the operating system, of crypto/rand and of ecrypto.
pub record Platform : Type 1 where
  pub State : Type 0
  pub read_file : Str → State → Result Bytes
  pub write_file : Str → Bytes → State → Result (Unit {0}) × State
  pub encrypt : Bytes → Bytes → State → Result Bytes × State
  pub decrypt : Bytes → Bytes → Result Bytes
  pub seal_with_product_key : Bytes → State → Result Bytes × State
  pub unseal_key : Bytes → Result Bytes
  pub random_bytes : ℕ → State → Result Bytes × State
  pub format_now : State → Str

-- What the program relies on of these: a file that was written is read back, writing one file
-- leaves the others alone and so do encryption, sealing and random numbers; decryption undoes
-- encryption, which adds a nonce of 12 bytes and a tag of 16; unsealing undoes sealing.
pub record PlatformLaws (p : Platform) : Type 0 where
  pub read-write :
      (n : Str) (b : Bytes) (s s' : p.State)
      → p.write_file n b s ≡ (ok tt, s')
      → p.read_file n s' ≡ ok b
  pub read-write_ne :
      (n m : Str) (b : Bytes) (s : p.State)
      → str_eq n m ≡ false
      → p.read_file m (p.write_file n b s).1 ≡ p.read_file m s
  pub read-encrypt :
      (m : Str) (b k : Bytes) (s : p.State) → p.read_file m (p.encrypt b k s).1 ≡ p.read_file m s
  pub read-seal :
      (m : Str) (k : Bytes) (s : p.State)
      → p.read_file m (p.seal_with_product_key k s).1 ≡ p.read_file m s
  pub read-random :
      (m : Str) (n : ℕ) (s : p.State) → p.read_file m (p.random_bytes n s).1 ≡ p.read_file m s
  pub decrypt-encrypt :
      (b k c : Bytes) (s s' : p.State)
      → p.encrypt b k s ≡ (ok c, s')
      → (p.decrypt c k ≡ ok b) × (length c ≡ length b + 28)
  pub unseal-seal :
      (k c : Bytes) (s s' : p.State)
      → p.seal_with_product_key k s ≡ (ok c, s')
      → p.unseal_key c ≡ ok k

abbrev pub sealed_data_fname : Str
sealed_data_fname = codes "sealed_data"

abbrev pub sealed_key_fname : Str
sealed_key_fname = codes "sealed_key"

-- os.IsNotExist
abbrev pub is_not_exist : Error → Bool
is_not_exist not_exist = true
is_not_exist _ = false

-- AESGCMSealer and NoEnclaveSealer: the key in memory, and what lies outside of the process
pub record KeySealer (p : Platform) : Type 0 where
  pub encryption_key : Slice
  pub platform : p.State

-- an outcome of the platform as an outcome of the sealer
abbrev pub on_platform :
    {p : Platform} {A : Type 0} → (p.State → Result A × p.State) → Exec (KeySealer p) A
on_platform f s = let (r, w) = f s.platform in (r, record s { platform = w })

-- the file name of a backup of the sealed key
abbrev pub backup_fname : Str → Str
backup_fname time = sealed_key_fname ++ codes "_" ++ time ++ codes ".bak"
