-- ===== src/Seal/Framing.antt =====
-- The layout of the sealed file: the length of the unencrypted data as a little-endian uint32,
-- the unencrypted data, and the ciphertext. Seal writes it and Unseal takes it apart.
use marblerun.Base.{
  Bytes, Result, Slice, [], bytes_of, drop, errorf, if◌then◌else◌, leb, length, ltb, none, ok,
  panic, some, take, ℕ, ◌%◌, ◌&&◌, ◌*◌, ◌++◌, ◌+◌, ◌-◌, ◌/◌, ◌==◌, ◌^◌, ◌∷◌, not,
}
pub mod Layout
use marblerun.Base.Pure.{◌>>=◌, ◌>>◌, reject_if}

abbrev pub uint32_mod : ℕ
uint32_mod = 2 ^ 32

-- binary.LittleEndian.PutUint32
pub put_uint32 : ℕ → Bytes
put_uint32 n = n % 256 ∷ n / 256 % 256 ∷ n / 65536 % 256 ∷ n / 16777216 % 256 ∷ []

-- binary.LittleEndian.Uint32 of the first four bytes; fewer than four panic
unfoldable pub uint32_of : Bytes → Result ℕ
uint32_of (a ∷ b ∷ c ∷ d ∷ rest) = ok (a + b * 256 + c * 65536 + d * 16777216)
uint32_of _ = panic "slice bounds out of range"

-- 4 + n in uint32
abbrev pub end_of : ℕ → ℕ
end_of n = (4 + n) % uint32_mod

-- data[lo:hi] of Go, for a slice whose capacity is its length
unfoldable pub slice : Bytes → ℕ → ℕ → Result Bytes
slice data_bytes lo hi =
    if leb lo hi && leb hi (length data_bytes)
    then ok (take (hi - lo) (drop lo data_bytes))
    else panic "slice bounds out of range"

-- The file that Seal writes. The length is cut to a uint32.
pub frame : Slice → Bytes → Bytes
frame unencrypted ciphertext =
    (put_uint32 (length (bytes_of unencrypted) % uint32_mod) ++ bytes_of unencrypted) ++ ciphertext

-- `if encodedUnencryptDataLength != 0 { unencryptedData = sealedData[4 : 4+len] }`
unencrypted_part : Bytes → ℕ → Result Slice
unencrypted_part sealed n =
    if n == 0 then ok none else do b ← slice sealed 4 (end_of n); ok (some b)

-- the two parts of a sealed file of the given embedded length
split_at : Bytes → ℕ → Result (Slice × Bytes)
split_at sealed n = do
  unencrypted ← unencrypted_part sealed n
  ciphertext ← slice sealed (end_of n) (length sealed)
  ok (unencrypted, ciphertext)

-- The part of AESGCMSealer.Unseal that takes the file apart; the bounds check is in uint32.
pub unframe : Bytes → Result (Slice × Bytes)
unframe sealed = do
  reject_if (leb (length sealed) 4) (errorf "sealed state is missing data" [])
  n ← uint32_of sealed
  reject_if (ltb (length sealed % uint32_mod) (end_of n))
      (errorf "sealed state is corrupted, embedded length does not fit the data" [])
  split_at sealed n

-- The same part of NoEnclaveSealer.Unseal: no check for four bytes, the bounds check in int.
pub unframe_plain : Bytes → Result (Slice × Bytes)
unframe_plain sealed = do
  n ← uint32_of sealed
  reject_if (ltb (length sealed) (4 + n))
      (errorf "sealed state is corrupted, embedded length does not fit the data" [])
  split_at sealed n
