-- ===== src/Manifest/Encode.antt =====
-- The functions that templates call on secrets: EncodeSecretDataTo… of
-- coordinator/manifest/manifest.go. pem.EncodeToMemory and base64 are parameters.
use marblerun.Base.{
  Bytes, Result, Slice, Str, String, [], bytes_of, codes, contains, err, errorf, if◌then◌else◌,
  is_empty, ltb, not, ok, str_eq, ℕ, ◌%◌, ◌+◌, ◌/◌, ◌∷◌,
}
use marblerun.Manifest.{Certificate, Secret}
use marblerun.Base.Pure.{◌>>=◌, ◌>>◌, reject_if}

-- the dynamic types that the functions tell apart; `other` is any other one
pub data SecretData : Type 0 where
  certificate_data : Certificate → SecretData
  public_data : Slice → SecretData
  private_data : Slice → SecretData
  bytes_data : Slice → SecretData
  secret_data : Secret → SecretData
  nil_data other_data : SecretData

-- the type and the bytes of a PEM block
pem_parts : SecretData → Result (String × Slice)
pem_parts (certificate_data c) = ok ("CERTIFICATE", c.raw)
pem_parts (public_data s) = ok ("PUBLIC KEY", s)
pem_parts (private_data s) = ok ("PRIVATE KEY", s)
pem_parts nil_data = err (errorf "secret does not exist" [])
pem_parts _ = err (errorf "invalid secret type for pem encoding" [])

-- EncodeSecretDataToPem
unfoldable pub encode_pem : (String → Bytes → Str) → SecretData → Result Str
unfolding pem_parts
encode_pem pem_encode d = do
  parts ← pem_parts d
  reject_if (is_empty (bytes_of parts.1)) (errorf "tried to parse secret with empty value" [])
  ok (pem_encode parts.0 (bytes_of parts.1))

raw_part : SecretData → Result Slice
raw_part (bytes_data s) = ok s
raw_part (private_data s) = ok s
raw_part (public_data s) = ok s
raw_part (secret_data s) = ok s.public_key
raw_part (certificate_data c) = ok c.raw
raw_part nil_data = err (errorf "secret does not exist" [])
raw_part other_data = err (errorf "invalid secret type" [])

-- EncodeSecretDataToRaw
unfoldable pub encode_raw : SecretData → Result Str
unfolding raw_part
encode_raw d = do
  raw ← raw_part d
  reject_if (is_empty (bytes_of raw)) (errorf "tried to parse secret with empty value" [])
  ok (bytes_of raw)

-- hex.EncodeToString
hex_digit : ℕ → ℕ
hex_digit d = if ltb d 10 then d + 48 else d + 87

unfoldable pub hex_string : Bytes → Str
unfolding hex_digit
hex_string [] = []
hex_string (b ∷ s) = hex_digit (b / 16) ∷ hex_digit (b % 16) ∷ hex_string s

-- EncodeSecretDataToHex
unfoldable pub encode_hex : SecretData → Result Str
encode_hex d = do raw ← encode_raw d; ok (hex_string raw)

-- EncodeSecretDataToBase64
unfoldable pub encode_base64 : (Bytes → Str) → SecretData → Result Str
encode_base64 base64 d = do raw ← encode_raw d; ok (base64 raw)

-- EncodeSecretDataToString
unfoldable pub encode_string : SecretData → Result Str
encode_string (secret_data s) = do
  reject_if (not (str_eq s.type_name (codes "plain"))) (
      errorf
        "only secrets of type plain are allowed to use string encoding for environment variables"
        [])
  reject_if (contains 0 (bytes_of s.public_key)) (errorf "secret contains null bytes" [])
  encode_raw (secret_data s)
encode_string nil_data = err (errorf "secret does not exist" [])
encode_string _ = err (
    errorf "only secrets of type plain are allowed to use string encoding for environment variables"
      [])
