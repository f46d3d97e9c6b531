-- ===== src/Util/Tests.antt =====
-- XORBytes on the bytes of its test.
use marblerun.Base.{Bytes, IsErr, [], arith, length, ok, refl, ◌∷◌, ◌≡◌, ◌≢◌, ◌⊎◌}
use marblerun.Util.{xor_all, xor_bytes}
use marblerun.Util.Xor.{xor_bytes_twice}

abbrev first_value : Bytes
first_value = 0xd ∷ 0xe ∷ 0xa ∷ []

abbrev second_value : Bytes
second_value = 0xb ∷ 0xa ∷ 0xd ∷ []

xor_value : xor_bytes first_value second_value ≡ ok (0x6 ∷ 0x4 ∷ 0x7 ∷ [])
unfolding xor_bytes xor_all
xor_value = refl

xor_bytes_twice_example :
    ((xor_bytes first_value second_value ≡ ok (xor_all first_value second_value))
      × (length first_value ≡ length second_value)
      × (xor_bytes (xor_all first_value second_value) second_value ≡ ok first_value))
    ⊎ (IsErr (xor_bytes first_value second_value) × (length first_value ≢ length second_value))
xor_bytes_twice_example = xor_bytes_twice first_value second_value (omega arith) (omega arith)
