-- ===== src/Util/Xor.antt =====
-- Exclusive or with the same bytes twice gives back what there was.
use marblerun.Base.{
  All, Bool, Bool-cases, Bytes, IsErr, [], ap, arith, inl, inr, length, ok, refl, suc, true, zero,
  ℕ, ◌&&◌, ◌<◌, ◌==◌, ◌∷◌, ◌≡◌, ◌≢◌, ◌⊎◌,
}
use marblerun.Util.{xor_all, xor_bytes}
use Prim.Native.Nat.{bit_xor}

-- the test at each number under a bound
holds_under : (ℕ → Bool) → ℕ → Bool
holds_under test zero = true
holds_under test (suc bound) = holds_under test bound && test bound

holds_under-at :
    (test : ℕ → Bool) (bound i : ℕ) → holds_under test bound ≡ true → i < bound → test i ≡ true
unfolding holds_under
holds_under-at test zero i h lt = absurd (omega arith)
holds_under-at test (suc bound) i h lt = ground (arith, holds_under-at test bound i)

-- a pair of bytes, by its two coordinates
abbrev restores : ℕ → ℕ → Bool
restores y x = bit_xor (bit_xor x y) y == x

every_pair : holds_under (λ y. holds_under (restores y) 256) 256 ≡ true
unfolding holds_under
every_pair = refl

bit_xor_twice : (x y : ℕ) → x < 256 → y < 256 → bit_xor (bit_xor x y) y ≡ x
bit_xor_twice x y h k =
    let column = holds_under-at (λ b. holds_under (restores b) 256) 256 y every_pair k in
    ground (arith, holds_under-at (restores y) 256 x column h)

abbrev pub AreBytes : Bytes → Type 0
AreBytes b = All (λ x. x < 256) b

xor_all_twice :
    (a b : Bytes) → AreBytes a → AreBytes b → length a ≡ length b → xor_all (xor_all a b) b ≡ a
unfolding xor_all
xor_all_twice [] b ha hb e = refl
xor_all_twice (x ∷ a) [] ha hb e = absurd (omega arith)
xor_all_twice (x ∷ a) (y ∷ b) ha hb e =
    rw (bit_xor_twice x y ha.0 hb.0) (ap (λ l. x ∷ l) (xor_all_twice a b ha.1 hb.1 (omega arith)))

length-xor_all : (a b : Bytes) → length a ≡ length b → length (xor_all a b) ≡ length a
unfolding xor_all
length-xor_all [] b e = refl
length-xor_all (x ∷ a) [] e = absurd (omega arith)
length-xor_all (x ∷ a) (y ∷ b) e = ap suc (length-xor_all a b (omega arith))

-- XORBytes fails exactly on slices of different lengths; of bytes of the same length it gives a slice
-- from which a second XORBytes with the same slice gives back the first.
pub xor_bytes_twice :
    (a b : Bytes)
    → AreBytes a
    → AreBytes b
    → ((xor_bytes a b ≡ ok (xor_all a b))
        × (length a ≡ length b)
        × (xor_bytes (xor_all a b) b ≡ ok a))
      ⊎ (IsErr (xor_bytes a b) × (length a ≢ length b))
unfolding xor_bytes
xor_bytes_twice a b ha hb = elim (Bool-cases (length a == length b)) [
  | inl same ↦
      let e : length a ≡ length b = ground (arith, same) in
      inl (
        rw (same, xor_bytes) refl,
        e,
        rw (length-xor_all a b e) (rw same (ap ok (xor_all_twice a b ha hb e))),
      )
  | inr other ↦ inr (ground (arith, other), ground (arith, other))
]
