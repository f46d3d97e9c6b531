-- ===== src/Strconv/Roundtrip.antt =====
-- What is written is read back.
use marblerun.Base.{
  Str, [], arith, some, suc, zero, ℕ, ◌*◌, ◌++◌, ◌+◌, ◌<◌, ◌∷◌, ◌≡◌, ◌≤◌, Bool-cases, Option-cases,
  ap, inl, inr, ltb, ltb→lt, ◌%◌, ◌/◌, ◌∙◌, ok, ◌^◌, false, refl, true, ◌-◌,
}
use marblerun.Strconv.{
  digit, digit_value, digits, read_digits, atoi, format_hex, itoa, max_uint, parse_hex, pos,
  as_positive, read_number,
}
use native.Mathlib.Nat.{div-lt_self, div-add-mod'}

digit_value-digit : (base d : ℕ) → base ≤ 16 → d < base → digit_value base (digit d) ≡ some d
unfolding digit digit_value
digit_value-digit base d b h = ground arith

read_digits-append :
    (base acc : ℕ) (s : Str) (c : ℕ) {n v : ℕ}
    → read_digits base acc s ≡ some n
    → digit_value base c ≡ some v
    → read_digits base acc (s ++ c ∷ []) ≡ some (n * base + v)
unfolding read_digits
read_digits-append base acc [] c e h = ground arith
read_digits-append base acc (d ∷ s) c e h = elim (Option-cases (digit_value base d)) [
  | inl bad ↦ ground arith
  | inr (w, good) ↦
      rw (good, read_digits)
        (read_digits-append base (acc * base + w) s c (rw (good, read_digits) at e) h)
]

quotient_le : (n base fuel : ℕ) → 2 ≤ base → n ≤ suc fuel → base ≤ n → n / base ≤ fuel
quotient_le n base fuel b h g =
    omega (arith, div-lt_self {n = n} {k = base} (omega arith) (omega arith))

digits_small : (base fuel n : ℕ) → ltb n base ≡ true → digits base (suc fuel) n ≡ digit n ∷ []
unfolding digits
digits_small base fuel n h = rw (h, digits)

digits_large :
    (base fuel n : ℕ)
    → ltb n base ≡ false
    → digits base (suc fuel) n ≡ digits base fuel (n / base) ++ digit (n % base) ∷ []
unfolding digits
digits_large base fuel n h = rw (h, digits)

read_one : (base n : ℕ) → base ≤ 16 → n < base → read_digits base 0 (digit n ∷ []) ≡ some n
unfolding read_digits
read_one base n b h = rw (digit_value-digit base n b h, read_digits) (ap some (omega arith))

read_digits-digits :
    (base fuel n : ℕ)
    → 2 ≤ base
    → base ≤ 16
    → n ≤ fuel
    → read_digits base 0 (digits base fuel n) ≡ some n
read_digits-digits base zero n b b' h = unfold digits in read_one base n b' (omega arith)
read_digits-digits base (suc fuel) n b b' h = elim (Bool-cases (ltb n base)) [
  | inl small ↦ rw (digits_small base fuel n small) (read_one base n b' (ltb→lt n base small))
  | inr large ↦ rw (digits_large base fuel n large) (
      read_digits-append base 0 (digits base fuel (n / base)) (digit (n % base))
        (read_digits-digits base fuel (n / base) b b' (quotient_le n base fuel b h (ground arith)))
        (digit_value-digit base (n % base) b' (omega arith))
      ∙ ap some (div-add-mod' n base))
]

digit_low : (d : ℕ) → 48 ≤ digit d
unfolding digit
digit_low d = ground arith

-- The digits of a number are not empty and begin with no sign.
digits-head : (base fuel n : ℕ) → (c : ℕ) × (s : Str) × (digits base fuel n ≡ c ∷ s) × (48 ≤ c)
digits-head base zero n = (digit n, [], unfold digits in refl, digit_low n)
digits-head base (suc fuel) n = elim (Bool-cases (ltb n base)) [
  | inl small ↦ (digit n, [], digits_small base fuel n small, digit_low n)
  | inr large ↦
      let (c, s, e, l) = digits-head base fuel (n / base) in
      (c, s ++ digit (n % base) ∷ [], rw (digits_large base fuel n large, e), l)
]

-- A text that begins with a digit is read as its digits, if they write a number in range.
read_number-eq-ok :
    (base limit n : ℕ) (s : Str)
    → (c : ℕ) × (t : Str) × (s ≡ c ∷ t) × (48 ≤ c)
    → read_digits base 0 s ≡ some n
    → n ≤ limit
    → read_number base limit s ≡ ok n
unfolding read_number
read_number-eq-ok base limit n [] (c, t, e, l) r h = cc
read_number-eq-ok base limit n (d ∷ s) w r h = rw (r, read_number) (ground arith)

pub parse_hex-format_hex : (n : ℕ) → n ≤ max_uint → parse_hex (format_hex n) ≡ ok n
parse_hex-format_hex n h =
    unfold parse_hex format_hex in
    read_number-eq-ok 16 max_uint n (digits 16 n n) (digits-head 16 n n)
      (read_digits-digits 16 n n (omega arith) (omega arith) (omega arith)) h

atoi_digits :
    (n : ℕ) (s : Str)
    → (c : ℕ) × (t : Str) × (s ≡ c ∷ t) × (48 ≤ c)
    → read_number 10 (2 ^ 63 - 1) s ≡ ok n
    → atoi s ≡ ok (pos n)
atoi_digits n [] (c, t, e, l) h = cc
atoi_digits n (d ∷ s) (c, t, e, l) h = unfold atoi as_positive in ground (arith, h)

pub atoi-itoa : (n : ℕ) → n < 2 ^ 63 → atoi (itoa (pos n)) ≡ ok (pos n)
atoi-itoa n h =
    unfold itoa in
    atoi_digits n (digits 10 n n) (digits-head 10 n n) (
      read_number-eq-ok 10 (2 ^ 63 - 1) n (digits 10 n n) (digits-head 10 n n)
        (read_digits-digits 10 n n (omega arith) (omega arith) (omega arith)) (omega arith))
