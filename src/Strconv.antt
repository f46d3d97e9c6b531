-- ===== src/Strconv.antt =====
-- The conversions of package strconv by which the store's wrapper writes numbers:
-- FormatUint and ParseUint in base 16, Itoa and Atoi. `int` and `uint` have 64 bits.
pub mod Roundtrip
use marblerun.Base.{
  Bool, Option, Result, Str, [], deadlock, err, false, foreign, if◌then◌else◌, leb, ltb, none, ok,
  panic, some, suc, true, zero, ℕ, ◌%◌, ◌&&◌, ◌*◌, ◌++◌, ◌+◌, ◌-◌, ◌/◌, ◌==◌, ◌^◌, ◌∷◌,
}

pub data ℤ : Type 0 where
  pos : ℕ → ℤ
  negsuc : ℕ → ℤ

-- a == b and a < b of Go's int
abbrev pub int_eq : ℤ → ℤ → Bool
int_eq (pos a) (pos b) = a == b
int_eq (pos a) (negsuc b) = false
int_eq (negsuc a) (pos b) = false
int_eq (negsuc a) (negsuc b) = a == b

abbrev pub int_lt : ℤ → ℤ → Bool
int_lt (pos a) (pos b) = ltb a b
int_lt (pos a) (negsuc b) = false
int_lt (negsuc a) (pos b) = true
int_lt (negsuc a) (negsuc b) = ltb b a

-- the character of a digit below 16
digit : ℕ → ℕ
digit d = if ltb d 10 then d + 48 else d + 87

-- the value of a character in a base of at most 16
digit_value : ℕ → ℕ → Option ℕ
digit_value base c =
    let v =
      if leb 48 c && leb c 57
      then c - 48
      else if leb 97 c && leb c 102
      then c - 87
      else if leb 65 c && leb c 70
      then c - 55
      else 16 in
    if ltb v base then some v else none

-- The digits of `n`, the least significant last, on fuel.
digits : ℕ → ℕ → ℕ → Str
digits base zero n = digit n ∷ []
digits base (suc fuel) n = elim (ltb n base) [
  | true ↦ digit n ∷ []
  | false ↦ digits base fuel (n / base) ++ digit (n % base) ∷ []
]

-- The number that the characters write after `acc`.
read_digits : ℕ → ℕ → Str → Option ℕ
read_digits base acc [] = some acc
read_digits base acc (c ∷ s) = elim (digit_value base c) [
  | none ↦ none
  | some v ↦ read_digits base (acc * base + v) s
]

-- A number in a text that must not be empty, at most `limit`.
read_number : ℕ → ℕ → Str → Result ℕ
unfolding read_digits digit_value
read_number base limit [] = err (foreign "strconv: invalid syntax")
read_number base limit (c ∷ s) = elim (read_digits base 0 (c ∷ s)) [
  | none ↦ err (foreign "strconv: invalid syntax")
  | some n ↦ if leb n limit then ok n else err (foreign "strconv: value out of range")
]

abbrev pub max_uint : ℕ
max_uint = 2 ^ 64 - 1

-- strconv.FormatUint(n, 16)
unfoldable pub format_hex : ℕ → Str
unfolding digits digit
format_hex n = digits 16 n n

-- strconv.ParseUint(s, 16, 64)
unfoldable pub parse_hex : Str → Result ℕ
unfolding read_number
parse_hex s = read_number 16 max_uint s

-- strconv.Itoa(z)
unfoldable pub itoa : ℤ → Str
unfolding digits digit
itoa (pos n) = digits 10 n n
itoa (negsuc n) = b'-' ∷ digits 10 (n + 1) (n + 1)

negated : ℕ → ℤ
negated zero = pos 0
negated (suc n) = negsuc n

as_negative : Result ℕ → Result ℤ
as_negative (ok n) = ok (negated n)
as_negative (err e) = err e
as_negative (panic m) = panic m
as_negative deadlock = deadlock

as_positive : Result ℕ → Result ℤ
as_positive (ok n) = ok (pos n)
as_positive (err e) = err e
as_positive (panic m) = panic m
as_positive deadlock = deadlock

-- strconv.Atoi(s)
unfoldable pub atoi : Str → Result ℤ
unfolding read_number as_negative negated as_positive
atoi [] = err (foreign "strconv: invalid syntax")
atoi (c ∷ s) =
    if c == b'-'
    then as_negative (read_number 10 (2 ^ 63) s)
    else as_positive (read_number 10 (2 ^ 63 - 1) (if c == b'+' then s else c ∷ s))
