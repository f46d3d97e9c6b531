-- ===== src/Base/Text.antt =====
-- Go's strings as lists of code points and byte slices as lists of bytes, with the functions of
-- package strings that the source calls.
use Prim.Native.Nat.{ℕ, ◌+◌}
use Prim.Native.Char.{code}
use Prim.Native.String.{String}
use mathlib.Core.Path.{◌≡◌, refl}
use mathlib.Core.Logic.{◌↔◌}
use mathlib.Core.Bool.{Bool, true, false, ◌&&◌, not}
use mathlib.Core.Option.{Option, none, some}
use mathlib.Core.List.{List, [], ◌∷◌, ◌++◌, map}
use native.Mathlib.Omega.{arith}
use marblerun.Base.Tests.{◌==◌, leb, if◌then◌else◌}

abbrev pub Str : Type 0
Str = List ℕ

abbrev pub Bytes : Type 0
Bytes = List ℕ

-- A string literal of the source.
abbrev pub codes : String → Str
codes String.[] = []
codes (String.◌∷◌ c s) = code c ∷ codes s

-- s == t
unfoldable pub str_eq : Str → Str → Bool
str_eq [] [] = true
str_eq [] (d ∷ t) = false
str_eq (c ∷ s) [] = false
str_eq (c ∷ s) (d ∷ t) = (c == d) && str_eq s t

pub str_eq_iff : (s t : Str) → (str_eq s t ≡ true) ↔ (s ≡ t)
unfolding str_eq
str_eq_iff [] [] = ground arith
str_eq_iff [] (d ∷ t) = ground arith
str_eq_iff (c ∷ s) [] = ground arith
str_eq_iff (c ∷ s) (d ∷ t) = ground (arith, str_eq_iff s t)

pub str_eq_refl : (s : Str) → str_eq s s ≡ true
str_eq_refl s = (str_eq_iff s s).1 refl

-- s == ""
abbrev pub is_empty {ℓ} : {A : Type ℓ} → List A → Bool
is_empty [] = true
is_empty (c ∷ s) = false

-- strings.HasPrefix(s, prefix), with the prefix first
unfoldable pub has_prefix : Str → Str → Bool
has_prefix [] s = true
has_prefix (c ∷ p) [] = false
has_prefix (c ∷ p) (d ∷ s) = (c == d) && has_prefix p s

-- what strings.TrimPrefix leaves when the prefix is there
after_prefix : Str → Str → Str
after_prefix [] s = s
after_prefix (c ∷ p) [] = []
after_prefix (c ∷ p) (d ∷ s) = after_prefix p s

-- strings.TrimPrefix(s, prefix), with the prefix first
unfoldable pub trim_prefix : Str → Str → Str
unfolding has_prefix after_prefix
trim_prefix p s = if has_prefix p s then after_prefix p s else s

after_prefix-append : (p s : Str) → after_prefix p (p ++ s) ≡ s
unfolding after_prefix
after_prefix-append [] s = refl
after_prefix-append (c ∷ p) s = after_prefix-append p s

pub has_prefix-append : (p s : Str) → has_prefix p (p ++ s) ≡ true
unfolding has_prefix
has_prefix-append [] s = refl
has_prefix-append (c ∷ p) s = ground (arith, has_prefix-append p s)

pub trim_prefix-append : (p s : Str) → trim_prefix p (p ++ s) ≡ s
trim_prefix-append p s =
    unfold trim_prefix in ground (arith, has_prefix-append p s, after_prefix-append p s)

-- unicode.ToLower on the code points whose lower case is an ASCII letter; every other code point
-- keeps a non-ASCII or caseless image, so that comparisons with ASCII literals are exact.
lower_rune : ℕ → ℕ
lower_rune c =
    if leb b'A' c && leb c b'Z'
    then c + 32
    else if c == 0x130
    then b'i'
    else if c == 0x212a
    then b'k'
    else c

-- strings.ToLower(s)
unfoldable pub to_lower : Str → Str
unfolding lower_rune
to_lower = map lower_rune

-- The simple case folding of an ASCII letter, the Kelvin sign and the long s.
fold_rune : ℕ → ℕ
fold_rune c =
    if leb b'A' c && leb c b'Z'
    then c + 32
    else if c == 0x212a
    then b'k'
    else if c == 0x17f
    then b's'
    else c

-- strings.EqualFold(s, t), where one side is ASCII
unfoldable pub equal_fold : Str → Str → Bool
unfolding fold_rune
equal_fold s t = str_eq (map fold_rune s) (map fold_rune t)

pub equal_fold_refl : (s : Str) → equal_fold s s ≡ true
unfolding equal_fold
equal_fold_refl s = str_eq_refl (map fold_rune s)

-- strings.Contains(s, string(c)) for one character
unfoldable pub contains : ℕ → Str → Bool
contains c [] = false
contains c (d ∷ s) = if c == d then true else contains c s

-- A byte slice that may be nil.
abbrev pub Slice : Type 0
Slice = Option Bytes

-- What a nil slice reads as.
abbrev pub bytes_of : Slice → Bytes
bytes_of none = []
bytes_of (some b) = b

abbrev pub is_nil {ℓ} : {A : Type ℓ} → Option A → Bool
is_nil none = true
is_nil (some b) = false

abbrev pub bool_eq : Bool → Bool → Bool
bool_eq true b = b
bool_eq false b = not b
