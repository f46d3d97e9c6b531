-- ===== src/Base/Maps.antt =====
-- Go maps with string keys as association lists. The order of the list is the order in which a
-- `range` loop meets the entries; theorems for every list hold for every order.
use mathlib.Core.Path.{◌≡◌, refl}
use mathlib.Core.Bool.{Bool, true, false}
use mathlib.Core.Option.{Option, none, some}
use mathlib.Core.List.{List, [], ◌∷◌}
use native.Mathlib.Omega.{arith}
use marblerun.Base.Tests.{if◌then◌else◌}
use marblerun.Base.Text.{Str, str_eq, str_eq_iff}

abbrev pub Map {ℓ} : Type ℓ → Type ℓ
Map V = List (Str × V)

module _ {ℓ} {V : Type ℓ} where
  -- v, ok := m[k]
  unfoldable pub get : Map V → Str → Option V
  get [] k = none
  get ((j, v) ∷ m) k = if str_eq j k then some v else get m k

  -- m[k] = v
  unfoldable pub put : Map V → Str → V → Map V
  put [] k v = (k, v) ∷ []
  put ((j, w) ∷ m) k v = if str_eq j k then (j, v) ∷ m else (j, w) ∷ put m k v

  -- the keys in the order of a range loop
  abbrev pub keys : Map V → List Str
  keys [] = []
  keys ((k, v) ∷ m) = k ∷ keys m

  -- for k, v := range n { m[k] = v }
  unfoldable pub put_all : Map V → Map V → Map V
  put_all m [] = m
  put_all m ((k, v) ∷ n) = put_all (put m k v) n

  abbrev pub has : Map V → Str → Bool
  has m k = elim (get m k) [ none ↦ false | some v ↦ true ]

  pub get-put :
      (m : Map V) (k j : Str) (v : V) → get (put m k v) j ≡ (if str_eq k j then some v else get m j)
  unfolding get put
  get-put [] k j v = refl
  get-put ((i, w) ∷ m) k j v =
      ground (arith, str_eq_iff k j, str_eq_iff i k, str_eq_iff i j, get-put m k j v)

  pub get-put_self : (m : Map V) (k : Str) (v : V) → get (put m k v) k ≡ some v
  get-put_self m k v = ground (arith, get-put m k k v, str_eq_iff k k)

pub ruleset map_laws = (get-put, get-put_self)
