-- ===== src/Base/Exec.antt =====
-- Actions on a state that end as a Go call does, with their `do` notation.
use mathlib.Core.Bool.{Bool, true, false}
use marblerun.Base.Results.{Result, Error, ok, err, panic, deadlock}

-- An action on a state; an error leaves the state that the failing call left.
abbrev pub Exec {ℓ} : Type ℓ → Type ℓ → Type ℓ
Exec S A = S → Result A × S

module _ {ℓ} {S A B : Type ℓ} where
  -- how the outcome of the first action goes on
  unfoldable pub proceed : Result A × S → (A → Exec S B) → Result B × S
  proceed (ok a, s) f = f a s
  proceed (err e, s) f = (err e, s)
  proceed (panic m, s) f = (panic m, s)
  proceed (deadlock, s) f = (deadlock, s)

  infixl 5 ◌>>=◌
  abbrev pub ◌>>=◌ : Exec S A → (A → Exec S B) → Exec S B
  ◌>>=◌ m f s = proceed (m s) f

module _ {ℓ} {S A : Type ℓ} where
  infixl 5 ◌>>◌
  abbrev pub ◌>>◌ : Exec S (Unit {ℓ}) → Exec S A → Exec S A
  m >> k = m >>= λ _. k

  abbrev pub pure : A → Exec S A
  pure a s = (ok a, s)

  abbrev pub lift : Result A → Exec S A
  lift r s = (r, s)

  abbrev pub fail : Error → Exec S A
  fail e s = (err e, s)

  abbrev pub gets : (S → A) → Exec S A
  gets f s = (ok (f s), s)

-- `if test { return err }`
abbrev pub reject_if {ℓ} : {S : Type ℓ} → Bool → Error → Exec S (Unit {ℓ})
reject_if true e s = (err e, s)
reject_if false e s = (ok tt, s)
