-- ===== src/Base/Keeps.antt =====
-- What an action leaves true of the state, however it ends, with the rule to chain such facts.
use marblerun.Base.Results.{Error, Result, ok, err, panic, deadlock}
use mathlib.Core.Bool.{Bool, true, false}
use marblerun.Base.Exec.{Exec, proceed, ◌>>=◌, reject_if}

module _ {ℓ} {S A : Type ℓ} where
  -- The invariant holds after the action if it held before.
  abbrev pub Keeps : (S → Type ℓ) → Exec S A → Type ℓ
  Keeps I f = (s : S) → I s → I (f s).1

module _ {ℓ} {S A B : Type ℓ} where
  proceed-Keeps :
      (I : S → Type ℓ) (r : Result A × S) (f : A → Exec S B)
      → I r.1
      → ((a : A) → Keeps I (f a))
      → I (proceed r f).1
  unfolding proceed
  proceed-Keeps I (ok a, s) f h k = k a s h
  proceed-Keeps I (err e, s) f h k = h
  proceed-Keeps I (panic m, s) f h k = h
  proceed-Keeps I (deadlock, s) f h k = h

  pub Keeps-bind :
      (I : S → Type ℓ) (m : Exec S A) (f : A → Exec S B)
      → Keeps I m
      → ((a : A) → Keeps I (f a))
      → Keeps I (m >>= f)
  Keeps-bind I m f h k s i = proceed-Keeps I (m s) f (h s i) k

pub Keeps-reject_if {ℓ} :
    {S : Type ℓ} (I : S → Type ℓ) (b : Bool) (e : Error) → Keeps I (reject_if {ℓ} b e)
Keeps-reject_if I true e s i = i
Keeps-reject_if I false e s i = i
