-- ===== src/Base/Post.antt =====
-- What holds after an action that succeeded, with the rules to chain such facts.
use mathlib.Core.Path.{◌≡◌, refl, subst}
use marblerun.Base.Results.{Error, Result, ok, err, panic, deadlock}
use mathlib.Core.Bool.{Bool, true, false}
use marblerun.Base.Exec.{Exec, proceed, reject_if}

module _ {ℓ κ} {S A : Type ℓ} where
  -- The predicate holds of the value and the state if the action succeeded.
  abbrev pub Post : (A → S → Type κ) → Result A × S → Type κ
  Post P (ok a, s) = P a s
  Post P (err e, s) = Unit
  Post P (panic m, s) = Unit
  Post P (deadlock, s) = Unit

  pub Post-use :
      (P : A → S → Type κ) (r : Result A × S) {a : A} {s : S} → Post P r → r ≡ (ok a, s) → P a s
  Post-use P r h e = subst (Post P) e h

  pub Post-const : {X : Type κ} (r : Result A × S) → X → Post (λ a s. X) r
  Post-const (ok a, s) x = x
  Post-const (err e, s) x = tt
  Post-const (panic m, s) x = tt
  Post-const (deadlock, s) x = tt

  -- what holds however the action ends holds if it succeeds
  pub Post-kept : (I : S → Type κ) (r : Result A × S) → I r.1 → Post (λ a s. I s) r
  Post-kept I (ok a, s) h = h
  Post-kept I (err e, s) h = tt
  Post-kept I (panic m, s) h = tt
  Post-kept I (deadlock, s) h = tt

  pub Post-both :
      (P Q : A → S → Type κ) (r : Result A × S)
      → Post P r
      → Post Q r
      → Post (λ a s. P a s × Q a s) r
  Post-both P Q (ok a, s) p q = (p, q)
  Post-both P Q (err e, s) p q = tt
  Post-both P Q (panic m, s) p q = tt
  Post-both P Q (deadlock, s) p q = tt

  -- an action that is known to succeed
  pub Post-ok : (P : A → S → Type κ) (r : Result A × S) {a : A} → Post P r → r.0 ≡ ok a → P a r.1
  Post-ok P (ok b, s) h e = let same : b ≡ _ = cc in subst (λ x. P x s) same h
  Post-ok P (err x, s) h e = cc
  Post-ok P (panic m, s) h e = cc
  Post-ok P (deadlock, s) h e = cc

  pub Post-mono :
      (P Q : A → S → Type κ) (r : Result A × S)
      → Post P r
      → ((a : A) (s : S) → P a s → Q a s)
      → Post Q r
  Post-mono P Q (ok a, s) h f = f a s h
  Post-mono P Q (err e, s) h f = tt
  Post-mono P Q (panic m, s) h f = tt
  Post-mono P Q (deadlock, s) h f = tt

module _ {ℓ κ} {S A B : Type ℓ} where
  pub Post-bind :
      (Q : A → S → Type κ) (P : B → S → Type κ) (r : Result A × S) (f : A → Exec S B)
      → Post Q r
      → ((a : A) (s : S) → Q a s → Post P (f a s))
      → Post P (proceed r f)
  unfolding proceed
  Post-bind Q P (ok a, s) f h k = k a s h
  Post-bind Q P (err e, s) f h k = tt
  Post-bind Q P (panic m, s) f h k = tt
  Post-bind Q P (deadlock, s) f h k = tt

  -- after an action that only computes a result from the state
  pub Post-read :
      (P : B → S → Type κ) (r : Result A) (s : S) (f : A → Exec S B)
      → ((a : A) → r ≡ ok a → Post P (f a s))
      → Post P (proceed (r, s) f)
  unfolding proceed
  Post-read P (ok a) s f k = k a refl
  Post-read P (err e) s f k = tt
  Post-read P (panic m) s f k = tt
  Post-read P deadlock s f k = tt

  -- after an action of which nothing is asked
  pub Post-skip :
      (P : B → S → Type κ) (r : Result A × S) (f : A → Exec S B)
      → ((a : A) (s : S) → r ≡ (ok a, s) → Post P (f a s))
      → Post P (proceed r f)
  unfolding proceed
  Post-skip P (ok a, s) f k = k a s refl
  Post-skip P (err e, s) f k = tt
  Post-skip P (panic m, s) f k = tt
  Post-skip P (deadlock, s) f k = tt

pub Post-reject_if {ℓ} :
    {S : Type ℓ} (b : Bool) (e : Error) (s : S) → Post (λ u s'. b ≡ false) (reject_if {ℓ} b e s)
Post-reject_if true e s = tt
Post-reject_if false e s = refl

-- after a test that rejects
pub Post-reject {ℓ κ} :
    {S A : Type ℓ} (P : A → S → Type κ) (b : Bool) (e : Error) (s : S) (f : Unit {ℓ} → Exec S A)
    → (b ≡ false → Post P (f tt s))
    → Post P (proceed (reject_if {ℓ} b e s) f)
unfolding proceed
Post-reject P true e s f h = tt
Post-reject P false e s f h = h refl
