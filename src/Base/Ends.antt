-- ===== src/Base/Ends.antt =====
-- What holds of the outcome of a call that changes no state, with the rules to chain such facts.
use mathlib.Core.Path.{◌≡◌, refl, subst}
use marblerun.Base.Results.{Result, ok, err, panic, deadlock}
use marblerun.Base.Pure.{◌>>=◌}

-- A value for which the predicate holds, or an error; no panic.
abbrev pub Ends {ℓ} : {A : Type ℓ} → (A → Type 0) → Result A → Type 0
Ends P (ok a) = P a
Ends P (err e) = Unit
Ends P (panic m) = ⊥
Ends P deadlock = ⊥

abbrev pub Returns : {A : Type 0} → Result A → Type 0
Returns r = Ends (λ a. Unit) r

pub Ends-bind :
    {A B : Type 0} (Q : A → Type 0) (P : B → Type 0) (r : Result A) (f : A → Result B)
    → Ends Q r
    → ((a : A) → r ≡ ok a → Q a → Ends P (f a))
    → Ends P (r >>= f)
Ends-bind Q P (ok a) f h k = k a refl h
Ends-bind Q P (err e) f h k = tt
Ends-bind Q P (panic m) f h k = elim h [ ]
Ends-bind Q P deadlock f h k = elim h [ ]

-- The predicate holds of the value of a call that succeeds.
abbrev pub IfOk : {A : Type 0} → (A → Type 0) → Result A → Type 0
IfOk P (ok a) = P a
IfOk P (err e) = Unit
IfOk P (panic m) = Unit
IfOk P deadlock = Unit

pub IfOk-bind :
    {A B : Type 0} (Q : A → Type 0) (P : B → Type 0) (r : Result A) (f : A → Result B)
    → IfOk Q r
    → ((a : A) → Q a → IfOk P (f a))
    → IfOk P (r >>= f)
IfOk-bind Q P (ok a) f h k = k a h
IfOk-bind Q P (err e) f h k = tt
IfOk-bind Q P (panic m) f h k = tt
IfOk-bind Q P deadlock f h k = tt

pub IfOk-skip :
    {A B : Type 0} (P : B → Type 0) (r : Result A) (f : A → Result B)
    → ((a : A) → IfOk P (f a))
    → IfOk P (r >>= f)
IfOk-skip P (ok a) f k = k a
IfOk-skip P (err e) f k = tt
IfOk-skip P (panic m) f k = tt
IfOk-skip P deadlock f k = tt

pub IfOk-mono :
    {A : Type 0} (P Q : A → Type 0) (r : Result A) → IfOk P r → ((a : A) → P a → Q a) → IfOk Q r
IfOk-mono P Q (ok a) h k = k a h
IfOk-mono P Q (err e) h k = tt
IfOk-mono P Q (panic m) h k = tt
IfOk-mono P Q deadlock h k = tt

pub IfOk-use : {A : Type 0} (P : A → Type 0) (r : Result A) {a : A} → IfOk P r → r ≡ ok a → P a
IfOk-use P r h e = subst (IfOk P) e h
