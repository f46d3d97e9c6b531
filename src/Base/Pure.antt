-- ===== src/Base/Pure.antt =====
-- The `do` notation of calls that change no state.
use mathlib.Core.Path.{◌≡◌, refl}
use mathlib.Core.Logic.{◌↔◌}
use mathlib.Core.Bool.{Bool, true, false}
use marblerun.Base.Results.{Result, Error, ok, err, panic, deadlock}

infixl 5 ◌>>=◌
abbrev pub ◌>>=◌ {ℓ κ} : {A : Type ℓ} {B : Type κ} → Result A → (A → Result B) → Result B
ok a >>= f = f a
err e >>= f = err e
panic m >>= f = panic m
deadlock >>= f = deadlock

infixl 5 ◌>>◌
abbrev pub ◌>>◌ {ℓ} : {B : Type ℓ} → Result (Unit {0}) → Result B → Result B
m >> k = m >>= λ _. k

abbrev pub reject_if : Bool → Error → Result (Unit {0})
reject_if true e = err e
reject_if false e = ok tt

-- Both of two calls in a row succeed exactly when the row does.
pub seq_iff : (r k : Result (Unit {0})) → ((r >> k) ≡ ok tt) ↔ ((r ≡ ok tt) × (k ≡ ok tt))
seq_iff (ok u) k = ((λ h. (refl, h)), (λ h. h.1))
seq_iff (err e) k = ((λ h. cc), (λ h. cc))
seq_iff (panic m) k = ((λ h. cc), (λ h. cc))
seq_iff deadlock k = ((λ h. cc), (λ h. cc))

pub reject_if_iff : (b : Bool) (e : Error) → (reject_if b e ≡ ok tt) ↔ (b ≡ false)
reject_if_iff true e = ((λ h. cc), (λ h. cc))
reject_if_iff false e = ((λ h. refl), (λ h. refl))

pub both_iff {ℓ κ} :
    {P : Type ℓ} {Q : Type κ} (r k : Result (Unit {0}))
    → (r ≡ ok tt) ↔ P
    → (k ≡ ok tt) ↔ Q
    → ((r >> k) ≡ ok tt) ↔ (P × Q)
both_iff r k p q =
    let (split, join) = seq_iff r k in
    ((λ h. (p.0 (split h).0, q.0 (split h).1)), (λ h. join (p.1 h.0, q.1 h.1)))

-- what a row of two calls returns, the second returned for a value of the first
pub bind-returns {ℓ κ} :
    {A : Type ℓ} {B : Type κ} {b : B} (second : A → Result B) (first : Result A)
    → (first >>= second) ≡ ok b
    → (a : A) × (second a ≡ ok b) × (first ≡ ok a)
bind-returns second deadlock e = cc
bind-returns second (panic m) e = cc
bind-returns second (err x) e = cc
bind-returns second (ok a) e = (a, e, refl)
