-- ===== src/Manifest/Loops.antt =====
-- `for … range` loops that return the first error, and what it means that they return none.
use marblerun.Base.{All, List, Result, [], ok, refl, ◌↔◌, ◌∷◌, ◌≡◌, Error, arith, is_empty, ◌≢◌}
use marblerun.Base.Pure.{◌>>◌, seq_iff, reject_if}

-- for _, x := range xs { if err := f(x); err != nil { return err } }
unfoldable pub for_each {ℓ} : {A : Type ℓ} → (A → Result (Unit {0})) → List A → Result (Unit {0})
for_each f [] = ok tt
for_each f (x ∷ xs) = let rest = for_each f xs in f x >> rest

-- The loop ends without an error exactly when its body does so for every element.
pub for_each_iff {ℓ κ} :
    {A : Type ℓ} (f : A → Result (Unit {0})) (P : A → Type κ) (xs : List A)
    → ((x : A) → (f x ≡ ok tt) ↔ P x)
    → (for_each f xs ≡ ok tt) ↔ All P xs
unfolding for_each
for_each_iff f P [] h = ((λ e. tt), (λ e. refl))
for_each_iff f P (x ∷ xs) h =
    let (split, join) = seq_iff (f x) (for_each f xs) in
    let (forth, back) = for_each_iff f P xs h in
    ((λ e. ((h x).0 (split e).0, forth (split e).1)), (λ p. join ((h x).1 p.0, back p.1)))

-- A check that a list is not empty.
pub not_empty_iff {ℓ} :
    {A : Type ℓ} (l : List A) (e : Error) → (reject_if (is_empty l) e ≡ ok tt) ↔ (l ≢ [])
not_empty_iff [] e = ground arith
not_empty_iff (x ∷ l) e = ground arith
