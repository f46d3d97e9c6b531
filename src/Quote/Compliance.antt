-- ===== src/Quote/Compliance.antt =====
-- When a package complies with its requirements.
use marblerun.Quote.{PackageProperties, id_differs, is_compliant, fails_on}
use marblerun.Base.{
  Option, Str, [], arith, equal_fold, false, none, ok, some, true, ℕ, ◌↔◌, ◌∷◌, ◌≡◌, ◌≤◌, ◌⊎◌, ltb,
  not, ◌==◌,
}

-- An ID complies when none is required, or when the two are the same up to case.
abbrev pub IdComplies : Str → Str → Type 0
IdComplies required given = (required ≡ []) ⊎ (equal_fold required given ≡ true)

-- A number complies when none is required, or when one is given that stands in the relation.
abbrev pub NumberComplies : (ℕ → ℕ → Type 0) → Option ℕ → Option ℕ → Type 0
NumberComplies R none given = Unit {0}
NumberComplies R (some r) none = ⊥
NumberComplies R (some r) (some g) = R r g

-- What the requirements ask of the given properties, field by field.
pub record Complies (required given : PackageProperties) : Type 0 where
  pub debug : required.debug ≡ given.debug
  pub unique_id : IdComplies required.unique_id given.unique_id
  pub signer_id : IdComplies required.signer_id given.signer_id
  pub product_id : NumberComplies (λ r g. r ≡ g) required.product_id given.product_id
  pub security_version :
      NumberComplies (λ r g. r ≤ g) required.security_version given.security_version

id_differs_iff : (r g : Str) → (id_differs r g ≡ false) ↔ IdComplies r g
unfolding id_differs
id_differs_iff [] g = ground arith
id_differs_iff (c ∷ r) g = ground arith

product_fails_iff :
    (r g : Option ℕ)
    → (fails_on (λ a b. not (a == b)) r g ≡ ok false) ↔ NumberComplies (λ a b. a ≡ b) r g
unfolding fails_on
product_fails_iff none g = ground arith
product_fails_iff (some r) none = ground arith
product_fails_iff (some r) (some g) = ground arith

version_fails_iff :
    (r g : Option ℕ)
    → (fails_on (λ a b. ltb b a) r g ≡ ok false) ↔ NumberComplies (λ a b. a ≤ b) r g
unfolding fails_on
version_fails_iff none g = ground arith
version_fails_iff (some r) none = ground arith
version_fails_iff (some r) (some g) = ground arith

-- A package is found compliant exactly when every field that the requirements name complies.
pub is_compliant-iff-Complies :
    (required given : PackageProperties)
    → (is_compliant required given ≡ ok true) ↔ Complies required given
unfolding is_compliant
is_compliant-iff-Complies required given = ground (
  arith,
  id_differs_iff required.unique_id given.unique_id,
  id_differs_iff required.signer_id given.signer_id,
  product_fails_iff required.product_id given.product_id,
  version_fails_iff required.security_version given.security_version,
)

-- Raising the required security version never lets in a package that was kept out before.
pub is_compliant-raise :
    (required given : PackageProperties) (old new : ℕ)
    → old ≤ new
    → required.security_version ≡ some old
    → is_compliant (record required { security_version = some new }) given ≡ ok true
    → is_compliant required given ≡ ok true
is_compliant-raise required given old new h e c =
    let raised =
      (is_compliant-iff-Complies (record required { security_version = some new }) given).0 c in
    (is_compliant-iff-Complies required given).1 (record {
      debug = raised.debug;
      unique_id = raised.unique_id;
      signer_id = raised.signer_id;
      product_id = raised.product_id;
      security_version = rw e (lower given.security_version raised.security_version);
    })
  where
    lower :
        (g : Option ℕ)
        → NumberComplies (λ a b. a ≤ b) (some new) g
        → NumberComplies (λ a b. a ≤ b) (some old) g
    lower none n = n
    lower (some v) n = omega arith
