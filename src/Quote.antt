-- ===== src/Quote.antt =====
-- coordinator/quote: the properties that a quote is checked for, and the mock validator of mock.go.
pub mod Compliance
pub mod Mock
mod Tests
use marblerun.Base.{
  Bool, Option, Result, Slice, Str, bool_eq, equal_fold, false, if◌then◌else◌, is_empty, ltb, none,
  not, ok, panic, some, str_eq, true, ℕ, ◌&&◌, ◌==◌,
}
use marblerun.Base.Pure.{◌>>=◌, ◌>>◌}

-- `len(required) > 0 && !strings.EqualFold(required, given)`
id_differs : Str → Str → Bool
id_differs required given = not (is_empty required) && not (equal_fold required given)

-- `required != nil && test(*required, *given)`; a nil `given` panics when it is read
fails_on : (ℕ → ℕ → Bool) → Option ℕ → Option ℕ → Result Bool
fails_on test none given = ok false
fails_on test (some r) none = panic "nil pointer dereference"
fails_on test (some r) (some g) = ok (test r g)

pub record PackageProperties : Type 0 where
  pub debug : Bool
  pub unique_id : Str
  pub signer_id : Str
  pub product_id : Option ℕ
  pub security_version : Option ℕ

pub record InfrastructureProperties : Type 0 where
  pub cpu_svn : Slice
  pub qe_svn : Option ℕ
  pub pce_svn : Option ℕ
  pub root_ca : Slice

-- PackageProperties.IsCompliant
pub is_compliant : PackageProperties → PackageProperties → Result Bool
is_compliant required given =
    if not (bool_eq required.debug given.debug)
    then ok false
    else if id_differs required.unique_id given.unique_id
    then ok false
    else if id_differs required.signer_id given.signer_id
    then ok false
    else do
      wrong_product ← fails_on (λ r g. not (r == g)) required.product_id given.product_id
      if wrong_product then ok false else do
        too_old ← fails_on (λ r g. ltb g r) required.security_version given.security_version
        ok (not too_old)

-- cmp.Equal on a byte slice: nil and empty differ
slice_eq : Slice → Slice → Bool
slice_eq none none = true
slice_eq (some a) (some b) = str_eq a b
slice_eq _ _ = false

-- cmp.Equal on a pointer to a number
pointer_eq : Option ℕ → Option ℕ → Bool
pointer_eq none none = true
pointer_eq (some a) (some b) = a == b
pointer_eq _ _ = false

-- InfrastructureProperties.IsCompliant
pub infrastructure_is_compliant : InfrastructureProperties → InfrastructureProperties → Bool
unfolding slice_eq pointer_eq
infrastructure_is_compliant required given =
    slice_eq required.cpu_svn given.cpu_svn
    && (pointer_eq required.qe_svn given.qe_svn
        && (pointer_eq required.pce_svn given.pce_svn && slice_eq required.root_ca given.root_ca))
