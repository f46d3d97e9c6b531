-- ===== src/Quote/Mock.antt =====
-- coordinator/quote/mock.go: the validator that accepts the quotes that were added to it.
use marblerun.Base.{
  Bytes, Map, Option, Result, [], err, errorf, get, if◌then◌else◌, none, not, ok, put, some, str_eq,
  true, ◌↔◌, ◌≡◌, Bool-cases, arith, get-put, inl, inr, str_eq_iff,
}
use marblerun.Quote.{
  InfrastructureProperties, PackageProperties, infrastructure_is_compliant, is_compliant,
}
use marblerun.Quote.Compliance.{Complies, is_compliant-iff-Complies}
use marblerun.Base.Pure.{◌>>=◌, ◌>>◌, reject_if}

pub record Entry : Type 0 where
  pub message : Bytes
  pub pp : PackageProperties
  pub ip : InfrastructureProperties

-- MockValidator.valid
abbrev pub MockValidator : Type 0
MockValidator = Map Entry

check_entry :
    Option Entry → Bytes → PackageProperties → InfrastructureProperties → Result (Unit {0})
check_entry none message pp ip = err (errorf "wrong quote" [])
check_entry (some entry) message pp ip = do
  reject_if (not (str_eq entry.message message)) (errorf "wrong message" [])
  compliant ← is_compliant pp entry.pp
  reject_if (not compliant) (errorf "package does not comply" [])
  reject_if (not (infrastructure_is_compliant ip entry.ip))
      (errorf "infrastructure does not comply" [])

-- MockValidator.Validate
pub validate :
    MockValidator → Bytes → Bytes → PackageProperties → InfrastructureProperties → Result (Unit {0})
unfolding check_entry
validate m quote message pp ip = check_entry (get m quote) message pp ip

-- MockValidator.AddValidQuote
pub add_valid_quote :
    MockValidator → Bytes → Bytes → PackageProperties → InfrastructureProperties → MockValidator
add_valid_quote m quote message pp ip = put m quote (record { message = message; pp = pp; ip = ip })

check_entry_iff :
    (e : Entry) (message : Bytes) (pp : PackageProperties) (ip : InfrastructureProperties)
    → (check_entry (some e) message pp ip ≡ ok tt)
      ↔ ((e.message ≡ message) × Complies pp e.pp × (infrastructure_is_compliant ip e.ip ≡ true))
unfolding check_entry
check_entry_iff e message pp ip =
    ground (arith, str_eq_iff e.message message, is_compliant-iff-Complies pp e.pp)

-- The quote that was added last is accepted exactly for its message, for packages that it
-- complies with and for its infrastructure; the other quotes are judged as before.
pub validate-add_valid_quote :
    (m : MockValidator) (q q' message message' : Bytes) (pp pp' : PackageProperties)
    (ip ip' : InfrastructureProperties)
    → (validate (add_valid_quote m q message pp ip) q' message' pp' ip' ≡ ok tt) ↔ (
        if str_eq q q'
        then (message ≡ message') × Complies pp' pp × (infrastructure_is_compliant ip' ip ≡ true)
        else validate m q' message' pp' ip' ≡ ok tt)
unfolding validate add_valid_quote
validate-add_valid_quote m q q' message message' pp pp' ip ip' =
    let e : Entry = record { message = message; pp = pp; ip = ip } in
    elim (Bool-cases (str_eq q q')) [
      | inl same ↦ rw (get-put m q q' e, same) (check_entry_iff e message' pp' ip')
      | inr other ↦ rw (get-put m q q' e, other) ((λ h. h), (λ h. h))
    ]
