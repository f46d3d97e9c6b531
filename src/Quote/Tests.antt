-- ===== src/Quote/Tests.antt =====
-- The theorems about quotes at concrete inputs.
use marblerun.Base.{
  Bytes, [], arith, codes, equal_fold, false, if◌then◌else◌, none, ok, panic, refl, some, str_eq,
  true, ◌↔◌, ◌∷◌, ◌≡◌,
}
use marblerun.Quote.{
  InfrastructureProperties, PackageProperties, fails_on, id_differs, infrastructure_is_compliant,
  is_compliant,
}
use marblerun.Quote.Compliance.{Complies, is_compliant-iff-Complies, is_compliant-raise}
use marblerun.Quote.Mock.{add_valid_quote, validate, validate-add_valid_quote}

abbrev backend : PackageProperties
backend = record {
  debug = false;
  unique_id = [];
  signer_id = codes "C0FFEE";
  product_id = some 3;
  security_version = some 2;
}

abbrev reported : PackageProperties
reported = record {
  debug = false;
  unique_id = codes "ab12";
  signer_id = codes "c0ffee";
  product_id = some 3;
  security_version = some 5;
}

abbrev nowhere : InfrastructureProperties
nowhere = record { cpu_svn = none; qe_svn = none; pce_svn = none; root_ca = none }

complies : is_compliant backend reported ≡ ok true
unfolding is_compliant id_differs fails_on equal_fold str_eq
complies = refl

panics_on_nil :
    is_compliant backend (record reported { product_id = none }) ≡ panic "nil pointer dereference"
unfolding is_compliant id_differs fails_on equal_fold str_eq
panics_on_nil = refl

is_compliant-iff-Complies_example :
    (is_compliant backend reported ≡ ok true) ↔ Complies backend reported
is_compliant-iff-Complies_example = is_compliant-iff-Complies backend reported

raised_complies : is_compliant (record backend { security_version = some 4 }) reported ≡ ok true
unfolding is_compliant id_differs fails_on equal_fold str_eq
raised_complies = refl

is_compliant-raise_example : is_compliant backend reported ≡ ok true
is_compliant-raise_example =
    is_compliant-raise backend reported 2 4 (omega arith) refl raised_complies

validate-add_valid_quote_example :
    (validate
        (add_valid_quote [] (1 ∷ []) (2 ∷ []) reported nowhere)
        (1 ∷ [])
        (2 ∷ [])
        backend
        nowhere
      ≡ ok tt)
    ↔ (if str_eq (1 ∷ []) (1 ∷ [])
        then (◌≡◌ {A = Bytes} (2 ∷ []) (2 ∷ []))
          × Complies backend reported
          × (infrastructure_is_compliant nowhere nowhere ≡ true)
        else validate [] (1 ∷ []) (2 ∷ []) backend nowhere ≡ ok tt)
validate-add_valid_quote_example =
    validate-add_valid_quote [] (1 ∷ []) (1 ∷ []) (2 ∷ []) (2 ∷ []) reported backend nowhere nowhere
