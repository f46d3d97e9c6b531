-- ===== src/Manifest/Tests.antt =====
-- A manifest with one package and one marble, an update of it and a symmetric key for it.
use marblerun.Base.{
  All, Map, [], codes, false, get, none, ok, put, refl, some, str_eq, true, ◌↔◌, ◌∷◌, ◌≡◌, ◌≢◌,
}
use marblerun.Manifest.Check.{check}
use marblerun.Manifest.Check.Consistent.{IsConsistent, check-iff-IsConsistent}
use marblerun.Manifest.Secrets.{
  AllRewrite, parse_all, parse_one, parse_symmetric, parse_user_secrets,
  parse_user_secrets-AllRewrite, store_parsed,
}
use marblerun.Manifest.Update.{UpdateIsSound, check_update, check_update_iff}
use marblerun.Quote.{PackageProperties}
use marblerun.Manifest.{Manifest, Certificate, Marble, Secret, UserSecret}

abbrev no_certificate : Certificate
no_certificate = record {
  raw = none;
  public_key = [];
  dns_names = none;
  ip_addresses = none;
  key_usage = 0;
  ext_key_usage = none;
  common_name = [];
  organization = [];
  other_names = [];
  issuer_organization = [];
  not_after = none;
  is_ca = false;
}

abbrev backend_package : PackageProperties
backend_package = record {
  debug = false;
  unique_id = [];
  signer_id = codes "1234";
  product_id = some 44;
  security_version = some 3;
}

abbrev backend : Marble
backend = record {
  package_name = codes "backend";
  max_activations = 1;
  parameters = record { files = []; env = none; argv = [] };
  tls = [];
}

abbrev small : Manifest
small = record {
  packages = (codes "backend", backend_package) ∷ [];
  infrastructures = [];
  marbles = (codes "backend_first", backend) ∷ [];
  users = [];
  secrets = [];
  recovery_keys = [];
  roles = [];
  tls = [];
}

check-iff-IsConsistent_example : (check small ≡ ok tt) ↔ IsConsistent small
check-iff-IsConsistent_example = check-iff-IsConsistent small

abbrev update : Manifest
update = record small {
  packages =
      (
        codes "backend",
        record backend_package { signer_id = []; product_id = none; security_version = some 5 },
      )
      ∷ [];
  marbles = [];
}

check_update_iff_example :
    (check_update update small.packages ≡ ok tt)
    ↔ ((update.packages ≢ []) × All (UpdateIsSound small.packages) update.packages)
check_update_iff_example = check_update_iff update small.packages

abbrev symmetric_key : Secret
symmetric_key = record {
  type_name = codes "symmetric-key";
  size = 16;
  shared = true;
  user_defined = true;
  cert = no_certificate;
  valid_for = 0;
  private_key = none;
  public_key = none;
}

abbrev originals : Map Secret
originals = (codes "key", symmetric_key) ∷ []

abbrev uploaded : Map UserSecret
uploaded =
    (codes "key", record { cert = no_certificate; private_key = none; key = some (7 ∷ 8 ∷ []) })
    ∷ []

abbrev rewritten : Map Secret
rewritten =
    (
      codes "key",
      record symmetric_key { private_key = some (7 ∷ 8 ∷ []); public_key = some (7 ∷ 8 ∷ []) },
    )
    ∷ []

upload_succeeds : parse_user_secrets (λ k. ok k) uploaded originals ≡ ok rewritten
unfolding parse_user_secrets parse_all parse_one parse_symmetric store_parsed get put str_eq
upload_succeeds = refl

parse_user_secrets-AllRewrite_example : AllRewrite originals rewritten
parse_user_secrets-AllRewrite_example =
    parse_user_secrets-AllRewrite (λ k. ok k) uploaded originals rewritten upload_succeeds
