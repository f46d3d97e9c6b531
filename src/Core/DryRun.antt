-- ===== src/Core/DryRun.antt =====
-- The dry run of the templates in a manifest: templateDryRun and checkFileTemplates of
-- coordinator/core/clientapi.go, and the dummy values of SetManifest and WriteSecrets.
use marblerun.Base.{
  Bytes, Error, Map, Result, Str, [], contains, deadlock, err, errorf, false, if◌then◌else◌, none,
  ok, panic, some, ◌∷◌,
}
use marblerun.Manifest.{Certificate, File, Manifest, Marble, Secret}
use marblerun.Manifest.Loops.{for_each}
use marblerun.Base.Pure.{◌>>◌}
use marblerun.Services.{Services, FuncMap, SecretsWrapper, env_funcs, file_funcs}

-- the certificate and secrets of templateDryRun that stand for the reserved ones
abbrev pub blank_certificate : Certificate
blank_certificate = record {
  raw = none;
  public_key = [];
  dns_names = none;
  ip_addresses = none;
  key_usage = 0;
  ext_key_usage = none;
  common_name = [];
  organization = [];
  other_names = [];
  issuer_organization = [];
  not_after = none;
  is_ca = false;
}

abbrev pub dummy : Bytes
dummy = 65 ∷ []

abbrev pub blank_secret : Secret
blank_secret = record {
  type_name = [];
  size = 0;
  shared = false;
  user_defined = false;
  cert = blank_certificate;
  valid_for = 0;
  private_key = none;
  public_key = none;
}

abbrev pub dummy_certificate : Certificate
dummy_certificate = record blank_certificate { raw = some dummy }

abbrev pub dry_run_secrets : Map Secret → SecretsWrapper
dry_run_secrets secrets = record {
  marble_run = record {
    root_ca = record blank_secret { cert = dummy_certificate };
    marble_cert = record blank_secret {
      cert = dummy_certificate;
      private_key = some dummy;
      public_key = some dummy;
    };
  };
  secrets = secrets;
}

-- dummy values of a secret that a user defines, only used for template validation
unfoldable pub with_dummy : Secret → Secret
with_dummy s = record s {
  cert = record s.cert { raw = some dummy };
  private_key = some dummy;
  public_key = some dummy;
}

-- the loop of WriteSecrets that sets the dummy values
unfoldable pub fill_dummies : Map Secret → Map Secret
unfolding with_dummy
fill_dummies [] = []
fill_dummies ((k, v) ∷ m) = (k, if v.user_defined then with_dummy v else v) ∷ fill_dummies m

-- `if err != nil { return fmt.Errorf(…) }`
abbrev pub named_error : {A : Type 0} → Result A → Error → Result (Unit {0})
named_error (ok a) e = ok tt
named_error (err x) e = err e
named_error (panic m) e = panic m
named_error deadlock e = deadlock

module _ (ext : Services) where
  -- checkFileTemplates
  abbrev pub check_templates : FuncMap → SecretsWrapper → File → Error → Result (Unit {0})
  check_templates funcs secrets file e =
      if file.no_templates
      then ok tt
      else named_error (ext.execute_template file.file_data funcs secrets) e

  -- a round of the loop over the environment variables of a marble
  check_env : Str → SecretsWrapper → Str × File → Result (Unit {0})
  check_env marble secrets (name, env) =
      if contains 0 env.file_data
      then err (
          errorf "in Marble %s: env variable: %s: content contains null bytes" (marble ∷ name ∷ []))
      else check_templates env_funcs secrets env
          (errorf "in Marble %s: env variable %s: %v" (marble ∷ name ∷ []))

  check_file : Str → SecretsWrapper → Str × File → Result (Unit {0})
  check_file marble secrets (name, file) =
      check_templates file_funcs secrets file
        (errorf "in Marble %s: file %s: %v" (marble ∷ name ∷ []))

  -- a round of the loop over the marbles
  check_parameters : SecretsWrapper → Str × Marble → Result (Unit {0})
  unfolding check_env check_file
  check_parameters secrets (name, marble) =
      ◌>>◌ (for_each (check_file name secrets) marble.parameters.files) (
        for_each (check_env name secrets)
          (elim marble.parameters.env [ none ↦ [] | some env ↦ env ]))

  -- templateDryRun
  unfoldable pub template_dry_run : Manifest → Map Secret → Result (Unit {0})
  unfolding check_parameters
  template_dry_run mnf secrets = for_each (check_parameters (dry_run_secrets secrets)) mnf.marbles
