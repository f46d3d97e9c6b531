-- ===== src/Core/Tests.antt =====
-- The handlers of the core on a coordinator that accepts marbles.
use marblerun.Core.Client.Updated.{MayUpdate, update_manifest-Outcome}
use marblerun.Core.Putters.{increment_activations, put_activations}
use marblerun.Core.Secrets.{
  generate_all, generate_certificate_for_secret, generate_key_for, generate_secret,
  generate_secrets, generate_symmetric, has_curve, is_skipped, symmetric_value, validity,
  with_defaults,
}
use marblerun.Core.Transactions.{commit_tx, in_transaction, roll_back}
use marblerun.Manifest.Encode.{encode_pem}
use marblerun.Store.Concrete.{encode_map}
use marblerun.Strconv.{atoi, format_hex, parse_hex}
use marblerun.Base.Exec.{proceed}
use marblerun.Core.Activation.Parameters.{
  RpcParameters, customize, customize_parameters, incoming_conf, set_ttls_config,
}
use marblerun.Core.Client.Raised.{AllRaised, check_update-AllRaised}
use marblerun.Core.Client.Raised.Unversioned.{NamesUnversioned, raise_versions-panics}
use marblerun.Core.Client.Update.{raise_versions, set_version, update_manifest}
use marblerun.Manifest.{Manifest, Certificate}
use marblerun.Manifest.Update.{check_update, check_update_iff}
use marblerun.Quote.{PackageProperties}
use marblerun.User.{assign, new_user, User, new_permission, update_package}
use marblerun.Core.Activation.Budget.{activations}
use marblerun.Core.Changes.{OnlyChanges}
use marblerun.Core.Client.{get_secrets, scan_certificates, scan_users, verify_user}
use marblerun.Core.Client.Granted.{MayRead, get_secrets-MayRead}
use marblerun.Core.Client.Upload.{write_secrets}
use marblerun.Core.Client.Verify.{Matches, verify_user-Matches, verify_user-first}
use marblerun.Core.Client.Written.{MayWrite, write_secrets-Outcome}
use marblerun.Core.Getters.{
  get_iterator, get_state, get_value, iterator_names, get_marble, get_activations, get_certificate,
  get_priv_k, get_secret_map, read_secrets, unset_as_zero,
}
use marblerun.Core.States.{state_accepting_marbles, one_of, require_state}
use marblerun.Store.{read, begin_transaction, commit, commit_data, rollback, tx_put, unlock}
use marblerun.Store.Iterator.{with_prefix}
use marblerun.Base.{
  [], codes, refl, some, ◌∷◌, Map, arith, get, ok, put, str_eq, ◌+◌, ◌≡◌, ◌⊎◌, has_prefix,
  trim_prefix, Option, false, none, panic, ℕ, ◌<◌, put_all,
}
use marblerun.Core.{stored}
use marblerun.Core.Activation.{
  ActivationReq, check_budget, check_quote, load_status, match_infrastructure,
  verify_manifest_requirement,
}
use marblerun.Core.Activation.Activate.{
  activate, accepting_marbles, generate_cert_from_csr, generate_marble_auth_secrets,
  prepare_response,
}
use marblerun.Core.Activation.Counted.{Admitted, activate-Outcome, activate-counts}
use marblerun.Core.Concrete.{accepting, certificate_of, concrete_services, alice, frontend}
use marblerun.Core.Transactions.Outcome.{Outcome}

abbrev request_frontend : ActivationReq
request_frontend = record {
  csr = 1 ∷ [];
  marble_type = codes "frontend";
  req_quote = [];
  uuid = 1 ∷ [];
}

activate-Outcome_example :
    Outcome
      (λ params. Admitted concrete_services (codes "frontend") (stored accepting))
      (stored accepting)
      (activate (some (certificate_of (4 ∷ []))) request_frontend accepting)
activate-Outcome_example =
    activate-Outcome (some (certificate_of (4 ∷ []))) request_frontend accepting refl

abbrev frontend_params : RpcParameters
frontend_params = record {
  rpc_argv = [];
  rpc_files = [];
  rpc_env = (codes "ROOT_CA", 1 ∷ []) ∷ (codes "CHAIN", 3 ∷ 1 ∷ []) ∷ (codes "KEY", 1 ∷ []) ∷ [];
}

frontend_activated :
    (activate (some (certificate_of (4 ∷ []))) request_frontend accepting).0 ≡ ok frontend_params
unfolding activate proceed accepting_marbles require_state get_state read get str_eq atoi
    verify_manifest_requirement get_value unset_as_zero get_activations get_certificate get_priv_k
    get_secret_map get_iterator has_prefix put put_all trim_prefix generate_cert_from_csr
    generate_marble_auth_secrets prepare_response customize customize_parameters incoming_conf
    set_ttls_config check_budget check_quote load_status match_infrastructure iterator_names
    with_prefix read_secrets increment_activations put_activations generate_all
    generate_certificate_for_secret generate_key_for generate_secret generate_secrets
    generate_symmetric has_curve is_skipped symmetric_value validity with_defaults one_of commit_tx
    in_transaction roll_back encode_pem begin_transaction commit commit_data rollback tx_put unlock
    format_hex parse_hex encode_map
frontend_activated = refl

frontend_known : get_marble concrete_services (stored accepting) (codes "frontend") ≡ ok frontend
unfolding get_value read get str_eq
frontend_known = refl

activate-counts_example :
    (n : ℕ) × (activations (stored accepting) (codes "frontend") ≡ ok n)
    × (activations
          (stored (activate (some (certificate_of (4 ∷ []))) request_frontend accepting).1)
          (codes "frontend")
        ≡ ok (n + 1))
    × (n < frontend.max_activations)
activate-counts_example =
    activate-counts (some (certificate_of (4 ∷ []))) request_frontend accepting frontend
      frontend_params refl frontend_known (omega arith) (omega arith) frontend_activated

get_secrets-MayRead_example :
    Outcome
      (λ secrets m'.
        MayRead concrete_services (stored accepting) alice (codes "key" ∷ []) secrets
        × (m' ≡ stored accepting))
      (stored accepting)
      (get_secrets (codes "key" ∷ []) alice accepting)
get_secrets-MayRead_example = get_secrets-MayRead (codes "key" ∷ []) alice accepting refl

write_secrets-Outcome_example :
    Outcome
      (λ u m'.
        (get_state (stored accepting) ≡ ok state_accepting_marbles)
        × OnlyChanges (MayWrite concrete_services (stored accepting) alice) (stored accepting) m')
      (stored accepting)
      (write_secrets [] alice accepting)
write_secrets-Outcome_example = write_secrets-Outcome [] alice accepting refl

verify_user-first_example :
    verify_user accepting (certificate_of [] ∷ certificate_of (7 ∷ []) ∷ [])
    ≡ verify_user accepting (certificate_of [] ∷ [])
verify_user-first_example =
    verify_user-first accepting (certificate_of []) (certificate_of (7 ∷ []) ∷ [])

alice_verified : verify_user accepting (certificate_of (7 ∷ []) ∷ []) ≡ ok alice
unfolding verify_user scan_certificates scan_users get_value get_iterator with_prefix iterator_names
    read get str_eq has_prefix trim_prefix assign new_user
alice_verified = refl

verify_user-Matches_example :
    Matches concrete_services (stored accepting) (certificate_of (7 ∷ [])) alice
verify_user-Matches_example =
    verify_user-Matches accepting (certificate_of (7 ∷ [])) [] alice alice_verified

abbrev package_of : Option ℕ → PackageProperties
package_of version = record {
  debug = false;
  unique_id = [];
  signer_id = [];
  product_id = none;
  security_version = version;
}

abbrev update_to_5 : Manifest
update_to_5 = record {
  packages = (codes "web", package_of (some 5)) ∷ [];
  infrastructures = [];
  marbles = [];
  users = [];
  secrets = [];
  recovery_keys = [];
  roles = [];
  tls = [];
}

abbrev current_3 : Map PackageProperties
current_3 = (codes "web", package_of (some 3)) ∷ []

abbrev raised_5 : Map PackageProperties
raised_5 = (codes "web", package_of (some 5)) ∷ []

web_known : get current_3 (codes "web") ≡ some (package_of (some 3))
unfolding get str_eq
web_known = refl

web_raised : raise_versions update_to_5.packages current_3 ≡ ok raised_5
unfolding raise_versions set_version get put str_eq
web_raised = refl

web_known_none : get ((codes "web", package_of none) ∷ []) (codes "web") ≡ some (package_of none)
unfolding get str_eq
web_known_none = refl

update_accepted : check_update update_to_5 current_3 ≡ ok tt
update_accepted =
    (check_update_iff update_to_5 current_3).1
      ((λ e. cc), ((package_of (some 3), web_known, (refl, refl, refl, refl, omega arith)), tt))

check_update-AllRaised_example : AllRaised current_3 raised_5
check_update-AllRaised_example =
    check_update-AllRaised update_to_5 current_3 raised_5 update_accepted web_raised

update_accepted_none : check_update update_to_5 ((codes "web", package_of none) ∷ []) ≡ ok tt
update_accepted_none =
    (check_update_iff update_to_5 ((codes "web", package_of none) ∷ [])).1
      ((λ e. cc), ((package_of none, web_known_none, (refl, refl, refl, refl, tt)), tt))

raise_versions-panics_example :
    ((raise_versions update_to_5.packages ((codes "web", package_of none) ∷ [])
        ≡ panic "nil pointer dereference")
      × NamesUnversioned ((codes "web", package_of none) ∷ []) update_to_5.packages)
    ⊎ (((result : Map PackageProperties) × (raise_versions update_to_5.packages
              ((codes "web", package_of none) ∷ [])
            ≡ ok result))
        × (NamesUnversioned ((codes "web", package_of none) ∷ []) update_to_5.packages → ⊥))
raise_versions-panics_example =
    raise_versions-panics update_to_5 ((codes "web", package_of none) ∷ []) update_accepted_none

abbrev updating : User Certificate
updating =
    assign (new_user (codes "carol") (certificate_of (8 ∷ [])))
      (new_permission update_package (codes "web" ∷ []))

update_manifest-Outcome_example :
    Outcome
      (λ u m'.
        (get_state (stored accepting) ≡ ok state_accepting_marbles)
        × OnlyChanges (MayUpdate updating) (stored accepting) m')
      (stored accepting)
      (update_manifest (1 ∷ []) updating accepting)
update_manifest-Outcome_example = update_manifest-Outcome (1 ∷ []) updating accepting refl
