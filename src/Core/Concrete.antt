-- ===== src/Core/Concrete.antt =====
-- Concrete services, and a coordinator that has accepted a manifest, for the tests. Each value that
-- is decoded is the same, whatever the text.
use marblerun.Base.{
  Bytes, Map, [], codes, false, none, ok, some, suc, take, true, ℕ, ◌++◌, ◌+◌, ◌∷◌,
}
use marblerun.Core.{Core}
use marblerun.Core.DryRun.{blank_certificate, blank_secret}
use marblerun.Manifest.{Certificate, Manifest, Marble, Secret, UserSecret}
use marblerun.Quote.{InfrastructureProperties, PackageProperties}
use marblerun.Seal.Concrete.{zeros}
use marblerun.Seal.Mock.{mock_sealer}
use marblerun.Store.Concrete.{concrete_codec}
use marblerun.User.{User, assign, new_permission, new_user, read_secret, write_secret}
use marblerun.Services.{Services, Codec}
use marblerun.Recovery.{Recovery, RecoveryCrypto, single_party}

abbrev constant_codec : {A : Type 0} → A → Codec A
constant_codec a = record { encode = λ b. ok []; decode = λ raw. ok a }

abbrev pub certificate_of : Bytes → Certificate
certificate_of raw = record blank_certificate { raw = some raw }

abbrev pub alice : User Certificate
alice =
    assign
      (assign (new_user (codes "alice") (certificate_of (7 ∷ [])))
        (new_permission read_secret (codes "key" ∷ [])))
      (new_permission write_secret (codes "key" ∷ []))

abbrev pub frontend : Marble
frontend = record {
  package_name = codes "web";
  max_activations = 2;
  parameters = record { files = []; env = none; argv = [] };
  tls = [];
}

abbrev web_package : PackageProperties
web_package = record {
  debug = false;
  unique_id = [];
  signer_id = codes "1234";
  product_id = some 44;
  security_version = some 3;
}

abbrev key_secret : Secret
key_secret = record blank_secret {
  type_name = codes "plain";
  user_defined = true;
  private_key = some (5 ∷ []);
  public_key = some (5 ∷ []);
}

abbrev small_manifest : Manifest
small_manifest = record {
  packages = (codes "web", web_package) ∷ [];
  infrastructures = [];
  marbles = (codes "frontend", frontend) ∷ [];
  users = [];
  secrets = (codes "key", key_secret) ∷ [];
  recovery_keys = [];
  roles = [];
  tls = [];
}

abbrev uploaded_key : Map UserSecret
uploaded_key =
    (codes "key", record { cert = blank_certificate; private_key = none; key = some (9 ∷ []) }) ∷ []

abbrev some_infrastructure : InfrastructureProperties
some_infrastructure = record { cpu_svn = none; qe_svn = none; pce_svn = none; root_ca = none }

abbrev pub concrete_services : Services
concrete_services = record {
  Key = Unit {0};
  Entropy = ℕ;
  marble_json = constant_codec frontend;
  package_json = constant_codec web_package;
  infrastructure_json = constant_codec some_infrastructure;
  secret_json = constant_codec key_secret;
  tls_json = constant_codec (record { outgoing = []; incoming = [] });
  user_json = constant_codec alice;
  manifest_json = constant_codec small_manifest;
  user_secrets_json = constant_codec uploaded_key;
  data_json = concrete_codec;
  ttls_json = λ conf. ok [];
  parse_certificate = λ raw. ok (certificate_of raw);
  parse_ec_private_key = λ raw. ok tt;
  marshal_ec_private_key = λ key. ok (1 ∷ []);
  marshal_pkcs8_private_key = λ key. ok (1 ∷ []);
  marshal_pkix_public_key = λ key. ok (2 ∷ []);
  public_key_of = λ key. 2 ∷ [];
  key_bytes = λ key. 1 ∷ [];
  hkdf = λ secret salt n. ok (take n (secret ++ salt));
  generate_rsa = λ n x. (ok tt, suc x);
  generate_ed25519 = λ x. (ok tt, suc x);
  generate_ecdsa = λ n x. (ok tt, suc x);
  random_bytes = λ n x. (ok (take n zeros), suc x);
  random_int = λ n x. (ok x, suc x);
  new_uuid = λ x. (ok (1 ∷ []), suc x);
  now = λ x. (ok x, suc x);
  add_days = λ t n. t + n;
  create_certificate = λ template parent public key x. (ok (3 ∷ []), suc x);
  parse_request =
      λ raw. ok (record { csr_other_names = []; csr_dns_names = none; csr_ip_addresses = none });
  request_is_signed = λ raw. true;
  parse_uuid = λ s. ok s;
  uuid_string = λ b. b;
  pem_encode = λ type b. b;
  pem_decode = λ s. some s;
  env_root_ca = codes "ROOT_CA";
  env_certificate_chain = codes "CHAIN";
  env_private_key = codes "KEY";
  sha256 = λ b. b;
  execute_template = λ s funcs secrets. ok s;
  log_line = λ message fields x. (ok (codes message), suc x);
  verify_quote = λ quote message pp ip. ok tt;
  issue_quote = λ cert x. (ok cert, suc x);
}

abbrev concrete_crypto : RecoveryCrypto
concrete_crypto = record {
  Random = ℕ;
  random_key = λ n x. (ok (take n zeros), suc x);
  encrypt_for = λ key b x. (ok b, suc x);
}

abbrev pub concrete_recovery : Recovery
concrete_recovery = single_party concrete_crypto

abbrev accepted_data : Map Bytes
accepted_data =
    (codes "state", codes "3")
    ∷ (codes "certificate:coordinatorRootCert", 1 ∷ [])
    ∷ (codes "certificate:marbleRootCert", 1 ∷ [])
    ∷ (codes "privateKey:coordinatorRootKey", 1 ∷ [])
    ∷ (codes "privateKey:coordinatorIntermediateKey", 1 ∷ [])
    ∷ (codes "manifest", 1 ∷ [])
    ∷ (codes "marble:frontend", 1 ∷ [])
    ∷ (codes "package:web", 1 ∷ [])
    ∷ (codes "secret:key", 1 ∷ [])
    ∷ (codes "user:alice", 1 ∷ [])
    ∷ (codes "updateLog", [])
    ∷ []

-- a coordinator that accepts marbles, in simulation mode
abbrev pub accepting : Core mock_sealer concrete_recovery concrete_services
accepting = record {
  disk = record {
    store = record {
      data_map = accepted_data;
      locked = false;
      recovery_data = none;
      recovery_mode = false;
    };
    sealer = record { mock_data = none; unencrypted_data = none; unseal_error = none };
  };
  recovery = record { encryption_key = none; random = 0 };
  quote = some [];
  update_log = [];
  entropy = 0;
}
