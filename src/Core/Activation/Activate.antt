-- ===== src/Core/Activation/Activate.antt =====
-- Activate, generateMarbleAuthSecrets and generateCertFromCSR of coordinator/core/marbleapi.go.
use marblerun.Base.{
  Bytes, Code, Option, Result, Str, String, [], deadlock, err, failed_precondition, false, internal,
  invalid_argument, none, not, ok, panic, put_all, some, status, true, unauthenticated, ℕ, ◌+◌, ◌∷◌,
}
use marblerun.Core.Activation.{ActivationReq, verify_manifest_requirement}
use marblerun.Core.Activation.Parameters.{RpcParameters, customize_parameters, set_ttls_config}
use marblerun.Core.Certs.{
  generate_serial_number, max_duration, sk_intermediate_key, sk_marble_root_cert, usage_agree,
  usage_auth,
}
use marblerun.Core.DryRun.{blank_secret}
use marblerun.Core.Getters.{get_certificate, get_marble, get_priv_k, get_secret_map}
use marblerun.Core.Putters.{increment_activations}
use marblerun.Core.Secrets.{generate_secrets}
use marblerun.Core.States.{require_state, state_accepting_marbles}
use marblerun.Core.Transactions.{commit_tx, in_transaction, on_tx}
use marblerun.Manifest.{Certificate}
use marblerun.Base.Exec.{Exec, ◌>>=◌, ◌>>◌, pure, lift, reject_if}
use marblerun.Services.{Services, ReservedSecrets, Template, CertRequest}
use marblerun.Recovery.{Recovery}
use marblerun.Store.{Sealer}
use marblerun.Core.{Core, on_entropy, stored}

-- a call whose error is answered with a status
abbrev pub or_status : {A : Type 0} → Code → String → Result A → Result A
or_status code message (err e) = err (status code message)
or_status code message r = r

-- the key that Activate goes on with: an error of loading it is only logged
abbrev pub key_or_nil : {K : Type 0} → Result K → Result (Option K)
key_or_nil (ok k) = ok (some k)
key_or_nil (err e) = ok none
key_or_nil (panic m) = panic m
key_or_nil deadlock = deadlock

-- the certificate of generateCertFromCSR: the subject is that of the request but for the common name
-- and the organization
abbrev pub csr_template : CertRequest → Str → Certificate → ℕ → ℕ → Template
csr_template csr common_name marble_root serial not_before = record {
  cert = record {
    raw = none;
    public_key = [];
    dns_names = csr.csr_dns_names;
    ip_addresses = csr.csr_ip_addresses;
    key_usage = usage_agree;
    ext_key_usage = some usage_auth;
    common_name = common_name;
    organization = marble_root.issuer_organization;
    other_names = csr.csr_other_names;
    issuer_organization = [];
    not_after = some (not_before + max_duration);
    is_ca = false;
  };
  serial_number = serial;
  not_before = not_before;
  basic_constraints_valid = true;
}

-- the certificate of the connection that Activate is called over
abbrev pub require_tls_cert : Option Certificate → Result Certificate
require_tls_cert none = err (status unauthenticated "couldn't get marble TLS certificate")
require_tls_cert (some cert) = ok cert

module _ {sl : Sealer} {rc : Recovery} {ext : Services} where
  -- generateCertFromCSR
  unfoldable pub generate_cert_from_csr : Bytes → ext.Key → Str → Exec (Core sl rc ext) Bytes
  generate_cert_from_csr csr_req key marble_uuid = do
    csr ← lift (or_status invalid_argument "failed to parse CSR" (ext.parse_request csr_req))
    reject_if (not (ext.request_is_signed csr_req))
        (status invalid_argument "signature over CSR is invalid")
    serial ← (λ c.
        let (r, c') = on_entropy (generate_serial_number ext) c in
        (or_status internal "failed to generate serial" r, c'))
    marble_root ← (λ c. (get_certificate ext (stored c) sk_marble_root_cert, c))
    intermediate_key ← (λ c. (get_priv_k ext (stored c) sk_intermediate_key, c))
    not_before ← on_entropy ext.now
    λ c.
        let (r, c') =
          on_entropy
            (ext.create_certificate (csr_template csr marble_uuid marble_root serial not_before)
              marble_root (ext.public_key_of key) (some intermediate_key))
            c in
        (or_status internal "failed to issue certificate" r, c')

  -- generateMarbleAuthSecrets
  unfoldable pub generate_marble_auth_secrets :
      ActivationReq → Bytes → Exec (Core sl rc ext) ReservedSecrets
  unfolding generate_cert_from_csr
  generate_marble_auth_secrets req marble_uuid = do
    key ← on_entropy (ext.generate_ecdsa 256)
    private ← lift (ext.marshal_pkcs8_private_key key)
    public ← lift (ext.marshal_pkix_public_key (ext.public_key_of key))
    raw ← generate_cert_from_csr req.csr key (ext.uuid_string marble_uuid)
    cert ← lift (ext.parse_certificate raw)
    marble_root ← (λ c. (get_certificate ext (stored c) sk_marble_root_cert, c))
    pure (record {
      root_ca = record blank_secret { cert = marble_root };
      marble_cert = record blank_secret {
        cert = cert;
        public_key = some public;
        private_key = some private;
      };
    })

  -- the response of Activate: everything before the transaction
  unfoldable pub prepare_response :
      Option Certificate → ActivationReq → Exec (Core sl rc ext) RpcParameters
  unfolding generate_marble_auth_secrets
  prepare_response tls_cert req = do
    cert ← lift (require_tls_cert tls_cert)
    verify_manifest_requirement cert req.req_quote req.marble_type
    marble_uuid ← lift (ext.parse_uuid req.uuid)
    auth ← generate_marble_auth_secrets req marble_uuid
    marble_root ← (λ c. (get_certificate ext (stored c) sk_marble_root_cert, c))
    intermediate_key ← (λ c. (key_or_nil (get_priv_k ext (stored c) sk_intermediate_key), c))
    secrets ← (λ c. (get_secret_map ext (stored c), c))
    private ← (λ c.
        on_entropy
          (generate_secrets ext (stored c) secrets marble_uuid marble_root intermediate_key) c)
    marble ← (λ c. (get_marble ext (stored c) req.marble_type, c))
    params ← (λ c. (set_ttls_config ext (stored c) marble auth (put_all secrets private), c))
    lift (customize_parameters ext params auth (put_all secrets private))

  -- the check of the state
  unfoldable pub accepting_marbles : Exec (Core sl rc ext) (Unit {0})
  accepting_marbles c =
      let (r, c') = require_state (state_accepting_marbles ∷ []) c in
      (or_status failed_precondition "cannot accept marbles in current state" r, c')

  -- Activate
  unfoldable pub activate : Option Certificate → ActivationReq → Exec (Core sl rc ext) RpcParameters
  unfolding prepare_response
  activate tls_cert req = do
    accepting_marbles
    resp ← prepare_response tls_cert req
    in_transaction (do on_tx (increment_activations req.marble_type); commit_tx)
    pure resp
