-- ===== src/Util/Tls.antt =====
-- util/tls.go: the certificate, the certificate request and the credentials of a marble.
use marblerun.Base.{
  Bytes, Bool, List, Result, Str, [], bytes_of, codes, none, ok, some, true, ℕ, ◌+◌, ◌∷◌,
}
use marblerun.Core.Certs.{
  default_ip_addresses, generate_serial_number, max_duration, usage_agree, usage_auth,
}
use marblerun.Manifest.{Certificate}
use marblerun.Services.{CertRequest, Services, Template}
use marblerun.Base.Exec.{Exec, ◌>>=◌, pure, lift}

abbrev pub marble_name : Str
marble_name = codes "MarbleRun Marble"

module _ (ext : Services) where
  -- tls.Certificate
  pub record TlsCertificate : Type 0 where
    pub chain : List Bytes
    pub tls_key : ext.Key

  -- tls.Config, as the credentials hold it
  pub record Credentials : Type 0 where
    pub certificates : List TlsCertificate
    pub insecure_skip_verify : Bool

  -- the template of GenerateCert
  abbrev pub marble_template : List Str → List Bytes → Bool → ℕ → ℕ → Template
  marble_template dns_names ip_addrs is_ca serial not_before = record {
    cert = record {
      raw = none;
      public_key = [];
      dns_names = some dns_names;
      ip_addresses = some ip_addrs;
      key_usage = usage_agree;
      ext_key_usage = some usage_auth;
      common_name = marble_name;
      organization = [];
      other_names = [];
      issuer_organization = [];
      not_after = some (not_before + max_duration);
      is_ca = is_ca;
    };
    serial_number = serial;
    not_before = not_before;
    basic_constraints_valid = true;
  }

  -- GenerateCert
  unfoldable pub generate_marble_cert :
      List Str → List Bytes → Bool → Exec ext.Entropy (Certificate × ext.Key)
  generate_marble_cert dns_names ip_addrs is_ca = do
    key ← ext.generate_ecdsa 256
    not_before ← ext.now
    serial ← generate_serial_number ext
    let template = marble_template dns_names ip_addrs is_ca serial not_before
    raw ← ext.create_certificate template template.cert (ext.public_key_of key) (some key)
    cert ← lift (ext.parse_certificate raw)
    pure (cert, key)

  -- GenerateCSR over x509.CreateCertificateRequest; the request with its Raw, the bytes that were
  -- parsed
  unfoldable pub generate_csr :
      (List Str → List Bytes → ext.Key → Exec ext.Entropy Bytes)
      → List Str
      → ext.Key
      → Exec ext.Entropy (Bytes × CertRequest)
  generate_csr create_request dns_names key = do
    raw ← create_request dns_names default_ip_addresses key
    csr ← lift (ext.parse_request raw)
    pure (raw, csr)

  -- TLSCertFromDER
  abbrev pub tls_cert_from_der : Bytes → ext.Key → TlsCertificate
  tls_cert_from_der der key = record { chain = der ∷ []; tls_key = key }

  -- LoadGRPCTLSCredentials, which never fails
  unfoldable pub load_grpc_tls_credentials : Certificate → ext.Key → Bool → Result Credentials
  load_grpc_tls_credentials cert key insecure = ok (record {
    certificates = tls_cert_from_der (bytes_of cert.raw) key ∷ [];
    insecure_skip_verify = insecure;
  })
