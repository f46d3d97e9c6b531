-- ===== src/Core/Certs.antt =====
-- The certificates of the coordinator: generateCert, generateQuote and setCAData of
-- coordinator/core/core.go, and generateCertFromCSR of coordinator/core/marbleapi.go.
use marblerun.Base.{
  Bytes, List, Option, Result, Str, [], codes, deadlock, err, errorf, foreign, if◌then◌else◌, none,
  ok, panic, some, true, ℕ, ◌+◌, ◌-◌, ◌^◌, ◌∷◌, Bool, Error, false, str_eq,
}
use marblerun.Manifest.{Certificate}
use marblerun.Base.Exec.{Exec, ◌>>=◌, pure, lift}
use marblerun.Services.{Services, Template}

abbrev pub coordinator_name : Str
coordinator_name = codes "MarbleRun Coordinator"

abbrev pub coordinator_intermediate_name : Str
coordinator_intermediate_name = codes "MarbleRun Coordinator - Intermediate CA"

-- the keys of the store
abbrev pub sk_root_cert : Str
sk_root_cert = codes "coordinatorRootCert"

abbrev pub sk_root_key : Str
sk_root_key = codes "coordinatorRootKey"

abbrev pub sk_intermediate_cert : Str
sk_intermediate_cert = codes "coordinatorIntermediateCert"

abbrev pub sk_marble_root_cert : Str
sk_marble_root_cert = codes "marbleRootCert"

abbrev pub sk_intermediate_key : Str
sk_intermediate_key = codes "coordinatorIntermediateKey"

-- math.MaxInt64 nanoseconds
abbrev pub max_duration : ℕ
max_duration = 2 ^ 63 - 1

-- util.DefaultCertificateIPAddresses
abbrev pub default_ip_addresses : List Bytes
default_ip_addresses =
    (0 ∷ 0 ∷ 0 ∷ 0 ∷ 0 ∷ 0 ∷ 0 ∷ 0 ∷ 0 ∷ 0 ∷ 255 ∷ 255 ∷ 127 ∷ 0 ∷ 0 ∷ 1 ∷ [])
    ∷ (0 ∷ 0 ∷ 0 ∷ 0 ∷ 0 ∷ 0 ∷ 0 ∷ 0 ∷ 0 ∷ 0 ∷ 0 ∷ 0 ∷ 0 ∷ 0 ∷ 0 ∷ 1 ∷ [])
    ∷ []

-- x509.KeyUsageDigitalSignature | x509.KeyUsageCertSign, and with KeyUsageKeyAgreement instead
abbrev pub usage_sign : ℕ
usage_sign = 1 + 32

abbrev pub usage_agree : ℕ
usage_agree = 1 + 16

-- x509.ExtKeyUsageServerAuth and x509.ExtKeyUsageClientAuth
abbrev pub usage_auth : List ℕ
usage_auth = 1 ∷ 2 ∷ []

module _ (ext : Services) where
  -- util.GenerateCertificateSerialNumber
  abbrev pub generate_serial_number : Exec ext.Entropy ℕ
  generate_serial_number = ext.random_int (2 ^ 128)

  -- the private key of generateCert: a new one if none is given
  abbrev pub key_or_new : Option ext.Key → Exec ext.Entropy ext.Key
  key_or_new none = ext.generate_ecdsa 256
  key_or_new (some key) = pure key

  -- the template of generateCert
  abbrev pub ca_template : Option (List Str) → Str → ℕ → ℕ → Template
  ca_template dns_names common_name serial not_before = record {
    cert = record {
      raw = none;
      public_key = [];
      dns_names = dns_names;
      ip_addresses = some default_ip_addresses;
      key_usage = usage_sign;
      ext_key_usage = some usage_auth;
      common_name = common_name;
      organization = [];
      other_names = [];
      issuer_organization = [];
      not_after = some (not_before + max_duration);
      is_ca = true;
    };
    serial_number = serial;
    not_before = not_before;
    basic_constraints_valid = true;
  }

  -- the parent of a certificate: without one it is signed by itself
  abbrev pub parent_or_self :
      Option (Certificate × ext.Key) → Certificate → ext.Key → Certificate × ext.Key
  parent_or_self none self key = (self, key)
  parent_or_self (some parent) self key = parent

  -- generateCert
  unfoldable pub generate_cert :
      Option (List Str)
      → Str
      → Option ext.Key
      → Option (Certificate × ext.Key)
      → Exec ext.Entropy (Certificate × ext.Key)
  generate_cert dns_names common_name privk parent = do
    key ← key_or_new privk
    not_before ← ext.now
    serial ← generate_serial_number
    let template = ca_template dns_names common_name serial not_before
    let issuer = parent_or_self parent template.cert key
    raw ← ext.create_certificate template issuer.0 (ext.public_key_of key) (some issuer.1)
    cert ← lift (ext.parse_certificate raw)
    pure (cert, key)

  -- err.Error() == "OE_UNSUPPORTED"
  abbrev pub is_unsupported : Error → Bool
  is_unsupported (foreign message) = str_eq (codes message) (codes "OE_UNSUPPORTED")
  is_unsupported _ = false

  -- an error of the quote issuer: OE_UNSUPPORTED means simulation mode, with an empty quote
  unfoldable pub quote_or_simulation : Result Bytes → Result Bytes
  quote_or_simulation (ok quote) = ok quote
  quote_or_simulation (err e) =
      if is_unsupported e then ok [] else err (errorf "failed to get quote: %v" [])
  quote_or_simulation (panic m) = panic m
  quote_or_simulation deadlock = deadlock

  -- generateQuote
  unfoldable pub generate_quote : Bytes → Exec ext.Entropy Bytes
  unfolding quote_or_simulation
  generate_quote cert x = let (r, x') = ext.issue_quote cert x in (quote_or_simulation r, x')
