-- ===== src/Core/Secrets.antt =====
-- Generation of secrets: generateSecrets and generateCertificateForSecret of coordinator/core/core.go.
use marblerun.Base.{
  Bool, Bytes, List, Map, Option, Str, [], bool_eq, codes, errorf, if◌then◌else◌, is_empty, none,
  not, put, some, str_eq, true, ℕ, ◌%◌, ◌&&◌, ◌++◌, ◌/◌, ◌==◌, ◌||◌, ◌∷◌,
}
use marblerun.Core.Getters.{get_priv_k}
use marblerun.Manifest.{Certificate, Secret}
use marblerun.Base.Exec.{Exec, ◌>>=◌, ◌>>◌, pure, lift, fail, reject_if}
use marblerun.Services.{Services}
use marblerun.Core.Certs.{
  default_ip_addresses, usage_sign, usage_auth, generate_serial_number, sk_root_key,
}

-- uuid.Nil
abbrev pub nil_uuid : Bytes
nil_uuid = 0 ∷ 0 ∷ 0 ∷ 0 ∷ 0 ∷ 0 ∷ 0 ∷ 0 ∷ 0 ∷ 0 ∷ 0 ∷ 0 ∷ 0 ∷ 0 ∷ 0 ∷ 0 ∷ []

-- `if field == nil { field = default }`
abbrev pub or_else : {A : Type 0} → Option A → A → A
or_else none a = a
or_else (some b) a = b

-- the common name of a certificate with DNS names `names` and no name of its own
abbrev pub default_name : List Str → Str
default_name (name ∷ []) = name
default_name _ = codes "MarbleRun Generated Certificate"

-- the defaults that generateCertificateForSecret fills in
unfoldable pub with_defaults : Certificate → Certificate
with_defaults c =
    let names = or_else c.dns_names (codes "localhost" ∷ []) in
    record c {
      dns_names = some names;
      ip_addresses = some (or_else c.ip_addresses default_ip_addresses);
      key_usage = if c.key_usage == 0 then usage_sign else c.key_usage;
      ext_key_usage = some (or_else c.ext_key_usage usage_auth);
      common_name = if is_empty c.common_name then default_name names else c.common_name;
    }

-- the end of the validity and the number of days that is kept in the secret
unfoldable pub validity : (ℕ → ℕ → ℕ) → Secret → ℕ → ℕ × ℕ
validity add_days secret now = elim secret.cert.not_after [
  | none ↦
      let days = if secret.valid_for == 0 then 365 else secret.valid_for in
      (add_days now days, days)
  | some end ↦ (
    (if not (secret.valid_for == 0) && not secret.shared
        then add_days now secret.valid_for
        else end),
    secret.valid_for,
  )
]

module _ (ext : Services) where
  -- generateCertificateForSecret; the clock is read once more also where the code has no use for it
  unfoldable pub generate_certificate_for_secret :
      Secret → Certificate → Option ext.Key → ext.Key → Exec ext.Entropy Secret
  unfolding with_defaults validity
  generate_certificate_for_secret secret parent parent_key key = do
    serial ← generate_serial_number ext
    not_before ← ext.now
    now ← ext.now
    let end = validity ext.add_days secret now
    raw ←
        ext.create_certificate
          (record {
            cert = record (with_defaults secret.cert) { not_after = some end.0 };
            serial_number = serial;
            not_before = not_before;
            basic_constraints_valid = true;
          })
          parent (ext.public_key_of key) parent_key
    cert ← lift (ext.parse_certificate raw)
    private ← lift (ext.marshal_pkcs8_private_key key)
    public ← lift (ext.marshal_pkix_public_key (ext.public_key_of key))
    pure (record secret {
      cert = cert;
      valid_for = end.1;
      private_key = some private;
      public_key = some public;
    })

  -- the value of a symmetric key: random if it is shared, derived from the root key otherwise
  unfoldable pub symmetric_value : Str → Secret → Bytes → ext.Key → Exec ext.Entropy Bytes
  symmetric_value name secret id root_key =
      if secret.shared
      then ext.random_bytes (secret.size / 8)
      else lift (ext.hkdf (ext.key_bytes root_key) (ext.uuid_string id ++ name) (secret.size / 8))

  -- the case "symmetric-key"
  unfoldable pub generate_symmetric : Str → Secret → Bytes → ext.Key → Exec ext.Entropy Secret
  unfolding symmetric_value
  generate_symmetric name secret id root_key = do
    reject_if (secret.size == 0 || not (secret.size % 8 == 0))
        (errorf "invalid secret size: %v" (name ∷ []))
    value ← symmetric_value name secret id root_key
    pure (record secret { private_key = some value; public_key = some value })

  -- the switch over the sizes of ECDSA keys
  unfoldable pub has_curve : ℕ → Bool
  has_curve size = size == 224 || (size == 256 || (size == 384 || size == 521))

  -- the key of a certificate, with the checks of the size
  unfoldable pub generate_key_for : Str → Secret → Exec ext.Entropy ext.Key
  unfolding has_curve
  generate_key_for name secret =
      if str_eq secret.type_name (codes "cert-rsa")
      then ext.generate_rsa secret.size
      else if str_eq secret.type_name (codes "cert-ed25519")
      then (do
        reject_if (not (secret.size == 0))
            (errorf "invalid secret size for cert-ed25519, none is expected. given: %v" (name ∷ []))
        ext.generate_ed25519)
      else if str_eq secret.type_name (codes "cert-ecdsa")
      then (do
        reject_if (not (has_curve secret.size))
            (errorf "unsupported size %d: does not map to a supported curve" [])
        ext.generate_ecdsa secret.size)
      else fail (errorf "unsupported secret of type %s" (secret.type_name ∷ []))

  -- the switch over the type of a secret
  unfoldable pub generate_secret :
      Str → Secret → Bytes → Certificate → Option ext.Key → ext.Key → Exec ext.Entropy Secret
  unfolding generate_symmetric generate_key_for generate_certificate_for_secret
  generate_secret name secret id parent parent_key root_key =
      if str_eq secret.type_name (codes "symmetric-key")
      then generate_symmetric name secret id root_key
      else (do
        key ← generate_key_for name secret
        generate_certificate_for_secret secret parent parent_key key)

  -- a secret that generateSecrets skips: defined by a user, or of the other context
  unfoldable pub is_skipped : Secret → Bytes → Bool
  is_skipped secret id = secret.user_defined || not (bool_eq secret.shared (str_eq id nil_uuid))

  -- the loop of generateSecrets
  unfoldable pub generate_all :
      Map Secret
      → Map Secret
      → Bytes
      → Certificate
      → Option ext.Key
      → ext.Key
      → Exec ext.Entropy (Map Secret)
  unfolding is_skipped generate_secret
  generate_all [] new id parent parent_key root_key = pure new
  generate_all ((name, secret) ∷ secrets) new id parent parent_key root_key =
      let rest : Map Secret → Exec ext.Entropy (Map Secret) =
        λ m. generate_all secrets m id parent parent_key root_key in
      if is_skipped secret id then rest new else (do
        generated ← generate_secret name secret id parent parent_key root_key
        rest (put new name generated))

  -- generateSecrets; the first argument is what the store holds
  unfoldable pub generate_secrets :
      Map Bytes → Map Secret → Bytes → Certificate → Option ext.Key → Exec ext.Entropy (Map Secret)
  unfolding generate_all
  generate_secrets m secrets id parent parent_key = do
    root_key ← lift (get_priv_k ext m sk_root_key)
    generate_all secrets [] id parent parent_key root_key
