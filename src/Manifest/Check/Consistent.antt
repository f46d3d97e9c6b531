-- ===== src/Manifest/Check/Consistent.antt =====
-- What a manifest is that Check accepts.
use marblerun.Manifest.Check.Roles.{Defined, defined_iff, RoleIsSound, check_role_iff}
use marblerun.Manifest.Loops.{for_each_iff, not_empty_iff}
use marblerun.Base.{
  All, Bool, Option, Str, [], arith, false, get, none, ok, some, true, ℕ, ◌↔◌, ◌∷◌, ◌≡◌, ◌≢◌, ◌⊎◌,
  codes, refl, subst, str_eq_iff,
}
use marblerun.Manifest.{Manifest, Marble, TlsTagEntry, ManifestUser, Secret, TlsTag}
use marblerun.Manifest.Check.{
  check_incoming, check_incoming_cert, check_marble, check_outgoing, check_package, defined,
  warn_or_fail, check_marble_package, check_secret, check_tag, check_user, check,
}
use marblerun.Quote.{PackageProperties}
use marblerun.Base.Pure.{both_iff}

-- An enclave is named by its unique ID alone, or by signer, product and security version.
abbrev pub IsIdentified : Str → Str → Option ℕ → Option ℕ → Type 0
IsIdentified [] signer_id product_id security_version =
    (signer_id ≢ []) × (product_id ≢ none) × (security_version ≢ none)
IsIdentified (c ∷ unique_id) signer_id product_id security_version =
    (signer_id ≡ []) × (product_id ≡ none) × (security_version ≡ none)

abbrev pub PackageIsSound : PackageProperties → Type 0
PackageIsSound p =
    (p.debug ≡ true) ⊎ IsIdentified p.unique_id p.signer_id p.product_id p.security_version

check_package_iff :
    (name : Str) (debug : Bool) (u s : Str) (p v : Option ℕ)
    → (check_package name debug u s p v ≡ ok tt) ↔ ((debug ≡ true) ⊎ IsIdentified u s p v)
unfolding check_package warn_or_fail
check_package_iff name debug [] [] p v = ground arith
check_package_iff name debug [] (c ∷ s) p v = ground arith
check_package_iff name debug (c ∷ u) [] p v = ground arith
check_package_iff name debug (c ∷ u) (d ∷ s) p v = ground arith

-- A marble runs a sound package and refers to TLS tags that exist.
abbrev pub MarbleIsSound : Manifest → Str × Marble → Type 0
MarbleIsSound m (name, marble) =
    ((p : PackageProperties) × (get m.packages marble.package_name ≡ some p) × PackageIsSound p)
    × All (Defined m.tls) marble.tls

check_marble_package_iff :
    (name : Str) (o : Option PackageProperties)
    → (check_marble_package name o ≡ ok tt)
      ↔ ((p : PackageProperties) × (o ≡ some p) × PackageIsSound p)
unfolding check_marble_package
check_marble_package_iff name none = ((λ h. cc), (λ (p, e, s). cc))
check_marble_package_iff name (some p) =
    let (forth, back) =
      check_package_iff name p.debug p.unique_id p.signer_id p.product_id p.security_version in
    (
      (λ h. (p, refl, forth h)),
      (λ (q, e, s). let same : q ≡ p = cc in back (subst PackageIsSound same s)),
    )

check_marble_iff :
    (m : Manifest) (x : Str × Marble) → (check_marble m x ≡ ok tt) ↔ MarbleIsSound m x
unfolding check_marble
check_marble_iff m (name, marble) =
    both_iff _ _ (check_marble_package_iff marble.package_name (get m.packages marble.package_name))
      (for_each_iff _ (Defined m.tls) marble.tls (λ tag. defined_iff m.tls _ tag))

-- An incoming connection has a port; it names a secret exactly when client authentication is off,
-- and the secret exists.
abbrev pub IncomingIsSound : Manifest → TlsTagEntry → Type 0
IncomingIsSound m entry =
    (entry.port ≢ [])
    × (((entry.cert_name ≡ []) × (entry.disable_client_auth ≡ false))
        ⊎ ((entry.cert_name ≢ [])
            × Defined m.secrets entry.cert_name
            × (entry.disable_client_auth ≡ true)))

check_incoming_iff :
    (m : Manifest) (key : Str) (entry : TlsTagEntry)
    → (check_incoming m key entry ≡ ok tt) ↔ IncomingIsSound m entry
unfolding check_incoming check_incoming_cert defined
check_incoming_iff m key entry = ground arith

abbrev pub OutgoingIsSound : TlsTagEntry → Type 0
OutgoingIsSound entry = (entry.addr ≢ []) × (entry.port ≢ [])

check_outgoing_iff :
    (key : Str) (entry : TlsTagEntry) → (check_outgoing key entry ≡ ok tt) ↔ OutgoingIsSound entry
unfolding check_outgoing
check_outgoing_iff key entry = ground arith

-- Every connection of a TLS tag is sound.
abbrev pub TagIsSound : Manifest → Str × TlsTag → Type 0
TagIsSound m (key, tag) = All (IncomingIsSound m) tag.incoming × All OutgoingIsSound tag.outgoing

check_tag_iff : (m : Manifest) (x : Str × TlsTag) → (check_tag m x ≡ ok tt) ↔ TagIsSound m x
unfolding check_tag
check_tag_iff m (key, tag) =
    both_iff _ _ (for_each_iff _ (IncomingIsSound m) tag.incoming (check_incoming_iff m key))
      (for_each_iff _ OutgoingIsSound tag.outgoing (check_outgoing_iff key))

-- A user has a certificate and roles that exist.
abbrev pub UserIsSound : Manifest → Str × ManifestUser → Type 0
UserIsSound m (name, user) = (user.certificate ≢ []) × All (Defined m.roles) user.roles

check_user_iff :
    (m : Manifest) (x : Str × ManifestUser) → (check_user m x ≡ ok tt) ↔ UserIsSound m x
unfolding check_user
check_user_iff m (name, user) =
    both_iff _ _ (not_empty_iff user.certificate _)
      (for_each_iff _ (Defined m.roles) user.roles (λ role. defined_iff m.roles _ role))

-- A secret has a known type, and a certificate at most one way to end its validity.
abbrev pub SecretIsSound : Str × Secret → Type 0
SecretIsSound (name, s) =
    (s.type_name ≡ codes "plain")
    ⊎ (s.type_name ≡ codes "symmetric-key")
    ⊎ (((s.type_name ≡ codes "cert-rsa")
          ⊎ (s.type_name ≡ codes "cert-ed25519")
          ⊎ (s.type_name ≡ codes "cert-ecdsa"))
        × ((s.cert.not_after ≡ none) ⊎ (s.valid_for ≡ 0)))

check_secret_iff : (x : Str × Secret) → (check_secret x ≡ ok tt) ↔ SecretIsSound x
unfolding check_secret
check_secret_iff (name, s) = ground (
  arith,
  str_eq_iff s.type_name (codes "plain"),
  str_eq_iff s.type_name (codes "symmetric-key"),
  str_eq_iff s.type_name (codes "cert-rsa"),
  str_eq_iff s.type_name (codes "cert-ed25519"),
  str_eq_iff s.type_name (codes "cert-ecdsa"),
)

-- Everything that the checks ask of a manifest.
pub record IsConsistent (m : Manifest) : Type 0 where
  pub has_packages : m.packages ≢ []
  pub has_marbles : m.marbles ≢ []
  pub marbles_sound : All (MarbleIsSound m) m.marbles
  pub tags_sound : All (TagIsSound m) m.tls
  pub users_sound : All (UserIsSound m) m.users
  pub roles_sound : All (RoleIsSound m) m.roles
  pub secrets_sound : All SecretIsSound m.secrets

-- Check accepts a manifest exactly when it is consistent: it has packages and marbles; every
-- marble runs a soundly identified package and uses TLS tags that exist; every TLS connection,
-- user, role and secret is sound.
pub check-iff-IsConsistent : (m : Manifest) → (check m ≡ ok tt) ↔ IsConsistent m
unfolding check
check-iff-IsConsistent m =
    let parts = both_iff _ _ (not_empty_iff m.packages _) (
      both_iff _ _ (not_empty_iff m.marbles _) (
        both_iff _ _ (for_each_iff _ (MarbleIsSound m) m.marbles (check_marble_iff m)) (
          both_iff _ _ (for_each_iff _ (TagIsSound m) m.tls (check_tag_iff m)) (
            both_iff _ _ (for_each_iff _ (UserIsSound m) m.users (check_user_iff m)) (
              both_iff _ _ (for_each_iff _ (RoleIsSound m) m.roles (check_role_iff m))
                (for_each_iff _ SecretIsSound m.secrets check_secret_iff)))))) in
    (
      (λ h.
          let (a, (b, (c, (d, (e, (f, g)))))) = parts.0 h in
          record {
            has_packages = a;
            has_marbles = b;
            marbles_sound = c;
            tags_sound = d;
            users_sound = e;
            roles_sound = f;
            secrets_sound = g;
          }),
      (λ k. parts.1 (
        k.has_packages,
        (
          k.has_marbles,
          (k.marbles_sound, (k.tags_sound, (k.users_sound, (k.roles_sound, k.secrets_sound)))),
        ),
      )),
    )
