-- ===== src/Manifest/Secrets.antt =====
-- ParseUserSecrets of coordinator/manifest/manifest.go. x509.MarshalPKIXPublicKey is a parameter.
use marblerun.Base.{
  Bool-cases, Bytes, Map, Option, Result, Str, [], arith, bytes_of, codes, deadlock, err, errorf,
  get, if◌then◌else◌, inl, inr, is_empty, is_nil, length, none, not, ok, panic, put, some, str_eq,
  true, ◌%◌, ◌*◌, ◌/◌, ◌<◌, ◌==◌, ◌||◌, ◌∷◌, ◌≡◌, false, get-put, refl, str_eq_iff, subst,
}
use marblerun.Manifest.{Secret, UserSecret}
use marblerun.Manifest.Check.{cert_types, is_one_of}
use marblerun.Base.Pure.{◌>>=◌, ◌>>◌, reject_if}

-- the case "symmetric-key" of the switch over the type
unfoldable pub parse_symmetric : Str → UserSecret → Secret → Result Secret
parse_symmetric name new original = do
  reject_if (original.size == 0 || not (original.size % 8 == 0))
      (errorf "invalid secret size: %s" (name ∷ []))
  reject_if (not (length (bytes_of new.key) == original.size / 8))
      (errorf "declared size and actual size don't match: %s" (name ∷ []))
  reject_if (not (is_nil new.cert.raw) || not (is_nil new.private_key)) (
      errorf "secret %s is set to be of type symmetric-key but specified values for a certificate"
        (name ∷ []))
  ok (record original { private_key = new.key; public_key = new.key })

-- the case of the certificates
unfoldable pub parse_certificate :
    (Bytes → Result Bytes) → Str → UserSecret → Secret → Result Secret
parse_certificate marshal_public_key name new original = do
  reject_if (not (is_nil new.key)) (
      errorf "secret %s is set to be of type %s but specified values for a symmetric-key"
        (name ∷ original.type_name ∷ []))
  public ← marshal_public_key new.cert.public_key
  ok (record original { cert = new.cert; private_key = new.private_key; public_key = some public })

-- the case "plain"
unfoldable pub parse_plain : Str → UserSecret → Secret → Result Secret
parse_plain name new original = do
  reject_if (not (is_nil new.cert.raw) || not (is_nil new.private_key)) (
      errorf "secret %s is set to be of type symmetric-key but specified values for a certificate"
        (name ∷ []))
  ok (record original { private_key = new.key; public_key = new.key })

-- `parsedSecrets[secretName] = parsedSecret`
unfoldable pub store_parsed : Map Secret → Str → Result Secret → Result (Map Secret)
store_parsed parsed name (ok s) = ok (put parsed name s)
store_parsed parsed name (err e) = err e
store_parsed parsed name (panic m) = panic m
store_parsed parsed name deadlock = deadlock

-- one round of the loop; a secret of another type is passed over
unfoldable pub parse_one :
    (Bytes → Result Bytes) → Map Secret → Str → UserSecret → Option Secret → Result (Map Secret)
parse_one marshal_public_key parsed name new none =
    err
      (errorf "secret manifest specifies a secret which the original manifest does not contain" [])
parse_one marshal_public_key parsed name new (some original) =
    if not original.user_defined
    then err (errorf "secret %s is not writeable" (name ∷ []))
    else if str_eq original.type_name (codes "symmetric-key")
    then store_parsed parsed name (parse_symmetric name new original)
    else if is_one_of original.type_name cert_types
    then store_parsed parsed name (parse_certificate marshal_public_key name new original)
    else if str_eq original.type_name (codes "plain")
    then store_parsed parsed name (parse_plain name new original)
    else ok parsed

-- the loop over the new secrets
unfoldable pub parse_all :
    (Bytes → Result Bytes) → Map Secret → Map UserSecret → Map Secret → Result (Map Secret)
parse_all marshal_public_key originals [] parsed = ok parsed
parse_all marshal_public_key originals ((name, new) ∷ rest) parsed = do
  parsed ← parse_one marshal_public_key parsed name new (get originals name)
  parse_all marshal_public_key originals rest parsed

-- ParseUserSecrets
unfoldable pub parse_user_secrets :
    (Bytes → Result Bytes) → Map UserSecret → Map Secret → Result (Map Secret)
parse_user_secrets marshal_public_key news originals = do
  reject_if (is_empty news) (errorf "no new secrets defined" [])
  parse_all marshal_public_key originals news []

-- What a parsed secret may change of the original: the certificate and the keys. The original is
-- user-defined, and a symmetric key has the size that the manifest declares.
pub record Rewrites (original parsed : Secret) : Type 0 where
  pub writable : original.user_defined ≡ true
  pub same_type : parsed.type_name ≡ original.type_name
  pub same_size : parsed.size ≡ original.size
  pub same_sharing : parsed.shared ≡ original.shared
  pub same_validity : parsed.valid_for ≡ original.valid_for
  pub still_user_defined : parsed.user_defined ≡ true
  pub key_size :
      original.type_name ≡ codes "symmetric-key"
      → (0 < original.size) × (length (bytes_of parsed.private_key) * 8 ≡ original.size)

-- Every parsed secret rewrites the original secret of its name.
abbrev pub AllRewrite : Map Secret → Map Secret → Type 0
AllRewrite originals parsed =
    (k : Str) (s : Secret)
    → get parsed k ≡ some s
    → (o : Secret) × (get originals k ≡ some o) × Rewrites o s

parse_symmetric-Rewrites :
    (name : Str) (new : UserSecret) (o s : Secret)
    → o.user_defined ≡ true
    → parse_symmetric name new o ≡ ok s
    → Rewrites o s
unfolding parse_symmetric
parse_symmetric-Rewrites name new o s w e = ground arith

parse_certificate-Rewrites :
    (pk : Bytes → Result Bytes) (name : Str) (new : UserSecret) (o s : Secret)
    → o.user_defined ≡ true
    → str_eq o.type_name (codes "symmetric-key") ≡ false
    → parse_certificate pk name new o ≡ ok s
    → Rewrites o s
unfolding parse_certificate
parse_certificate-Rewrites pk name new o s w t e =
    ground (arith, str_eq_iff o.type_name (codes "symmetric-key"))

parse_plain-Rewrites :
    (name : Str) (new : UserSecret) (o s : Secret)
    → o.user_defined ≡ true
    → str_eq o.type_name (codes "symmetric-key") ≡ false
    → parse_plain name new o ≡ ok s
    → Rewrites o s
unfolding parse_plain
parse_plain-Rewrites name new o s w t e =
    ground (arith, str_eq_iff o.type_name (codes "symmetric-key"))

put-AllRewrite :
    (originals parsed : Map Secret) (name : Str) (o s : Secret)
    → AllRewrite originals parsed
    → get originals name ≡ some o
    → Rewrites o s
    → AllRewrite originals (put parsed name s)
put-AllRewrite originals parsed name o s all g r k t found = elim (Bool-cases (str_eq name k)) [
  | inl same ↦
      let value : s ≡ t = ground (arith, get-put parsed name k s) in
      (
        o,
        subst (λ j. get originals j ≡ some o) ((str_eq_iff name k).0 same) g,
        subst (Rewrites o) value r,
      )
  | inr other ↦ all k t (ground (arith, get-put parsed name k s))
]

store_parsed-AllRewrite :
    (originals parsed : Map Secret) (name : Str) (o : Secret) (r : Result Secret)
    (next : Map Secret)
    → AllRewrite originals parsed
    → get originals name ≡ some o
    → ((s : Secret) → r ≡ ok s → Rewrites o s)
    → store_parsed parsed name r ≡ ok next
    → AllRewrite originals next
unfolding store_parsed
store_parsed-AllRewrite originals parsed name o (ok s) next all g h e =
    let same : put parsed name s ≡ next = cc in
    subst (AllRewrite originals) same (put-AllRewrite originals parsed name o s all g (h s refl))
store_parsed-AllRewrite originals parsed name o (err x) next all g h e = cc
store_parsed-AllRewrite originals parsed name o (panic x) next all g h e = cc
store_parsed-AllRewrite originals parsed name o deadlock next all g h e = cc

parse_one-AllRewrite :
    (pk : Bytes → Result Bytes) (originals parsed : Map Secret) (name : Str) (new : UserSecret)
    (o : Option Secret) (next : Map Secret)
    → AllRewrite originals parsed
    → get originals name ≡ o
    → parse_one pk parsed name new o ≡ ok next
    → AllRewrite originals next
unfolding parse_one
parse_one-AllRewrite pk originals parsed name new none next all g e = cc
parse_one-AllRewrite pk originals parsed name new (some o) next all g e =
    elim (Bool-cases o.user_defined) [
      | inr fixed ↦ ground arith
      | inl w ↦ elim (Bool-cases (str_eq o.type_name (codes "symmetric-key"))) [
        | inl symmetric ↦
            store_parsed-AllRewrite originals parsed name o (parse_symmetric name new o) next all g
              (λ s. parse_symmetric-Rewrites name new o s w) (ground arith)
        | inr t ↦ elim (Bool-cases (is_one_of o.type_name cert_types)) [
          | inl certificate ↦
              store_parsed-AllRewrite originals parsed name o (parse_certificate pk name new o) next
                all g (λ s. parse_certificate-Rewrites pk name new o s w t) (ground arith)
          | inr t' ↦ elim (Bool-cases (str_eq o.type_name (codes "plain"))) [
            | inl plain ↦
                store_parsed-AllRewrite originals parsed name o (parse_plain name new o) next all g
                  (λ s. parse_plain-Rewrites name new o s w t) (ground arith)
            | inr t'' ↦
                let same : parsed ≡ next = ground arith in subst (AllRewrite originals) same all
          ]
        ]
      ]
    ]

parse_all-AllRewrite :
    (pk : Bytes → Result Bytes) (originals : Map Secret) (news : Map UserSecret)
    (parsed result : Map Secret)
    → AllRewrite originals parsed
    → parse_all pk originals news parsed ≡ ok result
    → AllRewrite originals result
unfolding parse_all
parse_all-AllRewrite pk originals [] parsed result all e =
    let same : parsed ≡ result = cc in subst (AllRewrite originals) same all
parse_all-AllRewrite pk originals ((name, new) ∷ rest) parsed result all e =
    go (parse_one pk parsed name new (get originals name)) refl e
      (λ next. parse_all-AllRewrite pk originals rest next result)
  where
    go :
        (r : Result (Map Secret))
        → parse_one pk parsed name new (get originals name) ≡ r
        → (r >>= parse_all pk originals rest) ≡ ok result
        → ((next : Map Secret)
            → AllRewrite originals next
            → parse_all pk originals rest next ≡ ok result
            → AllRewrite originals result)
        → AllRewrite originals result
    go (ok next) h e rec =
        rec next
          (parse_one-AllRewrite pk originals parsed name new (get originals name) next all refl h) e
    go (err x) h e rec = cc
    go (panic x) h e rec = cc
    go deadlock h e rec = cc

-- Whatever a user uploads, each secret that is accepted has the name of an original secret that is
-- user-defined, and differs from it in the certificate and the keys at most; a symmetric key has
-- the declared size.
pub parse_user_secrets-AllRewrite :
    (pk : Bytes → Result Bytes) (news : Map UserSecret) (originals parsed : Map Secret)
    → parse_user_secrets pk news originals ≡ ok parsed
    → AllRewrite originals parsed
unfolding parse_user_secrets get
parse_user_secrets-AllRewrite pk [] originals parsed e = cc
parse_user_secrets-AllRewrite pk (x ∷ news) originals parsed e =
    parse_all-AllRewrite pk originals (x ∷ news) [] parsed (λ k s found. cc) e
