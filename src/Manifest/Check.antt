-- ===== src/Manifest/Check.antt =====
-- Manifest.Check of coordinator/manifest/manifest.go. Warnings are not modelled.
pub mod Consistent
pub mod Roles
use marblerun.Base.{
  Bool, Error, List, Map, Option, Result, Str, String, [], codes, err, errorf, false, get, has,
  if◌then◌else◌, is_empty, is_nil, none, not, ok, some, str_eq, to_lower, true, ℕ, ◌&&◌, ◌==◌, ◌||◌,
  ◌∷◌,
}
use marblerun.Manifest.{Manifest, ManifestUser, Marble, Role, Secret, TlsTag, TlsTagEntry}
use marblerun.Manifest.Loops.{for_each}
use marblerun.Quote.{PackageProperties}
use marblerun.Store.{read}
use marblerun.User.{read_secret, update_package, write_secret}
use marblerun.Base.Pure.{◌>>=◌, ◌>>◌, reject_if}

-- warnOrFailForMissingValue
warn_or_fail : Bool → String → Str → Result (Unit {0})
warn_or_fail debug parameter package_name =
    if debug
    then ok tt
    else err
        (errorf "manifest misses value for %s in package %s" (codes parameter ∷ package_name ∷ []))

-- the checks of one package: unique ID or signer, product and security version
check_package : Str → Bool → Str → Str → Option ℕ → Option ℕ → Result (Unit {0})
check_package name debug unique_id signer_id product_id security_version =
    if not (is_empty unique_id)
      && (not (is_empty signer_id) || (not (is_nil product_id) || not (is_nil security_version)))
    then (if debug
        then ok tt
        else err (
            errorf
              "manifest specfies both UniqueID *and* SignerID/ProductID/SecurityVersion in package %s"
              (name ∷ [])))
    else if is_empty unique_id
    then (do
      if is_empty signer_id then warn_or_fail debug "SignerID" name else ok tt
      if is_nil product_id then warn_or_fail debug "ProductID" name else ok tt
      if is_nil security_version then warn_or_fail debug "SecurityVersion" name else ok tt)
    else ok tt

-- `if _, ok := m[name]; !ok { return err }`
pub defined : {V : Type 0} → Map V → Error → Str → Result (Unit {0})
defined m e name = reject_if (not (has m name)) e

check_marble_package : Str → Option PackageProperties → Result (Unit {0})
check_marble_package name none =
    err (errorf "manifest does not contain marble package " (name ∷ []))
check_marble_package name (some p) =
    check_package name p.debug p.unique_id p.signer_id p.product_id p.security_version

-- one round of the loop over the marbles
pub check_marble : Manifest → Str × Marble → Result (Unit {0})
check_marble m (name, marble) = do
  check_marble_package marble.package_name (get m.packages marble.package_name)
  for_each (λ tag. defined m.tls (errorf "manifest misses TLS entry for %s" (tag ∷ [])) tag)
      marble.tls

check_incoming_cert : Manifest → Str → TlsTagEntry → Result (Unit {0})
check_incoming_cert m key entry =
    if not (is_empty entry.cert_name)
    then (do
      defined m.secrets
          (errorf "TLS.Incoming.%s references undefined secret %s" (key ∷ entry.cert_name ∷ []))
          entry.cert_name
      reject_if (not entry.disable_client_auth) (
          errorf "TLS.Incoming.%s defines Cert but does not disable client authentication"
            (key ∷ [])))
    else reject_if entry.disable_client_auth
        (errorf "TLS.Incoming.%s disables client authentication" (key ∷ []))

check_incoming : Manifest → Str → TlsTagEntry → Result (Unit {0})
check_incoming m key entry = do
  reject_if (is_empty entry.port) (errorf "manifest misses Port in TLS.Incoming.%s" (key ∷ []))
  check_incoming_cert m key entry

check_outgoing : Str → TlsTagEntry → Result (Unit {0})
check_outgoing key entry = do
  reject_if (is_empty entry.addr) (errorf "manifest misses Addr in TLS.Outgoing.%s" (key ∷ []))
  reject_if (is_empty entry.port) (errorf "manifest misses Port in TLS.Outgoing.%s" (key ∷ []))

-- one round of the loop over the TLS tags
pub check_tag : Manifest → Str × TlsTag → Result (Unit {0})
check_tag m (key, tag) = do
  for_each (check_incoming m key) tag.incoming
  for_each (check_outgoing key) tag.outgoing

-- one round of the loop over the users
pub check_user : Manifest → Str × ManifestUser → Result (Unit {0})
check_user m (name, user) = do
  reject_if (is_empty user.certificate)
      (errorf "manifest does not contain a certificate for user %s" (name ∷ []))
  for_each
      (λ role.
        defined m.roles
          (errorf "manifest specifies role %s for user %s, but role does not exist"
            (role ∷ name ∷ []))
          role)
      user.roles

check_package_action : Str → Str → Result (Unit {0})
check_package_action role action =
    reject_if (not (str_eq (to_lower action) update_package))
      (errorf "unknown action: %s for type Packages in role: %s" (action ∷ role ∷ []))

-- the loop over the actions of a role on secrets, with the flags writeRole and readRole
secret_actions : Str → List Str → Bool → Bool → Result (Bool × Bool)
secret_actions role [] write_role read_role = ok (write_role, read_role)
secret_actions role (action ∷ actions) write_role read_role =
    let writes = str_eq (to_lower action) write_secret in
    let reads = str_eq (to_lower action) read_secret in
    let rest =
      secret_actions role actions (if writes then true else write_role)
        (if reads then true else read_role) in
    if not (writes || reads)
    then err (errorf "unknown action: %s for type Secrets in role: %s" (action ∷ role ∷ []))
    else rest

check_role_secret : Str → Bool → Bool → Str → Option Secret → Result (Unit {0})
check_role_secret role write_role read_role name none =
    err
      (errorf "role %s: resource %s of type Secrets is not defined in manifest" (role ∷ name ∷ []))
check_role_secret role write_role read_role name (some secret) = do
  reject_if (not secret.user_defined && write_role) (
      errorf
        "manifest specifies write permission for role %s and secret %s, but secret is not user-defined"
        (role ∷ name ∷ []))
  reject_if (not secret.shared && (not secret.user_defined && read_role)) (
      errorf "manifest specifies read permission for role %s and per-marble-unique secret %s"
        (role ∷ name ∷ []))

-- the case "Packages" of the switch over the resource type
check_package_role : Manifest → Str → Role → Result (Unit {0})
check_package_role m name role = do
  for_each
      (λ resource.
        defined m.packages
          (errorf "role %s: resource %s of type Packages is not defined in manifest"
            (name ∷ resource ∷ []))
          resource)
      role.resource_names
  for_each (check_package_action name) role.actions

-- the case "Secrets"
check_secret_role : Manifest → Str → Role → Result (Unit {0})
check_secret_role m name role = do
  flags ← secret_actions name role.actions false false
  for_each (λ s. check_role_secret name flags.0 flags.1 s (get m.secrets s)) role.resource_names

-- one round of the loop over the roles
pub check_role : Manifest → Str × Role → Result (Unit {0})
check_role m (name, role) =
    if str_eq role.resource_type (codes "Packages")
    then check_package_role m name role
    else if str_eq role.resource_type (codes "Secrets")
    then check_secret_role m name role
    else err (errorf "unrecognized resource type: %s for role: %s" (role.resource_type ∷ name ∷ []))

-- a case label of a switch with several constants
abbrev pub is_one_of : Str → List Str → Bool
is_one_of s [] = false
is_one_of s (t ∷ ts) = if str_eq s t then true else is_one_of s ts

abbrev pub cert_types : List Str
cert_types = codes "cert-rsa" ∷ codes "cert-ed25519" ∷ codes "cert-ecdsa" ∷ []

-- one round of the loop over the secrets
pub check_secret : Str × Secret → Result (Unit {0})
check_secret (name, s) =
    if is_one_of s.type_name (codes "plain" ∷ codes "symmetric-key" ∷ [])
    then ok tt
    else if is_one_of s.type_name cert_types
    then reject_if (not (is_nil s.cert.not_after) && not (s.valid_for == 0)) (
        errorf
          "ambigious certificate validity duration for secret: %s, both NotAfter and ValidFor are specified"
          (name ∷ []))
    else err (errorf "unknown type: %s for secret: %s" (s.type_name ∷ name ∷ []))

-- Manifest.Check
pub check : Manifest → Result (Unit {0})
check m = do
  reject_if (is_empty m.packages) (errorf "no allowed packages defined" [])
  reject_if (is_empty m.marbles) (errorf "no allowed marbles defined" [])
  for_each (check_marble m) m.marbles
  for_each (check_tag m) m.tls
  for_each (check_user m) m.users
  for_each (check_role m) m.roles
  for_each check_secret m.secrets
