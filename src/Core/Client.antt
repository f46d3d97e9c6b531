-- ===== src/Core/Client.antt =====
-- coordinator/core/clientapi.go: the operations of the client API that only read.
pub mod Verify
pub mod Written
pub mod Raised
pub mod Packages
pub mod Updated
pub mod Granted
pub mod Recover
pub mod Quiet
pub mod Manifests
pub mod Update
pub mod Upload
use marblerun.Base.{
  Bool, Bytes, List, Map, Option, Result, Slice, Str, [], bytes_of, deadlock, err, errorf, has,
  if◌then◌else◌, is_empty, none, not, ok, panic, put, some, str_eq, ◌++◌, ◌∷◌,
}
use marblerun.Core.Certs.{sk_intermediate_cert, sk_root_cert}
use marblerun.Core.Getters.{
  get_certificate, get_iterator, get_raw_manifest, get_secret, get_update_log, get_user,
  request_user,
}
use marblerun.Core.States.{
  require_state, state_accepting_manifest, state_accepting_marbles, state_recovery,
}
use marblerun.Manifest.{Certificate, Secret}
use marblerun.User.{User, is_granted, new_permission, read_secret}
use marblerun.Strconv.{ℤ}
use marblerun.Base.Exec.{Exec, ◌>>=◌, ◌>>◌, pure, lift, fail, gets, reject_if}
use marblerun.Services.{Services}
use marblerun.Recovery.{Recovery}
use marblerun.Store.{Sealer, Transaction, read}
use marblerun.Core.{Core, stored}

-- x509.Certificate.Equal
abbrev pub same_certificate : Certificate → Certificate → Bool
same_certificate a b = str_eq (bytes_of a.raw) (bytes_of b.raw)

module _ (ext : Services) where
  -- the inner loop of VerifyUser: the user that was found, and the names that the iterator still has
  unfoldable pub scan_users :
      Map Bytes → Certificate → List Str → Result (Option (User Certificate) × List Str)
  scan_users m supplied [] = ok (none, [])
  scan_users m supplied (name ∷ names) = elim (get_user ext m name) [
    | ok user ↦
        let rest = scan_users m supplied names in
        if same_certificate supplied user.certificate then ok (some user, names) else rest
    | err e ↦ err e
    | panic p ↦ panic p
    | deadlock ↦ deadlock
  ]

  -- the outer loop of VerifyUser, over the certificates; the iterator is shared by its rounds
  unfoldable pub scan_certificates :
      Map Bytes → List Certificate → List Str → Result (User Certificate)
  unfolding scan_users
  scan_certificates m [] names =
      err (errorf "client certificate did not match any MarbleRun users" [])
  scan_certificates m (supplied ∷ certs) names = elim (scan_users m supplied names) [
    | ok (some user, rest) ↦ ok user
    | ok (none, rest) ↦ scan_certificates m certs rest
    | err e ↦ err e
    | panic p ↦ panic p
    | deadlock ↦ deadlock
  ]

  -- the loop of GetSecrets
  unfoldable pub collect_secrets : Map Bytes → List Str → Map Secret → Result (Map Secret)
  collect_secrets m [] secrets = ok secrets
  collect_secrets m (name ∷ names) secrets = elim (get_secret ext m name) [
    | ok secret ↦ collect_secrets m names (put secrets name secret)
    | err e ↦ err e
    | panic p ↦ panic p
    | deadlock ↦ deadlock
  ]

module _ {sl : Sealer} {rc : Recovery} {ext : Services} where
  -- GetCertQuote
  unfoldable pub get_cert_quote : Exec (Core sl rc ext) (Str × Slice)
  get_cert_quote = do
    require_state (state_accepting_manifest ∷ state_accepting_marbles ∷ state_recovery ∷ [])
    root ← (λ c. (get_certificate ext (stored c) sk_root_cert, c))
    intermediate ← (λ c. (get_certificate ext (stored c) sk_intermediate_cert, c))
    let pem_root = ext.pem_encode "CERTIFICATE" (bytes_of root.raw)
    reject_if (is_empty pem_root) (errorf "pem.EncodeToMemory failed for root certificate" [])
    let pem_intermediate = ext.pem_encode "CERTIFICATE" (bytes_of intermediate.raw)
    reject_if (is_empty pem_intermediate)
        (errorf "pem.EncodeToMemory failed for intermediate certificate" [])
    λ c. (ok (pem_intermediate ++ pem_root, c.quote), c)

  -- GetManifestSignature
  unfoldable pub get_manifest_signature : Core sl rc ext → Slice × Slice
  get_manifest_signature c = elim (get_raw_manifest (stored c)) [
    | ok raw ↦ (some (ext.sha256 raw), some raw)
    | _ ↦ (none, none)
  ]

  -- GetUpdateLog
  unfoldable pub get_log : Exec (Core sl rc ext) Str
  get_log = do require_state (state_accepting_marbles ∷ []); λ c. (get_update_log (stored c), c)

  -- VerifyUser
  unfoldable pub verify_user : Core sl rc ext → List Certificate → Result (User Certificate)
  unfolding scan_certificates
  verify_user c certs =
      scan_certificates ext (stored c) certs (get_iterator (stored c) request_user)

  -- GetSecrets
  unfoldable pub get_secrets : List Str → User Certificate → Exec (Core sl rc ext) (Map Secret)
  unfolding collect_secrets
  get_secrets requested client = do
    require_state (state_accepting_marbles ∷ [])
    reject_if (not (is_granted client (new_permission read_secret requested))) (
        errorf "user %s is not allowed to read one or more secrets of: %v"
          (client.name ∷ requested))
    λ c. (collect_secrets ext (stored c) requested [], c)
