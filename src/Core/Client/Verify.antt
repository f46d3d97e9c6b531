-- ===== src/Core/Client/Verify.antt =====
-- What VerifyUser accepts.
use marblerun.Base.{
  Bytes, List, Map, Option, Result, Str, [], arith, deadlock, err, errorf, none, ok, panic, refl,
  some, ◌∷◌, ◌≡◌, Bool-cases, ap, if◌then◌else◌, inl, inr, subst, true, ◌∙◌,
}
use marblerun.Core.Client.{scan_certificates, scan_users, verify_user, same_certificate}
use marblerun.Core.Getters.{get_iterator, request_user, get_user}
use marblerun.Manifest.{Certificate}
use marblerun.User.{User}
use marblerun.Core.{Core, stored}
use marblerun.Services.{Services}
use marblerun.Recovery.{Recovery}
use marblerun.Store.{Sealer}

-- an exhausted iterator finds no user, whatever the certificates
scan_certificates-nil :
    (ext : Services) (m : Map Bytes) (certs : List Certificate)
    → scan_certificates ext m certs []
      ≡ err (errorf "client certificate did not match any MarbleRun users" [])
unfolding scan_certificates scan_users
scan_certificates-nil ext m [] = refl
scan_certificates-nil ext m (c ∷ certs) = scan_certificates-nil ext m certs

-- a scan that finds no user uses the iterator up
scan_users-rest :
    (ext : Services) (m : Map Bytes) (supplied : Certificate) (names rest : List Str)
    → scan_users ext m supplied names ≡ ok (none, rest)
    → rest ≡ []
unfolding scan_users
scan_users-rest ext m supplied [] rest e = cc
scan_users-rest ext m supplied (name ∷ names) rest e =
    ground (arith, scan_users-rest ext m supplied names rest)

scan_certificates-first :
    (ext : Services) (m : Map Bytes) (supplied : Certificate) (certs : List Certificate)
    (names : List Str)
    → (r : Result (Option (User Certificate) × List Str)) → scan_users ext m supplied names ≡ r
    → scan_certificates ext m (supplied ∷ certs) names
      ≡ scan_certificates ext m (supplied ∷ []) names
unfolding scan_certificates
scan_certificates-first ext m supplied certs names (ok (some u, rest)) e =
    rw (e, scan_certificates) refl
scan_certificates-first ext m supplied certs names (ok (none, rest)) e =
    let used : rest ≡ [] = scan_users-rest ext m supplied names rest e in
    rw (e, scan_certificates) (rw used (scan_certificates-nil ext m certs))
scan_certificates-first ext m supplied certs names (err x) e = rw (e, scan_certificates) refl
scan_certificates-first ext m supplied certs names (panic x) e = rw (e, scan_certificates) refl
scan_certificates-first ext m supplied certs names deadlock e = rw (e, scan_certificates) refl

-- What a user that was found has to do with the certificate.
pub record Matches (ext : Services) (m : Map Bytes) (supplied : Certificate) (u : User Certificate)
    : Type 0 where
  pub user_name : Str
  pub stored_user : get_user ext m user_name ≡ ok u
  pub same : same_certificate supplied u.certificate ≡ true

scan_users-Matches :
    (ext : Services) (m : Map Bytes) (supplied : Certificate) (names rest : List Str)
    (u : User Certificate)
    → scan_users ext m supplied names ≡ ok (some u, rest)
    → Matches ext m supplied u
unfolding scan_users
scan_users-Matches ext m supplied [] rest u e = cc
scan_users-Matches ext m supplied (name ∷ names) rest u e =
    found (get_user ext m name) refl e (scan_users-Matches ext m supplied names rest u)
  where
    found :
        (r : Result (User Certificate))
        → get_user ext m name ≡ r
        → (elim r [
          | ok user ↦
              if same_certificate supplied user.certificate
              then ok (some user, names)
              else scan_users ext m supplied names
          | err x ↦ err x
          | panic p ↦ panic p
          | deadlock ↦ deadlock
        ])
          ≡ ok (some u, rest)
        → (scan_users ext m supplied names ≡ ok (some u, rest) → Matches ext m supplied u)
        → Matches ext m supplied u
    found (ok v) g h rec = elim (Bool-cases (same_certificate supplied v.certificate)) [
      | inl hit ↦
          let it : v ≡ u = ground (arith, hit) in
          record {
            user_name = name;
            stored_user = g ∙ ap ok it;
            same = subst (λ w. same_certificate supplied w.certificate ≡ true) it hit;
          }
      | inr miss ↦ rec (ground (arith, miss))
    ]
    found (err x) g h rec = cc
    found (panic x) g h rec = cc
    found deadlock g h rec = cc

scan_certificates-Matches :
    (ext : Services) (m : Map Bytes) (supplied : Certificate) (certs : List Certificate)
    (names : List Str) (u : User Certificate)
    → (r : Result (Option (User Certificate) × List Str)) → scan_users ext m supplied names ≡ r
    → scan_certificates ext m (supplied ∷ certs) names ≡ ok u
    → Matches ext m supplied u
unfolding scan_certificates
scan_certificates-Matches ext m supplied certs names u (ok (some v, rest)) e h =
    let it : v ≡ u = ground (arith, scan_certificates) in
    scan_users-Matches ext m supplied names rest u
      (subst (λ w. scan_users ext m supplied names ≡ ok (some w, rest)) it e)
scan_certificates-Matches ext m supplied certs names u (ok (none, rest)) e h =
    let used : rest ≡ [] = scan_users-rest ext m supplied names rest e in
    let wrong : scan_certificates ext m (supplied ∷ certs) names
        ≡ err (errorf "client certificate did not match any MarbleRun users" []) =
      rw (e, scan_certificates) (rw used (scan_certificates-nil ext m certs)) in
    cc
scan_certificates-Matches ext m supplied certs names u (err x) e h =
    let wrong : scan_certificates ext m (supplied ∷ certs) names ≡ err x =
      rw (e, scan_certificates) refl in
    cc
scan_certificates-Matches ext m supplied certs names u (panic x) e h =
    let wrong : scan_certificates ext m (supplied ∷ certs) names ≡ panic x =
      rw (e, scan_certificates) refl in
    cc
scan_certificates-Matches ext m supplied certs names u deadlock e h =
    let wrong : scan_certificates ext m (supplied ∷ certs) names ≡ deadlock =
      rw (e, scan_certificates) refl in
    cc

module _ {sl : Sealer} {rc : Recovery} {ext : Services} where
  -- Only the first certificate of a client is ever compared with the users: what follows it has no
  -- influence on the result, since the iterator over the users is used up.
  pub verify_user-first :
      (c : Core sl rc ext) (supplied : Certificate) (certs : List Certificate)
      → verify_user c (supplied ∷ certs) ≡ verify_user c (supplied ∷ [])
  unfolding verify_user
  verify_user-first c supplied certs =
      scan_certificates-first ext (stored c) supplied certs (get_iterator (stored c) request_user) _
        refl

  -- A user that VerifyUser returns is stored, and has the certificate that the client supplied
  -- first.
  pub verify_user-Matches :
      (c : Core sl rc ext) (supplied : Certificate) (certs : List Certificate)
      (u : User Certificate)
      → verify_user c (supplied ∷ certs) ≡ ok u
      → Matches ext (stored c) supplied u
  unfolding verify_user
  verify_user-Matches c supplied certs u e =
      scan_certificates-Matches ext (stored c) supplied certs (get_iterator (stored c) request_user)
        u _ refl e
