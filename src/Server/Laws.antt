-- ===== src/Server/Laws.antt =====
-- What the server relies on of the core, and that a response other than 200 leaves the data alone.
use marblerun.Seal.Framing.Layout.{kept}
use marblerun.Base.{
  Bytes, Error, List, Result, Str, [], codes, deadlock, err, inl, inr, ok, panic, refl, some, ◌≡◌,
  ◌≢◌, ◌⊎◌, Bool, Option, ap, bytes_of, false, if◌then◌else◌, is_empty, none, subst, true,
}
use marblerun.Http.{
  HttpRequest, ResponseWriter, fresh_writer, set_content_type, write_body, write_header,
  status_bad_request,
}
use marblerun.Manifest.{Certificate}
use marblerun.Server.{
  ClientCore, Encodings, GeneralResponse, Payload, guarded, respond, settle, status_get,
  status_resp, write_json, cert_quote_resp, failed, log_answer, manifest_get, manifest_post,
  manifest_signature_resp, no_payload, quote_get, secrets_get, secrets_post, secrets_resp,
  some_empty, update_get, update_post, with_body, with_user, write_json_error, check_certificates,
}
use marblerun.User.{User}
use marblerun.Base.Exec.{Exec}

-- How a call of the core ends: ready for the next one, and with the view that it had if it fails.
pub record Settles {S View A : Type 0} (Ready : S → Type 0) (view : S → View) (s : S)
    (r : Result A × S) : Type 0 where
  pub ready : Ready r.1
  pub undone : ((a : A) → r.0 ≢ ok a) → view r.1 ≡ view s

-- What the server relies on: every call keeps `Ready`; a call that fails leaves `view` as it was,
-- Recover excepted, and so does a call that only reads.
pub record CoreLaws (core : ClientCore) : Type 1 where
  pub Ready : core.State → Type 0
  pub View : Type 0
  pub view : core.State → View
  pub set_manifest-Settles :
      (raw : Bytes) (s : core.State) → Ready s → Settles Ready view s (core.core_set_manifest raw s)
  pub update_manifest-Settles :
      (raw : Bytes) (u : User Certificate) (s : core.State)
      → Ready s
      → Settles Ready view s (core.core_update_manifest raw u s)
  pub write_secrets-Settles :
      (raw : Bytes) (u : User Certificate) (s : core.State)
      → Ready s
      → Settles Ready view s (core.core_write_secrets raw u s)
  pub get_secrets-reads :
      (names : List Str) (u : User Certificate) (s : core.State)
      → Ready s
      → Settles Ready view s (core.core_get_secrets names u s)
  pub get_status-reads : (s : core.State) → Ready s → Settles Ready view s (core.core_get_status s)
  pub get_cert_quote-reads :
      (s : core.State) → Ready s → Settles Ready view s (core.core_get_cert_quote s)
  pub get_update_log-reads :
      (s : core.State)
      → Ready s
      → Ready (core.core_get_update_log s).1 × (view (core.core_get_update_log s).1 ≡ view s)
  pub recover-Ready : (key : Bytes) (s : core.State) → Ready s → Ready (core.core_recover key s).1

-- Every response can be encoded.
abbrev pub IsTotal : Encodings → Type 0
IsTotal enc = (g : GeneralResponse) → (raw : Bytes) × (enc.encode_response g ≡ ok raw)

write_json-200 :
    (enc : Encodings) (v : Payload) → IsTotal enc → (write_json enc v fresh_writer).code ≡ some 200
unfolding write_json write_body write_header set_content_type
write_json-200 enc v total =
    let (raw, e) =
      total (record { resp_status = codes "success"; resp_payload = v; resp_message = [] }) in
    rw (e, write_json) refl

module _ (core : ClientCore) (enc : Encodings) (laws : CoreLaws core) (total : IsTotal enc) where
  -- ready for the next request, and answered with 200 or with the view as it was
  abbrev pub Sound : core.State → Result (Unit {0}) × (core.State × ResponseWriter) → Type 0
  Sound s x = laws.Ready x.1.0 × ((x.1.1.code ≡ some 200) ⊎ (laws.view x.1.0 ≡ laws.view s))

  -- a call, and what follows its success
  guarded-Sound :
      {A : Type 0} (f : Exec core.State A) (fail : Error → ResponseWriter → ResponseWriter)
      (k : A → Exec (core.State × ResponseWriter) (Unit {0})) (s : core.State)
      → Settles laws.Ready laws.view s (f s)
      → ((a : A) (t : core.State)
          → f s ≡ (ok a, t)
          → laws.Ready t
          → Sound s (k a (t, fresh_writer)))
      → Sound s (guarded core enc f fail k (s, fresh_writer))
  unfolding guarded
  guarded-Sound {A} f fail k s h next = go (f s) refl h
    where
      go :
          (r : Result A × core.State)
          → f s ≡ r
          → Settles laws.Ready laws.view s r
          → Sound s (settle core enc fail k fresh_writer r)
      go (ok a, t) e h = next a t e h.ready
      go (err x, t) e h = (h.ready, inr (h.undone λ a e. cc))
      go (panic m, t) e h = (h.ready, inr (h.undone λ a e. cc))
      go (deadlock, t) e h = (h.ready, inr (h.undone λ a e. cc))

  -- the last step of a handler
  answered :
      (v : Payload) (s t : core.State)
      → laws.Ready t
      → Sound s (respond core enc (write_json enc v) (t, fresh_writer))
  answered v s t ready = (ready, inl (write_json-200 enc v total))

  pub status_get-Sound :
      (r : HttpRequest) (s : core.State)
      → laws.Ready s
      → Sound s (status_get core enc r (s, fresh_writer))
  unfolding status_get
  status_get-Sound r s ready =
      guarded-Sound core.core_get_status _ _ s (laws.get_status-reads s ready)
        λ a t e ready'. answered (status_resp a.0 (codes a.1)) s t ready'

  pub manifest_get-Sound :
      (r : HttpRequest) (s : core.State)
      → laws.Ready s
      → Sound s (manifest_get core enc r (s, fresh_writer))
  unfolding manifest_get
  manifest_get-Sound r s ready =
      answered
        (manifest_signature_resp (enc.hex (bytes_of (core.core_get_manifest_signature s).0))
          (core.core_get_manifest_signature s).1)
        s s ready

  pub quote_get-Sound :
      (r : HttpRequest) (s : core.State)
      → laws.Ready s
      → Sound s (quote_get core enc r (s, fresh_writer))
  unfolding quote_get
  quote_get-Sound r s ready =
      guarded-Sound core.core_get_cert_quote _ _ s (laws.get_cert_quote-reads s ready)
        λ a t e ready'. answered (cert_quote_resp a.0 a.1) s t ready'

  -- a call that only computes a result settles
  pure-Settles :
      {A : Type 0} (r : Result A) (s : core.State)
      → laws.Ready s
      → Settles laws.Ready laws.view s (r, s)
  pure-Settles r s ready = record { ready = ready; undone = λ n. refl }

  with_body-Sound :
      (r : HttpRequest) (k : Bytes → Exec (core.State × ResponseWriter) (Unit {0})) (s : core.State)
      → laws.Ready s
      → ((body : Bytes) → Sound s (k body (s, fresh_writer)))
      → Sound s (with_body core enc r k (s, fresh_writer))
  with_body-Sound r k s ready next =
      guarded-Sound (λ t. (r.read_body, t)) _ k s (pure-Settles r.read_body s ready)
        λ body t e ready'.
          subst (λ u. Sound s (k body (u, fresh_writer))) (moved r.read_body t e) (next body)
    where
      moved :
          {A : Type 0} {a : A} (x : Result A) (t : core.State)
          → ◌≡◌ {A = Result A × core.State} (x, s) (ok a, t)
          → s ≡ t
      moved x t e = ap (λ p. p.1) e

  with_user-Sound :
      (r : HttpRequest) (k : User Certificate → Exec (core.State × ResponseWriter) (Unit {0}))
      (s : core.State)
      → laws.Ready s
      → ((u : User Certificate) → Sound s (k u (s, fresh_writer)))
      → Sound s (with_user core enc r k (s, fresh_writer))
  unfolding with_user
  with_user-Sound r k s ready next = go r.peer_certificates
    where
      verified :
          (u : User Certificate) (certs : List Certificate) (t : core.State)
          → ◌≡◌ {A = Result (User Certificate) × core.State}
              (core.core_verify_user s certs, s)
              (ok u, t)
          → Sound s (k u (t, fresh_writer))
      verified u certs t e = subst (λ v. Sound s (k u (v, fresh_writer))) (ap (λ p. p.1) e) (next u)

      go :
          (certs : Option (List Certificate))
          → Sound s (check_certificates core enc certs k (s, fresh_writer))
      go none = (ready, inr refl)
      go (some certs) =
          guarded-Sound (λ t. (core.core_verify_user t certs, t)) _ k s
            (pure-Settles (core.core_verify_user s certs) s ready)
            λ u t e ready'. verified u certs t e

  pub manifest_post-Sound :
      (r : HttpRequest) (s : core.State)
      → laws.Ready s
      → Sound s (manifest_post core enc r (s, fresh_writer))
  unfolding manifest_post
  manifest_post-Sound r s ready = with_body-Sound r _ s ready λ body.
      guarded-Sound (core.core_set_manifest body) _ _ s (laws.set_manifest-Settles body s ready)
        λ secrets t e ready'. answered _ s t ready'

  pub update_post-Sound :
      (r : HttpRequest) (s : core.State)
      → laws.Ready s
      → Sound s (update_post core enc r (s, fresh_writer))
  unfolding update_post
  update_post-Sound r s ready = with_user-Sound r _ s ready λ u. with_body-Sound r _ s ready λ body.
      guarded-Sound (core.core_update_manifest body u) _ _ s
        (laws.update_manifest-Settles body u s ready)
        λ done t e ready'. answered no_payload s t ready'

  pub secrets_post-Sound :
      (r : HttpRequest) (s : core.State)
      → laws.Ready s
      → Sound s (secrets_post core enc r (s, fresh_writer))
  unfolding secrets_post
  secrets_post-Sound r s ready = with_user-Sound r _ s ready λ u.
      with_body-Sound r _ s ready λ body.
        guarded-Sound (core.core_write_secrets body u) _ _ s
          (laws.write_secrets-Settles body u s ready)
          λ done t e ready'. answered no_payload s t ready'

  pub secrets_get-Sound :
      (r : HttpRequest) (s : core.State)
      → laws.Ready s
      → Sound s (secrets_get core enc r (s, fresh_writer))
  unfolding secrets_get
  secrets_get-Sound r s ready =
      with_user-Sound r _ s ready λ u. checked u (is_empty r.query_s) (some_empty r.query_s)
    where
      checked :
          (u : User Certificate)
          → (a b : Bool)
          → Sound s (
              (if a
                  then respond core enc
                      (write_json_error enc (codes "invalid query") status_bad_request)
                  else if b
                  then respond core enc
                      (write_json_error enc (codes "malformed query string") status_bad_request)
                  else guarded core enc
                      (core.core_get_secrets r.query_s u)
                      (failed core enc status_bad_request)
                      λ secrets. respond core enc (write_json enc (secrets_resp secrets)))
                (s, fresh_writer))
      checked u true b = (ready, inr refl)
      checked u false true = (ready, inr refl)
      checked u false false =
          guarded-Sound (core.core_get_secrets r.query_s u) _ _ s
            (laws.get_secrets-reads r.query_s u s ready)
            λ secrets t e ready'. answered (secrets_resp secrets) s t ready'

  pub update_get-Sound :
      (r : HttpRequest) (s : core.State)
      → laws.Ready s
      → Sound s (update_get core enc r (s, fresh_writer))
  unfolding update_get
  update_get-Sound r s ready =
      let (kept, same) = laws.get_update_log-reads s ready in
      go (core.core_get_update_log s) kept same
    where
      go :
          (x : Result Str × core.State)
          → laws.Ready x.1
          → laws.view x.1 ≡ laws.view s
          → Sound s (log_answer core enc fresh_writer x)
      go (ok log, t) kept same = (kept, inr same)
      go (err e, t) kept same = (kept, inr same)
      go (panic m, t) kept same = (kept, inr same)
      go (deadlock, t) kept same = (kept, inr same)
