-- ===== src/Server/Unauthorized.antt =====
-- Requests without a known user, and the response of updateGet to an error.
use marblerun.Base.{
  Bytes, Error, IsErr, List, Result, Str, [], arith, codes, deadlock, err, inl, inr, none, ok,
  panic, refl, some, ℕ, ◌++◌, ◌∷◌, ◌≡◌, ◌⊎◌, ap,
}
use marblerun.Http.{
  HttpRequest, ResponseWriter, fresh_writer, http_error, status_internal_server_error,
  status_unauthorized, write_header,
}
use marblerun.Manifest.{Certificate}
use marblerun.Server.{
  ClientCore, Encodings, guarded, no_payload, secrets_get, secrets_post, settle, update_get,
  update_log_resp, update_post, with_user, write_json, write_json_error, Payload,
}
use marblerun.Server.Laws.{IsTotal}
use marblerun.User.{User}
use marblerun.Base.Exec.{Exec}

-- The request comes without TLS, or VerifyUser refuses its certificates.
abbrev pub IsAnonymous : (core : ClientCore) → HttpRequest → core.State → Type 0
IsAnonymous core r s =
    (r.peer_certificates ≡ none)
    ⊎ ((certs : List Certificate) × (r.peer_certificates ≡ some certs)
        × IsErr (core.core_verify_user s certs))

-- Refused: the core is not called any further, and the code is 401.
abbrev pub Refused : {S : Type 0} → S → Result (Unit {0}) × (S × ResponseWriter) → Type 0
Refused s x = (x.1.0 ≡ s) × (x.1.1.code ≡ some status_unauthorized)

http_error-code :
    (m : Str) (c : ℕ) (w : ResponseWriter) → w.code ≡ none → (http_error m c w).code ≡ some c
unfolding http_error write_header
http_error-code m c w fresh = ground (arith, fresh)

write_json_error-code :
    (enc : Encodings) (m : Str) (c : ℕ)
    → IsTotal enc
    → (write_json_error enc m c fresh_writer).code ≡ some c
unfolding write_json_error
write_json_error-code enc m c total =
    let (raw, e) =
      total (record { resp_status = codes "error"; resp_payload = no_payload; resp_message = m }) in
    rw (e, write_json_error) (http_error-code raw c fresh_writer refl)

-- an error, and then a success
write_twice :
    (enc : Encodings) (m : Str) (c : ℕ) (v : Payload) (failure success : Bytes)
    → enc.encode_response
        (record { resp_status = codes "error"; resp_payload = no_payload; resp_message = m })
      ≡ ok failure
    → enc.encode_response
        (record { resp_status = codes "success"; resp_payload = v; resp_message = [] })
      ≡ ok success
    → write_json enc v (write_json_error enc m c fresh_writer) ≡ record {
      code = some c;
      content_type = codes "text/plain; charset=utf-8";
      response_body = (failure ++ b'\n' ∷ []) ++ (success ++ b'\n' ∷ []);
    }
unfolding write_json write_json_error http_error write_header
write_twice enc m c v failure success f g = rw (g, write_json) (rw (f, write_json_error) refl)

module _ (core : ClientCore) (enc : Encodings) (total : IsTotal enc) (r : HttpRequest)
    (s : core.State) where
  with_user-Refused :
      (k : User Certificate → Exec (core.State × ResponseWriter) (Unit {0}))
      → IsAnonymous core r s
      → Refused s (with_user core enc r k (s, fresh_writer))
  unfolding with_user guarded
  with_user-Refused k (inl e) =
      rw (e, with_user)
        (
          refl,
          write_json_error-code enc (codes "no client certificate provided") status_unauthorized
              total,
        )
  with_user-Refused k (inr (certs, e, refused)) =
      rw (e, with_user) (go (core.core_verify_user s certs) refused)
    where
      go :
          (x : Result (User Certificate))
          → IsErr x
          → Refused s (
              settle core enc
                (λ e. write_json_error enc (codes "unauthorized user") status_unauthorized)
                k
                fresh_writer
                (x, s))
      go (err e) h =
          (refl, write_json_error-code enc (codes "unauthorized user") status_unauthorized total)
      go (ok u) h = elim h [ ]
      go (panic m) h = elim h [ ]
      go deadlock h = elim h [ ]

  -- Without a known user, updatePost, secretsPost and secretsGet answer with 401 and do not call the
  -- core any further; provided that every response can be encoded.
  pub anonymous-Refused :
      IsAnonymous core r s
      → Refused s (update_post core enc r (s, fresh_writer))
        × Refused s (secrets_post core enc r (s, fresh_writer))
        × Refused s (secrets_get core enc r (s, fresh_writer))
  unfolding update_post secrets_post secrets_get
  anonymous-Refused h = (with_user-Refused _ h, with_user-Refused _ h, with_user-Refused _ h)

  -- After an error of GetUpdateLog, updateGet answers with 500 and the text of the error, and then
  -- with the text of a success after it.
  pub update_get-answers_twice :
      (e : Error) (t : core.State)
      → core.core_get_update_log s ≡ (err e, t)
      → (failure : Bytes) × (success : Bytes) × (enc.encode_response (record {
        resp_status = codes "error";
        resp_payload = no_payload;
        resp_message = enc.error_text e;
      })
          ≡ ok failure)
        × (enc.encode_response (record {
          resp_status = codes "success";
          resp_payload = update_log_resp [];
          resp_message = [];
        })
            ≡ ok success)
        × (update_get core enc r (s, fresh_writer) ≡ (
          ok tt,
          (
            t,
            record {
              code = some status_internal_server_error;
              content_type = codes "text/plain; charset=utf-8";
              response_body = (failure ++ b'\n' ∷ []) ++ (success ++ b'\n' ∷ []);
            },
          ),
        ))
  unfolding update_get
  update_get-answers_twice e t h =
      let (failure, f) = total (record {
        resp_status = codes "error";
        resp_payload = no_payload;
        resp_message = enc.error_text e;
      }) in
      let (success, g) = total (record {
        resp_status = codes "success";
        resp_payload = update_log_resp [];
        resp_message = [];
      }) in
      (
        failure,
        success,
        f,
        g,
        rw (h, update_get)
            (ap (λ (w : ResponseWriter). (ok tt, (t, w)))
              (write_twice enc (enc.error_text e) status_internal_server_error (update_log_resp [])
                failure success f g)),
      )
