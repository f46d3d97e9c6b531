-- ===== src/Server.antt =====
-- coordinator/server/client_api.go: the HTTP handlers of the client API.
pub mod Mux
pub mod Laws
pub mod Serve
pub mod Unauthorized
pub mod Coordinator
mod Tests
use marblerun.Core.Reached.{writes}
use marblerun.Http.{
  HttpRequest, ResponseWriter, http_error, set_content_type, status_bad_request,
  status_internal_server_error, status_method_not_allowed, status_unauthorized, write_body,
}
use marblerun.Injector.Injected.{outcome}
use marblerun.Manifest.{Certificate, Secret}
use marblerun.Recovery.{Recovery}
use marblerun.Strconv.{itoa, pos, ℤ}
use marblerun.User.{User}
use marblerun.Base.{
  Bool, Bytes, Error, List, Map, Result, Slice, Str, String, [], bytes_of, codes, deadlock, err,
  false, if◌then◌else◌, is_empty, none, not, ok, panic, some, true, ℕ, ◌++◌, ◌==◌, ◌∷◌, Option,
}
use marblerun.Base.Exec.{Exec}

-- The interface ClientCore of coordinator/core/clientapi.go, over the state of the core.
pub record ClientCore : Type 1 where
  pub State : Type 0
  pub core_set_manifest : Bytes → Exec State (Map Bytes)
  pub core_get_cert_quote : Exec State (Str × Slice)
  pub core_get_manifest_signature : State → Slice × Slice
  pub core_get_secrets : List Str → User Certificate → Exec State (Map Secret)
  pub core_get_status : Exec State (ℤ × String)
  pub core_get_update_log : Exec State Str
  pub core_recover : Bytes → Exec State ℕ
  pub core_verify_user : State → List Certificate → Result (User Certificate)
  pub core_update_manifest : Bytes → User Certificate → Exec State (Unit {0})
  pub core_write_secrets : Bytes → User Certificate → Exec State (Unit {0})

-- the values that the handlers answer with
pub data Payload : Type 0 where
  no_payload : Payload
  status_resp : ℤ → Str → Payload
  manifest_signature_resp : Str → Slice → Payload
  recovery_data_resp : Map Str → Payload
  cert_quote_resp : Str → Slice → Payload
  recovery_status_resp : Str → Payload
  update_log_resp : Str → Payload
  secrets_resp : Map Secret → Payload

-- GeneralResponse
pub record GeneralResponse : Type 0 where
  pub resp_status : Str
  pub resp_payload : Payload
  pub resp_message : Str

-- What the handlers call of encoding/json, encoding/base64 and encoding/hex, and the texts of errors.
pub record Encodings : Type 0 where
  pub encode_response : GeneralResponse → Result Bytes
  pub base64 : Bytes → Str
  pub hex : Bytes → Str
  pub error_text : Error → Str

module _ (enc : Encodings) where
  -- writeJSON; the encoder ends the text with a newline
  unfoldable pub write_json : Payload → ResponseWriter → ResponseWriter
  write_json v w =
      let w' = set_content_type (codes "application/json") w in
      elim (enc.encode_response
        (record { resp_status = codes "success"; resp_payload = v; resp_message = [] })) [
          | ok raw ↦ write_body (raw ++ b'\n' ∷ []) w'
          | err e ↦ http_error (enc.error_text e) status_internal_server_error w'
          | _ ↦ w'
        ]

  -- writeJSONError; a text that cannot be encoded is written as it is, and then as an empty one
  unfoldable pub write_json_error : Str → ℕ → ResponseWriter → ResponseWriter
  write_json_error message c w =
      elim (enc.encode_response (record {
        resp_status = codes "error";
        resp_payload = no_payload;
        resp_message = message;
      })) [ ok raw ↦ http_error raw c w | err e ↦ http_error [] c (http_error message c w) | _ ↦ w ]

  -- the loop of manifestPost over the recovery secrets
  unfoldable pub encode_secrets : Map Bytes → Map Str
  encode_secrets [] = []
  encode_secrets ((name, secret) ∷ m) = (name, enc.base64 secret) ∷ encode_secrets m

-- the loop of secretsGet: some name is empty
unfoldable pub some_empty : List Str → Bool
some_empty [] = false
some_empty (name ∷ names) = if is_empty name then true else some_empty names

-- the status message of recoverPost
unfoldable pub recovery_message : ℕ → Str
recovery_message remaining =
    if not (remaining == 0)
    then codes "Secret was processed successfully. Upload the next secret. Remaining secrets: "
      ++ itoa (pos remaining)
    else codes "Recovery successful."

module _ (cc : ClientCore) (enc : Encodings) where
  -- a handler runs on the core and the response
  abbrev pub Handler : Type 0
  Handler = HttpRequest → Exec (cc.State × ResponseWriter) (Unit {0})

  -- writing the response
  abbrev pub respond :
      (ResponseWriter → ResponseWriter) → Exec (cc.State × ResponseWriter) (Unit {0})
  respond f (s, w) = (ok tt, (s, f w))

  pub settle :
      {A : Type 0}
      → (Error → ResponseWriter → ResponseWriter)
      → (A → Exec (cc.State × ResponseWriter) (Unit {0}))
      → ResponseWriter
      → Result A × cc.State
      → Result (Unit {0}) × (cc.State × ResponseWriter)
  settle fail k w (ok a, s) = k a (s, w)
  settle fail k w (err e, s) = (ok tt, (s, fail e w))
  settle fail k w (panic m, s) = (panic m, (s, w))
  settle fail k w (deadlock, s) = (deadlock, (s, w))

  -- `v, err := call(); if err != nil { write an error; return }` and what follows
  unfoldable pub guarded :
      {A : Type 0}
      → Exec cc.State A
      → (Error → ResponseWriter → ResponseWriter)
      → (A → Exec (cc.State × ResponseWriter) (Unit {0}))
      → Exec (cc.State × ResponseWriter) (Unit {0})
  unfolding settle
  guarded f fail k (s, w) = settle fail k w (f s)

  -- an error of the core with its text
  abbrev pub failed : ℕ → Error → ResponseWriter → ResponseWriter
  failed c e = write_json_error enc (enc.error_text e) c

  -- verifyUser, and the early return of the handlers that call it
  check_certificates :
      Option (List Certificate)
      → (User Certificate → Exec (cc.State × ResponseWriter) (Unit {0}))
      → Exec (cc.State × ResponseWriter) (Unit {0})
  check_certificates none k =
      respond (write_json_error enc (codes "no client certificate provided") status_unauthorized)
  check_certificates (some certs) k =
      guarded (λ s. (cc.core_verify_user s certs, s))
        (λ e. write_json_error enc (codes "unauthorized user") status_unauthorized) k

  unfoldable pub with_user :
      HttpRequest
      → (User Certificate → Exec (cc.State × ResponseWriter) (Unit {0}))
      → Exec (cc.State × ResponseWriter) (Unit {0})
  unfolding check_certificates
  with_user r k = check_certificates r.peer_certificates k

  -- ioutil.ReadAll(r.Body)
  abbrev pub with_body :
      HttpRequest
      → (Bytes → Exec (cc.State × ResponseWriter) (Unit {0}))
      → Exec (cc.State × ResponseWriter) (Unit {0})
  with_body r = guarded (λ s. (r.read_body, s)) (failed status_internal_server_error)

  -- statusGet
  unfoldable pub status_get : Handler
  status_get r =
      guarded cc.core_get_status (failed status_internal_server_error)
        λ answer. respond (write_json enc (status_resp answer.0 (codes answer.1)))

  -- manifestGet
  unfoldable pub manifest_get : Handler
  manifest_get r (s, w) =
      let (signature, manifest) = cc.core_get_manifest_signature s in
      (
        ok tt,
        (s, write_json enc (manifest_signature_resp (enc.hex (bytes_of signature)) manifest) w),
      )

  -- manifestPost
  unfoldable pub manifest_post : Handler
  unfolding encode_secrets
  manifest_post r = with_body r λ manifest.
      guarded (cc.core_set_manifest manifest) (failed status_bad_request) λ secrets. respond (
        write_json enc (
          if is_empty secrets then no_payload else recovery_data_resp (encode_secrets enc secrets)))

  -- quoteGet
  unfoldable pub quote_get : Handler
  quote_get r =
      guarded cc.core_get_cert_quote (failed status_internal_server_error)
        λ answer. respond (write_json enc (cert_quote_resp answer.0 answer.1))

  -- recoverPost
  unfoldable pub recover_post : Handler
  recover_post r = with_body r λ key.
      guarded (cc.core_recover key) (failed status_internal_server_error)
        λ remaining. respond (write_json enc (recovery_status_resp (recovery_message remaining)))

  -- what updateGet writes of the outcome of GetUpdateLog: it goes on after an error
  pub log_answer :
      ResponseWriter → Result Str × cc.State → Result (Unit {0}) × (cc.State × ResponseWriter)
  log_answer w (ok log, s) = (ok tt, (s, write_json enc (update_log_resp log) w))
  log_answer w (err e, s) =
      (ok tt, (s, write_json enc (update_log_resp []) (failed status_internal_server_error e w)))
  log_answer w (panic m, s) = (panic m, (s, w))
  log_answer w (deadlock, s) = (deadlock, (s, w))

  -- updateGet
  unfoldable pub update_get : Handler
  unfolding log_answer
  update_get r (s, w) = log_answer w (cc.core_get_update_log s)

  -- updatePost
  unfoldable pub update_post : Handler
  update_post r = with_user r λ u. with_body r λ update.
      guarded (cc.core_update_manifest update u) (failed status_bad_request)
        λ done. respond (write_json enc no_payload)

  -- secretsGet
  unfoldable pub secrets_get : Handler
  unfolding some_empty
  secrets_get r = with_user r λ u.
      if is_empty r.query_s
      then respond (write_json_error enc (codes "invalid query") status_bad_request)
      else if some_empty r.query_s
      then respond (write_json_error enc (codes "malformed query string") status_bad_request)
      else guarded (cc.core_get_secrets r.query_s u) (failed status_bad_request)
          λ secrets. respond (write_json enc (secrets_resp secrets))

  -- secretsPost
  unfoldable pub secrets_post : Handler
  secrets_post r = with_user r λ u. with_body r λ secrets.
      guarded (cc.core_write_secrets secrets u) (failed status_bad_request)
        λ done. respond (write_json enc no_payload)

  -- methodNotAllowedHandler
  unfoldable pub method_not_allowed : Handler
  method_not_allowed r = respond (write_json_error enc [] status_method_not_allowed)

  pub record Route : Type 0 where
    pub pattern_path : Str
    pub pattern_method : Str
    pub handler : Handler

  abbrev route : String → String → Handler → Route
  route p m h = record { pattern_path = codes p; pattern_method = codes m; handler = h }

  -- the routes that CreateServeMux registers
  unfoldable pub create_serve_mux : List Route
  create_serve_mux =
      route "/status" "GET" status_get
      ∷ route "/manifest" "GET" manifest_get
      ∷ route "/manifest" "POST" manifest_post
      ∷ route "/quote" "GET" quote_get
      ∷ route "/recover" "POST" recover_post
      ∷ route "/update" "GET" update_get
      ∷ route "/update" "POST" update_post
      ∷ route "/secrets" "POST" secrets_post
      ∷ route "/secrets" "GET" secrets_get
      ∷ []
