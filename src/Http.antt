-- ===== src/Http.antt =====
-- What the handlers use of net/http: a request, and a response that is being written.
use marblerun.Manifest.{Certificate}
use marblerun.Base.{Bytes, List, Option, Result, Str, [], codes, none, some, ℕ, ◌++◌, ◌∷◌}

pub record HttpRequest : Type 0 where
  pub method : Str
  pub request_path : Str
  pub request_type : Str
  pub read_body : Result Bytes
  pub peer_certificates : Option (List Certificate)
  pub query_s : List Str

-- Once a status code is sent, neither it nor the headers change any more.
pub record ResponseWriter : Type 0 where
  pub code : Option ℕ
  pub content_type : Str
  pub response_body : Bytes

abbrev pub status_ok : ℕ
status_ok = 200

abbrev pub status_bad_request : ℕ
status_bad_request = 400

abbrev pub status_unauthorized : ℕ
status_unauthorized = 401

abbrev pub status_method_not_allowed : ℕ
status_method_not_allowed = 405

abbrev pub status_internal_server_error : ℕ
status_internal_server_error = 500

-- w.Header().Set("Content-Type", t)
unfoldable pub set_content_type : Str → ResponseWriter → ResponseWriter
set_content_type t w = elim w.code [ none ↦ record w { content_type = t } | some c ↦ w ]

-- w.WriteHeader(c)
unfoldable pub write_header : ℕ → ResponseWriter → ResponseWriter
write_header c w = elim w.code [ none ↦ record w { code = some c } | some d ↦ w ]

-- w.Write(b)
unfoldable pub write_body : Bytes → ResponseWriter → ResponseWriter
unfolding write_header
write_body b w =
    let w' = write_header status_ok w in record w' { response_body = w'.response_body ++ b }

-- http.Error
unfoldable pub http_error : Str → ℕ → ResponseWriter → ResponseWriter
unfolding set_content_type write_body
http_error message c w =
    write_body (message ++ b'\n' ∷ [])
      (write_header c (set_content_type (codes "text/plain; charset=utf-8") w))

abbrev pub fresh_writer : ResponseWriter
fresh_writer = record { code = none; content_type = []; response_body = [] }
