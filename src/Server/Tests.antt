-- ===== src/Server/Tests.antt =====
-- Requests to a coordinator that accepts marbles.
use marblerun.Base.Exec.{proceed}
use marblerun.Base.{
  [], codes, err, errorf, false, get, inl, none, ok, refl, some, str_eq, ◌∷◌, ◌≡◌, ◌⊎◌, Bytes, ◌++◌,
}
use marblerun.Core.{Core, stored}
use marblerun.Core.Client.{get_log}
use marblerun.Core.Getters.{get_state}
use marblerun.Core.States.{one_of, require_state}
use marblerun.Http.{HttpRequest, fresh_writer, status_internal_server_error}
use marblerun.Seal.Mock.{mock_sealer}
use marblerun.Server.{
  ClientCore, Encodings, secrets_get, secrets_post, update_post, no_payload, update_get,
  update_log_resp,
}
use marblerun.Server.Laws.{IsTotal}
use marblerun.Store.{read}
use marblerun.Strconv.{atoi}
use marblerun.Core.Concrete.{accepting, certificate_of, concrete_recovery, concrete_services}
use marblerun.Server.Mux.{found, serve_http, recover_route}
use marblerun.Server.Coordinator.{core_client, serve_http-Coordinator}
use marblerun.Server.Unauthorized.{anonymous-Refused, Refused, update_get-answers_twice}

abbrev plain_encodings : Encodings
plain_encodings = record {
  encode_response = λ g. ok g.resp_message;
  base64 = λ b. b;
  hex = λ b. b;
  error_text = λ e. codes "failed";
}

plain-IsTotal : IsTotal plain_encodings
plain-IsTotal g = (g.resp_message, refl)

abbrev posted_update : HttpRequest
posted_update = record {
  method = codes "POST";
  request_path = codes "/update";
  request_type = [];
  read_body = ok (1 ∷ []);
  peer_certificates = some (certificate_of (7 ∷ []) ∷ []);
  query_s = [];
}

abbrev anonymous_update : HttpRequest
anonymous_update = record posted_update { peer_certificates = none }

abbrev test_client : ClientCore
test_client = core_client mock_sealer concrete_recovery concrete_services

serve_http-Coordinator_example :
    ((serve_http test_client plain_encodings
        (λ r. found 6)
        posted_update
        (accepting, fresh_writer)).1.0.disk.store.locked
      ≡ false)
    × (((serve_http test_client plain_encodings
            (λ r. found 6)
            posted_update
            (accepting, fresh_writer)).1.1.code
          ≡ some 200)
        ⊎ ((stored
                (serve_http test_client plain_encodings
                  (λ r. found 6)
                  posted_update
                  (accepting, fresh_writer)).1.0
              ≡ stored accepting)
            ⊎ (found 6 ≡ found recover_route)))
serve_http-Coordinator_example =
    serve_http-Coordinator plain_encodings (λ r. found 6) posted_update accepting plain-IsTotal refl

anonymous-Refused_example :
    Refused accepting
      (update_post test_client plain_encodings anonymous_update (accepting, fresh_writer))
    × Refused accepting
        (secrets_post test_client plain_encodings anonymous_update (accepting, fresh_writer))
    × Refused accepting
        (secrets_get test_client plain_encodings anonymous_update (accepting, fresh_writer))
anonymous-Refused_example =
    anonymous-Refused test_client plain_encodings plain-IsTotal anonymous_update accepting
      (inl refl)

-- a core whose log cannot be read, since it does not accept marbles
abbrev awaiting : Core mock_sealer concrete_recovery concrete_services
awaiting = record accepting {
  disk = record accepting.disk {
    store = record accepting.disk.store { data_map = (codes "state", codes "2") ∷ [] };
  };
}

no_log :
    test_client.core_get_update_log awaiting
    ≡ (err (errorf "server is not in expected state" []), awaiting)
unfolding get_log require_state one_of get_state read get atoi str_eq proceed
no_log = refl

update_get-answers_twice_example :
    (failure : Bytes) × (success : Bytes) × (plain_encodings.encode_response (record {
      resp_status = codes "error";
      resp_payload = no_payload;
      resp_message = codes "failed";
    })
      ≡ ok failure)
    × (plain_encodings.encode_response (record {
      resp_status = codes "success";
      resp_payload = update_log_resp [];
      resp_message = [];
    })
        ≡ ok success)
    × (update_get test_client plain_encodings posted_update (awaiting, fresh_writer) ≡ (
      ok tt,
      (
        awaiting,
        record {
          code = some status_internal_server_error;
          content_type = codes "text/plain; charset=utf-8";
          response_body = (failure ++ b'\n' ∷ []) ++ (success ++ b'\n' ∷ []);
        },
      ),
    ))
update_get-answers_twice_example =
    update_get-answers_twice test_client plain_encodings plain-IsTotal posted_update awaiting
      (errorf "server is not in expected state" []) awaiting no_log
