-- ===== src/Server/Serve.antt =====
-- Every request, whatever the router chooses for it.
use marblerun.Base.{
  Bytes, Error, Result, deadlock, err, inl, inr, ok, panic, refl, some, suc, zero, ℕ, ◌≡◌, ◌⊎◌, [],
  codes,
}
use marblerun.Http.{
  HttpRequest, ResponseWriter, fresh_writer, status_internal_server_error, http_error,
  status_method_not_allowed,
}
use marblerun.Server.{
  ClientCore, Encodings, create_serve_mux, failed, guarded, method_not_allowed, recover_post,
  recovery_message, recovery_status_resp, respond, settle, write_json, manifest_get, manifest_post,
  quote_get, secrets_get, secrets_post, status_get, update_get, update_post, write_json_error,
}
use marblerun.Server.Laws.{
  CoreLaws, IsTotal, Sound, manifest_get-Sound, manifest_post-Sound, quote_get-Sound,
  secrets_get-Sound, secrets_post-Sound, status_get-Sound, update_get-Sound, update_post-Sound,
}
use marblerun.Base.Exec.{Exec}
use marblerun.Server.Mux.{
  Choice, found, not_found, method_mismatch, get_elem?, handler_of, http_not_found, recover_route,
  serve_http,
}

module _ (core : ClientCore) (enc : Encodings) (laws : CoreLaws core) (total : IsTotal enc) where
  -- Ready for the next request; answered with 200, or with the view as it was, or by recoverPost.
  abbrev pub Serves :
      Choice → core.State → Result (Unit {0}) × (core.State × ResponseWriter) → Type 0
  Serves choice s x =
      laws.Ready x.1.0
      × ((x.1.1.code ≡ some 200)
          ⊎ ((laws.view x.1.0 ≡ laws.view s) ⊎ (choice ≡ found recover_route)))

  from_Sound :
      (choice : Choice) (s : core.State) (x : Result (Unit {0}) × (core.State × ResponseWriter))
      → Sound core enc laws total s x
      → Serves choice s x
  from_Sound choice s x (ready, inl fine) = (ready, inl fine)
  from_Sound choice s x (ready, inr same) = (ready, inr (inl same))

  unanswered :
      (choice : Choice) (w : ResponseWriter) (s : core.State)
      → laws.Ready s
      → Serves choice s (ok tt, (s, w))
  unanswered choice w s ready = (ready, inr (inl refl))

  -- recoverPost keeps the core ready
  guarded-Ready :
      {A : Type 0} (f : Exec core.State A) (fail : Error → ResponseWriter → ResponseWriter)
      (g : A → ResponseWriter → ResponseWriter) (s : core.State) (w : ResponseWriter)
      → laws.Ready (f s).1
      → laws.Ready (guarded core enc f fail (λ a. respond core enc (g a)) (s, w)).1.0
  unfolding guarded
  guarded-Ready {A} f fail g s w h = go (f s) h
    where
      go :
          (r : Result A × core.State)
          → laws.Ready r.1
          → laws.Ready (settle core enc fail (λ a. respond core enc (g a)) w r).1.0
      go (ok a, t) h = h
      go (err x, t) h = h
      go (panic m, t) h = h
      go (deadlock, t) h = h

  recover_post-Ready :
      (r : HttpRequest) (s : core.State)
      → laws.Ready s
      → laws.Ready (recover_post core enc r (s, fresh_writer)).1.0
  unfolding recover_post guarded
  recover_post-Ready r s ready = go r.read_body
    where
      go :
          (body : Result Bytes)
          → laws.Ready
              (settle core enc
                (failed core enc status_internal_server_error)
                (λ key.
                  guarded core enc
                    (core.core_recover key)
                    (failed core enc status_internal_server_error)
                    λ remaining.
                      respond core enc
                        (write_json enc (recovery_status_resp (recovery_message remaining))))
                fresh_writer
                (body, s)).1.0
      go (ok key) =
          guarded-Ready (core.core_recover key) (failed core enc status_internal_server_error)
            (λ remaining. write_json enc (recovery_status_resp (recovery_message remaining))) s
            fresh_writer (laws.recover-Ready key s ready)
      go (err x) = ready
      go (panic m) = ready
      go deadlock = ready

  found-Serves :
      (i : ℕ) (r : HttpRequest) (s : core.State)
      → laws.Ready s
      → Serves (found i) s (handler_of core enc (found i) r (s, fresh_writer))
  unfolding handler_of get_elem? create_serve_mux http_not_found
  found-Serves zero r s ready =
      from_Sound _ s (status_get core enc r (s, fresh_writer))
        (status_get-Sound core enc laws total r s ready)
  found-Serves (suc zero) r s ready =
      from_Sound _ s (manifest_get core enc r (s, fresh_writer))
        (manifest_get-Sound core enc laws total r s ready)
  found-Serves (suc (suc zero)) r s ready =
      from_Sound _ s (manifest_post core enc r (s, fresh_writer))
        (manifest_post-Sound core enc laws total r s ready)
  found-Serves (suc (suc (suc zero))) r s ready =
      from_Sound _ s (quote_get core enc r (s, fresh_writer))
        (quote_get-Sound core enc laws total r s ready)
  found-Serves (suc (suc (suc (suc zero)))) r s ready =
      (recover_post-Ready r s ready, inr (inr refl))
  found-Serves (suc (suc (suc (suc (suc zero))))) r s ready =
      from_Sound _ s (update_get core enc r (s, fresh_writer))
        (update_get-Sound core enc laws total r s ready)
  found-Serves (suc (suc (suc (suc (suc (suc zero)))))) r s ready =
      from_Sound _ s (update_post core enc r (s, fresh_writer))
        (update_post-Sound core enc laws total r s ready)
  found-Serves (suc (suc (suc (suc (suc (suc (suc zero))))))) r s ready =
      from_Sound _ s (secrets_post core enc r (s, fresh_writer))
        (secrets_post-Sound core enc laws total r s ready)
  found-Serves (suc (suc (suc (suc (suc (suc (suc (suc zero)))))))) r s ready =
      from_Sound _ s (secrets_get core enc r (s, fresh_writer))
        (secrets_get-Sound core enc laws total r s ready)
  found-Serves (suc (suc (suc (suc (suc (suc (suc (suc (suc i))))))))) r s ready =
      unanswered _ (http_error (codes "404 page not found") 404 fresh_writer) s ready

  -- Whatever the request and the router's choice
  pub serve_http-Serves :
      (choose : HttpRequest → Choice) (r : HttpRequest) (s : core.State)
      → laws.Ready s
      → Serves (choose r) s (serve_http core enc choose r (s, fresh_writer))
  unfolding serve_http
  serve_http-Serves choose r s ready = go (choose r)
    where
      go : (choice : Choice) → Serves choice s (handler_of core enc choice r (s, fresh_writer))
      go (found i) = found-Serves i r s ready
      go not_found =
          unfold handler_of http_not_found in
          unanswered not_found (http_error (codes "404 page not found") 404 fresh_writer) s ready
      go method_mismatch =
          unfold handler_of method_not_allowed in
          unanswered method_mismatch
            (write_json_error enc [] status_method_not_allowed fresh_writer) s ready
