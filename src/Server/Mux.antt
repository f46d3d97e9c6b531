-- ===== src/Server/Mux.antt =====
-- The requests as the router hands them out (coordinator/server/server.go).
use marblerun.Base.{List, Option, [], codes, none, ok, some, suc, zero, ℕ, ◌∷◌}
use marblerun.Http.{HttpRequest, http_error}
use marblerun.Server.{ClientCore, Encodings, Handler, create_serve_mux, method_not_allowed, route}

-- What gorilla/mux chooses for a request: a registered route, or none for the path, or none for the
-- method on a path that has one.
pub data Choice : Type 0 where
  found : ℕ → Choice
  not_found : Choice
  method_mismatch : Choice

-- the place of recoverPost among the routes
abbrev pub recover_route : ℕ
recover_route = 4

unfoldable pub get_elem? : {A : Type 0} → List A → ℕ → Option A
get_elem? [] i = none
get_elem? (x ∷ xs) zero = some x
get_elem? (x ∷ xs) (suc i) = get_elem? xs i

module _ (cc : ClientCore) (enc : Encodings) where
  -- http.NotFound, the router's own handler
  unfoldable pub http_not_found : Handler cc enc
  http_not_found r (s, w) = (ok tt, (s, http_error (codes "404 page not found") 404 w))

  unfoldable pub handler_of : Choice → Handler cc enc
  unfolding http_not_found
  handler_of (found i) r = elim (get_elem? (create_serve_mux cc enc) i) [
    | none ↦ http_not_found r
    | some route ↦ route.handler r
  ]
  handler_of not_found r = http_not_found r
  handler_of method_mismatch r = method_not_allowed cc enc r

  -- ServeHTTP with the router's choice
  unfoldable pub serve_http : (HttpRequest → Choice) → Handler cc enc
  unfolding handler_of
  serve_http choose r = handler_of (choose r) r
