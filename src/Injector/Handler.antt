-- ===== src/Injector/Handler.antt =====
-- HandleMutate and checkRequest of injector/injector.go.
-- what the webhook is started with
use marblerun.Http.{
  HttpRequest, ResponseWriter, http_error, status_bad_request, status_internal_server_error,
  status_ok, write_body, write_header,
}
use marblerun.Base.{
  Bytes, Error, Option, Result, Str, codes, deadlock, err, if◌then◌else◌, none, not, ok, panic,
  some, str_eq, ◌++◌,
}
use marblerun.Injector.{Kubernetes}
use marblerun.Injector.Pods.{mutate}

pub record Mutator : Type 0 where
  pub mutator_addr : Str
  pub mutator_domain : Str
  pub sgx_resource : Str

-- checkRequest: no body after an error that has been written
unfoldable pub check_request :
    (Error → Str) → HttpRequest → ResponseWriter → Option Bytes × ResponseWriter
check_request error_text r w =
    if not (str_eq r.method (codes "POST"))
    then (none, http_error (codes "unable to handle requests other than POST") status_bad_request w)
    else if not (str_eq r.request_type (codes "application/json"))
    then (none, http_error (codes "wrong application type") status_bad_request w)
    else elim r.read_body [
      | ok body ↦ (some body, w)
      | err e ↦
          (none, http_error (codes "unable to read request: " ++ error_text e) status_bad_request w)
      | _ ↦ (none, w)
    ]

module _ (k : Kubernetes) (error_text : Error → Str) where
  -- what HandleMutate writes of the outcome of mutate; a panic of it is not caught here
  unfoldable pub write_mutated : Result Bytes → ResponseWriter → Result (Unit {0}) × ResponseWriter
  write_mutated (ok body) w = (ok tt, write_body body (write_header status_ok w))
  write_mutated (err e) w = (
    ok tt,
    http_error (codes "unable to mutate request: " ++ error_text e) status_internal_server_error w,
  )
  write_mutated (panic m) w = (panic m, w)
  write_mutated deadlock w = (deadlock, w)

  -- HandleMutate
  unfoldable pub handle_mutate :
      Mutator → HttpRequest → ResponseWriter → Result (Unit {0}) × ResponseWriter
  unfolding check_request write_mutated
  handle_mutate m r w =
      let checked = check_request error_text r w in
      elim checked.0 [
        | none ↦ (ok tt, checked.1)
        | some body ↦
            write_mutated (mutate k body m.mutator_addr m.mutator_domain m.sgx_resource) checked.1
      ]
