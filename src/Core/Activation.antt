-- ===== src/Core/Activation.antt =====
-- Activate and verifyManifestRequirement of coordinator/core/marbleapi.go.
pub mod Parameters
pub mod Activate
pub mod Budget
pub mod Counted
use marblerun.Base.{
  Bool, Bytes, Code, List, Map, Result, Str, String, [], bytes_of, deadlock, err, if◌then◌else◌,
  internal, invalid_argument, is_empty, leb, ltb, none, not, ok, panic, resource_exhausted, status,
  unauthenticated, ℕ, ◌&&◌, ◌∷◌,
}
use marblerun.Core.Getters.{
  get_activations, get_infrastructure, get_iterator, get_marble, get_package,
  request_infrastructure, unset_as_zero,
}
use marblerun.Manifest.{Certificate, Marble}
use marblerun.Manifest.Check.{check}
use marblerun.Quote.{InfrastructureProperties, PackageProperties}
use marblerun.Base.Exec.{Exec, ◌>>=◌, ◌>>◌, pure, lift, fail, gets, reject_if}
use marblerun.Services.{Services}
use marblerun.Recovery.{Recovery}
use marblerun.Store.{Sealer, Transaction, is_unset}
use marblerun.Core.{Core, stored}

-- rpc.ActivationReq
pub record ActivationReq : Type 0 where
  pub csr : Bytes
  pub marble_type : Str
  pub req_quote : Bytes
  pub uuid : Str

-- quote.InfrastructureProperties{}
abbrev pub no_infrastructure : InfrastructureProperties
no_infrastructure = record { cpu_svn = none; qe_svn = none; pce_svn = none; root_ca = none }

-- the status of a value that could not be loaded
unfoldable pub load_status : {A : Type 0} → Code → String → String → Result A → Result A
load_status code missing broken (ok a) = ok a
load_status code missing broken (err e) =
    if is_unset e then err (status code missing) else err (status internal broken)
load_status code missing broken (panic m) = panic m
load_status code missing broken deadlock = deadlock

-- the status of an invalid quote
abbrev pub quote_status : Result (Unit {0}) → Result (Unit {0})
quote_status (err e) = err (status unauthenticated "invalid quote: %v")
quote_status r = r

module _ (ext : Services) where
  -- the loop over the infrastructures: one that the quote complies with is enough
  unfoldable pub match_infrastructure :
      Map Bytes → Bytes → Bytes → PackageProperties → List Str → Result (Unit {0})
  match_infrastructure m quote cert pkg [] = err (status unauthenticated "invalid quote")
  match_infrastructure m quote cert pkg (name ∷ names) = elim (get_infrastructure ext m name) [
    | ok infra ↦ elim (ext.verify_quote quote cert pkg infra) [
      | ok u ↦ ok tt
      | err e ↦ match_infrastructure m quote cert pkg names
      | panic x ↦ panic x
      | deadlock ↦ deadlock
    ]
    | err e ↦ err e
    | panic x ↦ panic x
    | deadlock ↦ deadlock
  ]

  -- the check of the quote outside simulation mode
  unfoldable pub check_quote :
      Map Bytes → Bytes → Bytes → PackageProperties → List Str → Result (Unit {0})
  unfolding match_infrastructure
  check_quote m quote cert pkg [] = quote_status (ext.verify_quote quote cert pkg no_infrastructure)
  check_quote m quote cert pkg (name ∷ names) = match_infrastructure m quote cert pkg (name ∷ names)

  -- the check of the activation budget; 0 is an infinite budget
  unfoldable pub check_budget : Marble → Result ℕ → Result (Unit {0})
  check_budget marble (ok n) =
      if ltb 0 marble.max_activations && leb marble.max_activations n
      then err (status resource_exhausted "reached max activations count for marble type")
      else ok tt
  check_budget marble (err e) =
      err (status internal "could not retrieve activations for marble type")
  check_budget marble (panic m) = panic m
  check_budget marble deadlock = deadlock

module _ {sl : Sealer} {rc : Recovery} {ext : Services} where
  -- inSimulationMode
  abbrev pub in_simulation_mode : Core sl rc ext → Bool
  in_simulation_mode c = is_empty (bytes_of c.quote)

  -- verifyManifestRequirement
  unfoldable pub verify_manifest_requirement :
      Certificate → Bytes → Str → Exec (Core sl rc ext) (Unit {0})
  unfolding load_status check_quote check_budget
  verify_manifest_requirement tls_cert cert_quote marble_type = do
    marble ← (λ c. (
      load_status invalid_argument "unknown marble type requested" "unable to load marble data: %v"
          (get_marble ext (stored c) marble_type),
      c,
    ))
    pkg ← (λ c. (
      load_status internal "undefined package" "unable to load package data: %v"
          (get_package ext (stored c) marble.package_name),
      c,
    ))
    λ c. (
      (if in_simulation_mode c
          then ok tt
          else check_quote ext (stored c) cert_quote (bytes_of tls_cert.raw) pkg
              (get_iterator (stored c) request_infrastructure)),
      c,
    )
    λ c. (check_budget ext marble (unset_as_zero (get_activations (stored c) marble_type)), c)
