-- ===== src/Core/Activation/Budget.antt =====
-- The activation budget: what Activate asks before a marble is admitted, and what it counts.
use marblerun.Core.Transactions.Atomic.{IsIdle}
use marblerun.Core.Activation.Parameters.{RpcParameters}
use marblerun.Core.Activation.Activate.{
  generate_cert_from_csr, generate_marble_auth_secrets, prepare_response,
}
use marblerun.Base.{
  Bytes, Map, Result, Str, arith, deadlock, err, ok, panic, ℕ, ◌<◌, ◌≡◌, ◌⊎◌, Code, String, refl,
  Option,
}
use marblerun.Core.Activation.{
  check_budget, verify_manifest_requirement, load_status, ActivationReq,
}
use marblerun.Core.Getters.{get_activations, get_marble, unset_as_zero}
use marblerun.Manifest.{Certificate, Marble}
use marblerun.Base.Exec.{Exec}
use marblerun.Base.Post.{Post, Post-bind, Post-read, Post-const}
use marblerun.Base.Keeps.{Keeps, Keeps-bind, Keeps-reject_if}
use marblerun.Core.{Core, stored}
use marblerun.Services.{Services}
use marblerun.Recovery.{Recovery}
use marblerun.Store.{Sealer}

-- the activations that are counted for a marble type, 0 if none was counted yet
abbrev pub activations : Map Bytes → Str → Result ℕ
activations m marble_type = unset_as_zero (get_activations m marble_type)

-- The marble type is known, and its budget is infinite or not used up.
pub record HasBudget (ext : Services) (m : Map Bytes) (marble_type : Str) : Type 0 where
  pub marble : Marble
  pub count : ℕ
  pub known : get_marble ext m marble_type ≡ ok marble
  pub counted : activations m marble_type ≡ ok count
  pub within : (marble.max_activations ≡ 0) ⊎ (count < marble.max_activations)

check_budget-HasBudget :
    (ext : Services) (m : Map Bytes) (marble_type : Str) (marble : Marble) (r : Result ℕ)
    → get_marble ext m marble_type ≡ ok marble
    → activations m marble_type ≡ r
    → check_budget ext marble r ≡ ok tt
    → HasBudget ext m marble_type
unfolding check_budget
check_budget-HasBudget ext m marble_type marble (ok n) known counted e = record {
  marble = marble;
  count = n;
  known = known;
  counted = counted;
  within = ground arith;
}
check_budget-HasBudget ext m marble_type marble (err x) known counted e = cc
check_budget-HasBudget ext m marble_type marble (panic x) known counted e = cc
check_budget-HasBudget ext m marble_type marble deadlock known counted e = cc

load_status-ok :
    {A : Type 0} (code : Code) (missing broken : String) (r : Result A) (a : A)
    → load_status code missing broken r ≡ ok a
    → r ≡ ok a
unfolding load_status
load_status-ok code missing broken (ok a) b e = e
load_status-ok code missing broken (err x) b e = ground arith
load_status-ok code missing broken (panic x) b e = cc
load_status-ok code missing broken deadlock b e = cc

module _ {sl : Sealer} {rc : Recovery} {ext : Services} where
  -- what a call of verifyManifestRequirement that succeeds has found, in a store that it only reads
  pub verify_manifest_requirement-HasBudget :
      (cert : Certificate) (quote : Bytes) (marble_type : Str) (c : Core sl rc ext)
      → Post
          (λ u c'. HasBudget ext (stored c) marble_type)
          (verify_manifest_requirement cert quote marble_type c)
  unfolding verify_manifest_requirement
  verify_manifest_requirement-HasBudget cert quote marble_type c =
      let P : Unit {0} → Core sl rc ext → Type 0 = λ u c'. HasBudget ext (stored c) marble_type in
      Post-read P _ c _ λ marble known.
        Post-read P _ c _ λ pkg found.
          Post-read P _ c _ λ u fits. budget marble (load_status-ok _ _ _ _ marble known)
    where
      budget :
          (marble : Marble)
          → get_marble ext (stored c) marble_type ≡ ok marble
          → Post
              (λ u c'. HasBudget ext (stored c) marble_type)
              (check_budget ext marble (activations (stored c) marble_type), c)
      budget marble known =
          checked (check_budget ext marble (activations (stored c) marble_type)) refl
        where
          checked :
              (r : Result (Unit {0}))
              → check_budget ext marble (activations (stored c) marble_type) ≡ r
              → Post (λ u c'. HasBudget ext (stored c) marble_type) (r, c)
          checked (ok u) e = check_budget-HasBudget ext _ marble_type marble _ known refl e
          checked (err x) e = tt
          checked (panic x) e = tt
          checked deadlock e = tt

  -- an action that leaves the store as it is
  abbrev pub KeepsIdle : {A : Type 0} → Exec (Core sl rc ext) A → Type 0
  KeepsIdle f = (m : Map Bytes) → Keeps (IsIdle m) f

  verify_manifest_requirement-KeepsIdle :
      (cert : Certificate) (quote : Bytes) (marble_type : Str)
      → KeepsIdle (verify_manifest_requirement cert quote marble_type)
  unfolding verify_manifest_requirement
  verify_manifest_requirement-KeepsIdle cert quote marble_type m =
      let I : Core sl rc ext → Type 0 = IsIdle m in
      Keeps-bind I _ _ (λ s h. h)
        λ marble. Keeps-bind I _ _ (λ s h. h) λ pkg. Keeps-bind I _ _ (λ s h. h) λ u s h. h

  generate_marble_auth_secrets-KeepsIdle :
      (req : ActivationReq) (uuid : Bytes) → KeepsIdle (generate_marble_auth_secrets req uuid)
  unfolding generate_marble_auth_secrets generate_cert_from_csr
  generate_marble_auth_secrets-KeepsIdle req uuid m =
      let I : Core sl rc ext → Type 0 = IsIdle m in
      Keeps-bind I _ _ (λ s h. h)
        λ key.
          Keeps-bind I _ _ (λ s h. h)
            λ private.
              Keeps-bind I _ _ (λ s h. h)
                λ public. Keeps-bind I _ _ (csr key) λ raw.
                  Keeps-bind I _ _ (λ s h. h)
                    λ cert. Keeps-bind I _ _ (λ s h. h) λ marble_root s h. h
    where
      csr :
          (key : ext.Key)
          → Keeps (IsIdle m) (
              generate_cert_from_csr {sl = sl} {rc = rc} {ext = ext} req.csr key
                (ext.uuid_string uuid))
      csr key =
          let I : Core sl rc ext → Type 0 = IsIdle m in
          Keeps-bind I _ _ (λ s h. h)
            λ request. Keeps-bind I _ _ (Keeps-reject_if I _ _) λ u.
              Keeps-bind I _ _ (λ s h. h)
                λ serial.
                  Keeps-bind I _ _ (λ s h. h)
                    λ marble_root.
                      Keeps-bind I _ _ (λ s h. h)
                        λ key. Keeps-bind I _ _ (λ s h. h) λ not_before s h. h

  pub prepare_response-KeepsIdle :
      (cert : Option Certificate) (req : ActivationReq) → KeepsIdle (prepare_response cert req)
  unfolding prepare_response
  prepare_response-KeepsIdle cert req m =
      let I : Core sl rc ext → Type 0 = IsIdle m in
      Keeps-bind I _ _ (λ s h. h)
        λ tls_cert.
          Keeps-bind I _ _
            (verify_manifest_requirement-KeepsIdle tls_cert req.req_quote req.marble_type m)
            λ u.
              Keeps-bind I _ _ (λ s h. h)
                λ uuid. Keeps-bind I _ _ (generate_marble_auth_secrets-KeepsIdle req uuid m) λ auth.
                  Keeps-bind I _ _ (λ s h. h)
                    λ marble_root.
                      Keeps-bind I _ _ (λ s h. h)
                        λ key.
                          Keeps-bind I _ _ (λ s h. h)
                            λ secrets.
                              Keeps-bind I _ _ (λ s h. h)
                                λ private.
                                  Keeps-bind I _ _ (λ s h. h)
                                    λ marble. Keeps-bind I _ _ (λ s h. h) λ params s h. h

  pub prepare_response-HasBudget :
      (cert : Option Certificate) (req : ActivationReq) (c : Core sl rc ext)
      → Post (λ r c'. HasBudget ext (stored c) req.marble_type) (prepare_response cert req c)
  unfolding prepare_response
  prepare_response-HasBudget cert req c =
      let P : RpcParameters → Core sl rc ext → Type 0 =
        λ r c'. HasBudget ext (stored c) req.marble_type in
      Post-read P _ c _ λ tls_cert e.
        Post-bind (λ u c'. HasBudget ext (stored c) req.marble_type) P _ _
          (verify_manifest_requirement-HasBudget tls_cert req.req_quote req.marble_type c)
          λ u s budget. Post-const _ budget
