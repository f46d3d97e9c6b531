-- ===== src/Premain/Admitted.antt =====
-- A marble and its coordinator: PreMainEx over ActivateRPC, with Activate at the other end of the
-- connection.
use marblerun.Core.{Core, stored}
use marblerun.Core.Activation.{ActivationReq}
use marblerun.Core.Activation.Activate.{activate}
use marblerun.Core.Activation.Counted.{Admitted, activate-Outcome}
use marblerun.Core.Activation.Parameters.{RpcParameters}
use marblerun.Core.Transactions.Outcome.{Outcome}
use marblerun.Manifest.{Certificate}
use marblerun.Premain.{
  FileSystem, MarbleServices, Process, activate_rpc, apply_parameters, coordinator_addr,
  coordinator_addr_default, on_peer, pre_main_ex, type_variable,
}
use marblerun.Premain.Ends.{pre_main_ex-ends}
use marblerun.Premain.Started.{apply_parameters-peer}
use marblerun.Recovery.{Recovery}
use marblerun.Services.{Services}
use marblerun.Store.{Sealer}
use marblerun.Util.{getenv, os_getenv}
use marblerun.Util.Tls.{Credentials, TlsCertificate}
use marblerun.Base.{
  Bytes, List, Map, Option, Result, Str, [], ap, deadlock, err, false, inl, inr, none, ok, panic,
  refl, some, subst, sym, ◌∷◌, ◌≡◌, ◌≢◌, ◌⊎◌,
}
use marblerun.Base.Exec.{Exec, proceed}

module _ (ext : Services) where
  -- the certificate that the coordinator sees of a client
  leaf : List Bytes → Option Certificate
  leaf [] = none
  leaf (der ∷ chain) = elim (ext.parse_certificate der) [ ok cert ↦ some cert | _ ↦ none ]

  peer_certificate : List (TlsCertificate ext) → Option Certificate
  unfolding leaf
  peer_certificate [] = none
  peer_certificate (own ∷ others) = leaf own.chain

module _ {sl : Sealer} {rc : Recovery} {ext : Services} where
  response_of :
      Result RpcParameters × Core sl rc ext → Result (Option RpcParameters) × Core sl rc ext
  response_of (ok params, c) = (ok (some params), c)
  response_of (err e, c) = (err e, c)
  response_of (panic m, c) = (panic m, c)
  response_of (deadlock, c) = (deadlock, c)

  -- a connection that reaches the coordinator, with the marble's certificate
  unfoldable pub call_coordinator :
      ActivationReq → Str → Credentials ext → Exec (Core sl rc ext) (Option RpcParameters)
  unfolding peer_certificate response_of
  call_coordinator =
      activate_rpc ext (λ addr tls c. (ok tls, c))
        λ tls req c. response_of (activate (peer_certificate ext tls.certificates) req c)

  module _ (os : MarbleServices ext) {Files : Type 0} where
    -- The lock of the coordinator's store is free; and either a marble of the type was admitted, or
    -- no data of the coordinator have changed and the marble does not start.
    abbrev pub AdmitsOrEnds :
        Str → Map Bytes → Result (Unit {0}) × Process ext Files (Core sl rc ext) → Type 0
    AdmitsOrEnds marble_type m x =
        (x.1.peer.disk.store.locked ≡ false)
        × (Admitted ext marble_type m (stored x.1.peer)
            ⊎ ((stored x.1.peer ≡ m) × ((u : Unit {0}) → x.0 ≢ ok u)))

    answered :
        (marble_type : Str) (m : Map Bytes) (enclavefs : FileSystem Files)
        (q : Process ext Files (Core sl rc ext)) (r : Result RpcParameters × Core sl rc ext)
        → Outcome (λ params. Admitted ext marble_type m) m r
        → AdmitsOrEnds marble_type m (
            proceed
              ((response_of r).0, record q { peer = (response_of r).1 })
              λ params. apply_parameters ext os params enclavefs)
    unfolding proceed response_of
    answered marble_type m enclavefs q (ok params, c) o =
        let p : Process ext Files (Core sl rc ext) = record q { peer = c } in
        let same = apply_parameters-peer os c enclavefs (some params) p refl in
        (
          subst (λ (d : Core sl rc ext). d.disk.store.locked ≡ false) (sym same) o.lock_free,
          inl (
              subst (λ (d : Core sl rc ext). Admitted ext marble_type m (stored d)) (sym same)
                (o.done params refl)),
        )
    answered marble_type m enclavefs q (err e, c) o =
        (o.lock_free, inr (o.undone (λ a e. cc), λ u e. cc))
    answered marble_type m enclavefs q (panic x, c) o =
        (o.lock_free, inr (o.undone (λ a e. cc), λ u e. cc))
    answered marble_type m enclavefs q (deadlock, c) o =
        (o.lock_free, inr (o.undone (λ a e. cc), λ u e. cc))

    -- Whatever the marble, its file systems and its issuer: after PreMainEx the lock of the
    -- coordinator's store is free; and either the coordinator has admitted one marble of the type
    -- in the environment, as its budget allows, or no data of the coordinator have changed and
    -- PreMainEx has not succeeded. The lock has to be free before.
    pub pre_main_ex-AdmitsOrEnds :
        (issue : Bytes → Exec ext.Entropy Bytes) (hostfs enclavefs : FileSystem Files)
        (p : Process ext Files (Core sl rc ext))
        → p.peer.disk.store.locked ≡ false
        → AdmitsOrEnds
            (os_getenv p.environ type_variable)
            (stored p.peer)
            (pre_main_ex ext os issue call_coordinator hostfs enclavefs p)
    unfolding call_coordinator activate_rpc proceed
    pre_main_ex-AdmitsOrEnds issue hostfs enclavefs p free =
        let marble_type = os_getenv p.environ type_variable in
        pre_main_ex-ends os p (AdmitsOrEnds marble_type (stored p.peer))
          (λ x same n. (rw same free, inr (ap (λ d. stored d) same, n))) issue call_coordinator
          hostfs enclavefs
          λ req tls q same typed.
            subst
              (λ (d : Core sl rc ext). AdmitsOrEnds marble_type (stored p.peer) (
                proceed
                  (on_peer ext os
                    (call_coordinator req
                      (getenv p.environ coordinator_addr coordinator_addr_default) tls)
                    (record q { peer = d }))
                  λ params. apply_parameters ext os params enclavefs))
              (sym same)
              (answered marble_type (stored p.peer) enclavefs (record q { peer = p.peer }) _
                (subst
                  (λ t.
                    Outcome (λ params. Admitted ext t (stored p.peer)) (stored p.peer)
                      (activate (peer_certificate ext tls.certificates) req p.peer))
                  typed (activate-Outcome (peer_certificate ext tls.certificates) req p.peer free)))
