-- ===== src/Premain/Ends.antt =====
-- The two ways in which PreMainEx ends: before the call of the coordinator, or after it.
use marblerun.Core.Activation.{ActivationReq}
use marblerun.Core.Activation.Parameters.{RpcParameters}
use marblerun.Premain.{
  FileSystem, MarbleServices, Process, apply_parameters, coordinator_addr, coordinator_addr_default,
  generate_certificate, get_uuid, on_files, on_peer, on_random, pre_main_ex, read_uuid, store_uuid,
  type_variable, found_or_new, parsed_uuid, uuid_of,
}
use marblerun.Services.{Services}
use marblerun.Util.{getenv, must_getenv, os_getenv}
use marblerun.Util.Tls.{Credentials}
use marblerun.Base.{
  Bytes, ◌≢◌, Bool-cases, Map, Option, Result, Str, deadlock, err, inl, inr, is_empty, none, ok,
  panic, refl, some, ◌≡◌, encryption_key, errorf, foreign, not_exist, status, unset,
}
use marblerun.Base.Exec.{Exec, lift, proceed}
use marblerun.Base.Keeps.{Keeps, Keeps-bind}

must_getenv-value :
    (env : Map Str) (name v : Str) → must_getenv env name ≡ ok v → v ≡ os_getenv env name
unfolding must_getenv
must_getenv-value env name v e = elim (Bool-cases (is_empty (os_getenv env name))) [
  | inl missing ↦
      let ended : must_getenv env name ≡ panic "environment variable not set" = rw missing refl in
      cc
  | inr there ↦ let held : must_getenv env name ≡ ok (os_getenv env name) = rw there refl in cc
]

module _ {ext : Services} (os : MarbleServices ext) {Files Peer : Type 0} where
  get_uuid-peer :
      (c : Peer) (fs : FileSystem Files) (filename : Str)
      → Keeps (λ p. p.peer ≡ c) (get_uuid ext os fs filename)
  unfolding get_uuid found_or_new read_uuid parsed_uuid
  get_uuid-peer c fs filename =
      Keeps-bind (λ p. p.peer ≡ c) (read_uuid ext os fs filename) (found_or_new ext os fs filename)
        found made
    where
      parsed :
          (r : Result Bytes)
          → Keeps (λ (p : Process ext Files Peer). p.peer ≡ c) (parsed_uuid ext os r)
      parsed (ok b) =
          Keeps-bind (λ p. p.peer ≡ c) (on_random ext os ext.new_uuid)
            (λ u. lift (uuid_of (os.unmarshal_uuid b))) (λ q e. e) λ u q e. e
      parsed (err not_exist) = λ q e. e
      parsed (err (unset k)) = λ q e. e
      parsed (err encryption_key) = λ q e. e
      parsed (err (errorf f a)) = λ q e. e
      parsed (err (status m t)) = λ q e. e
      parsed (err (foreign m)) = λ q e. e
      parsed (panic m) = λ q e. e
      parsed deadlock = λ q e. e

      found : Keeps (λ (p : Process ext Files Peer). p.peer ≡ c) (read_uuid ext os fs filename)
      found q e =
          parsed (fs.read_file filename q.files).0
            (record q { files = (fs.read_file filename q.files).1 }) e

      made :
          (found : Option Bytes) → Keeps (λ p. p.peer ≡ c) (found_or_new ext os fs filename found)
      made (some u) = λ q e. e
      made none =
          Keeps-bind (λ p. p.peer ≡ c) (on_random ext os ext.new_uuid)
            (λ u p.
              proceed (on_files ext os (store_uuid ext os fs u filename) p) λ x p'. (ok u, p'))
            (λ q e. e)
            λ u.
              Keeps-bind (λ p. p.peer ≡ c) (on_files ext os (store_uuid ext os fs u filename))
                (λ x p'. (ok u, p')) (λ q e. e) λ x q e. e

  generate_certificate-peer :
      (c : Peer) → Keeps (λ (p : Process ext Files Peer). p.peer ≡ c) (generate_certificate ext os)
  unfolding generate_certificate
  generate_certificate-peer c p same = same

  module _ (p : Process ext Files Peer) (P : Result (Unit {0}) × Process ext Files Peer → Type 0)
      (early : (x : Result (Unit {0}) × Process ext Files Peer)
        → x.1.peer ≡ p.peer
        → ((u : Unit {0}) → x.0 ≢ ok u)
        → P x) where
    -- a step before the call of the coordinator
    past :
        {A : Type 0} (r : Result A × Process ext Files Peer)
        (f : A → Exec (Process ext Files Peer) (Unit {0}))
        → r.1.peer ≡ p.peer
        → ((a : A) (q : Process ext Files Peer) → r.0 ≡ ok a → q.peer ≡ p.peer → P (f a q))
        → P (proceed r f)
    unfolding proceed
    past (ok a, q) f same h = h a q refl same
    past (err e, q) f same h = early (err e, q) same (λ u. λ e. cc)
    past (panic m, q) f same h = early (panic m, q) same (λ u. λ e. cc)
    past (deadlock, q) f same h = early (deadlock, q) same (λ u. λ e. cc)

    -- PreMainEx ends before the call of the coordinator, or as the call and applyParameters end.
    pub pre_main_ex-ends :
        (issue : Bytes → Exec ext.Entropy Bytes)
        (activate_func : ActivationReq → Str → Credentials ext → Exec Peer (Option RpcParameters))
        (hostfs enclavefs : FileSystem Files)
        → ((req : ActivationReq) (tls : Credentials ext) (q : Process ext Files Peer)
            → q.peer ≡ p.peer
            → req.marble_type ≡ os_getenv p.environ type_variable
            → P (
                proceed
                  (on_peer ext os
                    (activate_func req
                      (getenv p.environ coordinator_addr coordinator_addr_default)
                      tls)
                    q)
                  λ params. apply_parameters ext os params enclavefs))
        → P (pre_main_ex ext os issue activate_func hostfs enclavefs p)
    unfolding pre_main_ex
    pre_main_ex-ends issue activate_func hostfs enclavefs call =
        past _ _ refl λ marble_type q₁ e₁ s₁. past _ _ s₁ λ cwd q₂ e₂ s₂.
          past _ _ (generate_certificate-peer p.peer q₂ s₂) λ cert q₃ e₃ s₃.
            past _ _ s₃ λ tls q₄ e₄ s₄.
              past _ _ (get_uuid-peer p.peer hostfs _ q₄ s₄) λ marble_uuid q₅ e₅ s₅.
                past _ _ s₅ λ csr q₆ e₆ s₆. past _ _ s₆ λ quote q₇ e₇ s₇.
                  call _ tls q₇ s₇ (must_getenv-value p.environ type_variable marble_type e₁)
