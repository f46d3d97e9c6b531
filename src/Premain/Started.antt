-- ===== src/Premain/Started.antt =====
-- PreMainEx: what has happened when it returns without an error.
use marblerun.Core.Activation.{ActivationReq}
use marblerun.Core.Activation.Parameters.{RpcParameters}
use marblerun.Premain.{
  FileSystem, MarbleServices, Process, apply_parameters, args_or_default, coordinator_addr,
  coordinator_addr_default, create_files, on_environ, on_files, pre_main_ex, set_variables,
  type_variable,
}
use marblerun.Premain.Applied.{Applied, HasMaps, apply_parameters-Applied}
use marblerun.Premain.Ends.{pre_main_ex-ends}
use marblerun.Premain.Restart.{FsLaws}
use marblerun.Services.{Services}
use marblerun.Util.{getenv, os_getenv}
use marblerun.Util.Tls.{Credentials}
use marblerun.Base.{
  Bytes, Option, Result, Str, ap, deadlock, err, none, ok, panic, refl, some, sym, ◌∙◌, ◌≡◌, ◌≢◌,
}
use marblerun.Base.Exec.{Exec, ◌>>◌, proceed}
use marblerun.Base.Post.{Post, Post-both, Post-kept, Post-mono, Post-use}
use marblerun.Base.Keeps.{Keeps, Keeps-bind}

module _ {ext : Services} (os : MarbleServices ext) {Files Peer : Type 0} where
  pub apply_parameters-peer :
      (c : Peer) (fs : FileSystem Files) (params : Option RpcParameters)
      → Keeps (λ p. p.peer ≡ c) (apply_parameters ext os params fs)
  unfolding apply_parameters
  apply_parameters-peer c fs none = λ q e. e
  apply_parameters-peer c fs (some params) =
      Keeps-bind (λ p. p.peer ≡ c) (on_files ext os (create_files ext os fs params.rpc_files))
        (λ u. on_environ ext os (set_variables ext os params.rpc_env) >> λ p.
          (ok tt, record p { args = args_or_default params.rpc_argv }))
        (λ q e. e)
        λ u.
          Keeps-bind (λ p. p.peer ≡ c) (on_environ ext os (set_variables ext os params.rpc_env))
            (λ u p. (ok tt, record p { args = args_or_default params.rpc_argv })) (λ q e. e)
            λ u q e. e

  module _ (enclavefs : FileSystem Files) (laws : FsLaws enclavefs)
      (activate_func : ActivationReq
        → Str
        → Credentials ext
        → Exec Peer (Option RpcParameters)) where
    -- The coordinator has answered a request for the type of the marble, and the process is as the
    -- answer says.
    pub record Started (p p' : Process ext Files Peer) : Type 0 where
      pub req : ActivationReq
      pub tls : Credentials ext
      pub params : RpcParameters
      pub typed : req.marble_type ≡ os_getenv p.environ type_variable
      pub answered :
          activate_func req (getenv p.environ coordinator_addr coordinator_addr_default) tls p.peer
          ≡ (ok (some params), p'.peer)
      pub applied : Applied os enclavefs laws params p'

    -- what the coordinator answers
    after_answer :
        (p q : Process ext Files Peer) (req : ActivationReq) (tls : Credentials ext)
        (r : Result (Option RpcParameters) × Peer)
        → req.marble_type ≡ os_getenv p.environ type_variable
        → activate_func req (getenv p.environ coordinator_addr coordinator_addr_default) tls p.peer
          ≡ r
        → Post (λ answer c. HasMaps os enclavefs laws answer) r
        → Post
            (λ u. Started p)
            (proceed
              (r.0, record q { peer = r.1 })
              λ params. apply_parameters ext os params enclavefs)
    unfolding proceed apply_parameters
    after_answer p q req tls (ok none, c) typed e maps = tt
    after_answer p q req tls (ok (some params), c) typed e maps =
        Post-mono (λ u p'. Applied os enclavefs laws params p' × (p'.peer ≡ c)) (λ u. Started p) _
          (Post-both (λ u. Applied os enclavefs laws params) (λ u p'. p'.peer ≡ c) _
            (apply_parameters-Applied os enclavefs laws params (record q { peer = c }) maps)
            (Post-kept (λ p'. p'.peer ≡ c) _
              (apply_parameters-peer c enclavefs (some params) (record q { peer = c }) refl)))
          λ u p' h. record {
            req = req;
            tls = tls;
            params = params;
            typed = typed;
            answered = e ∙ ap (λ d. (ok (some params), d)) (sym h.1);
            applied = h.0;
          }
    after_answer p q req tls (err x, c) typed e maps = tt
    after_answer p q req tls (panic m, c) typed e maps = tt
    after_answer p q req tls (deadlock, c) typed e maps = tt

    -- If PreMainEx returns without an error, the coordinator has answered one request for the type of
    -- the marble with parameters, and every file of them is there, every variable is set, and the
    -- arguments are those of the manifest, or "./marble" if it has none; provided that the maps of an
    -- answer have no key twice, and no two paths that name the same file.
    pub pre_main_ex-Started :
        (issue : Bytes → Exec ext.Entropy Bytes) (hostfs : FileSystem Files)
        (p p' : Process ext Files Peer)
        → ((req : ActivationReq) (addr : Str) (tls : Credentials ext) (c : Peer)
            → Post (λ answer c'. HasMaps os enclavefs laws answer) (activate_func req addr tls c))
        → pre_main_ex ext os issue activate_func hostfs enclavefs p ≡ (ok tt, p')
        → Started p p'
    pre_main_ex-Started issue hostfs p p' maps e =
        Post-use (λ u. Started p) _
          (pre_main_ex-ends os p (Post (λ u. Started p)) never issue activate_func hostfs enclavefs
            λ req tls q same typed.
              after_answer p q req tls _ typed
                (ap
                  (activate_func req (getenv p.environ coordinator_addr coordinator_addr_default)
                    tls)
                  (sym same))
                (maps req (getenv p.environ coordinator_addr coordinator_addr_default) tls q.peer))
          e
      where
        never :
            (x : Result (Unit {0}) × Process ext Files Peer)
            → x.1.peer ≡ p.peer
            → ((u : Unit {0}) → x.0 ≢ ok u)
            → Post (λ u. Started p) x
        never (ok u, q) same n = absurd (n u refl)
        never (err x, q) same n = tt
        never (panic m, q) same n = tt
        never (deadlock, q) same n = tt
