-- ===== src/Server/Coordinator.antt =====
-- The coordinator behind its HTTP server.

use marblerun.Http.{HttpRequest, fresh_writer}
use marblerun.Server.Mux.{Choice, found, recover_route, serve_http}
use marblerun.Server.Serve.{serve_http-Serves}
use marblerun.Base.{Bytes, Map, Result, refl, ◌≡◌, false, some, ◌⊎◌}
use marblerun.Core.{Core, stored}
use marblerun.Core.Client.{
  get_cert_quote, get_log, get_manifest_signature, get_secrets, verify_user,
}
use marblerun.Core.Client.Granted.{get_secrets-MayRead}
use marblerun.Core.Client.Manifests.{set_manifest}
use marblerun.Core.Client.Manifests.Settled.{set_manifest-Outcome}
use marblerun.Core.Client.Quiet.{
  IsFree, get_cert_quote-KeepsIdle, get_log-KeepsIdle, get_status-KeepsIdle, recover-IsFree,
}
use marblerun.Core.Client.Recover.{recover}
use marblerun.Core.Client.Update.{update_manifest}
use marblerun.Core.Client.Updated.{update_manifest-Outcome}
use marblerun.Core.Client.Upload.{write_secrets}
use marblerun.Core.Client.Written.{write_secrets-Outcome}
use marblerun.Core.States.{get_status}
use marblerun.Core.Transactions.Atomic.{IsIdle}
use marblerun.Core.Transactions.Outcome.{Outcome}
use marblerun.Recovery.{Recovery}
use marblerun.Server.{ClientCore, Encodings}
use marblerun.Server.Laws.{CoreLaws, Settles, IsTotal}
use marblerun.Services.{Services}
use marblerun.Store.{Sealer}

module _ (sl : Sealer) (rc : Recovery) (ext : Services) where
  -- Core implements ClientCore
  abbrev pub core_client : ClientCore
  core_client = record {
    State = Core sl rc ext;
    core_set_manifest = set_manifest;
    core_get_cert_quote = get_cert_quote;
    core_get_manifest_signature = get_manifest_signature;
    core_get_secrets = get_secrets;
    core_get_status = get_status;
    core_get_update_log = get_log;
    core_recover = recover;
    core_verify_user = verify_user;
    core_update_manifest = update_manifest;
    core_write_secrets = write_secrets;
  }

module _ {sl : Sealer} {rc : Recovery} {ext : Services} where
  Outcome-Settles :
      {A : Type 0} (P : A → Map Bytes → Type 0) (c : Core sl rc ext) (r : Result A × Core sl rc ext)
      → Outcome P (stored c) r
      → Settles IsFree (λ d. stored d) c r
  Outcome-Settles P c r o = record { ready = o.lock_free; undone = o.undone }

  IsIdle-Settles :
      {A : Type 0} (c : Core sl rc ext) (r : Result A × Core sl rc ext)
      → IsIdle (stored c) r.1
      → Settles IsFree (λ d. stored d) c r
  IsIdle-Settles c r i = record { ready = i.0; undone = λ n. i.1 }

  -- the coordinator keeps what the server relies on
  pub coordinator_laws : CoreLaws (core_client sl rc ext)
  coordinator_laws = record {
    Ready = IsFree;
    View = Map Bytes;
    view = λ d. stored d;
    set_manifest-Settles = λ raw c free. Outcome-Settles _ c _ (set_manifest-Outcome raw c free);
    update_manifest-Settles =
        λ raw u c free. Outcome-Settles _ c _ (update_manifest-Outcome raw u c free);
    write_secrets-Settles =
        λ raw u c free. Outcome-Settles _ c _ (write_secrets-Outcome raw u c free);
    get_secrets-reads =
        λ names u c free. Outcome-Settles _ c _ (get_secrets-MayRead names u c free);
    get_status-reads =
        λ c free. IsIdle-Settles c _ (get_status-KeepsIdle (stored c) c (free, refl));
    get_cert_quote-reads =
        λ c free. IsIdle-Settles c _ (get_cert_quote-KeepsIdle (stored c) c (free, refl));
    get_update_log-reads = λ c free. get_log-KeepsIdle (stored c) c (free, refl);
    recover-Ready = λ key c free. recover-IsFree key c free;
  }

  -- Whatever the request and whatever route the router chooses for it, the coordinator's HTTP
  -- server leaves the lock of the store free, and unless it answers with 200 no data of the
  -- coordinator have changed, a request for recoverPost excepted; provided that every response can
  -- be encoded and the lock was free.
  pub serve_http-Coordinator :
      (enc : Encodings) (choose : HttpRequest → Choice) (r : HttpRequest) (c : Core sl rc ext)
      → IsTotal enc
      → c.disk.store.locked ≡ false
      → ((serve_http (core_client sl rc ext) enc choose r (c, fresh_writer)).1.0.disk.store.locked
          ≡ false)
        × (((serve_http (core_client sl rc ext) enc choose r (c, fresh_writer)).1.1.code ≡ some 200)
            ⊎ ((stored (serve_http (core_client sl rc ext) enc choose r (c, fresh_writer)).1.0
                  ≡ stored c)
                ⊎ (choose r ≡ found recover_route)))
  unfolding coordinator_laws
  serve_http-Coordinator enc choose r c total free =
      serve_http-Serves (core_client sl rc ext) enc coordinator_laws total choose r c free
