-- ===== src/Core/Reached/Tests.antt =====
-- A sequence of three requests to a coordinator that accepts marbles, and a manifest for one that
-- waits for it.
use marblerun.Base.{[], codes, false, get, ok, put, refl, some, str_eq, true, ◌∷◌, ◌≡◌}
use marblerun.Core.{Core, stored}
use marblerun.Core.Activation.{ActivationReq}
use marblerun.Core.Activation.Activate.{activate}
use marblerun.Core.Client.Manifests.{set_manifest}
use marblerun.Core.Client.Upload.{write_secrets}
use marblerun.Core.Getters.{get_state, request_manifest, request_state}
use marblerun.Core.States.{state_accepting_marbles}
use marblerun.Seal.Mock.{mock_sealer}
use marblerun.Store.{read}
use marblerun.Strconv.{atoi}
use marblerun.Core.Reached.{
  Reach, Reach-fixed, Reach-IsFree, start, later, activates, writes, sets_manifest, is_fixed,
}
use marblerun.Core.Client.Manifests.Committed.{Settles, set_manifest-Settles}
use marblerun.Core.Concrete.{accepting, alice, certificate_of, concrete_recovery, concrete_services}

abbrev request_frontend : ActivationReq
request_frontend = record {
  csr = 1 ∷ [];
  marble_type = codes "frontend";
  req_quote = [];
  uuid = 1 ∷ [];
}

abbrev after_activation : Core mock_sealer concrete_recovery concrete_services
after_activation = (activate (some (certificate_of (4 ∷ []))) request_frontend accepting).1

abbrev after_upload : Core mock_sealer concrete_recovery concrete_services
after_upload = (write_secrets [] alice after_activation).1

abbrev after_manifest : Core mock_sealer concrete_recovery concrete_services
after_manifest = (set_manifest (2 ∷ []) after_upload).1

three_requests : Reach accepting after_manifest
three_requests =
    later
      (later (later start (activates (some (certificate_of (4 ∷ []))) request_frontend))
        (writes [] alice))
      (sets_manifest (2 ∷ []))

accepting_ready : get_state (stored accepting) ≡ ok state_accepting_marbles
unfolding get_state read get atoi str_eq
accepting_ready = refl

manifest_is_fixed : is_fixed request_manifest ≡ true
unfolding is_fixed str_eq
manifest_is_fixed = refl

Reach-fixed_example :
    get (stored after_manifest) request_manifest ≡ get (stored accepting) request_manifest
Reach-fixed_example =
    Reach-fixed accepting after_manifest request_manifest three_requests refl accepting_ready
      manifest_is_fixed

Reach-IsFree_example : after_manifest.disk.store.locked ≡ false
Reach-IsFree_example = Reach-IsFree accepting after_manifest three_requests refl

abbrev awaiting : Core mock_sealer concrete_recovery concrete_services
awaiting = record accepting {
  disk = record accepting.disk {
    store = record accepting.disk.store {
      data_map = put accepting.disk.store.data_map request_state (codes "2");
    };
  };
}

set_manifest-Settles_example : Settles (1 ∷ []) awaiting (set_manifest (1 ∷ []) awaiting)
set_manifest-Settles_example = set_manifest-Settles (1 ∷ []) awaiting refl
