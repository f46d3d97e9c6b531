-- ===== src/Core/Reached.antt =====
-- The coordinator over any sequence of requests of clients and marbles. A user is one that Assign has
-- given his permissions, as generateUsersFromManifest does.
mod Tests
use marblerun.Core.Client.Granted.{MayRead, get_secrets-MayRead}
use marblerun.Base.{
  Bool, Bytes, List, Map, Option, Result, Str, [], ap, deadlock, err, false, get, has_prefix, inl,
  inr, ok, panic, refl, str_eq, subst, sym, ◌||◌, ◌≡◌, ◌⊎◌, arith, not, true, ◌∙◌,
}
use marblerun.Core.{Core, stored}
use marblerun.Core.Activation.{ActivationReq}
use marblerun.Core.Activation.Activate.{activate}
use marblerun.Core.Certs.{sk_root_cert, sk_root_key}
use marblerun.Core.Changes.{OnlyChanges, put-OnlyChanges}
use marblerun.Core.Client.{get_cert_quote, get_log, get_secrets}
use marblerun.Core.Client.Manifests.{set_manifest}
use marblerun.Core.Client.Quiet.{
  IsFree, get_cert_quote-KeepsIdle, get_log-KeepsIdle, get_status-KeepsIdle, recover-IsFree,
  recover_rejected,
}
use marblerun.Core.Client.Recover.{recover}
use marblerun.Core.Client.Update.{update_manifest}
use marblerun.Core.Client.Upload.{write_secrets}
use marblerun.Core.Getters.{
  request, request_activations, request_cert, request_infrastructure, request_manifest,
  request_marble, request_priv_key, request_state, request_tls, request_user, get_state,
}
use marblerun.Core.States.{get_status, state_accepting_marbles}
use marblerun.Core.Transactions.Atomic.{IsIdle}
use marblerun.Core.Transactions.Outcome.{Outcome}
use marblerun.Manifest.{Certificate}
use marblerun.Recovery.{Recovery}
use marblerun.Services.{Services}
use marblerun.Store.{Sealer}
use marblerun.User.{User}
use marblerun.Core.Client.Manifests.Settled.{
  get_state-same, set_manifest-Outcome, Waiting, IsInstalled,
}
use marblerun.Core.Client.Updated.{
  MayUpdate, may_intermediate_cert, may_marble_root_cert, may_intermediate_key, may_update_log,
  may_secret, may_package, update_manifest-Outcome,
}
use marblerun.Core.Client.Written.{MayWrite, write_secrets-Outcome}
use marblerun.Core.Activation.Counted.{Admitted, activate-Outcome}

-- one request
pub data Step {sl : Sealer} {rc : Recovery} {ext : Services} (c : Core sl rc ext)
    : Core sl rc ext → Type 0 where
  activates : (cert : Option Certificate) (req : ActivationReq) → Step c (activate cert req c).1
  sets_manifest : (raw : Bytes) → Step c (set_manifest raw c).1
  recovers : (secret : Bytes) → Step c (recover secret c).1
  updates : (raw : Bytes) (u : User Certificate) → Step c (update_manifest raw u c).1
  writes : (raw : Bytes) (u : User Certificate) → Step c (write_secrets raw u c).1
  reads : (names : List Str) (u : User Certificate) → Step c (get_secrets names u c).1
  asks_status : Step c (get_status c).1
  asks_log : Step c (get_log c).1
  asks_quote : Step c (get_cert_quote c).1

pub data Reach {sl : Sealer} {rc : Recovery} {ext : Services} (c : Core sl rc ext)
    : Core sl rc ext → Type 0 where
  start : Reach c c
  later : {d e : Core sl rc ext} → Reach c d → Step d e → Reach c e

-- The keys of what is fixed once a manifest is set: the state, the text of the manifest, the root
-- certificate and its key, and the definitions of marbles, infrastructures, TLS tags and users.
unfoldable pub is_fixed : Str → Bool
is_fixed k =
    str_eq request_state k
    || str_eq request_manifest k
    || str_eq (request request_cert sk_root_cert) k
    || str_eq (request request_priv_key sk_root_key) k
    || has_prefix (request request_marble []) k
    || has_prefix (request request_infrastructure []) k
    || has_prefix (request request_tls []) k
    || has_prefix (request request_user []) k

MayUpdate-fixed : (u : User Certificate) (k : Str) → MayUpdate u k → is_fixed k ≡ false
unfolding is_fixed str_eq has_prefix
MayUpdate-fixed u _ may_intermediate_cert = refl
MayUpdate-fixed u _ may_marble_root_cert = refl
MayUpdate-fixed u _ may_intermediate_key = refl
MayUpdate-fixed u _ may_update_log = refl
MayUpdate-fixed u _ (may_secret name) = refl
MayUpdate-fixed u _ (may_package name granted) = refl

MayWrite-fixed :
    (ext : Services) (m : Map Bytes) (u : User Certificate) (k : Str)
    → MayWrite ext m u k
    → is_fixed k ≡ false
unfolding is_fixed str_eq has_prefix
MayWrite-fixed ext m u k (inl e) = rw e refl
MayWrite-fixed ext m u k (inr (name, e, writable, granted)) = rw e refl

abbrev IsCounter : Str → Str → Type 0
IsCounter marble_type k = k ≡ request request_activations marble_type

IsCounter-fixed : (marble_type k : Str) → IsCounter marble_type k → is_fixed k ≡ false
unfolding is_fixed str_eq has_prefix
IsCounter-fixed marble_type k e = rw e refl

Admitted-OnlyChanges :
    (ext : Services) (marble_type : Str) (m m' : Map Bytes)
    → Admitted ext marble_type m m'
    → OnlyChanges (IsCounter marble_type) m m'
Admitted-OnlyChanges ext marble_type m m' a =
    subst (OnlyChanges (IsCounter marble_type) m) (sym a.counted) (
      put-OnlyChanges (IsCounter marble_type) m m (request request_activations marble_type) _
        (λ k. inl refl) refl)

-- The lock is free, and every fixed key reads as in `m`.
abbrev FixedIn :
    {sl : Sealer} {rc : Recovery} {ext : Services} → Map Bytes → Core sl rc ext → Type 0
FixedIn m c = IsFree c × ((k : Str) → (get (stored c) k ≡ get m k) ⊎ (is_fixed k ≡ false))

not-Waiting : (m : Map Bytes) → get_state m ≡ ok state_accepting_marbles → ¬ (Waiting m)
not-Waiting m ready (inl e) = cc
not-Waiting m ready (inr e) = cc

state_is_fixed : is_fixed request_state ≡ true
unfolding is_fixed str_eq
state_is_fixed = refl

module _ {sl : Sealer} {rc : Recovery} {ext : Services} where
  Outcome-FixedIn :
      {A : Type 0} (C : Str → Type 0) (P : A → Map Bytes → Type 0) (m : Map Bytes)
      (r : Result A × Core sl rc ext)
      → ((k : Str) → C k → is_fixed k ≡ false)
      → ((a : A) (m' : Map Bytes) → P a m' → OnlyChanges C m m')
      → Outcome P m r
      → FixedIn m r.1
  Outcome-FixedIn C P m (ok a, s) unfixed only o = (
    o.lock_free,
    λ k. elim (only a (stored s) (o.done a refl) k) [
      | inl same ↦ inl same
      | inr c ↦ inr (unfixed k c)
    ],
  )
  Outcome-FixedIn C P m (err e, s) unfixed only o =
      (o.lock_free, λ k. inl (ap (λ n. get n k) (o.undone λ a e. cc)))
  Outcome-FixedIn C P m (panic x, s) unfixed only o =
      (o.lock_free, λ k. inl (ap (λ n. get n k) (o.undone λ a e. cc)))
  Outcome-FixedIn C P m (deadlock, s) unfixed only o =
      (o.lock_free, λ k. inl (ap (λ n. get n k) (o.undone λ a e. cc)))

  IsIdle-FixedIn : (m : Map Bytes) (c : Core sl rc ext) → IsIdle m c → FixedIn m c
  IsIdle-FixedIn m c i = (i.0, λ k. inl (ap (λ n. get n k) i.1))

  set_manifest-FixedIn :
      (raw : Bytes) (c : Core sl rc ext)
      → IsFree c
      → get_state (stored c) ≡ ok state_accepting_marbles
      → FixedIn (stored c) (set_manifest raw c).1
  set_manifest-FixedIn raw c free ready =
      let o = set_manifest-Outcome raw c free in
      IsIdle-FixedIn (stored c) (set_manifest raw c).1
        (o.lock_free, o.undone (λ a e. not-Waiting (stored c) ready (o.done a e).0))

  -- a request to a coordinator that accepts marbles
  Step-FixedIn :
      {c d : Core sl rc ext}
      → Step c d
      → IsFree c
      → get_state (stored c) ≡ ok state_accepting_marbles
      → FixedIn (stored c) d
  Step-FixedIn {c} (activates cert req) free ready =
      Outcome-FixedIn (IsCounter req.marble_type)
        (λ params. Admitted ext req.marble_type (stored c)) (stored c) (activate cert req c)
        (IsCounter-fixed req.marble_type)
        (λ a m'. Admitted-OnlyChanges ext req.marble_type (stored c) m')
        (activate-Outcome cert req c free)
  Step-FixedIn {c} (sets_manifest raw) free ready = set_manifest-FixedIn raw c free ready
  Step-FixedIn {c} (recovers secret) free ready =
      subst (FixedIn (stored c)) (sym (recover_rejected secret c ready)) (free, λ k. inl refl)
  Step-FixedIn {c} (updates raw u) free ready =
      Outcome-FixedIn (MayUpdate u)
        (λ x m'.
          (get_state (stored c) ≡ ok state_accepting_marbles)
          × OnlyChanges (MayUpdate u) (stored c) m')
        (stored c) (update_manifest raw u c) (MayUpdate-fixed u) (λ a m' h. h.1)
        (update_manifest-Outcome raw u c free)
  Step-FixedIn {c} (writes raw u) free ready =
      Outcome-FixedIn (MayWrite ext (stored c) u)
        (λ x m'.
          (get_state (stored c) ≡ ok state_accepting_marbles)
          × OnlyChanges (MayWrite ext (stored c) u) (stored c) m')
        (stored c) (write_secrets raw u c) (MayWrite-fixed ext (stored c) u) (λ a m' h. h.1)
        (write_secrets-Outcome raw u c free)
  Step-FixedIn {c} (reads names u) free ready =
      Outcome-FixedIn (λ k. ⊥)
        (λ secrets m'. MayRead ext (stored c) u names secrets × (m' ≡ stored c)) (stored c)
        (get_secrets names u c) (λ k h. absurd h) (λ a m' h k. inl (ap (λ n. get n k) h.1))
        (get_secrets-MayRead names u c free)
  Step-FixedIn {c} asks_status free ready =
      IsIdle-FixedIn (stored c) (get_status c).1 (get_status-KeepsIdle (stored c) c (free, refl))
  Step-FixedIn {c} asks_log free ready =
      IsIdle-FixedIn (stored c) (get_log c).1 (get_log-KeepsIdle (stored c) c (free, refl))
  Step-FixedIn {c} asks_quote free ready =
      IsIdle-FixedIn (stored c) (get_cert_quote c).1
        (get_cert_quote-KeepsIdle (stored c) c (free, refl))

  fixed_value :
      (m : Map Bytes) (c : Core sl rc ext) (k : Str)
      → FixedIn m c
      → is_fixed k ≡ true
      → get (stored c) k ≡ get m k
  fixed_value m c k f fixed = ground (arith, f.1 k, fixed)

  still_ready :
      (m : Map Bytes) (c : Core sl rc ext)
      → FixedIn m c
      → get_state m ≡ ok state_accepting_marbles
      → get_state (stored c) ≡ ok state_accepting_marbles
  still_ready m c f ready =
      get_state-same (stored c) m (fixed_value m c request_state f state_is_fixed) ∙ ready

  reached :
      {c d : Core sl rc ext}
      → Reach c d
      → IsFree c
      → get_state (stored c) ≡ ok state_accepting_marbles
      → FixedIn (stored c) d
  reached start free ready = (free, λ k. inl refl)
  reached {c} {d} (later {d = e} r s) free ready =
      let before = reached r free ready in
      let step = Step-FixedIn s before.0 (still_ready (stored c) e before ready) in
      (step.0, λ k. ground (arith, step.1 k, before.1 k))

  -- From a coordinator that accepts marbles and whose lock is free, no sequence of requests of any
  -- users and marbles changes the state, the text of the manifest, the root certificate or its key,
  -- or the definition of a marble, an infrastructure, a TLS tag or a user.
  pub Reach-fixed :
      (c d : Core sl rc ext) (k : Str)
      → Reach c d
      → c.disk.store.locked ≡ false
      → get_state (stored c) ≡ ok state_accepting_marbles
      → is_fixed k ≡ true
      → get (stored d) k ≡ get (stored c) k
  Reach-fixed c d k r free ready fixed = fixed_value (stored c) d k (reached r free ready) fixed

  Step-IsFree : {c d : Core sl rc ext} → Step c d → IsFree c → IsFree d
  Step-IsFree {c} (activates cert req) free = (activate-Outcome cert req c free).lock_free
  Step-IsFree {c} (sets_manifest raw) free = (set_manifest-Outcome raw c free).lock_free
  Step-IsFree {c} (recovers secret) free = recover-IsFree secret c free
  Step-IsFree {c} (updates raw u) free = (update_manifest-Outcome raw u c free).lock_free
  Step-IsFree {c} (writes raw u) free = (write_secrets-Outcome raw u c free).lock_free
  Step-IsFree {c} (reads names u) free = (get_secrets-MayRead names u c free).lock_free
  Step-IsFree {c} asks_status free = (get_status-KeepsIdle (stored c) c (free, refl)).0
  Step-IsFree {c} asks_log free = (get_log-KeepsIdle (stored c) c (free, refl)).0
  Step-IsFree {c} asks_quote free = (get_cert_quote-KeepsIdle (stored c) c (free, refl)).0

  -- In whatever state the coordinator is, if the lock of the store is free, it is free after any
  -- sequence of requests, so that the next transaction does not block.
  pub Reach-IsFree :
      (c d : Core sl rc ext) → Reach c d → c.disk.store.locked ≡ false → d.disk.store.locked ≡ false
  Reach-IsFree c _ start free = free
  Reach-IsFree c d (later {d = e} r s) free = Step-IsFree s (Reach-IsFree c e r free)
