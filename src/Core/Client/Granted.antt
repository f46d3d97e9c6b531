-- ===== src/Core/Client/Granted.antt =====
-- What GetSecrets gives out.
use marblerun.Core.SecretMap.{AreStored, put-AreStored}
use marblerun.Base.{
  Bytes, List, Map, Result, Str, [], arith, deadlock, err, every, false, get, ok, panic, put, refl,
  subst, true, ◌∷◌, ◌≡◌, not,
}
use marblerun.Core.Client.{collect_secrets, get_secrets}
use marblerun.Core.Getters.{get_secret, get_state}
use marblerun.Core.States.{state_accepting_marbles}
use marblerun.Core.States.Required.{require_state-KeepsIdle, require_state-ok}
use marblerun.Core.Transactions.Atomic.{IsIdle}
use marblerun.Core.Transactions.Outcome.{Outcome, Outcome-bind, Outcome-idle}
use marblerun.Manifest.{Certificate, Secret}
use marblerun.User.{User, read_secret, is_granted, new_permission}
use marblerun.User.Grants.{allows, is_granted-allows}
use marblerun.Base.Keeps.{Keeps-reject_if}
use marblerun.Base.Post.{Post-reject_if, Post-use}
use marblerun.Core.{Core, stored}
use marblerun.Services.{Services}
use marblerun.Recovery.{Recovery}
use marblerun.Store.{Sealer}

collect_secrets-AreStored :
    (ext : Services) (m : Map Bytes) (names : List Str) (secrets result : Map Secret)
    → AreStored ext m secrets
    → collect_secrets ext m names secrets ≡ ok result
    → AreStored ext m result
unfolding collect_secrets
collect_secrets-AreStored ext m [] secrets result all e =
    let same : secrets ≡ result = cc in subst (AreStored ext m) same all
collect_secrets-AreStored ext m (name ∷ names) secrets result all e =
    next (get_secret ext m name) refl e (λ more. collect_secrets-AreStored ext m names more result)
  where
    next :
        (r : Result Secret)
        → get_secret ext m name ≡ r
        → (elim r [
          | ok secret ↦ collect_secrets ext m names (put secrets name secret)
          | err x ↦ err x
          | panic p ↦ panic p
          | deadlock ↦ deadlock
        ])
          ≡ ok result
        → ((more : Map Secret)
            → AreStored ext m more
            → collect_secrets ext m names more ≡ ok result
            → AreStored ext m result)
        → AreStored ext m result
    next (ok secret) g h rec =
        rec (put secrets name secret) (put-AreStored ext m secrets name secret all g) h
    next (err x) g h rec = cc
    next (panic x) g h rec = cc
    next deadlock g h rec = cc

-- What a client may read: the coordinator accepts marbles, the client is granted every secret of the
-- request, and what is returned is what is stored.
pub record MayRead (ext : Services) (m : Map Bytes) (client : User Certificate)
    (requested : List Str) (secrets : Map Secret) : Type 0 where
  pub ready : get_state m ≡ ok state_accepting_marbles
  pub granted : every (allows client read_secret) requested ≡ true
  pub stored_secrets : AreStored ext m secrets

all_granted :
    (requested : List Str) (client : User Certificate)
    → not (is_granted client (new_permission read_secret requested)) ≡ false
    → every (allows client read_secret) requested ≡ true
all_granted requested client h = is_granted-allows client read_secret requested (ground (arith, h))

module _ {sl : Sealer} {rc : Recovery} {ext : Services} where
  -- GetSecrets returns secrets only in the state in which marbles are accepted, only to a user who
  -- is granted each of the requested secrets, and only as they are stored; it changes no data on
  -- any branch, and leaves the lock free. The lock has to be free before.
  pub get_secrets-MayRead :
      (requested : List Str) (client : User Certificate) (c : Core sl rc ext)
      → c.disk.store.locked ≡ false
      → Outcome
          (λ secrets m'. MayRead ext (stored c) client requested secrets × (m' ≡ stored c))
          (stored c)
          (get_secrets requested client c)
  unfolding get_secrets get
  get_secrets-MayRead requested client c free =
      let P : Map Secret → Map Bytes → Type 0 =
        λ secrets m'. MayRead ext (stored c) client requested secrets × (m' ≡ stored c) in
      Outcome-bind P (stored c) _ _
        (require_state-KeepsIdle (state_accepting_marbles ∷ []) (stored c) c (free, refl))
        λ u s e i.
          let ready =
            Post-use (λ u c'. get_state (stored c) ≡ ok state_accepting_marbles) _
              (require_state-ok state_accepting_marbles c) e in
          Outcome-bind P (stored c) _ _ (Keeps-reject_if (IsIdle (stored c)) _ _ s i) λ u' s' e' i'.
            let allowed =
              Post-use
                (λ u t. not (is_granted client (new_permission read_secret requested)) ≡ false) _
                (Post-reject_if _ _ s) e' in
            Outcome-idle P (stored c) _ i' λ secrets h. (
              record {
                ready = ready;
                granted = all_granted requested client allowed;
                stored_secrets =
                    collect_secrets-AreStored ext (stored c) requested [] secrets (λ k t found. cc)
                      (subst (λ m. collect_secrets ext m requested [] ≡ ok secrets) i'.1 h);
              },
              refl,
            )
