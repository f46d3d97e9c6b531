-- ===== src/Core/Client/Manifests/Kept.antt =====
-- Keys that the transaction of SetManifest leaves alone.
use marblerun.Base.Keeps.{Keeps, Keeps-bind}
use marblerun.Base.{
  Bool, Bytes, List, Map, Option, Str, [], false, get, get-put, if◌then◌else◌, put, refl, str_eq,
  true, ◌∷◌, ◌≡◌,
}
use marblerun.Core.Client.Manifests.{put_each, put_user_defined, put_users}
use marblerun.Core.DryRun.{with_dummy}
use marblerun.Core.Getters.{
  request, request_infrastructure, request_manifest, request_marble, request_package,
  request_secret, request_state, request_tls, request_update_log, request_user,
}
use marblerun.Core.Putters.{put_secret, put_value}
use marblerun.Manifest.{Certificate, Secret}
use marblerun.Services.{Codec, Services}
use marblerun.Store.{Transaction, tx_put}
use marblerun.User.{User}
use marblerun.Base.Exec.{Exec, ◌>>◌}

-- A key that none of the kinds of entries has.
pub record IsApart (k : Str) : Type 0 where
  pub from_secrets : (name : Str) → str_eq (request request_secret name) k ≡ false
  pub from_packages : (name : Str) → str_eq (request request_package name) k ≡ false
  pub from_infrastructures : (name : Str) → str_eq (request request_infrastructure name) k ≡ false
  pub from_marbles : (name : Str) → str_eq (request request_marble name) k ≡ false
  pub from_tls : (name : Str) → str_eq (request request_tls name) k ≡ false
  pub from_users : (name : Str) → str_eq (request request_user name) k ≡ false
  pub from_log : str_eq request_update_log k ≡ false

pub state-IsApart : IsApart request_state
unfolding str_eq
state-IsApart = record {
  from_secrets = λ name. refl;
  from_packages = λ name. refl;
  from_infrastructures = λ name. refl;
  from_marbles = λ name. refl;
  from_tls = λ name. refl;
  from_users = λ name. refl;
  from_log = refl;
}

pub manifest-IsApart : IsApart request_manifest
unfolding str_eq
manifest-IsApart = record {
  from_secrets = λ name. refl;
  from_packages = λ name. refl;
  from_infrastructures = λ name. refl;
  from_marbles = λ name. refl;
  from_tls = λ name. refl;
  from_users = λ name. refl;
  from_log = refl;
}

-- the transaction is open and the key has the value
abbrev pub Has : Str → Option Bytes → Transaction → Type 0
Has k v t = (t.active ≡ true) × (get t.tx_data k ≡ v)

pub tx_put-Has :
    (k j : Str) (v : Option Bytes) (raw : Bytes) (t : Transaction)
    → str_eq j k ≡ false
    → Has k v t
    → Has k v (tx_put j raw t)
unfolding tx_put
tx_put-Has k j v raw t other h = (h.0, rw (get-put t.tx_data j k raw) (rw other h.1))

pub put_value-Has :
    {A : Type 0} (k : Str) (v : Option Bytes) (json : Codec A) (kind name : Str) (a : A)
    → str_eq (request kind name) k ≡ false
    → Keeps (Has k v) (put_value json kind name a)
unfolding put_value
put_value-Has k v json kind name a other =
    Keeps-bind (Has k v) _ _ (λ t h. h) λ raw t h. tx_put-Has k (request kind name) v raw t other h

pub put_each-Has :
    {A : Type 0} (k : Str) (v : Option Bytes) (put_one : Str → A → Exec Transaction (Unit {0}))
    (m : Map A)
    → ((name : Str) (a : A) → Keeps (Has k v) (put_one name a))
    → Keeps (Has k v) (put_each put_one m)
unfolding put_each
put_each-Has k v put_one [] one = λ t h. h
put_each-Has k v put_one ((name, a) ∷ m) one =
    Keeps-bind (Has k v) _ _ (one name a) λ u. put_each-Has k v put_one m one

module _ (ext : Services) (k : Str) (v : Option Bytes) (apart : IsApart k) where
  pub put_user_defined-Has :
      (m secrets : Map Secret) → Keeps (Has k v) (put_user_defined ext m secrets)
  unfolding put_user_defined
  put_user_defined-Has [] secrets = λ t h. h
  put_user_defined-Has ((name, s) ∷ m) secrets =
      split s.user_defined (λ more. put_user_defined-Has m more)
    where
      split :
          (b : Bool)
          → ((more : Map Secret) → Keeps (Has k v) (put_user_defined ext m more))
          → Keeps (Has k v) (
              if b
              then (do
                put_secret ext name s
                put_user_defined ext m (put secrets name (with_dummy s)))
              else put_user_defined ext m secrets)
      split true rec =
          Keeps-bind (Has k v) _ _
            (put_value-Has k v ext.secret_json request_secret name s (apart.from_secrets name))
            λ u. rec (put secrets name (with_dummy s))
      split false rec = rec secrets

  pub put_users-Has : (us : List (User Certificate)) → Keeps (Has k v) (put_users ext us)
  unfolding put_users
  put_users-Has [] = λ t h. h
  put_users-Has (u ∷ us) =
      Keeps-bind (Has k v) _ _
        (put_value-Has k v ext.user_json request_user u.name u (apart.from_users u.name))
        λ w. put_users-Has us
