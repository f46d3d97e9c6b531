-- ===== src/Core/Client/Manifests/Installed.antt =====
-- What the body of the transaction of SetManifest keeps and writes.
use marblerun.Core.States.{advance_state, state_accepting_marbles, state_max}
use marblerun.Core.Transactions.Edits.{on_tx-IsOpen, IsHeld}
use marblerun.Strconv.{int_lt, ℤ}
use marblerun.Base.{
  Bytes, List, Map, Option, Result, Slice, Str, deadlock, err, get, ok, panic, refl, str_eq, true,
  ◌≡◌, Bool, false, if◌then◌else◌, some, ◌&&◌, [], get-put_self,
}
use marblerun.Core.{Core, stored}
use marblerun.Core.Client.Manifests.{
  edit_manifest, ignore, store_entries, store_manifest, put_each, put_user_defined, put_users,
}
use marblerun.Core.Client.Manifests.Kept.{
  Has, IsApart, state-IsApart, tx_put-Has, put_each-Has, put_user_defined-Has, put_users-Has,
  put_value-Has, manifest-IsApart,
}
use marblerun.Core.Client.Upload.{log_info}
use marblerun.Core.Getters.{
  request_infrastructure, request_manifest, request_marble, request_package, request_secret,
  request_state, request_tls, request_update_log,
}
use marblerun.Core.Putters.{
  put_infrastructure, put_marble, put_package, put_raw_manifest, put_secret, put_tls,
  put_update_log, put_state,
}
use marblerun.Core.Transactions.{on_tx}
use marblerun.Core.Transactions.Atomic.{IsOpen}
use marblerun.Manifest.{Certificate, Manifest, Secret}
use marblerun.Recovery.{Recovery}
use marblerun.Services.{Services}
use marblerun.Store.{Sealer, Transaction, set_recovery_data, tx_put}
use marblerun.User.{User}
use marblerun.Base.Exec.{Exec, lift}
use marblerun.Base.Keeps.{Keeps, Keeps-bind}
use marblerun.Base.Post.{Post, Post-bind, Post-mono, Post-read, Post-kept}

pub ignored_fine : {S : Type 0} (f : Exec S (Unit {0})) (s : S) → (f s).0 ≡ ok tt → ignore f s ≡ f s
ignored_fine f s e = fine (f s) e
  where
    fine : {S : Type 0} (r : Result (Unit {0}) × S) → r.0 ≡ ok tt → ignore (λ u. r) r.1 ≡ r
    fine (ok tt, s) e = refl
    fine (err x, s) e = cc
    fine (panic x, s) e = cc
    fine (deadlock, s) e = cc

pub ignore-Keeps :
    {S : Type 0} (I : S → Type 0) (f : Exec S (Unit {0})) → Keeps I f → Keeps I (ignore f)
ignore-Keeps I f k s i = same I (f s) (k s i)
  where
    same :
        {S : Type 0} (I : S → Type 0) (r : Result (Unit {0}) × S)
        → I r.1
        → I (ignore (λ (u : S). r) r.1).1
    same I (ok u, s) i = i
    same I (err e, s) i = i
    same I (panic x, s) i = i
    same I (deadlock, s) i = i

advance_state-active : (s : ℤ) → Keeps (λ t. t.active ≡ true) (advance_state s)
unfolding advance_state put_state tx_put
advance_state-active s =
    Keeps-bind (λ t. t.active ≡ true) _ _ (λ t h. h)
      λ current. decide (int_lt current s && int_lt s state_max)
  where
    decide :
        (b : Bool)
        → Keeps (λ t. t.active ≡ true) (if b then put_state s else lift (panic "cannot advance"))
    decide true = λ t h. h
    decide false = λ t h. h

module _ {sl : Sealer} {rc : Recovery} {ext : Services} where
  -- inside the transaction, with the value of one key
  abbrev pub Inside : Map Bytes → Str → Option Bytes → Core sl rc ext × Transaction → Type 0
  Inside m k v s = (s.0.disk.store.locked ≡ true) × (stored s.0 ≡ m) × Has k v s.1

  on_tx-Inside :
      {A : Type 0} (m : Map Bytes) (k : Str) (v : Option Bytes) (f : Exec Transaction A)
      → Keeps (Has k v) f
      → Keeps (Inside m k v) (on_tx f)
  on_tx-Inside m k v f h s i = (i.0, i.1, h s.1 i.2)

  log_info-IsHeld :
      (m : Map Bytes)
      → Keeps (IsHeld m) (log_info {sl = sl} {rc = rc} {ext = ext} "initial manifest set" [])
  unfolding log_info
  log_info-IsHeld m = Keeps-bind (IsHeld m) _ _ (λ s i. i) λ line s i. i

  store_entries-Inside :
      (m : Map Bytes) (k : Str) (v : Option Bytes) (mnf : Manifest)
      (users : List (User Certificate))
      → IsApart k
      → Keeps (Inside m k v) (store_entries {sl = sl} {rc = rc} {ext = ext} mnf users)
  unfolding store_entries log_info put_update_log
  store_entries-Inside m k v mnf users apart =
      let I : Core sl rc ext × Transaction → Type 0 = Inside m k v in
      Keeps-bind I _ _
        (on_tx-Inside m k v (put_each (put_package ext) mnf.packages) (
          put_each-Has k v (put_package ext) mnf.packages λ name p.
            put_value-Has k v ext.package_json request_package name p (apart.from_packages name)))
        λ u₁.
          Keeps-bind I _ _
            (on_tx-Inside m k v (put_each (put_infrastructure ext) mnf.infrastructures) (
              put_each-Has k v (put_infrastructure ext) mnf.infrastructures λ name p.
                put_value-Has k v ext.infrastructure_json request_infrastructure name p
                  (apart.from_infrastructures name)))
            λ u₂.
              Keeps-bind I _ _
                (on_tx-Inside m k v (put_each (put_marble ext) mnf.marbles) (
                  put_each-Has k v (put_marble ext) mnf.marbles λ name p.
                    put_value-Has k v ext.marble_json request_marble name p
                      (apart.from_marbles name)))
                λ u₃.
                  Keeps-bind I _ _
                    (on_tx-Inside m k v (put_each (put_tls ext) mnf.tls) (
                      put_each-Has k v (put_tls ext) mnf.tls λ name p.
                        put_value-Has k v ext.tls_json request_tls name p (apart.from_tls name)))
                    λ u₄.
                      Keeps-bind I _ _
                        (on_tx-Inside m k v (put_users ext users)
                          (put_users-Has ext k v apart users))
                        λ u₅.
                          Keeps-bind I _ _
                            (λ s i. (let q = log_info-IsHeld m s.0 (i.0, i.1) in (q.0, q.1, i.2)))
                            λ u₆.
                              Keeps-bind I _ _ (λ s i. i)
                                λ log s i. (
                                  i.0,
                                  i.1,
                                  tx_put-Has k request_update_log v log s.1 apart.from_log i.2,
                                )

  secrets-Inside :
      (m : Map Bytes) (v : Option Bytes) (secrets : Map Secret)
      → Keeps
          (Inside m request_state v)
          (on_tx {sl = sl} {rc = rc} {ext = ext} (put_each (put_secret ext) secrets))
  secrets-Inside m v secrets = on_tx-Inside m request_state v (put_each (put_secret ext) secrets) (
      put_each-Has request_state v (put_secret ext) secrets λ name s.
        put_value-Has request_state v ext.secret_json request_secret name s
          (state-IsApart.from_secrets name))

  user_defined-Inside :
      (m : Map Bytes) (v : Option Bytes) (mnf : Manifest) (secrets : Map Secret)
      → Keeps
          (Inside m request_state v)
          (on_tx {sl = sl} {rc = rc} {ext = ext} (put_user_defined ext mnf.secrets secrets))
  user_defined-Inside m v mnf secrets =
      on_tx-Inside m request_state v (put_user_defined ext mnf.secrets secrets)
        (put_user_defined-Has ext request_state v state-IsApart mnf.secrets secrets)

  pub store_manifest-Inside :
      (m : Map Bytes) (v : Option Bytes) (raw : Bytes) (mnf : Manifest) (secrets : Map Secret)
      (users : List (User Certificate))
      → Keeps
          (Inside m request_state v)
          (store_manifest {sl = sl} {rc = rc} {ext = ext} raw mnf secrets users)
  unfolding store_manifest put_raw_manifest str_eq
  store_manifest-Inside m v raw mnf secrets users =
      let I : Core sl rc ext × Transaction → Type 0 = Inside m request_state v in
      Keeps-bind I _ _ (secrets-Inside m v secrets) λ u₁.
        Keeps-bind I _ _ (user_defined-Inside m v mnf secrets) λ for_templates.
          Keeps-bind I _ _ (λ s i. i)
            λ u₂.
              Keeps-bind I _ _
                (λ s i. (i.0, i.1, tx_put-Has request_state request_manifest v raw s.1 refl i.2))
                λ u₃. store_entries-Inside m request_state v mnf users state-IsApart

  pub edit_manifest-IsOpen :
      (m : Map Bytes) (raw : Bytes) (mnf : Manifest) (secrets : Map Secret)
      (users : List (User Certificate)) (recovery_data : Slice)
      → Keeps
          (IsOpen m)
          (edit_manifest {sl = sl} {rc = rc} {ext = ext} raw mnf secrets users recovery_data)
  unfolding edit_manifest set_recovery_data
  edit_manifest-IsOpen m raw mnf secrets users recovery_data =
      let I : Core sl rc ext × Transaction → Type 0 = IsOpen m in
      Keeps-bind I _ _
        (λ s o.
          let i =
            store_manifest-Inside m (get s.1.tx_data request_state) raw mnf secrets users s
              (o.0, o.1, (o.2, refl)) in
          (i.0, i.1, i.2.0))
        λ u₁.
          Keeps-bind I _ _
            (ignore-Keeps I _ (
              on_tx-IsOpen m (advance_state state_accepting_marbles)
                (advance_state-active state_accepting_marbles)))
            λ u₂ s o. o

  -- the text of the manifest is the one that was written before the entries
  pub store_manifest-raw :
      (m : Map Bytes) (raw : Bytes) (mnf : Manifest) (secrets : Map Secret)
      (users : List (User Certificate)) (s : Core sl rc ext × Transaction)
      → IsOpen m s
      → Post
          (λ u s'. get s'.1.tx_data request_manifest ≡ some raw)
          (store_manifest raw mnf secrets users s)
  unfolding store_manifest put_raw_manifest tx_put
  store_manifest-raw m raw mnf secrets users s o =
      let v = get s.1.tx_data request_state in
      let I : Core sl rc ext × Transaction → Type 0 = Inside m request_state v in
      let J : Core sl rc ext × Transaction → Type 0 = Inside m request_manifest (some raw) in
      let P : Unit {0} → Core sl rc ext × Transaction → Type 0 =
        λ u s'. get s'.1.tx_data request_manifest ≡ some raw in
      Post-bind (λ u s'. I s') P _ _
        (Post-kept I _ (secrets-Inside m v secrets s (o.0, o.1, (o.2, refl))))
        λ u₁ s₁ i₁.
          Post-bind (λ t s'. I s') P _ _ (Post-kept I _ (user_defined-Inside m v mnf secrets s₁ i₁))
            λ t s₂ i₂. Post-read P _ s₂ _ λ u₃ e.
              Post-bind (λ u s'. J s') P _ _
                (i₂.0, i₂.1, (i₂.2.0, get-put_self s₂.1.tx_data request_manifest raw))
                λ u₄ s₄ i₄.
                  Post-mono (λ u s'. J s') P _
                    (Post-kept J _ (
                      store_entries-Inside m request_manifest (some raw) mnf users manifest-IsApart
                        s₄ i₄))
                    (λ u s' i'. i'.2.1)
