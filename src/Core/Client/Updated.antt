-- ===== src/Core/Client/Updated.antt =====
-- What UpdateManifest changes.
use marblerun.Core.Client.Packages.{packages_granted, raised_granted}
use marblerun.Core.States.{state_accepting_marbles}
use marblerun.Core.States.Required.{require_state-KeepsIdle, require_state-ok}
use marblerun.Core.Transactions.Outcome.{Outcome, Outcome-bind, Outcome-read, Outcome-transaction}
use marblerun.Core.Client.Upload.{log_info}
use marblerun.Base.{
  All, Bytes, Map, Slice, Str, [], true, ◌∷◌, ◌≡◌, ap, false, get, inl, keys, not, ok, refl,
}
use marblerun.Core.Certs.{sk_intermediate_cert, sk_intermediate_key, sk_marble_root_cert}
use marblerun.Core.Changes.{
  Edits, append_update_log-active, put_value-Edits, put_value-active, append_update_log-Edits,
  put-OnlyChanges, OnlyChanges,
}
use marblerun.Core.Client.Update.{
  edit_update, put_packages, put_secrets, log_versions, update_manifest,
}
use marblerun.Core.Getters.{
  request, request_cert, request_package, request_priv_key, request_secret, request_update_log,
  get_state,
}
use marblerun.Core.Putters.{append_update_log, put_certificate, put_priv_k}
use marblerun.Core.Transactions.Atomic.{IsOpen, IsIdle, begun}
use marblerun.Core.Transactions.Edits.{on_tx-IsOpen, on_tx-Post}
use marblerun.Manifest.{Certificate, Secret}
use marblerun.Quote.{PackageProperties}
use marblerun.User.{User, update_package, is_granted, new_permission}
use marblerun.User.Grants.{allows}
use marblerun.Base.Post.{Post, Post-bind, Post-read, Post-mono, Post-reject_if, Post-use}
use marblerun.Base.Keeps.{Keeps, Keeps-bind, Keeps-reject_if}
use marblerun.Core.{Core, stored}
use marblerun.Services.{Services}
use marblerun.Recovery.{Recovery}
use marblerun.Store.{Sealer, Transaction, set_recovery_data, tx_put}

-- What an update may write: the intermediate and marble root certificates, the intermediate key, the
-- update log, the secrets, and the packages that the user is granted to update.
pub data MayUpdate (updater : User Certificate) : Str → Type 0 where
  may_intermediate_cert : MayUpdate updater (request request_cert sk_intermediate_cert)
  may_marble_root_cert : MayUpdate updater (request request_cert sk_marble_root_cert)
  may_intermediate_key : MayUpdate updater (request request_priv_key sk_intermediate_key)
  may_update_log : MayUpdate updater request_update_log
  may_secret : (name : Str) → MayUpdate updater (request request_secret name)
  may_package :
      (name : Str)
      → allows updater update_package name ≡ true
      → MayUpdate updater (request request_package name)

module _ (ext : Services) (updater : User Certificate) (m : Map Bytes) where
  put_packages-Edits :
      (packages : Map PackageProperties)
      → All (λ x. allows updater update_package x.0 ≡ true) packages
      → (t : Transaction) → Edits (MayUpdate updater) m t
      → Post (λ u t'. Edits (MayUpdate updater) m t') (put_packages ext packages t)
  unfolding put_packages
  put_packages-Edits [] all t h = h
  put_packages-Edits ((name, p) ∷ packages) (granted, all) t h =
      let P : Unit {0} → Transaction → Type 0 = λ u t'. Edits (MayUpdate updater) m t' in
      Post-bind P P _ _
        (put_value-Edits (MayUpdate updater) m ext.package_json request_package name p
          (may_package name granted) t h)
        λ u t' h'. put_packages-Edits packages all t' h'

  put_secrets-Edits :
      (secrets : Map Secret) (t : Transaction)
      → Edits (MayUpdate updater) m t
      → Post (λ u t'. Edits (MayUpdate updater) m t') (put_secrets ext secrets t)
  unfolding put_secrets
  put_secrets-Edits [] t h = h
  put_secrets-Edits ((name, s) ∷ secrets) t h =
      let P : Unit {0} → Transaction → Type 0 = λ u t'. Edits (MayUpdate updater) m t' in
      Post-bind P P _ _
        (put_value-Edits (MayUpdate updater) m ext.secret_json request_secret name s
          (may_secret name) t h)
        λ u t' h'. put_secrets-Edits secrets t' h'

put_packages-active :
    (ext : Services) (packages : Map PackageProperties)
    → Keeps (λ t. t.active ≡ true) (put_packages ext packages)
unfolding put_packages
put_packages-active ext [] = λ t h. h
put_packages-active ext ((name, p) ∷ packages) =
    Keeps-bind (λ t. t.active ≡ true) _ _ (put_value-active ext.package_json request_package name p)
      λ u. put_packages-active ext packages

put_secrets-active :
    (ext : Services) (secrets : Map Secret) → Keeps (λ t. t.active ≡ true) (put_secrets ext secrets)
unfolding put_secrets
put_secrets-active ext [] = λ t h. h
put_secrets-active ext ((name, s) ∷ secrets) =
    Keeps-bind (λ t. t.active ≡ true) _ _ (put_value-active ext.secret_json request_secret name s)
      λ u. put_secrets-active ext secrets

put_priv_k-active :
    (ext : Services) (name : Str) (key : ext.Key)
    → Keeps (λ t. t.active ≡ true) (put_priv_k ext name key)
unfolding put_priv_k tx_put
put_priv_k-active ext name key = Keeps-bind (λ t. t.active ≡ true) _ _ (λ s h. h) λ raw s h. h

module _ {sl : Sealer} {rc : Recovery} {ext : Services} where
  edit_update-IsOpen :
      (m : Map Bytes) (intermediate : Certificate × ext.Key) (marble_root : Certificate)
      (packages : Map PackageProperties) (secrets : Map Secret) (recovery_data : Slice)
      → Keeps (IsOpen m) (
          edit_update {sl = sl} {rc = rc} {ext = ext} intermediate marble_root packages secrets
            recovery_data)
  unfolding edit_update put_certificate tx_put set_recovery_data
  edit_update-IsOpen m intermediate marble_root packages secrets recovery_data =
      let I : Core sl rc ext × Transaction → Type 0 = IsOpen m in
      Keeps-bind I _ _ (λ s o. o)
        λ u₁.
          Keeps-bind I _ _ (λ s o. o)
            λ u₂.
              Keeps-bind I _ _
                (on_tx-IsOpen m (put_priv_k ext sk_intermediate_key intermediate.1)
                  (put_priv_k-active ext sk_intermediate_key intermediate.1))
                λ u₃.
                  Keeps-bind I _ _ (λ s o. o)
                    λ log.
                      Keeps-bind I _ _
                        (on_tx-IsOpen m (append_update_log log) (append_update_log-active log))
                        λ u₄.
                          Keeps-bind I _ _
                            (on_tx-IsOpen m (put_packages ext packages)
                              (put_packages-active ext packages))
                            λ u₅.
                              Keeps-bind I _ _
                                (on_tx-IsOpen m (put_secrets ext secrets)
                                  (put_secrets-active ext secrets))
                                λ u₆ s o. o

  edit_update-Edits :
      (updater : User Certificate) (m : Map Bytes) (intermediate : Certificate × ext.Key)
      (marble_root : Certificate) (packages : Map PackageProperties) (secrets : Map Secret)
      (recovery_data : Slice)
      → All (λ x. allows updater update_package x.0 ≡ true) packages
      → (s : Core sl rc ext × Transaction) → Edits (MayUpdate updater) m s.1
      → Post
          (λ u s'. Edits (MayUpdate updater) m s'.1)
          (edit_update intermediate marble_root packages secrets recovery_data s)
  unfolding edit_update put_certificate put_priv_k tx_put
  edit_update-Edits updater m intermediate marble_root packages secrets recovery_data granted s h =
      let C : Str → Type 0 = MayUpdate updater in
      let P : Unit {0} → Core sl rc ext × Transaction → Type 0 = λ u s'. Edits C m s'.1 in
      Post-bind P P _ _ (put-OnlyChanges C m s.1.tx_data _ _ h may_intermediate_cert) λ u₁ s₁ h₁.
        Post-bind P P _ _ (put-OnlyChanges C m s₁.1.tx_data _ _ h₁ may_marble_root_cert) λ u₂ s₂ h₂.
          Post-bind P P _ _
            (on_tx-Post (Edits C m) (put_priv_k ext sk_intermediate_key intermediate.1) s₂ (
              Post-read (λ u t. Edits C m t) _ s₂.1 _
                λ raw e. put-OnlyChanges C m s₂.1.tx_data _ raw h₂ may_intermediate_key))
            λ u₃ s₃ h₃. Post-read P _ s₃ _ λ log e.
              Post-bind P P _ _
                (on_tx-Post (Edits C m) (append_update_log log) s₃
                  (append_update_log-Edits C m log may_update_log s₃.1 h₃))
                λ u₄ s₄ h₄.
                  Post-bind P P _ _
                    (on_tx-Post (Edits C m) (put_packages ext packages) s₄
                      (put_packages-Edits ext updater m packages granted s₄.1 h₄))
                    λ u₅ s₅ h₅.
                      Post-bind P P _ _
                        (on_tx-Post (Edits C m) (put_secrets ext secrets) s₅
                          (put_secrets-Edits ext updater m secrets s₅.1 h₅))
                        λ u₆ s₆ h₆. h₆

  log_versions-KeepsIdle :
      (m : Map Bytes) (updater : Str) (packages : Map PackageProperties)
      → Keeps (IsIdle m) (log_versions {sl = sl} {rc = rc} {ext = ext} updater packages)
  unfolding log_versions log_info
  log_versions-KeepsIdle m updater [] = λ s i. i
  log_versions-KeepsIdle m updater ((name, p) ∷ packages) =
      let I : Core sl rc ext → Type 0 = IsIdle m in
      Keeps-bind I _ _ (Keeps-bind I _ _ (λ s i. i) λ line s i. i)
        λ u. log_versions-KeepsIdle m updater packages

  -- Whatever the update, UpdateManifest leaves the lock free if it was free. If it succeeds, the
  -- coordinator was accepting marbles, and the only keys that read differently are the intermediate
  -- and marble root certificates, the intermediate key, the update log, secrets, and packages that
  -- the user is granted to update; if it does not, no data have changed.
  pub update_manifest-Outcome :
      (raw : Bytes) (updater : User Certificate) (c : Core sl rc ext)
      → c.disk.store.locked ≡ false
      → Outcome
          (λ u m'.
            (get_state (stored c) ≡ ok state_accepting_marbles)
            × OnlyChanges (MayUpdate updater) (stored c) m')
          (stored c)
          (update_manifest raw updater c)
  unfolding update_manifest
  update_manifest-Outcome raw updater c free =
      let m = stored c in
      let Q : Map Bytes → Type 0 =
        λ m'. (get_state m ≡ ok state_accepting_marbles) × OnlyChanges (MayUpdate updater) m m' in
      let P : Unit {0} → Map Bytes → Type 0 = λ u m'. Q m' in
      Outcome-bind P m _ _ (require_state-KeepsIdle (state_accepting_marbles ∷ []) m c (free, refl))
        λ u s e i.
          let ready =
            Post-use (λ u c'. get_state (stored c) ≡ ok state_accepting_marbles) _
              (require_state-ok state_accepting_marbles c) e in
          Outcome-read P m _ s _ i λ update e₁.
            Outcome-bind P m _ _ (Keeps-reject_if (IsIdle m) _ _ s i) λ u₂ s₂ e₂ i₂.
              let granted =
                Post-use
                  (λ u t.
                    not (is_granted updater (new_permission update_package (keys update.packages)))
                    ≡ false)
                  _ (Post-reject_if _ _ s) e₂ in
              Outcome-read P m _ s₂ _ i₂ λ current e₃. Outcome-read P m _ s₂ _ i₂ λ u₄ e₄.
                Outcome-read P m _ s₂ _ i₂ λ raised e₅. Outcome-read P m _ s₂ _ i₂ λ root_cert e₆.
                  Outcome-read P m _ s₂ _ i₂ λ root_key e₇.
                    Outcome-bind P m _ _ i₂ λ intermediate s₃ e₈ i₃.
                      Outcome-bind P m _ _ i₃ λ marble_root s₄ e₉ i₄.
                        Outcome-read P m _ s₄ _ i₄ λ secrets f₁.
                          Outcome-bind P m _ _ i₄ λ regenerated s₅ f₂ i₅.
                            Outcome-bind P m _ _ i₅ λ recovery_data s₆ f₃ i₆.
                              Outcome-bind P m _ _ i₆ λ u₇ s₇ f₄ i₇.
                                Outcome-bind P m _ _
                                  (log_versions-KeepsIdle m updater.name update.packages s₇ i₇)
                                  λ u₈ s₈ f₅ i₈.
                                    Outcome-transaction Q m s₈
                                      (edit_update intermediate marble_root.0 raised regenerated
                                        recovery_data)
                                      i₈
                                      (edit_update-IsOpen m intermediate marble_root.0 raised
                                        regenerated recovery_data)
                                      (Post-mono (λ u s'. Edits (MayUpdate updater) m s'.1)
                                        (λ u s'. Q s'.1.tx_data) _
                                        (edit_update-Edits updater m intermediate marble_root.0
                                          raised regenerated recovery_data
                                          (raised_granted ext (stored s₂) updater update current
                                            raised
                                            (packages_granted updater (keys update.packages)
                                              granted)
                                            e₃ e₄ e₅)
                                          (begun s₈) (λ k. inl (ap (λ n. get n k) i₈.1)))
                                        λ u s' edits. (ready, edits))
