-- ===== src/Core/Client/Written.antt =====
-- What WriteSecrets changes.
use marblerun.Core.SecretMap.{get_secret_map-AreStored}
use marblerun.Core.Transactions.Atomic.{IsOpen, begun}
use marblerun.Manifest.Secrets.{parse_user_secrets, parse_user_secrets-AllRewrite}
use marblerun.Core.States.{state_accepting_marbles}
use marblerun.Core.States.Required.{require_state-KeepsIdle, require_state-ok}
use marblerun.Core.Transactions.Outcome.{Outcome, Outcome-bind, Outcome-read, Outcome-transaction}
use marblerun.Core.Putters.{put_secret, append_update_log}
use marblerun.Core.Transactions.{on_core}
use marblerun.Core.Transactions.Edits.{on_tx-Post, on_tx-IsOpen, IsHeld, on_core-IsOpen}
use marblerun.Base.{
  All, Bytes, Map, Str, [], false, not, ok, true, ◌∷◌, ◌≡◌, ◌⊎◌, Result, arith, deadlock, err, inr,
  panic, refl, List, String, ap, get, inl, subst,
}
use marblerun.Core.Changes.{
  Edits, put_value-Edits, OnlyChanges, All-entries, append_update_log-Edits,
  append_update_log-active, put_value-active,
}
use marblerun.Core.Client.Upload.{write_all, log_info, write_secrets, edit_secrets, reset_log}
use marblerun.Core.Getters.{
  get_secret, request, request_secret, request_update_log, get_state, get_secret_map,
}
use marblerun.Manifest.{Certificate, Secret, UserSecret}
use marblerun.User.{User, is_granted, new_permission, write_secret}
use marblerun.User.Grants.{allows, is_granted-allows}
use marblerun.Base.Exec.{Exec}
use marblerun.Base.Keeps.{Keeps, Keeps-bind, Keeps-reject_if}
use marblerun.Base.Post.{Post, Post-bind, Post-reject, Post-use, Post-mono, Post-read}
use marblerun.Core.{Core, stored}
use marblerun.Services.{Services}
use marblerun.Recovery.{Recovery}
use marblerun.Store.{Sealer, Transaction}

-- The name is one of a stored secret that users define.
pub record IsWritable (ext : Services) (m : Map Bytes) (name : Str) : Type 0 where
  pub original : Secret
  pub stored_secret : get_secret ext m name ≡ ok original
  pub writable : original.user_defined ≡ true

-- What a user may write: the update log, and the secrets that users define and that are granted.
abbrev pub MayWrite : Services → Map Bytes → User Certificate → Str → Type 0
MayWrite ext m updater k =
    (k ≡ request_update_log)
    ⊎ ((name : Str) × (k ≡ request request_secret name)
        × IsWritable ext m name
        × (allows updater write_secret name ≡ true))

one_granted :
    (name : Str) (updater : User Certificate)
    → not (is_granted updater (new_permission write_secret (name ∷ []))) ≡ false
    → allows updater write_secret name ≡ true
one_granted name updater h =
    ground (arith, is_granted-allows updater write_secret (name ∷ []) (ground (arith, h)))

new-IsWritable :
    (ext : Services) (m : Map Bytes) (uploaded : Map UserSecret) (meta new : Map Secret)
    → get_secret_map ext m ≡ ok meta
    → parse_user_secrets ext.marshal_pkix_public_key uploaded meta ≡ ok new
    → All (λ x. IsWritable ext m x.0) new
new-IsWritable ext m uploaded meta new e h = All-entries (IsWritable ext m) new λ k s found.
    let (original, known, rewrites) =
      parse_user_secrets-AllRewrite ext.marshal_pkix_public_key uploaded meta new h k s found in
    record {
      original = original;
      stored_secret = get_secret_map-AreStored ext m meta e k original known;
      writable = rewrites.writable;
    }

module _ {sl : Sealer} {rc : Recovery} {ext : Services} where
  -- an action on the core does not edit
  on_core-Edits :
      {A : Type 0} (C : Str → Type 0) (m : Map Bytes) (f : Exec (Core sl rc ext) A)
      (s : Core sl rc ext × Transaction)
      → Edits C m s.1
      → Post (λ a s'. Edits C m s'.1) (on_core f s)
  on_core-Edits C m f (c, t) h = moved (f c)
    where
      moved :
          {A : Type 0} (r : Result A × Core sl rc ext)
          → Post {S = Core sl rc ext × Transaction} (λ a s'. Edits C m s'.1) (r.0, (r.1, t))
      moved (ok a, c') = h
      moved (err e, c') = tt
      moved (panic x, c') = tt
      moved (deadlock, c') = tt

  write_all-Edits :
      (m : Map Bytes) (updater : User Certificate) (secrets : Map Secret)
      → All (λ x. IsWritable ext m x.0) secrets
      → (s : Core sl rc ext × Transaction) → Edits (MayWrite ext m updater) m s.1
      → Post (λ u s'. Edits (MayWrite ext m updater) m s'.1) (write_all updater secrets s)
  unfolding write_all
  write_all-Edits m updater [] all s h = h
  write_all-Edits m updater ((name, secret) ∷ secrets) (w, all) s h =
      let P : Unit {0} → Core sl rc ext × Transaction → Type 0 =
        λ u s'. Edits (MayWrite ext m updater) m s'.1 in
      Post-reject P _ _ s _ λ granted.
        Post-bind P P _ _
          (on_tx-Post (Edits (MayWrite ext m updater) m) (put_secret ext name secret) s (
            put_value-Edits (MayWrite ext m updater) m ext.secret_json request_secret name secret
              (inr (name, refl, w, one_granted name updater granted)) s.1 h))
          λ u₂ s₂ h₂.
            Post-bind P P _ _
              (on_core-Edits (MayWrite ext m updater) m
                (log_info "secret set" (updater.name ∷ name ∷ secret.type_name ∷ [])) s₂ h₂)
              λ u₃ s₃ h₃. write_all-Edits m updater secrets all s₃ h₃

  pub log_info-IsOpen :
      (m : Map Bytes) (message : String) (fields : List Str)
      → Keeps (IsOpen m) (on_core {sl = sl} {rc = rc} {ext = ext} (log_info message fields))
  unfolding log_info
  log_info-IsOpen m message fields =
      on_core-IsOpen m (log_info message fields)
        (Keeps-bind (IsHeld {sl = sl} {rc = rc} {ext = ext} m) _ _ (λ s h. h) λ line s h. h)

  write_all-IsOpen :
      (m : Map Bytes) (updater : User Certificate) (secrets : Map Secret)
      → Keeps (IsOpen m) (write_all {sl = sl} {rc = rc} {ext = ext} updater secrets)
  unfolding write_all log_info
  write_all-IsOpen m updater [] = λ s o. o
  write_all-IsOpen m updater ((name, secret) ∷ secrets) =
      let I : Core sl rc ext × Transaction → Type 0 = IsOpen m in
      Keeps-bind I _ _ (Keeps-reject_if I _ _) λ u.
        Keeps-bind I _ _
          (on_tx-IsOpen m (put_secret ext name secret)
            (put_value-active ext.secret_json request_secret name secret))
          λ u₂. Keeps-bind I _ _ (log_info-IsOpen m _ _) λ u₃. write_all-IsOpen m updater secrets

  edit_secrets-IsOpen :
      (m : Map Bytes) (updater : User Certificate) (secrets : Map Secret)
      → Keeps (IsOpen m) (edit_secrets {sl = sl} {rc = rc} {ext = ext} updater secrets)
  unfolding edit_secrets
  edit_secrets-IsOpen m updater secrets =
      let I : Core sl rc ext × Transaction → Type 0 = IsOpen m in
      Keeps-bind I _ _ (λ s o. o)
        λ u. Keeps-bind I _ _ (write_all-IsOpen m updater secrets) λ u₂.
          Keeps-bind I _ _ (λ s o. o)
            λ log. on_tx-IsOpen m (append_update_log log) (append_update_log-active log)

  edit_secrets-Edits :
      (m : Map Bytes) (updater : User Certificate) (secrets : Map Secret)
      → All (λ x. IsWritable ext m x.0) secrets
      → (s : Core sl rc ext × Transaction) → Edits (MayWrite ext m updater) m s.1
      → Post (λ u s'. Edits (MayWrite ext m updater) m s'.1) (edit_secrets updater secrets s)
  unfolding edit_secrets
  edit_secrets-Edits m updater secrets all s h =
      let P : Unit {0} → Core sl rc ext × Transaction → Type 0 =
        λ u s'. Edits (MayWrite ext m updater) m s'.1 in
      Post-bind P P _ _ (on_core-Edits (MayWrite ext m updater) m reset_log s h) λ u s₁ h₁.
        Post-bind P P _ _ (write_all-Edits m updater secrets all s₁ h₁) λ u₂ s₂ h₂.
          Post-read P _ s₂ _ λ log e.
            on_tx-Post (Edits (MayWrite ext m updater) m) (append_update_log log) s₂
              (append_update_log-Edits (MayWrite ext m updater) m log (inl refl) s₂.1 h₂)

  -- Whatever is uploaded, WriteSecrets leaves the lock free if it was free. If it succeeds, the
  -- coordinator was accepting marbles, and the only keys that read differently are the update log
  -- and the secrets that users define and that the user is granted to write; if it does not, no
  -- data have changed.
  pub write_secrets-Outcome :
      (raw : Bytes) (updater : User Certificate) (c : Core sl rc ext)
      → c.disk.store.locked ≡ false
      → Outcome
          (λ u m'.
            (get_state (stored c) ≡ ok state_accepting_marbles)
            × OnlyChanges (MayWrite ext (stored c) updater) (stored c) m')
          (stored c)
          (write_secrets raw updater c)
  unfolding write_secrets
  write_secrets-Outcome raw updater c free =
      let m = stored c in
      let Q : Map Bytes → Type 0 = λ m'.
        (get_state m ≡ ok state_accepting_marbles) × OnlyChanges (MayWrite ext m updater) m m' in
      let P : Unit {0} → Map Bytes → Type 0 = λ u m'. Q m' in
      Outcome-bind P m _ _ (require_state-KeepsIdle (state_accepting_marbles ∷ []) m c (free, refl))
        λ u s e i.
          let ready =
            Post-use (λ u c'. get_state (stored c) ≡ ok state_accepting_marbles) _
              (require_state-ok state_accepting_marbles c) e in
          Outcome-read P m _ s _ i λ uploaded e₁. Outcome-read P m _ s _ i λ meta e₂.
            Outcome-read P m _ s _ i λ new e₃. Outcome-read P m _ s _ i λ mnf e₄.
              Outcome-read P m _ s _ i λ u₅ e₅.
                Outcome-transaction Q m s (edit_secrets updater new) i
                  (edit_secrets-IsOpen m updater new)
                  (Post-mono (λ u s'. Edits (MayWrite ext m updater) m s'.1)
                    (λ u s'. Q s'.1.tx_data) _
                    (edit_secrets-Edits m updater new
                      (new-IsWritable ext m uploaded meta new
                        (subst (λ n. get_secret_map ext n ≡ ok meta) i.1 e₂) e₃)
                      (begun s) (λ k. inl (ap (λ n. get n k) i.1)))
                    λ u s' edits. (ready, edits))
