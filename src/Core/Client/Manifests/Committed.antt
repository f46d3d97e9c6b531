-- ===== src/Core/Client/Manifests/Committed.antt =====
-- What SetManifest has stored when it returns recovery secrets.
use marblerun.Core.States.Required.{require_state-KeepsIdle, require_state-one_of}
use marblerun.Store.Atomic.{Applies, commit_and_rollback-Applies}
use marblerun.Core.Client.Manifests.Installed.{ignore-Keeps, edit_manifest-IsOpen}
use marblerun.Core.Client.Manifests.Settled.{
  IsInstalled, Waiting, edit_manifest-IsInstalled, is-Waiting, set_manifest-Outcome,
}
use marblerun.Core.Transactions.Atomic.{IsOpen, IsIdle, begun}
use marblerun.Base.{
  Bytes, Error, Map, ok, refl, true, ◌≡◌, ◌≢◌, Result, deadlock, err, inl, inr, panic, subst, sym,
  ◌∙◌, ◌⊎◌, [], false, ◌∷◌, put_all,
}
use marblerun.Core.{Core, stored, on_sealer}
use marblerun.Core.Client.Manifests.{ignore, edit_manifest, set_manifest}
use marblerun.Core.Getters.{get_state}
use marblerun.Core.States.{state_accepting_manifest, state_recovery, one_of}
use marblerun.Core.Transactions.{commit_tx, roll_back, in_transaction}
use marblerun.Recovery.{Recovery}
use marblerun.Services.{Services}
use marblerun.Store.{
  Sealer, Transaction, commit, commit_and_rollback, rollback, Disk, begin_transaction,
}
use marblerun.Strconv.{ℤ}
use marblerun.Base.Exec.{Exec, ◌>>◌, proceed}
use marblerun.Base.Keeps.{Keeps}
use marblerun.Base.Post.{Post, Post-bind, Post-ok, Post-read, Post-use}

module _ {sl : Sealer} {rc : Recovery} {ext : Services} where
  -- The coordinator is left by a commit that returned an error and the Rollback after it: the
  -- transaction held the manifest, the data before it were `m`, and they still are.
  pub record CommitFailed (raw : Bytes) (m : Map Bytes) (c : Core sl rc ext) : Type 0 where
    pub edited : Transaction
    pub before : Disk sl
    pub error : Error
    pub holds_manifest : IsInstalled raw edited.tx_data
    pub old_data : before.store.data_map ≡ m
    pub failed : (commit sl ext.data_json edited before).0 ≡ err error
    pub left_by :
        c.disk
        ≡ rollback sl
            (commit sl ext.data_json edited before).2
            (commit sl ext.data_json edited before).1
    pub unchanged : stored c ≡ m

  -- How SetManifest ends: the lock is free; if recovery secrets are returned, the coordinator was
  -- waiting, and the manifest is installed or its commit has failed; otherwise no data have changed.
  pub record Settles (raw : Bytes) (c : Core sl rc ext) (r : Result (Map Bytes) × Core sl rc ext)
      : Type 0 where
    pub lock_free : r.1.disk.store.locked ≡ false
    pub waited : (secrets : Map Bytes) → r.0 ≡ ok secrets → Waiting (stored c)
    pub installed :
        (secrets : Map Bytes)
        → r.0 ≡ ok secrets
        → IsInstalled raw (stored r.1) ⊎ CommitFailed raw (stored c) r.1
    pub undone : ((secrets : Map Bytes) → r.0 ≢ ok secrets) → stored r.1 ≡ stored c

  -- after an action that leaves the store alone
  Idle-bind :
      {A B : Type 0} (P : B → Core sl rc ext → Type 0) (m : Map Bytes)
      (r : Result A × Core sl rc ext) (f : A → Exec (Core sl rc ext) B)
      → IsIdle m r.1
      → ((a : A) (s : Core sl rc ext) → r ≡ (ok a, s) → IsIdle m s → Post P (f a s))
      → Post P (proceed r f)
  unfolding proceed
  Idle-bind P m (ok a, s) f i k = k a s refl i
  Idle-bind P m (err e, s) f i k = tt
  Idle-bind P m (panic x, s) f i k = tt
  Idle-bind P m (deadlock, s) f i k = tt

  -- the end of the transaction: Commit, whose error is dropped, and the deferred Rollback
  committed :
      (raw : Bytes) (m : Map Bytes) (c : Core sl rc ext) (t : Transaction)
      (x : Result (Unit {0}) × Disk sl × Transaction)
      → commit sl ext.data_json t c.disk ≡ x
      → stored c ≡ m
      → IsInstalled raw t.tx_data
      → Applies c.disk t.tx_data x.0 (rollback sl x.2 x.1)
      → Post
          (λ u c'. IsInstalled raw (stored c') ⊎ CommitFailed raw m c')
          (roll_back (ignore (λ s. (x.0, (record c { disk = x.1 }, x.2))) (c, t)))
  unfolding roll_back
  committed raw m c t (ok u, d, t') e same h done =
      inl (subst (IsInstalled raw) (sym (done.applied refl)) h)
  committed raw m c t (err x, d, t') e same h done = inr (record {
    edited = t;
    before = c.disk;
    error = x;
    holds_manifest = h;
    old_data = same;
    failed = rw e refl;
    left_by = rw e refl;
    unchanged = done.kept (λ e. cc) ∙ same;
  })
  committed raw m c t (panic x, d, t') e same h done = tt
  committed raw m c t (deadlock, d, t') e same h done = tt

  ended :
      (raw : Bytes) (m : Map Bytes) (r : Result (Unit {0}) × (Core sl rc ext × Transaction))
      → IsOpen m r.1
      → Post (λ u s. IsInstalled raw s.1.tx_data) r
      → Post
          (λ u c'. IsInstalled raw (stored c') ⊎ CommitFailed raw m c')
          (roll_back (proceed r (λ u. ignore commit_tx)))
  unfolding roll_back commit_tx commit_and_rollback proceed
  ended raw m (ok u, (c, t)) o h =
      committed raw m c t (commit sl ext.data_json t c.disk) refl o.1 h
        (commit_and_rollback-Applies sl ext.data_json t c.disk o.2)
  ended raw m (err e, (c, t)) o h = tt
  ended raw m (panic x, (c, t)) o h = tt
  ended raw m (deadlock, (c, t)) o h = tt

  in_transaction_settled :
      (raw : Bytes) (m : Map Bytes) (c : Core sl rc ext)
      (f : Exec (Core sl rc ext × Transaction) (Unit {0}))
      → IsIdle m c
      → Keeps (IsOpen m) f
      → Post (λ u s. IsInstalled raw s.1.tx_data) (f (begun c))
      → Post
          (λ u c'. IsInstalled raw (stored c') ⊎ CommitFailed raw m c')
          (in_transaction (f >> ignore commit_tx) c)
  unfolding in_transaction begin_transaction proceed
  in_transaction_settled raw m c f i k h =
      rw (i.0) (ended raw m (f (begun c)) (k (begun c) (refl, i.1, refl)) h)

  set_manifest-installs :
      (raw : Bytes) (c : Core sl rc ext)
      → c.disk.store.locked ≡ false
      → Post
          (λ secrets c'. IsInstalled raw (stored c') ⊎ CommitFailed raw (stored c) c')
          (set_manifest raw c)
  unfolding set_manifest
  set_manifest-installs raw c free =
      let m = stored c in
      let P : Map Bytes → Core sl rc ext → Type 0 =
        λ secrets c'. IsInstalled raw (stored c') ⊎ CommitFailed raw m c' in
      let Q : Unit {0} → Core sl rc ext → Type 0 =
        λ u c'. IsInstalled raw (stored c') ⊎ CommitFailed raw m c' in
      Idle-bind P m _ _
        (require_state-KeepsIdle (state_accepting_manifest ∷ state_recovery ∷ []) m c (free, refl))
        λ u s e i.
          let (st, known, among) =
            Post-use
              (λ u' c'.
                (st : ℤ) × (get_state m ≡ ok st)
                × (one_of (state_accepting_manifest ∷ state_recovery ∷ []) st ≡ true))
              _ (require_state-one_of (state_accepting_manifest ∷ state_recovery ∷ []) c) e in
          let below = (is-Waiting m st known among).1 in
          Post-read P _ s _ λ mnf e₁. Post-read P _ s _ λ u₂ e₂. Post-read P _ s _ λ marble_root e₃.
            Post-read P _ s _ λ key e₄. Idle-bind P m _ _ i λ secrets s₁ e₅ i₁.
              Idle-bind P m _ _ i₁ λ uuid s₂ e₆ i₂. Idle-bind P m _ _ i₂ λ private s₃ e₇ i₃.
                Idle-bind P m _ _ i₃ λ enc s₄ e₈ i₄. Idle-bind P m _ _ i₄ λ recovery s₅ e₉ i₅.
                  Idle-bind P m _ _
                    (ignore-Keeps (IsIdle m) (on_sealer (sl.set_encryption_key enc)) (λ s j. j) s₅
                      i₅)
                    λ u₆ s₆ f₁ i₆. Post-read P _ s₆ _ λ users f₂.
                      Post-bind Q P _ _
                        (in_transaction_settled raw m s₆
                          (edit_manifest raw mnf (put_all secrets private) users recovery.1) i₆
                          (edit_manifest-IsOpen m raw mnf (put_all secrets private) users
                            recovery.1)
                          (edit_manifest-IsInstalled m raw mnf (put_all secrets private) users
                            recovery.1 (begun s₆) st (refl, i₆.1, refl)
                            (subst (λ n. get_state n ≡ ok st) (sym i₆.1) known) below))
                        λ u₇ s₇ h. h

  -- If the lock is free, SetManifest ends in one of these ways, whatever the manifest, and always
  -- leaves the lock free. If it returns recovery secrets, the coordinator was waiting for a
  -- manifest or in recovery mode, and either it accepts marbles now and stores the text of the
  -- manifest, or a commit of a transaction that held both returned an error, which is only logged,
  -- and no data have changed; if it does not, no data have changed.
  pub set_manifest-Settles :
      (raw : Bytes) (c : Core sl rc ext)
      → c.disk.store.locked ≡ false
      → Settles raw c (set_manifest raw c)
  set_manifest-Settles raw c free =
      let o = set_manifest-Outcome raw c free in
      record {
        lock_free = o.lock_free;
        waited = λ secrets e. (o.done secrets e).0;
        installed = λ secrets e.
            Post-ok (λ secrets c'. IsInstalled raw (stored c') ⊎ CommitFailed raw (stored c) c')
              (set_manifest raw c) (set_manifest-installs raw c free) e;
        undone = o.undone;
      }
