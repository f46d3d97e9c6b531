-- ===== src/Core/Client/Manifests/Settled.antt =====
-- How SetManifest ends.
use marblerun.Core.States.Required.{require_state-KeepsIdle, require_state-one_of, int_eq_sound}
use marblerun.Store.Atomic.{Applies, commit_and_rollback-Applies}
use marblerun.Core.Client.Manifests.Installed.{
  Inside, ignored_fine, store_manifest-Inside, store_manifest-raw, ignore-Keeps,
  edit_manifest-IsOpen,
}
use marblerun.Core.Transactions.Atomic.{IsOpen, IsIdle, begun}
use marblerun.Core.Transactions.Edits.{on_tx-Post}
use marblerun.Core.Transactions.Outcome.{
  Outcome, Outcome-bind, Outcome-pure, Outcome-read, Outcome-mono,
}
use marblerun.Manifest.{Certificate, Manifest, Secret}
use marblerun.User.{User}
use marblerun.Base.{
  Bytes, Map, get, ok, refl, some, str_eq, true, ◌≡◌, List, Result, Slice, ap, arith, deadlock, err,
  inl, inr, panic, subst, sym, ◌∙◌, ◌⊎◌, [], false, ◌∷◌, Bool-cases, put_all,
}
use marblerun.Core.{Core, stored, on_sealer}
use marblerun.Core.Client.Manifests.{ignore, edit_manifest, set_manifest}
use marblerun.Core.Getters.{get_state, request_manifest, request_state}
use marblerun.Core.States.{
  advance_state, state_accepting_marbles, state_accepting_manifest, state_recovery, one_of,
}
use marblerun.Core.Transactions.{on_tx, commit_tx, roll_back, in_transaction}
use marblerun.Recovery.{Recovery}
use marblerun.Services.{Services}
use marblerun.Store.{
  Sealer, Transaction, read, commit, commit_and_rollback, rollback, unlock, Disk, begin_transaction,
}
use marblerun.Strconv.{int_lt, ℤ, int_eq}
use marblerun.Base.Exec.{Exec, ◌>>◌, proceed}
use marblerun.Base.Keeps.{Keeps}
use marblerun.Base.Post.{Post, Post-bind, Post-mono, Post-use, Post-both, Post-kept}
use marblerun.Core.States.Advanced.{advance_state_iff, advance_state-Advances, Advances}

-- The text of the manifest is stored, and the coordinator accepts marbles.
abbrev pub IsInstalled : Bytes → Map Bytes → Type 0
IsInstalled raw m = (get m request_manifest ≡ some raw) × (get_state m ≡ ok state_accepting_marbles)

pub get_state-same :
    (m n : Map Bytes) → get m request_state ≡ get n request_state → get_state m ≡ get_state n
unfolding get_state read
get_state-same m n e = rw (e, get_state, read) refl

-- The coordinator waits for a manifest, or is in recovery mode.
abbrev pub Waiting : Map Bytes → Type 0
Waiting m = (get_state m ≡ ok state_accepting_manifest) ⊎ (get_state m ≡ ok state_recovery)

pub is-Waiting :
    (m : Map Bytes) (st : ℤ)
    → get_state m ≡ ok st
    → one_of (state_accepting_manifest ∷ state_recovery ∷ []) st ≡ true
    → Waiting m × (int_lt st state_accepting_marbles ≡ true)
unfolding one_of
is-Waiting m st known among = either (Bool-cases (int_eq state_accepting_manifest st))
  where
    either :
        ((int_eq state_accepting_manifest st ≡ true) ⊎ (int_eq state_accepting_manifest st ≡ false))
        → Waiting m × (int_lt st state_accepting_marbles ≡ true)
    either (inl e) =
        let same = int_eq_sound state_accepting_manifest st e in
        (
          inl (known ∙ ap ok (sym same)),
          subst (λ x. int_lt x state_accepting_marbles ≡ true) same refl,
        )
    either (inr n) =
        let same = int_eq_sound state_recovery st (ground (arith, among, n)) in
        (
          inr (known ∙ ap ok (sym same)),
          subst (λ x. int_lt x state_accepting_marbles ≡ true) same refl,
        )

module _ {sl : Sealer} {rc : Recovery} {ext : Services} where
  advanced :
      (raw : Bytes) (s : Core sl rc ext × Transaction) (st : ℤ)
      → get s.1.tx_data request_manifest ≡ some raw
      → get_state s.1.tx_data ≡ ok st
      → int_lt st state_accepting_marbles ≡ true
      → Post
          (λ u s'. IsInstalled raw s'.1.tx_data)
          (ignore (on_tx {sl = sl} {rc = rc} {ext = ext} (advance_state state_accepting_marbles)) s)
  unfolding str_eq
  advanced raw s st text known below =
      let t = s.1 in
      let fine : (advance_state state_accepting_marbles t).0 ≡ ok tt =
        (advance_state_iff state_accepting_marbles t).1 (st, known, below, refl) in
      subst (Post (λ u s'. IsInstalled raw s'.1.tx_data))
        (sym (ignored_fine (on_tx (advance_state state_accepting_marbles)) s fine))
        (on_tx-Post (λ t'. IsInstalled raw t'.tx_data) (advance_state state_accepting_marbles) s
          (Post-mono (λ u t'. Advances 3 t t') (λ u t'. IsInstalled raw t'.tx_data) _
            (advance_state-Advances 3 t) (λ u t' a. (still t' (a.2 request_manifest), a.1))))
    where
      still :
          (t' : Transaction)
          → ((get t'.tx_data request_manifest ≡ get s.1.tx_data request_manifest)
              ⊎ (request_manifest ≡ request_state))
          → get t'.tx_data request_manifest ≡ some raw
      still t' (inl same) = same ∙ text
      still t' (inr e) = cc

  pub edit_manifest-IsInstalled :
      (m : Map Bytes) (raw : Bytes) (mnf : Manifest) (secrets : Map Secret)
      (users : List (User Certificate)) (recovery_data : Slice) (s : Core sl rc ext × Transaction)
      (st : ℤ)
      → IsOpen m s
      → get_state s.1.tx_data ≡ ok st
      → int_lt st state_accepting_marbles ≡ true
      → Post
          (λ u s'. IsInstalled raw s'.1.tx_data)
          (edit_manifest raw mnf secrets users recovery_data s)
  unfolding edit_manifest
  edit_manifest-IsInstalled m raw mnf secrets users recovery_data s st o known below =
      let v = get s.1.tx_data request_state in
      let I : Core sl rc ext × Transaction → Type 0 = Inside m request_state v in
      let P : Unit {0} → Core sl rc ext × Transaction → Type 0 =
        λ u s'. IsInstalled raw s'.1.tx_data in
      Post-bind (λ u s'. (get s'.1.tx_data request_manifest ≡ some raw) × I s') P _ _
        (Post-both (λ u s'. get s'.1.tx_data request_manifest ≡ some raw) (λ u s'. I s') _
          (store_manifest-raw m raw mnf secrets users s o)
          (Post-kept I _
            (store_manifest-Inside m v raw mnf secrets users s (o.0, o.1, (o.2, refl)))))
        λ u₁ s₁ i₁.
          Post-bind P P _ _
            (advanced raw s₁ st i₁.0 (get_state-same s₁.1.tx_data s.1.tx_data i₁.1.2.1 ∙ known)
              below)
            λ u₂ s₂ i₂. i₂

  -- the end of a transaction whose commit error is dropped
  committed_ignored :
      (P : Map Bytes → Type 0) (m : Map Bytes) (c : Core sl rc ext) (t : Transaction)
      (x : Result (Unit {0}) × Disk sl × Transaction)
      → stored c ≡ m
      → P t.tx_data
      → Applies c.disk t.tx_data x.0 (rollback sl x.2 x.1)
      → Outcome
          (λ u m'. P m' ⊎ (m' ≡ m))
          m
          (roll_back (ignore (λ s. (x.0, (record c { disk = x.1 }, x.2))) (c, t)))
  unfolding roll_back
  committed_ignored P m c t (ok u, d, t') same h done = record {
    lock_free = done.unlocked;
    done = λ a e. inl (subst P (sym (done.applied refl)) h);
    undone = λ n. elim (n tt refl) [ ];
  }
  committed_ignored P m c t (err x, d, t') same h done = record {
    lock_free = done.unlocked;
    done = λ a e. inr (done.kept (λ e. cc) ∙ same);
    undone = λ n. elim (n tt refl) [ ];
  }
  committed_ignored P m c t (panic x, d, t') same h done = record {
    lock_free = done.unlocked;
    done = λ a e. cc;
    undone = λ n. done.kept (λ e. cc) ∙ same;
  }
  committed_ignored P m c t (deadlock, d, t') same h done = record {
    lock_free = done.unlocked;
    done = λ a e. cc;
    undone = λ n. done.kept (λ e. cc) ∙ same;
  }

  ended_ignored :
      (P : Map Bytes → Type 0) (m : Map Bytes)
      (r : Result (Unit {0}) × (Core sl rc ext × Transaction))
      → IsOpen m r.1
      → Post (λ u s. P s.1.tx_data) r
      → Outcome (λ u m'. P m' ⊎ (m' ≡ m)) m (roll_back (proceed r (λ u. ignore commit_tx)))
  unfolding roll_back commit_tx rollback unlock commit commit_and_rollback proceed
  ended_ignored P m (ok u, (c, t)) o h =
      committed_ignored P m c t (commit sl ext.data_json t c.disk) o.1 h
        (commit_and_rollback-Applies sl ext.data_json t c.disk o.2)
  ended_ignored P m (err e, (c, t)) o h = record {
    lock_free = ground (arith, o.2);
    done = λ a e. cc;
    undone = λ n. ground (arith, o.2, o.1);
  }
  ended_ignored P m (panic x, (c, t)) o h = record {
    lock_free = ground (arith, o.2);
    done = λ a e. cc;
    undone = λ n. ground (arith, o.2, o.1);
  }
  ended_ignored P m (deadlock, (c, t)) o h = record {
    lock_free = ground (arith, o.2);
    done = λ a e. cc;
    undone = λ n. ground (arith, o.2, o.1);
  }

  in_transaction_ignored :
      (P : Map Bytes → Type 0) (m : Map Bytes) (c : Core sl rc ext)
      (f : Exec (Core sl rc ext × Transaction) (Unit {0}))
      → IsIdle m c
      → Keeps (IsOpen m) f
      → Post (λ u s. P s.1.tx_data) (f (begun c))
      → Outcome (λ u m'. P m' ⊎ (m' ≡ m)) m (in_transaction (f >> ignore commit_tx) c)
  unfolding in_transaction begin_transaction proceed
  in_transaction_ignored P m c f i k h =
      rw (i.0) (ended_ignored P m (f (begun c)) (k (begun c) (refl, i.1, refl)) h)

  -- SetManifest leaves the lock free. If it returns recovery secrets, the coordinator was waiting,
  -- and the manifest is installed or the data are the old ones; if not, the data are the old ones.
  pub set_manifest-Outcome :
      (raw : Bytes) (c : Core sl rc ext)
      → c.disk.store.locked ≡ false
      → Outcome
          (λ secrets m'.
            ((get_state (stored c) ≡ ok state_accepting_manifest)
              ⊎ (get_state (stored c) ≡ ok state_recovery))
            × (IsInstalled raw m' ⊎ (m' ≡ stored c)))
          (stored c)
          (set_manifest raw c)
  unfolding set_manifest
  set_manifest-Outcome raw c free =
      let m = stored c in
      let P : Map Bytes → Map Bytes → Type 0 =
        λ secrets m'. Waiting m × (IsInstalled raw m' ⊎ (m' ≡ m)) in
      Outcome-bind P m _ _
        (require_state-KeepsIdle (state_accepting_manifest ∷ state_recovery ∷ []) m c (free, refl))
        λ u s e i.
          let (st, known, among) =
            Post-use
              (λ u' c'.
                (st : ℤ) × (get_state m ≡ ok st)
                × (one_of (state_accepting_manifest ∷ state_recovery ∷ []) st ≡ true))
              _ (require_state-one_of (state_accepting_manifest ∷ state_recovery ∷ []) c) e in
          let (waiting, below) = is-Waiting m st known among in
          Outcome-read P m _ s _ i λ mnf e₁. Outcome-read P m _ s _ i λ u₂ e₂.
            Outcome-read P m _ s _ i λ marble_root e₃. Outcome-read P m _ s _ i λ key e₄.
              Outcome-bind P m _ _ i λ secrets s₁ e₅ i₁. Outcome-bind P m _ _ i₁ λ uuid s₂ e₆ i₂.
                Outcome-bind P m _ _ i₂ λ private s₃ e₇ i₃. Outcome-bind P m _ _ i₃ λ enc s₄ e₈ i₄.
                  Outcome-bind P m _ _ i₄ λ recovery s₅ e₉ i₅.
                    Outcome-bind P m _ _
                      (ignore-Keeps (IsIdle m) (on_sealer (sl.set_encryption_key enc)) (λ s j. j) s₅
                        i₅)
                      λ u₆ s₆ f₁ i₆. Outcome-read P m _ s₆ _ i₆ λ users f₂.
                        Outcome-pure P m recovery.0 _ (
                          Outcome-mono (λ u m'. IsInstalled raw m' ⊎ (m' ≡ m))
                            (λ u m'. P recovery.0 m') m _ (λ u m' h. (waiting, h))
                            (in_transaction_ignored (IsInstalled raw) m s₆
                              (edit_manifest raw mnf (put_all secrets private) users recovery.1) i₆
                              (edit_manifest-IsOpen m raw mnf (put_all secrets private) users
                                recovery.1)
                              (edit_manifest-IsInstalled m raw mnf (put_all secrets private) users
                                recovery.1 (begun s₆) st (refl, i₆.1, refl)
                                (subst (λ n. get_state n ≡ ok st) (sym i₆.1) known) below)))
