-- ===== src/Seal/Aes/Roundtrip.antt =====
-- The AES-GCM sealer keeps the promise of a sealer, also across a restart of the coordinator.
use marblerun.Seal.Framing.Layout.{kept, unframe-frame}
use marblerun.Store.Durable.{Fits, SealsThrough, Unseals}
use marblerun.Base.Exec.{proceed, lift, ◌>>=◌}
use marblerun.Seal.Framing.{frame}
use marblerun.Base.Post.{Post, Post-bind, Post-mono, Post-use}
use marblerun.Base.Exec.{proceed}
use marblerun.Base.{
  Bytes, Result, none, ok, some, ◌≡◌, ap, deadlock, err, panic, refl, ◌∙◌, Bool-cases, Slice,
  bytes_of, inl, inr, length, ◌+◌, Option, false, is_nil, str_eq, sym, [], arith, ◌∷◌,
}
use marblerun.Seal.{
  KeySealer, Platform, PlatformLaws, sealed_key_fname, on_platform, is_not_exist, sealed_data_fname,
}
use marblerun.Seal.Aes.{
  set_encryption_key, backup_encryption_key, ensure_key, generate_new_encryption_key, load_key,
  or_generate, seal, unseal_encryption_key, aes_sealer, unseal, decrypt_part, unseal_file,
  unseal_parts,
}

-- The key in memory is the one that the key file holds.
pub record IsSynced (p : Platform) (s : KeySealer p) : Type 0 where
  pub on_disk :
      (k : Bytes)
      → s.encryption_key ≡ some k
      → (c : Bytes) × (p.read_file sealed_key_fname s.platform ≡ ok c) × (p.unseal_key c ≡ ok k)

-- A new process on the same disk: the key in memory is lost.
abbrev pub restarted : {p : Platform} → KeySealer p → KeySealer p
restarted s = record s { encryption_key = none }

pub bytes_of-kept : (u : Slice) → bytes_of (kept u) ≡ bytes_of u
bytes_of-kept none = refl
bytes_of-kept (some []) = refl
bytes_of-kept (some (b ∷ bs)) = refl

present {ℓ} : {A : Type ℓ} (o : Option A) → is_nil o ≡ false → (a : A) × (o ≡ some a)
present none h = cc
present (some a) h = (a, refl)

-- The key is in memory and on disk.
abbrev HoldsKey : (p : Platform) → Bytes → KeySealer p → Type 0
HoldsKey p k s = (s.encryption_key ≡ some k) × IsSynced p s

abbrev Keyed : (p : Platform) → KeySealer p → Type 0
Keyed p s = (k : Bytes) × HoldsKey p k s

-- The data file frames a ciphertext of `raw` under the key that memory and disk hold.
record IsSealed (p : Platform) (u : Slice) (raw : Bytes) (s : KeySealer p) : Type 0 where
  key : Bytes
  cipher : Bytes
  held : HoldsKey p key s
  file : p.read_file sealed_data_fname s.platform ≡ ok (frame u cipher)
  decrypts : p.decrypt cipher key ≡ ok raw
  size : length cipher ≡ length raw + 28

-- A successful step on the platform keeps the key in memory.
abbrev pub Ran :
    {p : Platform} {A : Type 0}
    → (p.State → Result A × p.State)
    → KeySealer p
    → A
    → KeySealer p
    → Type 0
Ran f s a s' = (f s.platform ≡ (ok a, s'.platform)) × (s'.encryption_key ≡ s.encryption_key)

pub on_platform-Ran :
    {p : Platform} {A : Type 0} (f : p.State → Result A × p.State) (s : KeySealer p)
    → Post (Ran f s) (on_platform f s)
on_platform-Ran {p} {A} f s = go (f s.platform) refl
  where
    go :
        (r : Result A × p.State)
        → f s.platform ≡ r
        → Post (Ran f s) (r.0, record s { platform = r.1 })
    go (ok a, w) e = (e, refl)
    go (err x, w) e = tt
    go (panic m, w) e = tt
    go (deadlock, w) e = tt

module _ (p : Platform) (laws : PlatformLaws p) where
  synced_key :
      (k c : Bytes) (s : KeySealer p)
      → s.encryption_key ≡ some k
      → p.read_file sealed_key_fname s.platform ≡ ok c
      → p.unseal_key c ≡ ok k
      → HoldsKey p k s
  synced_key k c s e r u = (e, record { on_disk = λ j h. (c, r, u ∙ ap ok (same j h)) })
    where
      same : (j : Bytes) → s.encryption_key ≡ some j → k ≡ j
      same j h = cc

  set_encryption_key-HoldsKey :
      (key : Bytes) (s : KeySealer p)
      → Post (λ u s'. HoldsKey p key s') (set_encryption_key p key s)
  unfolding set_encryption_key proceed
  set_encryption_key-HoldsKey key s =
      let s₀ = backup_encryption_key p s in
      Post-bind (Ran (p.seal_with_product_key key) s₀) _ _ _
        (on_platform-Ran (p.seal_with_product_key key) s₀)
        λ c s₁ sealed.
          Post-bind (Ran (p.write_file sealed_key_fname c) s₁) _ _ _
            (on_platform-Ran (p.write_file sealed_key_fname c) s₁)
            λ u s₂ written.
              synced_key key c _ refl (laws.read-write sealed_key_fname c _ _ written.0)
                (laws.unseal-seal key c _ _ sealed.0)

  generate_new_encryption_key-Keyed :
      (s : KeySealer p) → Post (λ u s'. Keyed p s') (generate_new_encryption_key p s)
  unfolding generate_new_encryption_key proceed
  generate_new_encryption_key-Keyed s =
      Post-bind (Ran (p.random_bytes 16) s) _ _ _ (on_platform-Ran (p.random_bytes 16) s)
        λ key s₁ ran.
          Post-mono (λ x t. HoldsKey p key t) (λ x t. Keyed p t) _
            (set_encryption_key-HoldsKey key s₁) (λ u s₂ h. (key, h))

  load_key-Keyed : (s : KeySealer p) → Post (λ u s'. Keyed p s') (load_key p s)
  unfolding load_key proceed
  load_key-Keyed s = read_key (p.read_file sealed_key_fname s.platform) refl
    where
      unsealed_key :
          (c : Bytes) (r : Result Bytes)
          → p.read_file sealed_key_fname s.platform ≡ ok c
          → p.unseal_key c ≡ r
          → Post
              (λ u s'. Keyed p s')
              (proceed (r, s) (λ k s'. (ok tt, record s' { encryption_key = some k })))
      unsealed_key c (ok k) e h = (k, synced_key k c _ refl e h)
      unsealed_key c (err x) e h = tt
      unsealed_key c (panic m) e h = tt
      unsealed_key c deadlock e h = tt

      read_key :
          (r : Result Bytes)
          → p.read_file sealed_key_fname s.platform ≡ r
          → Post
              (λ u s'. Keyed p s')
              (proceed
                (r, s)
                (λ c. (lift (p.unseal_key c)) >>= λ k s'.
                  (ok tt, record s' { encryption_key = some k })))
      read_key (ok c) e = unsealed_key c (p.unseal_key c) e refl
      read_key (err x) e = tt
      read_key (panic m) e = tt
      read_key deadlock e = tt

  unseal_encryption_key-Keyed :
      (s : KeySealer p) → IsSynced p s → Post (λ u s'. Keyed p s') (unseal_encryption_key p s)
  unfolding unseal_encryption_key proceed
  unseal_encryption_key-Keyed s v = elim (Bool-cases (is_nil s.encryption_key)) [
    | inl lost ↦ rw lost (load_key-Keyed s)
    | inr known ↦ let (k, e) = present s.encryption_key known in rw known (k, (e, v))
  ]

  or_generate-Keyed :
      (r : Result (Unit {0}) × KeySealer p)
      → Post (λ u s'. Keyed p s') r
      → Post (λ u s'. Keyed p s') (or_generate p r)
  unfolding or_generate proceed
  or_generate-Keyed (ok u, s) h = h
  or_generate-Keyed (err e, s) h = elim (Bool-cases (is_not_exist e)) [
    | inl missing ↦ rw missing (generate_new_encryption_key-Keyed s)
    | inr other ↦ rw other tt
  ]
  or_generate-Keyed (panic m, s) h = tt
  or_generate-Keyed (deadlock, s) h = tt

  moved :
      (k : Bytes) (s s' : KeySealer p)
      → HoldsKey p k s
      → s'.encryption_key ≡ s.encryption_key
      → p.read_file sealed_key_fname s'.platform ≡ p.read_file sealed_key_fname s.platform
      → HoldsKey p k s'
  moved k s s' h e r =
      let (c, file, key) = h.1.on_disk k h.0 in synced_key k c s' (e ∙ h.0) (r ∙ file) key

  -- A successful Seal leaves the file with the frame of a ciphertext of the data, under the key
  -- that memory and disk hold.
  seal-IsSealed :
      (u : Slice) (raw : Bytes) (s : KeySealer p)
      → IsSynced p s
      → Post (λ x s'. IsSealed p u raw s') (seal p u raw s)
  unfolding seal ensure_key str_eq proceed
  seal-IsSealed u raw s v =
      Post-bind (λ x s'. Keyed p s') _ _ _ (or_generate-Keyed _ (unseal_encryption_key-Keyed s v))
        λ x s₁ keyed.
          Post-bind (Ran (p.encrypt raw (bytes_of s₁.encryption_key)) s₁) _ _ _
            (on_platform-Ran (p.encrypt raw (bytes_of s₁.encryption_key)) s₁)
            λ c s₂ ran.
              Post-mono (Ran (p.write_file sealed_data_fname (frame u c)) s₂) _ _
                (on_platform-Ran (p.write_file sealed_data_fname (frame u c)) s₂)
                λ y s₃ written. finish keyed c ran written
    where
      finish :
          {s₁ s₂ s₃ : KeySealer p} (k : Keyed p s₁) (c : Bytes)
          → Ran (p.encrypt raw (bytes_of s₁.encryption_key)) s₁ c s₂
          → Ran (p.write_file sealed_data_fname (frame u c)) s₂ tt s₃
          → IsSealed p u raw s₃
      finish {s₁} {s₂} {s₃} (k, held) c ran written =
          let (same, size) = laws.decrypt-encrypt raw (bytes_of s₁.encryption_key) c _ _ ran.0 in
          record {
            key = k;
            cipher = c;
            held = moved k s₁ s₃ held (written.1 ∙ ran.1) (
                ap (λ w. p.read_file sealed_key_fname w.1) (sym written.0)
                ∙ laws.read-write_ne sealed_data_fname sealed_key_fname (frame u c) s₂.platform refl
                ∙ ap (λ w. p.read_file sealed_key_fname w.1) (sym ran.0)
                ∙ laws.read-encrypt sealed_key_fname raw (bytes_of s₁.encryption_key) s₁.platform);
            file = laws.read-write sealed_data_fname (frame u c) _ _ written.0;
            decrypts = rw held.0 at same;
            size = size;
          }

  -- Unseal of a new process on what Seal has left.
  unseal-restarted :
      (u : Slice) (raw : Bytes) (s : KeySealer p)
      → Fits u raw
      → IsSealed p u raw s
      → (unseal p (restarted s)).0
        ≡ ok (record { unencrypted = kept u; decrypted = some raw; error = none })
  unfolding unseal unseal_file unseal_parts unseal_encryption_key load_key decrypt_part proceed
  unseal-restarted u raw s fits h =
      let (c, file, key) = h.held.1.on_disk h.key h.held.0 in
      ground (
        arith,
        h.file,
        unframe-frame u h.cipher (omega (arith, h.size)) (omega (arith, h.size)),
        file,
        key,
        h.decrypts,
      )

  -- What Seal wrote successfully, Unseal of a new process on the same disk returns with no error,
  -- the unencrypted data included, if the key in memory was the one on disk and the data fit.
  pub unseal-seal :
      (u : Slice) (raw : Bytes) (s s' : KeySealer p)
      → IsSynced p s
      → Fits u raw
      → seal p u raw s ≡ (ok tt, s')
      → Unseals (unseal p (restarted s')).0 u raw
  unseal-seal u raw s s' v fits e =
      let h = Post-use (λ x t. IsSealed p u raw t) _ (seal-IsSealed u raw s v) e in
      record {
        unsealed = record { unencrypted = kept u; decrypted = some raw; error = none };
        result = unseal-restarted u raw s' fits h;
        no_error = refl;
        decrypted_same = refl;
        unencrypted_same = bytes_of-kept u;
      }

  -- The AES-GCM sealer keeps the promise that the store relies on.
  pub aes_sealer-SealsThrough : SealsThrough (aes_sealer p) (IsSynced p) restarted
  aes_sealer-SealsThrough = record { unseals = unseal-seal }
