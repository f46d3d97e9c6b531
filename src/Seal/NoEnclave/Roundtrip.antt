-- ===== src/Seal/NoEnclave/Roundtrip.antt =====
-- The sealer without an enclave gives back what it sealed, to any process on the same disk.
use marblerun.Seal.{KeySealer, Platform, PlatformLaws, sealed_data_fname, sealed_key_fname}
use marblerun.Seal.Framing.{frame, uint32_mod}
use marblerun.Seal.Framing.Layout.{kept, unframe_plain-frame}
use marblerun.Store.Durable.{Unseals}
use marblerun.Base.{
  Bytes, Slice, none, ok, some, ◌≡◌, arith, bytes_of, length, ◌+◌, ◌<◌, ap, refl, str_eq, sym, ◌∙◌,
}
use marblerun.Base.Exec.{proceed}
use marblerun.Base.Post.{Post, Post-bind, Post-skip, Post-mono, Post-use}
use marblerun.Seal.NoEnclave.{
  seal, unseal, load_encryption_key, loaded_or_new, unseal_data, unseal_with_key, unseal_framed,
  decrypted_with,
}
use marblerun.Seal.Aes.Roundtrip.{Ran, on_platform-Ran, bytes_of-kept}

module _ (p : Platform) (laws : PlatformLaws p) where
  -- The data file frames a ciphertext of `raw` under the key of the key file.
  record LiesSealed (u : Slice) (raw : Bytes) (s : KeySealer p) : Type 0 where
    key : Bytes
    cipher : Bytes
    key_file : p.read_file sealed_key_fname s.platform ≡ ok key
    data_file : p.read_file sealed_data_fname s.platform ≡ ok (frame u cipher)
    decrypts : p.decrypt cipher key ≡ ok raw

  seal-LiesSealed :
      (u : Slice) (raw : Bytes) (s : KeySealer p) → Post (λ x. LiesSealed u raw) (seal p u raw s)
  unfolding seal proceed str_eq
  seal-LiesSealed u raw s =
      Post-skip (λ x. LiesSealed u raw) (loaded_or_new p (load_encryption_key p s)) _
        λ x s₁ e.
          let key = bytes_of s₁.encryption_key in
          Post-bind (Ran (p.encrypt raw key) s₁) _ _ _ (on_platform-Ran (p.encrypt raw key) s₁)
            λ c s₂ ran.
              Post-bind (Ran (p.write_file sealed_data_fname (frame u c)) s₂) _ _ _
                (on_platform-Ran (p.write_file sealed_data_fname (frame u c)) s₂)
                λ y s₃ written.
                  Post-mono (Ran (p.write_file sealed_key_fname key) s₃) _ _
                    (on_platform-Ran (p.write_file sealed_key_fname key) s₃)
                    λ z s₄ kept_key. record {
                      key = key;
                      cipher = c;
                      key_file = laws.read-write sealed_key_fname key _ _ kept_key.0;
                      data_file =
                          ap (λ w. p.read_file sealed_data_fname w.1) (sym kept_key.0)
                          ∙ laws.read-write_ne sealed_key_fname sealed_data_fname key s₃.platform
                              refl
                          ∙ laws.read-write sealed_data_fname (frame u c) _ _ written.0;
                      decrypts = (laws.decrypt-encrypt raw key c _ _ ran.0).0;
                    }

  -- What Seal wrote successfully, Unseal returns with no error to every process on the same disk,
  -- the unencrypted data included, whatever key it has in memory, if the unencrypted data are more
  -- than 4 bytes shorter than 2^32.
  pub no_enclave_unseal-seal :
      (u : Slice) (raw : Bytes) (s s' t : KeySealer p)
      → 4 + length (bytes_of u) < uint32_mod
      → seal p u raw s ≡ (ok tt, s')
      → t.platform ≡ s'.platform
      → Unseals (unseal p t).0 u raw
  unfolding unseal unseal_data unseal_with_key unseal_framed decrypted_with
  no_enclave_unseal-seal u raw s s' t fits e same =
      let h = Post-use (λ x. LiesSealed u raw) _ (seal-LiesSealed u raw s) e in
      record {
        unsealed = record { unencrypted = kept u; decrypted = some raw; error = none };
        result =
            ground (
              arith,
              same,
              h.data_file,
              h.key_file,
              h.decrypts,
              unframe_plain-frame u h.cipher fits,
            );
        no_error = refl;
        decrypted_same = refl;
        unencrypted_same = bytes_of-kept u;
      }
