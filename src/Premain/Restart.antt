-- ===== src/Premain/Restart.antt =====
-- A marble that is started again has the UUID of its first start.
use marblerun.Store.{read}
use marblerun.Premain.{
  FileSystem, MarbleServices, Process, get_uuid, parsed_uuid, read_uuid, store_uuid, found_or_new,
  uuid_of, on_random,
}
use marblerun.Services.{Services}
use marblerun.Base.{
  Bytes, Option, Str, if◌then◌else◌, ok, some, str_eq, ℕ, ◌≡◌, Error, Result, [], deadlock, err,
  errorf, none, or_error, panic, refl, str_eq_refl, ◌∙◌, ap, encryption_key, foreign, not_exist,
  status, unset,
}
use marblerun.Base.Exec.{proceed}
use marblerun.Base.Post.{Post, Post-bind, Post-kept, Post-skip, Post-mono, Post-use}

-- What is relied on of a file system: it has contents at cleaned paths; a file that is there can be
-- read, what was read is there, a file that was written is there and no other is touched, and
-- directories are no files.
pub record FsLaws {Files : Type 0} (fs : FileSystem Files) : Type 0 where
  pub content : Files → Str → Option Bytes
  pub clean : Str → Str
  pub read-found :
      (path : Str) (w : Files) (b : Bytes)
      → content w (clean path) ≡ some b
      → fs.read_file path w ≡ (ok b, w)
  pub read-content :
      (path : Str) (w : Files)
      → Post (λ b w'. content w' (clean path) ≡ some b) (fs.read_file path w)
  pub write-content :
      (path : Str) (b : Bytes) (perm : ℕ) (w : Files)
      → Post
          (λ u w'.
            (q : Str) → content w' q ≡ (if str_eq (clean path) q then some b else content w q))
          (fs.write_file path b perm w)
  pub mkdir-content :
      (path : Str) (perm : ℕ) (w : Files) (q : Str)
      → content (fs.mkdir_all path perm w).1 q ≡ content w q

-- UnmarshalText reads what MarshalText wrote.
abbrev pub ReadsUuids : {ext : Services} → MarbleServices ext → Type 0
ReadsUuids os = (u raw : Bytes) → os.marshal_uuid u ≡ ok raw → os.unmarshal_uuid raw ≡ ok u

or_error-Post :
    {S A : Type 0} (P : A → S → Type 0) (x : Result A × S) (e : Error)
    → Post P x
    → Post P (or_error x.0 e, x.1)
or_error-Post P (ok a, s) e h = h
or_error-Post P (err x, s) e h = tt
or_error-Post P (panic m, s) e h = tt
or_error-Post P (deadlock, s) e h = tt

pub on_files-Post :
    {ext : Services} {Files Peer A : Type 0} (P : A → Process ext Files Peer → Type 0)
    (p : Process ext Files Peer) (x : Result A × Files)
    → Post (λ a w. P a (record p { files = w })) x
    → Post P (x.0, record p { files = x.1 })
on_files-Post P p (ok a, s) h = h
on_files-Post P p (err x, s) h = tt
on_files-Post P p (panic m, s) h = tt
on_files-Post P p (deadlock, s) h = tt

module _ {ext : Services} (os : MarbleServices ext) {Files : Type 0} (fs : FileSystem Files)
    (laws : FsLaws fs) (filename : Str) where
  -- The file holds the UUID.
  abbrev pub Holds : Bytes → Files → Type 0
  Holds u w =
      (raw : Bytes) × (laws.content w (laws.clean filename) ≡ some raw)
      × (os.unmarshal_uuid raw ≡ ok u)

  store_uuid-Holds :
      (u : Bytes) (w : Files)
      → ReadsUuids os
      → Post (λ x. Holds u) (store_uuid ext os fs u filename w)
  unfolding store_uuid
  store_uuid-Holds u w law =
      Post-bind (λ raw w'. os.marshal_uuid u ≡ ok raw) (λ x. Holds u) _ _
        (marshalled (os.marshal_uuid u) refl)
        λ raw w' e.
          or_error-Post (λ x. Holds u) (fs.write_file filename raw 0o600 w') _
            (Post-mono _ (λ x. Holds u) _ (laws.write-content filename raw 0o600 w')
              λ x w'' h. stored u raw w' w'' (law u raw e) (h (laws.clean filename)))
    where
      marshalled :
          (r : Result Bytes)
          → os.marshal_uuid u ≡ r
          → Post
              (λ raw w'. os.marshal_uuid u ≡ ok raw)
              (or_error r (errorf "failed to marshal UUID: %v" []), w)
      marshalled (ok raw) e = e
      marshalled (err x) e = tt
      marshalled (panic m) e = tt
      marshalled deadlock e = tt

      stored :
          (v raw : Bytes) (w' w'' : Files)
          → os.unmarshal_uuid raw ≡ ok v
          → laws.content w'' (laws.clean filename) ≡ (
              if str_eq (laws.clean filename) (laws.clean filename)
              then some raw
              else laws.content w' (laws.clean filename))
          → Holds v w''
      stored v raw w' w'' e h = (raw, h ∙ rw (str_eq_refl (laws.clean filename)) refl, e)

  read_uuid-Holds :
      {Peer : Type 0} (p : Process ext Files Peer)
      → Post
          (λ found p'. (u : Bytes) → found ≡ some u → Holds u p'.files)
          (read_uuid ext os fs filename p)
  unfolding read_uuid parsed_uuid
  read_uuid-Holds {Peer} p =
      read (fs.read_file filename p.files) (laws.read-content filename p.files)
    where
      parsed :
          (b : Bytes) (q : Process ext Files Peer)
          → laws.content q.files (laws.clean filename) ≡ some b
          → (r : Result Bytes) → os.unmarshal_uuid b ≡ r
          → Post (λ found q'. (u : Bytes) → found ≡ some u → Holds u q'.files) (uuid_of r, q)
      parsed b q h (ok v) e = λ u e'. let same : v ≡ u = cc in (b, h, e ∙ ap ok same)
      parsed b q h (err x) e = tt
      parsed b q h (panic m) e = tt
      parsed b q h deadlock e = tt

      read :
          (x : Result Bytes × Files)
          → Post (λ b w'. laws.content w' (laws.clean filename) ≡ some b) x
          → Post
              (λ found p'. (u : Bytes) → found ≡ some u → Holds u p'.files)
              (parsed_uuid ext os x.0 (record p { files = x.1 }))
      read (ok b, w') h =
          let q : Process ext Files Peer = record p { files = w' } in
          Post-bind (λ a p'. laws.content p'.files (laws.clean filename) ≡ some b)
            (λ found p'. (u : Bytes) → found ≡ some u → Holds u p'.files) _ _
            (Post-kept (λ p'. laws.content p'.files (laws.clean filename) ≡ some b)
              (on_random ext os ext.new_uuid q) h)
            λ a q' h'. parsed b q' h' (os.unmarshal_uuid b) refl
      read (err not_exist, w') h = λ u e. cc
      read (err (unset k), w') h = tt
      read (err encryption_key, w') h = tt
      read (err (errorf f a), w') h = tt
      read (err (status c m), w') h = tt
      read (err (foreign m), w') h = tt
      read (panic m, w') h = tt
      read (deadlock, w') h = tt

  get_uuid-Holds :
      {Peer : Type 0} (p : Process ext Files Peer)
      → ReadsUuids os
      → Post (λ u p'. Holds u p'.files) (get_uuid ext os fs filename p)
  unfolding get_uuid found_or_new
  get_uuid-Holds {Peer} p law =
      Post-bind (λ found p'. (u : Bytes) → found ≡ some u → Holds u p'.files)
        (λ u p'. Holds u p'.files) _ _ (read_uuid-Holds p) found_or_made
    where
      found_or_made :
          (found : Option Bytes) (p' : Process ext Files Peer)
          → ((u : Bytes) → found ≡ some u → Holds u p'.files)
          → Post (λ u p''. Holds u p''.files) (found_or_new ext os fs filename found p')
      found_or_made (some u) p' h = h u refl
      found_or_made none p' h =
          Post-skip (λ u p''. Holds u p''.files) _ _
            λ u p₁ e.
              Post-bind (λ x p''. Holds u p''.files) (λ v p''. Holds v p''.files) _ _
                (on_files-Post (λ x p''. Holds u p''.files) p₁
                  (store_uuid ext os fs u filename p₁.files) (store_uuid-Holds u p₁.files law))
                λ x p₂ h₂. h₂

  -- A marble whose UUID file still holds what it held after a start has the UUID of that start on
  -- any other start, whatever else has changed, and writes nothing; only the random source is used,
  -- for a UUID that is dropped, and has to give one.
  pub get_uuid_again :
      {Peer : Type 0} (p p' next : Process ext Files Peer) (u dropped : Bytes)
      (entropy : ext.Entropy)
      → ReadsUuids os
      → get_uuid ext os fs filename p ≡ (ok u, p')
      → laws.content next.files (laws.clean filename) ≡ laws.content p'.files (laws.clean filename)
      → ext.new_uuid next.process_entropy ≡ (ok dropped, entropy)
      → get_uuid ext os fs filename next ≡ (ok u, record next { process_entropy = entropy })
  unfolding get_uuid found_or_new read_uuid parsed_uuid proceed
  get_uuid_again p p' next u dropped entropy law first same random =
      let (raw, held, read) = Post-use (λ u p'. Holds u p'.files) _ (get_uuid-Holds p law) first in
      rw (laws.read-found filename next.files raw (same ∙ held), parsed_uuid)
        (rw (random) (rw (read) refl))
