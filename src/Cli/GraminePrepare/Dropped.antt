-- ===== src/Cli/GraminePrepare/Dropped.antt =====
-- The files that gramine-prepare does not add.
use marblerun.Cli.GraminePrepare.{
  Toml, Values, put_if, Diff, Tree, collect_diffs, diff_of, fill_changes, insert_file,
  insert_sorted, original_paths, pass_through, read_paths, sort_diffs, str_lt, uuid_name,
  file_inserted, premain_name, toml_array, toml_bool, toml_int, toml_other, toml_string, toml_tree,
  value_at, with_diff, calculate_changes, enclave_size, parse_tree_for_changes, string_of,
  with_argv0, nil_or_false, nil_or_few,
}
use marblerun.Base.{
  Bool, Option, Str, arith, codes, false, get, get-put, ok, put, refl, some, str_eq, true, ◌≡◌, All,
  Bool-cases, List, [], inl, inr, none, ◌∷◌, if◌then◌else◌, ◌++◌, ◌∙◌, ap, errorf, get-put_self,
  is_nil,
}
use marblerun.Base.Ends.{IfOk, IfOk-bind, IfOk-mono, IfOk-skip, IfOk-use}
use marblerun.Base.Pure.{reject_if}

abbrev pub trusted_path : Str
trusted_path = codes "sgx.trusted_files"

-- the change of another path
put-other :
    (m : Values) (path : Str) (v : Option Toml)
    → str_eq path trusted_path ≡ false
    → get (put m path v) trusted_path ≡ get m trusted_path
put-other m path v h = ground (arith, get-put m path trusted_path v, h)

put_if-other :
    (b : Bool) (path : Str) (v : Toml) (m : Values)
    → str_eq path trusted_path ≡ false
    → get (put_if b path v m) trusted_path ≡ get m trusted_path
put_if-other true path v m h = put-other m path (some v) h
put_if-other false path v m h = refl

pass_through-other :
    (original m : Values) (path : Str)
    → str_eq path trusted_path ≡ false
    → get (pass_through original path m) trusted_path ≡ get m trusted_path
pass_through-other original m path h = put_if-other _ path _ m h

-- The original stays, and so does the change of the trusted files.
KeepsTrusted : Values → Values → Values × Values → Type 0
KeepsTrusted original changes x =
    (x.0 ≡ original) × (get x.1 trusted_path ≡ get changes trusted_path)

with_argv0-other :
    (argv0 entrypoint : Option Toml) (m : Values) (x : Option (Option Toml))
    → get m trusted_path ≡ x
    → IfOk (λ m'. get m' trusted_path ≡ x) (with_argv0 argv0 entrypoint m)
unfolding with_argv0 str_eq
with_argv0-other (some v) entrypoint m x e = e
with_argv0-other none entrypoint m x e =
    IfOk-skip (λ m'. get m' trusted_path ≡ x) (string_of entrypoint) _
      λ t. put-other m (codes "loader.argv0_override") _ refl ∙ e

-- the variables that are passed through if the environment is isolated
passed-other :
    (isolated : Bool) (original m : Values)
    → get
        (if isolated
          then pass_through original (codes "loader.env.EDG_MARBLE_DNS_NAMES") (
              pass_through original (codes "loader.env.EDG_MARBLE_UUID_FILE") (
                pass_through original
                  (codes "loader.env.EDG_MARBLE_TYPE")
                  (pass_through original (codes "loader.env.EDG_MARBLE_COORDINATOR_ADDR") m)))
          else m)
        trusted_path
      ≡ get m trusted_path
unfolding str_eq
passed-other false original m = refl
passed-other true original m =
    pass_through-other original _ (codes "loader.env.EDG_MARBLE_DNS_NAMES") refl
    ∙ pass_through-other original _ (codes "loader.env.EDG_MARBLE_UUID_FILE") refl
    ∙ pass_through-other original _ (codes "loader.env.EDG_MARBLE_TYPE") refl
    ∙ pass_through-other original _ (codes "loader.env.EDG_MARBLE_COORDINATOR_ADDR") refl

fill_changes-KeepsTrusted :
    (below : Option Str → Bool) (original changes : Values)
    → IfOk (KeepsTrusted original changes) (fill_changes below original changes)
unfolding fill_changes KeepsTrusted str_eq
fill_changes-KeepsTrusted below original changes =
    let at : Str → Option Toml = λ path. value_at original path in
    IfOk-bind (λ m. get m trusted_path ≡ get changes trusted_path) (KeepsTrusted original changes)
      (with_argv0 (at (codes "loader.argv0_override")) (at (codes "libos.entrypoint"))
        (put changes (codes "libos.entrypoint") (some (toml_string premain_name))))
      _
      (with_argv0-other (at (codes "loader.argv0_override")) (at (codes "libos.entrypoint")) _ _
        (put-other changes (codes "libos.entrypoint") (some (toml_string premain_name)) refl))
      λ m same.
        IfOk-skip (KeepsTrusted original changes)
          (nil_or_false (at (codes "loader.insecure__use_host_env"))) _
          λ isolated.
            IfOk-skip (KeepsTrusted original changes)
              (nil_or_false (at (codes "sgx.remote_attestation"))) _
              λ unattested.
                IfOk-skip (KeepsTrusted original changes)
                  (enclave_size below (at (codes "sgx.enclave_size"))) _
                  λ size.
                    IfOk-skip (KeepsTrusted original changes)
                      (nil_or_few (at (codes "sgx.thread_num"))) _
                      λ few. (
                        refl,
                        put_if-other few (codes "sgx.thread_num") _ _ refl
                            ∙ put_if-other (below size) (codes "sgx.enclave_size") _ _ refl
                            ∙ put_if-other unattested (codes "sgx.remote_attestation") _ _ refl
                            ∙ passed-other isolated original m
                            ∙ same,
                      )

-- insertFile of the allowed files
insert_allowed-KeepsTrusted :
    (original changes : Values) (tree : Tree)
    → IfOk
        (λ x.
          (get x.0 trusted_path ≡ get original trusted_path)
          × (get x.1 trusted_path ≡ get changes trusted_path))
        (insert_file original changes (codes "allowed_files") uuid_name tree)
unfolding insert_file file_inserted str_eq
insert_allowed-KeepsTrusted original changes tree = inserted (tree (codes "sgx.allowed_files"))
  where
    inserted :
        (o : Option Toml)
        → IfOk
            (λ x.
              (get x.0 trusted_path ≡ get original trusted_path)
              × (get x.1 trusted_path ≡ get changes trusted_path))
            (file_inserted original changes (codes "allowed_files") uuid_name o)
    inserted none = (refl, put-other changes (codes "sgx.allowed_files") _ refl)
    inserted (some toml_tree) =
        (refl, put-other changes (codes "sgx.allowed_files.marblerun_uuid") _ refl)
    inserted (some (toml_array files)) = (
      put-other original (codes "sgx.allowed_files") _ refl,
      put-other changes (codes "sgx.allowed_files") _ refl,
    )
    inserted (some (toml_string v)) = tt
    inserted (some (toml_bool v)) = tt
    inserted (some (toml_int v)) = tt
    inserted (some toml_other) = tt

no_trusted_path : (tree : Tree) → get (read_paths tree original_paths []) trusted_path ≡ none
unfolding read_paths get put str_eq
no_trusted_path tree = refl

-- A difference at another path than that of the trusted files.
pub OfOther : (Option Toml → Str) → Diff → Type 0
OfOther show d =
    (path : Str) × (v : Option Toml) × (u : Option Toml) × (d ≡ diff_of show path v u)
    × (str_eq path trusted_path ≡ false)

with_diff-OfOther :
    (show : Option Toml → Str) (path : Str) (v : Option Toml) (changed : Option (Option Toml))
    (others : List Diff)
    → str_eq path trusted_path ≡ false
    → All (OfOther show) others
    → All (OfOther show) (with_diff show path v changed others)
unfolding with_diff OfOther
with_diff-OfOther show path v none others h rest = rest
with_diff-OfOther show path v (some u) others h rest = ((path, v, u, refl, h), rest)

collect_diffs-OfOther :
    (show : Option Toml → Str) (original changes : Values)
    → get original trusted_path ≡ none
    → All (OfOther show) (collect_diffs show original changes)
unfolding collect_diffs OfOther get
collect_diffs-OfOther show [] changes e = tt
collect_diffs-OfOther show ((path, v) ∷ original) changes e =
    with_diff-OfOther show path v (get changes path) (collect_diffs show original changes)
      (ground (arith, e)) (collect_diffs-OfOther show original changes (ground (arith, e)))

insert_sorted-All :
    (P : Diff → Type 0) (d : Diff) (ds : List Diff) → P d → All P ds → All P (insert_sorted d ds)
unfolding insert_sorted
insert_sorted-All P d [] p ps = (p, tt)
insert_sorted-All P d (e ∷ es) p ps = elim (Bool-cases (str_lt e.manifest_entry d.manifest_entry)) [
  | inl before ↦ rw before (ps.0, insert_sorted-All P d es p ps.1)
  | inr behind ↦ rw behind (p, (ps.0, ps.1))
]

sort_diffs-All : (P : Diff → Type 0) (ds : List Diff) → All P ds → All P (sort_diffs ds)
unfolding sort_diffs
sort_diffs-All P [] ps = tt
sort_diffs-All P (d ∷ ds) ps = insert_sorted-All P d (sort_diffs ds) ps.0 (sort_diffs-All P ds ps.1)

-- the change that the premain asks for
abbrev pub premain_files : Option Toml
premain_files = some (toml_array ((codes "file:" ++ premain_name) ∷ []))

-- The premain is in the changes, and the path of the trusted files is not in the original.
abbrev Asked : Values × Values → Type 0
Asked x = (get x.1 trusted_path ≡ some premain_files) × (get x.0 trusted_path ≡ none)

insert_premain :
    (original : Values) (tree : Tree)
    → tree trusted_path ≡ none
    → IfOk
        (λ x. (x.0 ≡ original) × (x.1 ≡ put [] trusted_path premain_files))
        (insert_file original [] (codes "trusted_files") premain_name tree)
unfolding insert_file file_inserted
insert_premain original tree missing = rw missing (refl, refl)

parsed-Asked :
    (below : Option Str → Bool) (tree : Tree)
    → tree trusted_path ≡ none
    → IfOk Asked (parse_tree_for_changes below tree)
unfolding parse_tree_for_changes KeepsTrusted
parsed-Asked below tree missing =
    let m = read_paths tree original_paths [] in
    IfOk-skip Asked
      (reject_if (is_nil (value_at m (codes "libos.entrypoint")))
        (errorf "cannot find libos.entrypoint" []))
      _
      λ u.
        IfOk-bind (λ x. (x.0 ≡ m) × (x.1 ≡ put [] trusted_path premain_files)) Asked
          (insert_file m [] (codes "trusted_files") premain_name tree) _
          (insert_premain m tree missing)
          λ trusted q.
            IfOk-bind
              (λ x.
                (get x.0 trusted_path ≡ get trusted.0 trusted_path)
                × (get x.1 trusted_path ≡ get trusted.1 trusted_path))
              Asked (insert_file trusted.0 trusted.1 (codes "allowed_files") uuid_name tree) _
              (insert_allowed-KeepsTrusted trusted.0 trusted.1 tree)
              λ allowed k.
                IfOk-mono (KeepsTrusted allowed.0 allowed.1) Asked
                  (fill_changes below allowed.0 allowed.1)
                  (fill_changes-KeepsTrusted below allowed.0 allowed.1)
                  λ x h. (
                    h.1
                        ∙ k.1
                        ∙ ap (λ n. get n trusted_path) q.1
                        ∙ get-put_self [] trusted_path premain_files,
                    ap (λ n. get n trusted_path) h.0
                        ∙ k.0
                        ∙ ap (λ n. get n trusted_path) q.0
                        ∙ no_trusted_path tree,
                  )

-- If a manifest names no trusted files, the changes that gramine-prepare parses for it hold one entry
-- for them, the premain; but every difference that calculateChanges gives is at another path, since
-- the path is not in the original: premain-libos is not added to the trusted files.
pub premain-dropped :
    (below : Option Str → Bool) (show : Option Toml → Str) (tree : Tree) (original changes : Values)
    → tree trusted_path ≡ none
    → parse_tree_for_changes below tree ≡ ok (original, changes)
    → (get changes trusted_path ≡ some premain_files)
      × All (OfOther show) (calculate_changes show original changes)
unfolding calculate_changes
premain-dropped below show tree original changes missing e =
    let (asked, unseen) =
      IfOk-use Asked (parse_tree_for_changes below tree) (parsed-Asked below tree missing) e in
    (
      asked,
      sort_diffs-All (OfOther show) (collect_diffs show original changes)
          (collect_diffs-OfOther show original changes unseen),
    )
