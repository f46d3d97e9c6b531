-- ===== src/Cli/GraminePrepare.antt =====
-- cli/cmd/graminePrepare.go: the changes that a Gramine manifest needs for MarbleRun. The TOML tree
-- is a parameter, as the values at its paths.
pub mod Dropped
mod Tests
use marblerun.Store.{read}
use marblerun.Base.{
  Bool, List, Map, Option, Result, Str, [], codes, err, errorf, false, get, if◌then◌else◌, is_nil,
  none, not, ok, panic, put, some, true, ◌++◌, ◌∷◌, ltb, ◌==◌,
}
use marblerun.Strconv.{int_lt, pos, ℤ}
use marblerun.Base.Pure.{◌>>=◌, ◌>>◌, reject_if}

-- what tree.Get gives: the values that the source tells apart; a string of an array is an element
pub data Toml : Type 0 where
  toml_string : Str → Toml
  toml_bool : Bool → Toml
  toml_int : ℤ → Toml
  toml_array : List Str → Toml
  toml_tree : Toml
  toml_other : Toml

-- tree.Get; a path that is not there gives nil
abbrev pub Tree : Type 0
Tree = Str → Option Toml

-- a map[string]interface{} whose values may be nil
abbrev pub Values : Type 0
Values = Map (Option Toml)

-- m[k] of such a map
abbrev pub value_at : Values → Str → Option Toml
value_at m k = elim (get m k) [ none ↦ none | some v ↦ v ]

abbrev pub premain_name : Str
premain_name = codes "premain-libos"

abbrev pub uuid_name : Str
uuid_name = codes "uuid"

-- what insertFile does with the files of the manifest
file_inserted : Values → Values → Str → Str → Option Toml → Result (Values × Values)
file_inserted original changes file_type file_name none = ok (
  original,
  put changes (codes "sgx." ++ file_type) (some (toml_array ((codes "file:" ++ file_name) ∷ []))),
)
file_inserted original changes file_type file_name (some toml_tree) = ok (
  original,
  put changes (codes "sgx." ++ (file_type ++ (codes ".marblerun_" ++ file_name)))
      (some (toml_string (codes "file:" ++ file_name))),
)
file_inserted original changes file_type file_name (some (toml_array files)) = ok (
  put original (codes "sgx." ++ file_type) (some (toml_array files)),
  put changes (codes "sgx." ++ file_type)
      (some (toml_array (files ++ (codes "file:" ++ file_name) ∷ []))),
)
file_inserted original changes file_type file_name (some v) =
    err (errorf "could not read files from Gramine manifest" [])

-- insertFile: the entries of the original and of the changes after it
unfoldable pub insert_file : Values → Values → Str → Str → Tree → Result (Values × Values)
unfolding file_inserted
insert_file original changes file_type file_name tree =
    file_inserted original changes file_type file_name (tree (codes "sgx." ++ file_type))

-- the paths that are read into the original
abbrev pub original_paths : List Str
original_paths =
    codes "libos.entrypoint"
    ∷ codes "loader.insecure__use_host_env"
    ∷ codes "loader.argv0_override"
    ∷ codes "sgx.remote_attestation"
    ∷ codes "sgx.enclave_size"
    ∷ codes "sgx.thread_num"
    ∷ codes "loader.env.EDG_MARBLE_COORDINATOR_ADDR"
    ∷ codes "loader.env.EDG_MARBLE_TYPE"
    ∷ codes "loader.env.EDG_MARBLE_UUID_FILE"
    ∷ codes "loader.env.EDG_MARBLE_DNS_NAMES"
    ∷ []

unfoldable pub read_paths : Tree → List Str → Values → Values
read_paths tree [] m = m
read_paths tree (path ∷ paths) m = read_paths tree paths (put m path (tree path))

-- v.(string), v.(bool) and v.(int64)
abbrev string_of : Option Toml → Result Str
string_of (some (toml_string s)) = ok s
string_of _ = panic "interface conversion"

abbrev bool_of : Option Toml → Result Bool
bool_of (some (toml_bool b)) = ok b
bool_of _ = panic "interface conversion"

abbrev int_of : Option Toml → Result ℤ
int_of (some (toml_int n)) = ok n
int_of _ = panic "interface conversion"

-- `v == nil || !v.(bool)`
abbrev nil_or_false : Option Toml → Result Bool
nil_or_false none = ok true
nil_or_false (some v) = do b ← bool_of (some v); ok (not b)

-- `v == nil || v.(int64) < 16`
abbrev nil_or_few : Option Toml → Result Bool
nil_or_few none = ok true
nil_or_few (some v) = do n ← int_of (some v); ok (int_lt n (pos 16))

-- `if test { changes[path] = value }`
abbrev put_if : Bool → Str → Toml → Values → Values
put_if true path v changes = put changes path (some v)
put_if false path v changes = changes

-- the passthrough of a variable that is not set
abbrev pass_through : Values → Str → Values → Values
pass_through original path changes =
    put_if (is_nil (value_at original path)) path (toml_string (codes "{ passthrough = true }"))
      changes

-- the original entry point as argv0, unless there is one
with_argv0 : Option Toml → Option Toml → Values → Result Values
with_argv0 (some v) entrypoint changes = ok changes
with_argv0 none entrypoint changes = do
  s ← string_of entrypoint
  ok (put changes (codes "loader.argv0_override") (some (toml_string s)))

module _ (below_one_gigabyte : Option Str → Bool) where
  -- the size of the enclave, as a text for the package datasize; none for its zero value
  enclave_size : Option Toml → Result (Option Str)
  enclave_size none = ok none
  enclave_size (some v) = do s ← string_of (some v); ok (some s)

  -- parseTreeForChanges after the files are inserted
  unfoldable pub fill_changes : Values → Values → Result (Values × Values)
  unfolding enclave_size with_argv0
  fill_changes original changes = do
    let entrypoint = value_at original (codes "libos.entrypoint")
    let changes₁ = put changes (codes "libos.entrypoint") (some (toml_string premain_name))
    changes₂ ← with_argv0 (value_at original (codes "loader.argv0_override")) entrypoint changes₁
    isolated ← nil_or_false (value_at original (codes "loader.insecure__use_host_env"))
    let changes₃ =
        if isolated
        then pass_through original (codes "loader.env.EDG_MARBLE_DNS_NAMES") (
            pass_through original (codes "loader.env.EDG_MARBLE_UUID_FILE") (
              pass_through original (codes "loader.env.EDG_MARBLE_TYPE")
                (pass_through original (codes "loader.env.EDG_MARBLE_COORDINATOR_ADDR") changes₂)))
        else changes₂
    unattested ← nil_or_false (value_at original (codes "sgx.remote_attestation"))
    size ← enclave_size (value_at original (codes "sgx.enclave_size"))
    few ← nil_or_few (value_at original (codes "sgx.thread_num"))
    ok (
      original,
      put_if few (codes "sgx.thread_num") (toml_int (pos 16)) (
          put_if (below_one_gigabyte size) (codes "sgx.enclave_size") (toml_string (codes "1024M"))
            (put_if unattested (codes "sgx.remote_attestation") (toml_bool true) changes₃)),
    )

  -- parseTreeForChanges
  unfoldable pub parse_tree_for_changes : Tree → Result (Values × Values)
  parse_tree_for_changes tree = do
    let original = read_paths tree original_paths []
    reject_if (is_nil (value_at original (codes "libos.entrypoint")))
        (errorf "cannot find libos.entrypoint" [])
    trusted ← insert_file original [] (codes "trusted_files") premain_name tree
    allowed ← insert_file trusted.0 trusted.1 (codes "allowed_files") uuid_name tree
    fill_changes allowed.0 allowed.1

-- diff
pub record Diff : Type 0 where
  pub already_exists : Bool
  pub entry_type : Str
  pub manifest_entry : Str

-- s < t
str_lt : Str → Str → Bool
str_lt s [] = false
str_lt [] (d ∷ t) = true
str_lt (c ∷ s) (d ∷ t) = if c == d then str_lt s t else ltb c d

-- sort.Slice by the entry
insert_sorted : Diff → List Diff → List Diff
unfolding str_lt
insert_sorted d [] = d ∷ []
insert_sorted d (e ∷ es) =
    if str_lt e.manifest_entry d.manifest_entry then e ∷ insert_sorted d es else d ∷ e ∷ es

sort_diffs : List Diff → List Diff
unfolding insert_sorted
sort_diffs [] = []
sort_diffs (d ∷ ds) = insert_sorted d (sort_diffs ds)

-- the lines of the elements of an array
array_lines : List Str → Str
array_lines [] = []
array_lines (v ∷ vs) = codes "  \"" ++ (v ++ (codes "\",\n" ++ array_lines vs))

-- the difference at one path, with the text that fmt gives for a value that is no string and no array
pub diff_of : (Option Toml → Str) → Str → Option Toml → Option Toml → Diff
unfolding array_lines
diff_of show path original_value (some (toml_string v)) = record {
  already_exists = not (is_nil original_value);
  entry_type = codes "string";
  manifest_entry = path ++ (codes " = \"" ++ (v ++ codes "\""));
}
diff_of show path original_value (some (toml_array vs)) = record {
  already_exists = not (is_nil original_value);
  entry_type = codes "array";
  manifest_entry = path ++ (codes " = [\n" ++ (array_lines vs ++ codes "]"));
}
diff_of show path original_value v = record {
  already_exists = not (is_nil original_value);
  entry_type = codes "string";
  manifest_entry = path ++ (codes " = " ++ show v);
}

-- the difference at a path, if there is a change
with_diff : (Option Toml → Str) → Str → Option Toml → Option (Option Toml) → List Diff → List Diff
unfolding diff_of
with_diff show path value none others = others
with_diff show path value (some changed) others = diff_of show path value changed ∷ others

-- the loop of calculateChanges
collect_diffs : (Option Toml → Str) → Values → Values → List Diff
unfolding with_diff
collect_diffs show [] changes = []
collect_diffs show ((path, value) ∷ original) changes =
    with_diff show path value (get changes path) (collect_diffs show original changes)

-- calculateChanges
unfoldable pub calculate_changes : (Option Toml → Str) → Values → Values → List Diff
unfolding collect_diffs sort_diffs
calculate_changes show original changes = sort_diffs (collect_diffs show original changes)
