-- ===== src/Cli/GraminePrepare/Tests.antt =====
-- A manifest with an entry point and nothing else.
use marblerun.Cli.GraminePrepare.{
  Toml, Tree, Values, calculate_changes, fill_changes, insert_file, parse_tree_for_changes,
  read_paths, toml_array, toml_bool, toml_int, toml_string,
}
use marblerun.Cli.GraminePrepare.Dropped.{OfOther, premain-dropped, premain_files, trusted_path}
use marblerun.Strconv.{pos}
use marblerun.Base.{
  All, Bool, Option, Str, [], codes, get, if◌then◌else◌, none, ok, put, refl, some, str_eq, true,
  ◌∷◌, ◌≡◌,
}

abbrev bare_tree : Tree
bare_tree path =
    if str_eq path (codes "libos.entrypoint") then some (toml_string (codes "app")) else none

abbrev bare_original : Values
bare_original =
    (codes "libos.entrypoint", some (toml_string (codes "app")))
    ∷ (codes "loader.insecure__use_host_env", none)
    ∷ (codes "loader.argv0_override", none)
    ∷ (codes "sgx.remote_attestation", none)
    ∷ (codes "sgx.enclave_size", none)
    ∷ (codes "sgx.thread_num", none)
    ∷ (codes "loader.env.EDG_MARBLE_COORDINATOR_ADDR", none)
    ∷ (codes "loader.env.EDG_MARBLE_TYPE", none)
    ∷ (codes "loader.env.EDG_MARBLE_UUID_FILE", none)
    ∷ (codes "loader.env.EDG_MARBLE_DNS_NAMES", none)
    ∷ []

abbrev passed : Option Toml
passed = some (toml_string (codes "{ passthrough = true }"))

abbrev bare_changes : Values
bare_changes =
    (codes "sgx.trusted_files", premain_files)
    ∷ (codes "sgx.allowed_files", some (toml_array (codes "file:uuid" ∷ [])))
    ∷ (codes "libos.entrypoint", some (toml_string (codes "premain-libos")))
    ∷ (codes "loader.argv0_override", some (toml_string (codes "app")))
    ∷ (codes "loader.env.EDG_MARBLE_COORDINATOR_ADDR", passed)
    ∷ (codes "loader.env.EDG_MARBLE_TYPE", passed)
    ∷ (codes "loader.env.EDG_MARBLE_UUID_FILE", passed)
    ∷ (codes "loader.env.EDG_MARBLE_DNS_NAMES", passed)
    ∷ (codes "sgx.remote_attestation", some (toml_bool true))
    ∷ (codes "sgx.enclave_size", some (toml_string (codes "1024M")))
    ∷ (codes "sgx.thread_num", some (toml_int (pos 16)))
    ∷ []

abbrev small : Option Str → Bool
small size = true

abbrev no_text : Option Toml → Str
no_text v = []

no_trusted_files : bare_tree trusted_path ≡ none
unfolding str_eq
no_trusted_files = refl

bare_parsed : parse_tree_for_changes small bare_tree ≡ ok (bare_original, bare_changes)
unfolding parse_tree_for_changes read_paths insert_file fill_changes get put str_eq
bare_parsed = refl

premain-dropped_example :
    (get bare_changes trusted_path ≡ some premain_files)
    × All (OfOther no_text) (calculate_changes no_text bare_original bare_changes)
premain-dropped_example =
    premain-dropped small no_text bare_tree bare_original bare_changes no_trusted_files bare_parsed
