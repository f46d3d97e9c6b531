-- ===== src/Cli/PackageInfo/Tests.antt =====
-- A signature file, and an enclave whose metadata hold no signature.
use marblerun.Seal.Framing.{slice}
use marblerun.Cli.PackageInfo.{
  Inspection, decode_gramine, decode_open_enclave, decode_sgx_sdk, index, package_info,
  parse_sig_struct, print_package_properties, sig_struct_fields, sig_struct_header,
  sig_struct_header2, uint16_of,
}
use marblerun.Base.Ends.{Ends, Returns}
use marblerun.Cli.PackageInfo.Total.{PrintedUnless, Reads, package_info-Returns}
use marblerun.Base.{
  Bytes, [], codes, false, get, has_prefix, none, ok, some, str_eq, suc, zero, ℕ, ◌++◌, ◌∷◌, ◌≡◌,
  Bool, Result, Str, if◌then◌else◌, refl, subst, true,
}

zero_bytes : ℕ → Bytes
zero_bytes zero = []
zero_bytes (suc n) = 0 ∷ zero_bytes n

abbrev signature : Bytes
signature =
    sig_struct_header
    ++ (sig_struct_header2 ++ (zero_bytes 992 ++ ((44 ∷ 0 ∷ 3 ∷ 0 ∷ []) ++ zero_bytes 780)))

abbrev disk : Bytes → Inspection
disk content = record {
  is_directory = λ path. ok false;
  read_dir = λ path. ok [];
  read_file = λ path. ok content;
  join = λ a b. a ++ b;
  extension = λ name. codes ".sig";
  open_elf = λ path. ok ((codes ".note.sgxmeta", ok content) ∷ []);
  sum256 = λ b. [];
}

-- the properties of the signature
signature_read :
    package_info (disk signature) (codes "enclave.sig")
    ≡ ok (
        some (record {
          unique_id = zero_bytes 32;
          signer_id = [];
          product_id = 44;
          security_version = 3;
        }))
unfolding package_info decode_open_enclave decode_gramine parse_sig_struct sig_struct_fields slice
    print_package_properties uint16_of index has_prefix get str_eq zero_bytes
signature_read = refl

-- nothing is printed, and there is no error
metadata_without_signature : package_info (disk []) (codes "enclave.so") ≡ ok none
unfolding package_info decode_open_enclave decode_gramine decode_sgx_sdk parse_sig_struct index
    has_prefix get str_eq
metadata_without_signature = refl

section-Returns :
    (content : Bytes) (name : Str) (r : Result Bytes)
    → get ((codes ".note.sgxmeta", ok content) ∷ []) name ≡ some r
    → Returns r
unfolding get
section-Returns content name r e = held (str_eq (codes ".note.sgxmeta") name) e
  where
    held : (b : Bool) → (if b then some (ok content) else none) ≡ some r → Returns r
    held true e' = let same : ok content ≡ r = cc in subst (λ x. Returns x) same tt
    held false e' = cc

disk-Reads : (content : Bytes) → Reads (disk content)
disk-Reads content = record {
  stats = λ path. tt;
  lists = λ path. tt;
  contents = λ path. tt;
  sections = λ path name r e. section-Returns content name r e;
}

package_info-Returns_example :
    Ends (PrintedUnless (disk signature)) (package_info (disk signature) (codes "enclave.sig"))
package_info-Returns_example =
    package_info-Returns (disk signature) (codes "enclave.sig") (disk-Reads signature)
