-- ===== src/Cli/PackageInfo.antt =====
-- cli/cmd/packageInfo.go: reading the package properties of an enclave from its signature.
pub mod Total
mod Tests
use marblerun.Base.{
  Bytes, Bool, List, Map, Option, Result, Str, [], has_prefix, if◌then◌else◌, none, some, suc, ℕ,
  ◌∷◌, String, codes, deadlock, err, errorf, false, get, is_nil, length, ltb, not, ok, panic,
  str_eq, true, ◌*◌, ◌+◌,
}
use marblerun.Seal.Framing.{slice}
use marblerun.Base.Pure.{◌>>=◌, ◌>>◌, reject_if}

-- what printPackageProperties prints
pub record PrintedProperties : Type 0 where
  pub unique_id : Bytes
  pub signer_id : Bytes
  pub product_id : ℕ
  pub security_version : ℕ

-- os.Stat, ioutil.ReadDir and ReadFile, path/filepath, debug/elf and crypto/sha256. Opening an ELF
-- file gives its sections by name, with the outcome of reading them.
pub record Inspection : Type 0 where
  pub is_directory : Str → Result Bool
  pub read_dir : Str → Result (List Str)
  pub read_file : Str → Result Bytes
  pub join : Str → Str → Str
  pub extension : Str → Str
  pub open_elf : Str → Result (Map (Result Bytes))
  pub sum256 : Bytes → Bytes

abbrev one_later : Option ℕ → Option ℕ
one_later none = none
one_later (some i) = some (suc i)

-- bytes.Index
unfoldable pub index : Bytes → Bytes → Option ℕ
index [] sep = if has_prefix sep [] then some 0 else none
index (b ∷ bs) sep =
    let rest = index bs sep in if has_prefix sep (b ∷ bs) then some 0 else one_later rest

-- the results of parseSigStruct
pub record SigStruct : Type 0 where
  pub mrenclave : Bytes
  pub mrsigner : Bytes
  pub isvprodid : Bytes
  pub isvsvn : Bytes

abbrev sig_struct_header : Bytes
sig_struct_header =
    0x06 ∷ 0x00 ∷ 0x00 ∷ 0x00 ∷ 0xe1 ∷ 0x00 ∷ 0x00 ∷ 0x00 ∷ 0x00 ∷ 0x00 ∷ 0x01 ∷ 0x00 ∷ 0x00 ∷ 0x00
    ∷ 0x00 ∷ 0x00 ∷ []

abbrev sig_struct_header2 : Bytes
sig_struct_header2 =
    0x01 ∷ 0x01 ∷ 0x00 ∷ 0x00 ∷ 0x60 ∷ 0x00 ∷ 0x00 ∷ 0x00 ∷ 0x60 ∷ 0x00 ∷ 0x00 ∷ 0x00 ∷ 0x01 ∷ 0x00
    ∷ 0x00 ∷ 0x00 ∷ []

abbrev pub sig_struct_len : ℕ
sig_struct_len = 1808

-- the index of a header, which is missing if bytes.Index gives -1
abbrev index_or : Option ℕ → String → Result ℕ
index_or none message = err (errorf message [])
index_or (some i) message = ok i

-- binary.LittleEndian.Uint16 of the first two bytes; fewer panic
unfoldable pub uint16_of : Bytes → Result ℕ
uint16_of (a ∷ b ∷ rest) = ok (a + b * 256)
uint16_of _ = panic "index out of range"

-- printPackageProperties
unfoldable pub print_package_properties : SigStruct → Result PrintedProperties
unfolding uint16_of
print_package_properties s = do
  product ← uint16_of s.isvprodid
  version ← uint16_of s.isvsvn
  ok (record {
    unique_id = s.mrenclave;
    signer_id = s.mrsigner;
    product_id = product;
    security_version = version;
  })

module _ (os : Inspection) where
  -- what parseSigStruct takes from a structure of the full length
  unfoldable pub sig_struct_fields : Bytes → Result SigStruct
  sig_struct_fields sig = do
    modulus ← slice sig 128 512
    enclave ← slice sig 960 992
    product ← slice sig 1024 1026
    version ← slice sig 1026 1028
    ok (record {
      mrenclave = enclave;
      mrsigner = os.sum256 modulus;
      isvprodid = product;
      isvsvn = version;
    })

  -- parseSigStruct
  unfoldable pub parse_sig_struct : Bytes → Result SigStruct
  unfolding sig_struct_fields
  parse_sig_struct meta = do
    sig_index ←
        index_or (index meta sig_struct_header) "could not find SIGSTRUCT header in given file"
    reject_if (ltb (length meta) (sig_index + sig_struct_len))
        (errorf "SGX metadata/SIGSTRUCT appears to be too small" [])
    sig ← slice meta sig_index (sig_index + sig_struct_len)
    second ←
        index_or (index sig sig_struct_header2)
          "found first SIGSTRUCT header, but cannot find second one"
    sig_struct_fields sig

  -- the data of a section
  section_data : Option (Result Bytes) → String → Result Bytes
  section_data none message = err (errorf message [])
  section_data (some r) message = r

  -- decodeOpenEnclaveSigStruct, with what it prints
  unfoldable pub decode_open_enclave : Str → Result PrintedProperties
  unfolding section_data
  decode_open_enclave path = do
    sections ← os.open_elf path
    info ←
        section_data (get sections (codes ".oeinfo")) "could not find .oeinfo ELF section in binary"
    sig ← parse_sig_struct info
    print_package_properties sig

  -- the loop over the entries of a directory in decodeGramineSigStruct
  unfoldable pub find_sig_file : Option Str → List Str → Result (Option Str)
  find_sig_file found [] = ok found
  find_sig_file found (name ∷ names) =
      if str_eq (os.extension name) (codes ".sig")
      then (if is_nil found
          then find_sig_file (some name) names
          else err (errorf "found multiple .sig files" []))
      else find_sig_file found names

  -- the path of the file that was found in a directory
  sig_file_of : Str → Option Str → Result Str
  sig_file_of path none = err (errorf "did not find Gramine .sig file in directory" [])
  sig_file_of path (some name) = ok (os.join path name)

  -- the file that decodeGramineSigStruct reads
  sig_path : Str → Bool → Result Str
  unfolding find_sig_file sig_file_of
  sig_path path false = ok path
  sig_path path true = do
    names ← os.read_dir path
    found ← find_sig_file none names
    sig_file_of path found

  -- decodeGramineSigStruct, with what it prints
  unfoldable pub decode_gramine : Str → Bool → Result PrintedProperties
  unfolding sig_path
  decode_gramine path directory = do
    file ← sig_path path directory
    content ← os.read_file file
    sig ← parse_sig_struct content
    print_package_properties sig

  -- the end of decodeSGXSDKSigStruct: nothing is printed on an error of parseSigStruct, which is
  -- dropped
  printed_or_nothing : Result SigStruct → Result (Option PrintedProperties)
  printed_or_nothing (ok sig) = do printed ← print_package_properties sig; ok (some printed)
  printed_or_nothing (err e) = ok none
  printed_or_nothing (panic m) = panic m
  printed_or_nothing deadlock = deadlock

  -- decodeSGXSDKSigStruct, with what it prints
  unfoldable pub decode_sgx_sdk : Str → Bool → Result (Option PrintedProperties)
  unfolding printed_or_nothing section_data
  decode_sgx_sdk path directory = do
    sections ←
        os.open_elf
          (if directory then os.join path (codes "build/lib/libocclum-libos.signed.so") else path)
    meta ←
        section_data (get sections (codes ".note.sgxmeta"))
          "could not find SGX metadata section (.note.sgxmeta) in given file"
    printed_or_nothing (parse_sig_struct meta)

  -- one detection after another, with what is printed of the properties
  or_next : {A : Type 0} → Result A → Result A → Result A
  or_next (err e) next = next
  or_next r next = r

  printed : Result PrintedProperties → Result (Option PrintedProperties)
  printed r = do p ← r; ok (some p)

  -- package-info: what it prints of the properties, if anything
  unfoldable pub package_info : Str → Result (Option PrintedProperties)
  unfolding or_next printed
  package_info path = do
    directory ← os.is_directory path
    or_next (if directory then err (errorf "" []) else printed (decode_open_enclave path)) (
        or_next (printed (decode_gramine path directory)) (
          or_next (decode_sgx_sdk path directory)
            (err (errorf "unable to determine enclave properties" []))))
