-- ===== src/Cli/PackageInfo/Total.antt =====
-- package-info returns whatever the bytes of the files are.
use marblerun.Cli.PackageInfo.{
  Inspection, SigStruct, index, index_or, parse_sig_struct, print_package_properties,
  sig_struct_fields, sig_struct_header, sig_struct_header2, sig_struct_len, uint16_of,
  decode_open_enclave, section_data, PrintedProperties, decode_gramine, decode_sgx_sdk,
  find_sig_file, or_next, package_info, printed, printed_or_nothing, sig_file_of, sig_path,
}
use marblerun.Seal.Framing.{slice}
use marblerun.Base.{
  Bytes, Error, Bool-cases, List, Option, Result, String, [], arith, deadlock, drop, err, inl, inr,
  length, ltb, none, ok, panic, refl, some, suc, take, zero, ℕ, ◌+◌, ◌-◌, ◌∷◌, ◌≡◌, ◌≤◌, Map, Str,
  codes, get, Bool, errorf, false, if◌then◌else◌, is_nil, str_eq, true,
}
use marblerun.Seal.Framing.Layout.{slice-eq-ok}
use marblerun.Base.Ends.{Ends, Ends-bind, Returns}
use marblerun.Base.Pure.{◌>>=◌}

length-drop : {A : Type 0} (n : ℕ) (l : List A) → length (drop n l) ≡ length l - n
length-drop zero l = omega arith
length-drop (suc n) [] = omega arith
length-drop (suc n) (x ∷ l) = omega (arith, length-drop n l)

length-take : {A : Type 0} (n : ℕ) (l : List A) → n ≤ length l → length (take n l) ≡ n
length-take zero l h = refl
length-take (suc n) [] h = absurd (omega arith)
length-take (suc n) (x ∷ l) h = omega (arith, length-take n l)

slice-HasLength :
    (l : Bytes) (lo hi : ℕ)
    → lo ≤ hi
    → hi ≤ length l
    → Ends (λ b. length b ≡ hi - lo) (slice l lo hi)
slice-HasLength l lo hi h k =
    rw (slice-eq-ok l lo hi h k)
      (length-take (hi - lo) (drop lo l) (omega (arith, length-drop lo l)))

-- a slice that lies in the bounds
slice-then :
    {B : Type 0} (P : B → Type 0) (l : Bytes) (lo hi : ℕ) (f : Bytes → Result B)
    → lo ≤ hi
    → hi ≤ length l
    → ((b : Bytes) → length b ≡ hi - lo → Ends P (f b))
    → Ends P (slice l lo hi >>= f)
slice-then P l lo hi f h k then_ends =
    Ends-bind (λ b. length b ≡ hi - lo) P (slice l lo hi) f (slice-HasLength l lo hi h k)
      λ b e n. then_ends b n

-- The two numbers have two bytes.
Printable : SigStruct → Type 0
Printable s = (length s.isvprodid ≡ 2) × (length s.isvsvn ≡ 2)

uint16_of-Returns : (b : Bytes) → length b ≡ 2 → Returns (uint16_of b)
unfolding uint16_of
uint16_of-Returns [] h = omega arith
uint16_of-Returns (x ∷ []) h = omega arith
uint16_of-Returns (x ∷ (y ∷ b)) h = tt

print-Returns : (s : SigStruct) → Printable s → Returns (print_package_properties s)
unfolding print_package_properties Printable
print-Returns s h =
    Ends-bind (λ n. Unit) (λ p. Unit) (uint16_of s.isvprodid) _ (uint16_of-Returns s.isvprodid h.0)
      λ n e u.
        Ends-bind (λ n. Unit) (λ p. Unit) (uint16_of s.isvsvn) _ (uint16_of-Returns s.isvsvn h.1)
          λ m e u. tt

module _ (os : Inspection) where
  sig_struct_fields-Printable :
      (sig : Bytes) → length sig ≡ sig_struct_len → Ends Printable (sig_struct_fields os sig)
  unfolding sig_struct_fields Printable
  sig_struct_fields-Printable sig h =
      slice-then Printable sig 128 512 _ (omega arith) (omega (arith, h)) λ modulus n.
        slice-then Printable sig 960 992 _ (omega arith) (omega (arith, h)) λ enclave n.
          slice-then Printable sig 1024 1026 _ (omega arith) (omega (arith, h)) λ product two.
            slice-then Printable sig 1026 1028 _ (omega arith) (omega (arith, h))
              λ version too. (two, too)

  index_or-Returns : (i : Option ℕ) (m : String) → Returns (index_or i m)
  index_or-Returns none m = tt
  index_or-Returns (some i) m = tt

  parse_sig_struct-Printable : (meta : Bytes) → Ends Printable (parse_sig_struct os meta)
  unfolding parse_sig_struct
  parse_sig_struct-Printable meta =
      Ends-bind (λ i. Unit) Printable _ _ (index_or-Returns (index meta sig_struct_header) _)
        λ i e u. elim (Bool-cases (ltb (length meta) (i + sig_struct_len))) [
          | inl short ↦ rw short tt
          | inr long ↦ rw long (
              slice-then Printable meta i (i + sig_struct_len) _ (omega arith)
                (ground (arith, long))
                λ sig l.
                  Ends-bind (λ i. Unit) Printable _ _
                    (index_or-Returns (index sig sig_struct_header2) _)
                    λ j e u. sig_struct_fields-Printable sig (omega (arith, l)))
        ]

  -- The calls outside return, with a value or an error.
  pub record Reads : Type 0 where
    pub stats : (path : Str) → Returns (os.is_directory path)
    pub lists : (path : Str) → Returns (os.read_dir path)
    pub contents : (path : Str) → Returns (os.read_file path)
    pub sections :
        (path name : Str)
        → Ends (λ m. (r : Result Bytes) → get m name ≡ some r → Returns r) (os.open_elf path)

  -- A metadata section was read that holds no SIGSTRUCT.
  pub record NoSigStruct : Type 0 where
    pub elf_path : Str
    pub sections : Map (Result Bytes)
    pub metadata : Bytes
    pub error : Error
    pub opened : os.open_elf elf_path ≡ ok sections
    pub section_read : get sections (codes ".note.sgxmeta") ≡ some (ok metadata)
    pub not_parsed : parse_sig_struct os metadata ≡ err error

  -- Nothing is printed for the sake of such a section alone.
  abbrev pub PrintedUnless : Option PrintedProperties → Type 0
  PrintedUnless p = p ≡ none → NoSigStruct

  parse_and_print : (meta : Bytes) → Returns (parse_sig_struct os meta >>= print_package_properties)
  parse_and_print meta =
      Ends-bind Printable (λ p. Unit) (parse_sig_struct os meta) print_package_properties
        (parse_sig_struct-Printable meta) λ sig e h. print-Returns sig h

  section_data-Returns :
      (m : Map (Result Bytes)) (name : Str) (message : String)
      → ((r : Result Bytes) → get m name ≡ some r → Returns r)
      → Returns (section_data os (get m name) message)
  unfolding section_data
  section_data-Returns m name message h = held (get m name) refl
    where
      held : (o : Option (Result Bytes)) → get m name ≡ o → Returns (section_data os o message)
      held none e = tt
      held (some r) e = h r e

  section_data-Found :
      (o : Option (Result Bytes)) (message : String)
      → Returns (section_data os o message)
      → Ends (λ b. o ≡ some (ok b)) (section_data os o message)
  unfolding section_data
  section_data-Found none message h = tt
  section_data-Found (some (ok b)) message h = refl
  section_data-Found (some (err e)) message h = tt
  section_data-Found (some (panic m)) message h = h
  section_data-Found (some deadlock) message h = h

  decode_open_enclave-Returns : (path : Str) → Reads → Returns (decode_open_enclave os path)
  unfolding decode_open_enclave
  decode_open_enclave-Returns path reads_all =
      Ends-bind _ (λ p. Unit) (os.open_elf path) _ (reads_all.sections path (codes ".oeinfo"))
        λ sections e h.
          Ends-bind (λ b. Unit) (λ p. Unit) _ _
            (section_data-Returns sections (codes ".oeinfo") _ h) λ info e u. parse_and_print info

  find_sig_file-Returns :
      (found : Option Str) (names : List Str) → Returns (find_sig_file os found names)
  unfolding find_sig_file
  find_sig_file-Returns found [] = tt
  find_sig_file-Returns found (name ∷ names) =
      elim (Bool-cases (str_eq (os.extension name) (codes ".sig"))) [
        | inl sig ↦ elim (Bool-cases (is_nil found)) [
          | inl first ↦ rw sig (rw first (find_sig_file-Returns (some name) names))
          | inr second ↦ rw sig (rw second tt)
        ]
        | inr other ↦ rw other (find_sig_file-Returns found names)
      ]

  sig_path-Returns : (path : Str) (directory : Bool) → Reads → Returns (sig_path os path directory)
  unfolding sig_path sig_file_of
  sig_path-Returns path false all_read = tt
  sig_path-Returns path true all_read =
      Ends-bind (λ n. Unit) (λ p. Unit) (os.read_dir path) _ (all_read.lists path)
        λ names e u.
          Ends-bind (λ f. Unit) (λ p. Unit) _ _ (find_sig_file-Returns none names)
            λ found e u. named found
    where
      named : (found : Option Str) → Returns (sig_file_of os path found)
      named none = tt
      named (some name) = tt

  decode_gramine-Returns :
      (path : Str) (directory : Bool) → Reads → Returns (decode_gramine os path directory)
  unfolding decode_gramine
  decode_gramine-Returns path directory all_read =
      Ends-bind (λ f. Unit) (λ p. Unit) _ _ (sig_path-Returns path directory all_read)
        λ file e u.
          Ends-bind (λ b. Unit) (λ p. Unit) _ _ (all_read.contents file)
            λ content e u. parse_and_print content

  printed_or_nothing-Ends :
      (r : Result SigStruct)
      → Ends Printable r
      → ((e : Error) → r ≡ err e → NoSigStruct)
      → Ends PrintedUnless (printed_or_nothing os r)
  unfolding printed_or_nothing
  printed_or_nothing-Ends (ok sig) h silent =
      Ends-bind (λ p. Unit) PrintedUnless _ _ (print-Returns sig h) λ p e u e'. cc
  printed_or_nothing-Ends (err e) h silent = λ e'. silent e refl
  printed_or_nothing-Ends (panic m) h silent = elim h [ ]
  printed_or_nothing-Ends deadlock h silent = elim h [ ]

  decode_sgx_sdk-Ends :
      (path : Str) (directory : Bool)
      → Reads
      → Ends PrintedUnless (decode_sgx_sdk os path directory)
  unfolding decode_sgx_sdk
  decode_sgx_sdk-Ends path directory all_read =
      Ends-bind _ PrintedUnless _ _ (all_read.sections _ (codes ".note.sgxmeta"))
        λ sections opened h.
          Ends-bind (λ b. get sections (codes ".note.sgxmeta") ≡ some (ok b)) PrintedUnless _ _
            (section_data-Found (get sections (codes ".note.sgxmeta")) _
              (section_data-Returns sections (codes ".note.sgxmeta") _ h))
            λ meta e found.
              printed_or_nothing-Ends (parse_sig_struct os meta) (parse_sig_struct-Printable meta)
                λ x failed. record {
                  elf_path = _;
                  sections = sections;
                  metadata = meta;
                  error = x;
                  opened = opened;
                  section_read = found;
                  not_parsed = failed;
                }

  or_next-Ends :
      {A : Type 0} (P : A → Type 0) (r next : Result A)
      → Ends P r
      → Ends P next
      → Ends P (or_next os r next)
  unfolding or_next
  or_next-Ends P (ok a) next h k = h
  or_next-Ends P (err e) next h k = k
  or_next-Ends P (panic m) next h k = h
  or_next-Ends P deadlock next h k = h

  printed-Ends : (r : Result PrintedProperties) → Returns r → Ends PrintedUnless (printed os r)
  unfolding printed
  printed-Ends r h = Ends-bind (λ p. Unit) PrintedUnless r _ h λ p e u e'. cc

  open_enclave_first :
      (path : Str) (directory : Bool)
      → Reads
      → Ends PrintedUnless
          (if directory then err (errorf "" []) else printed os (decode_open_enclave os path))
  open_enclave_first path true all_read = tt
  open_enclave_first path false all_read =
      printed-Ends (decode_open_enclave os path) (decode_open_enclave-Returns path all_read)

  -- package-info returns for every path and whatever bytes the file and its sections hold: no slice
  -- of the signature is out of its bounds. If it returns no error, it has printed the properties,
  -- or it has read an ELF section .note.sgxmeta in which no SIGSTRUCT could be parsed. Stat,
  -- ReadDir, ReadFile and the ELF reader have to return themselves.
  pub package_info-Returns : (path : Str) → Reads → Ends PrintedUnless (package_info os path)
  unfolding package_info
  package_info-Returns path all_read =
      Ends-bind (λ d. Unit) PrintedUnless (os.is_directory path) _ (all_read.stats path)
        λ directory e u.
          or_next-Ends PrintedUnless _ _ (open_enclave_first path directory all_read) (
            or_next-Ends PrintedUnless _ _
              (printed-Ends _ (decode_gramine-Returns path directory all_read))
              (or_next-Ends PrintedUnless _ _ (decode_sgx_sdk-Ends path directory all_read) tt))
