-- ===== src/Symbols.antt =====
-- src/AddressTranslation.hpp: from code addresses to strings. `CStrings` has the memory.
pub mod Packing
pub mod Segments
pub mod Sections
pub mod Backtrace
pub mod Examples
use ompt_dependency_tracker.Base.{
  ℕ, ◌+◌, ◌-◌, ◌%◌, ◌≡◌, ◌==◌, if◌then◌else◌, Bool, true, false, ◌&&◌, ltb, leb, Option, none, some,
  ◌>>=◌, List, [], ◌∷◌, ◌++◌, map, length,
}
use ompt_dependency_tracker.Base.Word.{word_mod}
use ompt_dependency_tracker.CStrings.{read, total_size, copy_strings, print_all}

-- A program header, and an object that the loader reports (dl_phdr_info).
pub record Segment : Type 0 where
  pub is_load : Bool
  pub vaddr : ℕ
  pub memsz : ℕ

pub record LoadedObject : Type 0 where
  pub name : List ℕ
  pub addr : ℕ
  pub segments : List Segment

-- findMatchingFile: is the address in a loaded segment? Sums wrap at 2^64.
unfoldable pub find_matching_file : ℕ → ℕ → List Segment → Bool
find_matching_file maddr base [] = false
find_matching_file maddr base (phdr ∷ rest) =
    let vaddr = (phdr.vaddr + base) % word_mod in
    let later = find_matching_file maddr base rest in
    if phdr.is_load && (leb vaddr maddr && ltb maddr ((vaddr + phdr.memsz) % word_mod))
    then true
    else later

-- dl_iterate_phdr stops at the first object for which the callback answers 1.
unfoldable pub match_file : ℕ → List LoadedObject → Option LoadedObject
match_file maddr [] = none
match_file maddr (object ∷ rest) =
    let later = match_file maddr rest in
    if find_matching_file maddr object.addr object.segments then some object else later

-- What libbfd knows of a section, and of the source line of an address.
pub record Section : Type 0 where
  pub is_alloc : Bool
  pub vma : ℕ
  pub size : ℕ

pub record FileLine : Type 0 where
  pub filename : Option (List ℕ)
  pub functionname : Option (List ℕ)
  pub line : ℕ

-- An open file. `symbols` is what bfd_read_minisymbols answers for the static and for the dynamic
-- symbols: a count, or none for a negative number.
pub record BfdFile : Type 0 where
  pub is_archive : Bool
  pub is_object : Bool
  pub has_syms : Bool
  pub symbols : Bool → Option ℕ
  pub sections : List Section
  pub nearest_line : Section → ℕ → Option FileLine

-- FileLineDesc::findAddressInSection, with its early returns.
unfoldable pub find_address_in_section : BfdFile → ℕ → Section → Option FileLine → Option FileLine
find_address_in_section abfd pc section (some found) = some found
find_address_in_section abfd pc section none =
    if section.is_alloc
    then if ltb pc section.vma
      then none
      else if leb ((section.vma + section.size) % word_mod) pc
      then none
      else abfd.nearest_line section (pc - section.vma)
    else none

unfoldable pub map_over_sections : BfdFile → ℕ → List Section → Option FileLine → Option FileLine
map_over_sections abfd pc [] found = found
map_over_sections abfd pc (section ∷ rest) found =
    map_over_sections abfd pc rest (find_address_in_section abfd pc section found)

-- What follows the last '/' of a name, the whole name where there is none.
unfoldable pub after_slash : List ℕ → Option (List ℕ)
after_slash [] = none
after_slash (c ∷ cs) =
    let later = after_slash cs in
    elim later [ some name ↦ some name | none ↦ if c == 47 then some cs else none ]

unfoldable pub base_name : List ℕ → List ℕ
base_name cs = elim (after_slash cs) [ some name ↦ name | none ↦ cs ]

-- "??"
abbrev pub unknown : List ℕ
unknown = 63 ∷ 63 ∷ []

unfoldable pub function_name : Option (List ℕ) → List ℕ
function_name none = unknown
function_name (some []) = unknown
function_name (some (c ∷ cs)) = c ∷ cs

unfoldable pub file_name : Option (List ℕ) → List ℕ
file_name none = unknown
file_name (some cs) = base_name cs

-- The two printf formats; `dec` and `hex` are how printf prints %u and %llx.
module _ (dec hex : ℕ → List ℕ) where
  unfoldable pub describe : ℕ → Option FileLine → List ℕ
  describe addr none = 91 ∷ 48 ∷ 120 ∷ (hex addr ++ 93 ∷ 32 ∷ 63 ∷ 63 ∷ 32 ∷ 63 ∷ 63 ∷ 58 ∷ 48 ∷ [])
  describe addr (some desc) =
      file_name desc.filename ++ 58 ∷ (dec desc.line ++ 32 ∷ function_name desc.functionname)

-- kstSlurpSymtab does not answer NULL; the table that libbfd stores is taken not to be NULL itself.
unfoldable pub slurp_symtab : BfdFile → Bool
slurp_symtab abfd =
    let all = abfd.symbols true in
    if abfd.has_syms
    then (elim (abfd.symbols false) [
      | none ↦ false
      | some symcount ↦ if symcount == 0 then (elim all [ none ↦ false | some _ ↦ true ]) else true
    ])
    else false

-- The loader, the files that libbfd opens, malloc (which may leave anything in a block) and printf.
pub record Libraries : Type 0 where
  pub objects : List LoadedObject
  pub openr : List ℕ → Option BfdFile
  pub malloc : ℕ → List ℕ
  pub dec : ℕ → List ℕ
  pub hex : ℕ → List ℕ
  pub length-malloc : (n : ℕ) → length (malloc n) ≡ n

-- "/proc/self/exe"
abbrev pub self : List ℕ
self = 47 ∷ 112 ∷ 114 ∷ 111 ∷ 99 ∷ 47 ∷ 115 ∷ 101 ∷ 108 ∷ 102 ∷ 47 ∷ 101 ∷ 120 ∷ 101 ∷ []

module _ (lib : Libraries) where
  open lib use {objects, openr, malloc, dec, hex}

  unfoldable pub describe_address : BfdFile → ℕ → List ℕ
  describe_address abfd addr =
      describe dec hex addr (map_over_sections abfd addr abfd.sections none)

  -- Every result points to the start of the block.
  unfoldable pub translate_addresses_buf : BfdFile → List ℕ → Option (List ℕ)
  translate_addresses_buf abfd addrs =
      let strings = map (describe_address abfd) addrs in
      let total = total_size strings in print_all total strings (malloc total)

  -- What processFile does with the open file; none is NULL.
  unfoldable pub process_opened : BfdFile → List ℕ → Option (List ℕ)
  process_opened abfd addrs =
      if abfd.is_archive
      then none
      else if abfd.is_object && slurp_symtab abfd
      then translate_addresses_buf abfd addrs
      else none

  unfoldable pub process_file : List ℕ → List ℕ → Option (List ℕ)
  process_file file addrs = openr file >>= λ abfd. process_opened abfd addrs

  -- The file that an address is looked up in, and the address in that file.
  unfoldable pub file_of : ℕ → List ℕ
  file_of address = elim (match_file address objects) [
    | none ↦ self
    | some object ↦ elim object.name [ [] ↦ self | c ∷ cs ↦ c ∷ cs ]
  ]

  unfoldable pub offset_of : ℕ → ℕ
  offset_of address = elim (match_file address objects) [
    | none ↦ address
    | some object ↦ (address + (word_mod - object.addr)) % word_mod
  ]

  -- One round of the first loop of backtraceSymbols; strlen of a NULL is a fault.
  unfoldable pub locate : ℕ → Option (List ℕ)
  locate address = do block ← process_file (file_of address) (offset_of address ∷ []); read block

  -- The loop, which goes from the last address to the first.
  unfoldable pub locate_all : List ℕ → Option (List (List ℕ))
  locate_all [] = some []
  locate_all (address ∷ rest) = do
    located ← locate_all rest
    here ← locate address
    some (here ∷ located)

  -- The offsets of the results in the block, and the block.
  unfoldable pub backtrace_symbols : List ℕ → Option (List ℕ × List ℕ)
  backtrace_symbols addr_list = do
    locations ← locate_all addr_list
    copy_strings 0 locations (malloc (total_size locations))
