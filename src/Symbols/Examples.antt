-- ===== src/Symbols/Examples.antt =====
-- A file with one section, and the description of an address in it.
use ompt_dependency_tracker.Base.{
  ℕ, ◌≡◌, refl, true, false, arith, none, some, List, [], ◌∷◌, map, replicate, length-replicate,
  Returns,
}
use ompt_dependency_tracker.CStrings.{read, read_at}
use ompt_dependency_tracker.Symbols.{
  BfdFile, Libraries, describe_address, translate_addresses_buf, backtrace_symbols, describe,
  find_address_in_section, file_name, function_name, base_name, after_slash, match_file, file_of,
  offset_of, slurp_symtab,
}
use ompt_dependency_tracker.Base.{All, ◌↔◌}
use ompt_dependency_tracker.Symbols.{LoadedObject, FileLine, match_file, map_over_sections}
use ompt_dependency_tracker.Symbols.Segments.{IsInSome, IsFirst, match_file-IsFirst}
use ompt_dependency_tracker.Symbols.Sections.{IsFound, map_over_sections-IsFound}
use ompt_dependency_tracker.Symbols.Packing.{IsText, translate_addresses_buf-read}
use ompt_dependency_tracker.Symbols.Backtrace.{IsLocated, backtrace_symbols-reads}

abbrev program : BfdFile
program = record {
  is_archive = false;
  is_object = true;
  has_syms = true;
  symbols = λ dynamic. some 4;
  sections = record { is_alloc = true; vma = 100; size = 50 } ∷ [];
  nearest_line = λ section offset.
      some (record { filename = some (47 ∷ 97 ∷ 47 ∷ 98 ∷ []); functionname = none; line = 7 });
}

-- A printf that shows every number as "1".
abbrev pub tools : Libraries
tools = record {
  objects = [];
  openr = λ file. some program;
  malloc = λ n. replicate n 255;
  dec = λ n. 49 ∷ [];
  hex = λ n. 49 ∷ [];
  length-malloc = λ n. length-replicate n 255;
}

-- "b:1 ??"
abbrev pub text_of_120 : List ℕ
text_of_120 = 98 ∷ 58 ∷ 49 ∷ 32 ∷ 63 ∷ 63 ∷ []

described_120 : describe_address tools program 120 ≡ text_of_120
unfolding describe_address describe map_over_sections find_address_in_section file_name
    function_name base_name after_slash
described_120 = refl

text_of_120-IsText : IsText text_of_120
text_of_120-IsText = ground arith

translate_addresses_buf-read_example :
    Returns
      (translate_addresses_buf tools program (120 ∷ []))
      (λ mem. read mem ≡ some (describe_address tools program 120))
translate_addresses_buf-read_example =
    translate_addresses_buf-read tools program 120 (rw described_120 text_of_120-IsText)

pub address_120-IsLocated : IsLocated tools 120 text_of_120
unfolding file_of offset_of match_file slurp_symtab
address_120-IsLocated = record {
  abfd = program;
  opened = refl;
  no_archive = refl;
  object = refl;
  symbols = refl;
  described = described_120;
  text = text_of_120-IsText;
}

backtrace_symbols-reads_example :
    Returns
      (backtrace_symbols tools (120 ∷ 120 ∷ []))
      (λ r. map (λ off. read_at off r.1) r.0 ≡ map some (text_of_120 ∷ text_of_120 ∷ []))
backtrace_symbols-reads_example =
    backtrace_symbols-reads tools (120 ∷ 120 ∷ []) (text_of_120 ∷ text_of_120 ∷ [])
      (address_120-IsLocated, (address_120-IsLocated, tt))

abbrev line_7 : FileLine
line_7 = record { filename = some (47 ∷ 97 ∷ 47 ∷ 98 ∷ []); functionname = none; line = 7 }

map_over_sections-IsFound_example :
    (map_over_sections program 120 program.sections none ≡ some line_7)
    ↔ IsFound program 120 line_7 program.sections
map_over_sections-IsFound_example = map_over_sections-IsFound program 120 line_7 program.sections

abbrev library : LoadedObject
library = record {
  name = 109 ∷ [];
  addr = 4096;
  segments = record { is_load = true; vaddr = 0; memsz = 512 } ∷ [];
}

match_file-IsFirst_example :
    ((found : LoadedObject)
      → (match_file 4200 (library ∷ []) ≡ some found) ↔ IsFirst 4200 found (library ∷ []))
    × ((match_file 4200 (library ∷ []) ≡ none)
        ↔ All (λ (o : LoadedObject). ¬ IsInSome 4200 o.addr o.segments) (library ∷ []))
match_file-IsFirst_example = match_file-IsFirst 4200 (library ∷ [])
