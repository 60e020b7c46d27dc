-- ===== src/Symbols/Sections.antt =====
-- The search of a file's sections, findAddressInSection of src/AddressTranslation.hpp.
use ompt_dependency_tracker.Base.{
  ℕ, ◌+◌, ◌-◌, ◌%◌, ◌≤◌, ◌<◌, ◌≡◌, ◌↔◌, ◌⊎◌, inl, inr, refl, true, none, some, List, [], ◌∷◌, arith,
  Option-cases,
}
use ompt_dependency_tracker.Base.Word.{word_mod}
use ompt_dependency_tracker.Symbols.{
  Section, FileLine, BfdFile, find_address_in_section, map_over_sections,
}

-- The address is in an allocated section; the end wraps at 2^64 as the code's does.
abbrev pub Covers : ℕ → Section → Type 0
Covers pc section =
    (section.is_alloc ≡ true) × (section.vma ≤ pc) × (pc < (section.vma + section.size) % word_mod)

-- The line is that of the first section that covers the address and has a line for it.
abbrev pub IsFound : BfdFile → ℕ → FileLine → List Section → Type 0
IsFound abfd pc line [] = ⊥
IsFound abfd pc line (section ∷ rest) =
    (Covers pc section × (abfd.nearest_line section (pc - section.vma) ≡ some line))
    ⊎ ((Covers pc section → abfd.nearest_line section (pc - section.vma) ≡ none)
        × IsFound abfd pc line rest)

map_over_sections-some :
    (abfd : BfdFile) (pc : ℕ) (sections : List Section) (line : FileLine)
    → map_over_sections abfd pc sections (some line) ≡ some line
unfolding map_over_sections find_address_in_section
map_over_sections-some abfd pc [] line = refl
map_over_sections-some abfd pc (section ∷ rest) line = map_over_sections-some abfd pc rest line

section-some :
    (abfd : BfdFile) (pc : ℕ) (section : Section) (line : FileLine)
    → (find_address_in_section abfd pc section none ≡ some line)
      ↔ (Covers pc section × (abfd.nearest_line section (pc - section.vma) ≡ some line))
unfolding find_address_in_section
section-some abfd pc section line = ground arith

section-none :
    (abfd : BfdFile) (pc : ℕ) (section : Section)
    → (find_address_in_section abfd pc section none ≡ none)
      ↔ (Covers pc section → abfd.nearest_line section (pc - section.vma) ≡ none)
unfolding find_address_in_section
section-none abfd pc section = ground arith

-- The search answers with a line exactly if this is the line of the first section that covers the
-- address and for which libbfd has a line: later sections do not replace it.
pub map_over_sections-IsFound :
    (abfd : BfdFile) (pc : ℕ) (line : FileLine) (sections : List Section)
    → (map_over_sections abfd pc sections none ≡ some line) ↔ IsFound abfd pc line sections
unfolding map_over_sections
map_over_sections-IsFound abfd pc line [] = ground arith
map_over_sections-IsFound abfd pc line (section ∷ rest) =
    let later = map_over_sections-IsFound abfd pc line rest in
    elim (Option-cases (find_address_in_section abfd pc section none)) [
      | inl nothing ↦
          rw nothing
            (ground (arith, later, section-none abfd pc section, section-some abfd pc section line))
      | inr (l, hit) ↦
          rw (hit, map_over_sections-some abfd pc rest l)
            (ground (arith, section-none abfd pc section, (section-some abfd pc section l).0 hit))
    ]
