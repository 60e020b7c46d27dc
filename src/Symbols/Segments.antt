-- ===== src/Symbols/Segments.antt =====
-- The search of the loaded segments, findMatchingFile of src/AddressTranslation.hpp.
use ompt_dependency_tracker.Base.{
  ℕ, ◌+◌, ◌%◌, ◌≤◌, ◌<◌, ◌≡◌, ◌↔◌, ◌⊎◌, inl, inr, true, All, none, some, List, [], ◌∷◌, arith,
  Bool-cases,
}
use ompt_dependency_tracker.Base.Word.{word_mod}
use ompt_dependency_tracker.Symbols.{Segment, LoadedObject, find_matching_file, match_file}

-- The address is in the segment, loaded at the base; the bounds wrap at 2^64 as the code's do.
abbrev pub IsIn : ℕ → ℕ → Segment → Type 0
IsIn address base phdr =
    (phdr.is_load ≡ true)
    × ((phdr.vaddr + base) % word_mod ≤ address)
    × (address < ((phdr.vaddr + base) % word_mod + phdr.memsz) % word_mod)

abbrev pub IsInSome : ℕ → ℕ → List Segment → Type 0
IsInSome address base [] = ⊥
IsInSome address base (phdr ∷ rest) = IsIn address base phdr ⊎ IsInSome address base rest

-- findMatchingFile answers 1 exactly if the address is in one of the object's loaded segments.
pub find_matching_file-IsInSome :
    (address base : ℕ) (segments : List Segment)
    → (find_matching_file address base segments ≡ true) ↔ IsInSome address base segments
unfolding find_matching_file
find_matching_file-IsInSome address base [] = ground arith
find_matching_file-IsInSome address base (phdr ∷ rest) =
    ground (arith, find_matching_file-IsInSome address base rest)

-- The first object whose segments have the address.
abbrev pub IsFirst : ℕ → LoadedObject → List LoadedObject → Type 0
IsFirst address found [] = ⊥
IsFirst address found (object ∷ rest) =
    ((found ≡ object) × IsInSome address object.addr object.segments)
    ⊎ ((¬ IsInSome address object.addr object.segments) × IsFirst address found rest)

-- The object that backtraceSymbols looks an address up in is the first that the loader reports of
-- those with the address in a loaded segment, and there is none exactly if no object has it.
pub match_file-IsFirst :
    (address : ℕ) (objects : List LoadedObject)
    → ((found : LoadedObject)
        → (match_file address objects ≡ some found) ↔ IsFirst address found objects)
      × ((match_file address objects ≡ none)
          ↔ All (λ (o : LoadedObject). ¬ IsInSome address o.addr o.segments) objects)
unfolding match_file
match_file-IsFirst address [] = ((λ found. ground arith), ground arith)
match_file-IsFirst address (object ∷ rest) =
    let here = find_matching_file-IsInSome address object.addr object.segments in
    let later = match_file-IsFirst address rest in
    elim (Bool-cases (find_matching_file address object.addr object.segments)) [
      | inl hit ↦ rw hit ((λ found. ground (arith, here.0 hit)), ground (arith, here.0 hit))
      | inr miss ↦
          rw miss ((λ found. ground (arith, here, later.0 found)), ground (arith, here, later.1))
    ]
