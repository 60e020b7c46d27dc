-- ===== src/Symbols/Backtrace.antt =====
-- backtraceSymbols of src/AddressTranslation.hpp as a whole.
use ompt_dependency_tracker.Base.{
  ℕ, ◌≡◌, sym, Bool, if◌then◌else◌, true, false, ◌&&◌, refl, subst, arith, All, Option, none, some,
  ◌>>=◌, List, [], ◌∷◌, map, Returns, Returns-map,
}
use ompt_dependency_tracker.CStrings.{read, read_at, total_size, copy_strings}
use ompt_dependency_tracker.Symbols.{
  BfdFile, Libraries, describe_address, translate_addresses_buf, locate_all, backtrace_symbols,
  locate, file_of, offset_of, process_file, process_opened, slurp_symtab,
}
use ompt_dependency_tracker.Symbols.Packing.{
  IsText, Copied, copy_strings-Copied, translate_addresses_buf-read,
}

-- libbfd can read the symbols of the address's file, in which its description is this text.
pub record IsLocated (lib : Libraries) (address : ℕ) (cs : List ℕ) : Type 0 where
  pub abfd : BfdFile
  pub opened : lib.openr (file_of lib address) ≡ some abfd
  pub no_archive : abfd.is_archive ≡ false
  pub object : abfd.is_object ≡ true
  pub symbols : slurp_symtab abfd ≡ true
  pub described : describe_address lib abfd (offset_of lib address) ≡ cs
  pub text : IsText cs

opened_branch :
    (a b c : Bool) (m : Option (List ℕ))
    → a ≡ false
    → b ≡ true
    → c ≡ true
    → (if a then none else if b && c then m else none) ≡ m
opened_branch a b c m e f g = ground arith

locate-IsLocated :
    (lib : Libraries) (address : ℕ) (cs : List ℕ)
    → IsLocated lib address cs
    → locate lib address ≡ some cs
unfolding locate process_file process_opened
locate-IsLocated lib address cs h =
    rw (h.opened, opened_branch _ _ _ _ h.no_archive h.object h.symbols)
      (from_Returns (translate_addresses_buf lib h.abfd (offset_of lib address ∷ [])) (
        subst
          (λ d.
            Returns (translate_addresses_buf lib h.abfd (offset_of lib address ∷ []))
              (λ mem. read mem ≡ some d))
          h.described
          (translate_addresses_buf-read lib h.abfd (offset_of lib address)
            (subst IsText (sym h.described) h.text))))
  where
    from_Returns :
        (m : Option (List ℕ)) → Returns m (λ mem. read mem ≡ some cs) → (m >>= read) ≡ some cs
    from_Returns none r = elim r [ ]
    from_Returns (some mem) r = r

-- Each address is located, with its text.
abbrev pub AreLocated : Libraries → List ℕ → List (List ℕ) → Type 0
AreLocated lib [] [] = Unit
AreLocated lib [] (cs ∷ strs) = ⊥
AreLocated lib (address ∷ rest) [] = ⊥
AreLocated lib (address ∷ rest) (cs ∷ strs) = IsLocated lib address cs × AreLocated lib rest strs

locate_all-AreLocated :
    (lib : Libraries) (addresses : List ℕ) (strs : List (List ℕ))
    → AreLocated lib addresses strs
    → (locate_all lib addresses ≡ some strs) × All IsText strs
unfolding locate_all
locate_all-AreLocated lib [] [] h = (refl, tt)
locate_all-AreLocated lib [] (cs ∷ strs) h = elim h [ ]
locate_all-AreLocated lib (address ∷ rest) [] h = elim h [ ]
locate_all-AreLocated lib (address ∷ rest) (cs ∷ strs) h =
    let (located, text) = locate_all-AreLocated lib rest strs h.1 in
    (rw (located, locate-IsLocated lib address cs h.0) refl, (h.0.text, text))

-- Where libbfd can read the file of every address, backtraceSymbols never faults nor writes outside
-- its block, and its results, read from the block, are the descriptions of the addresses, in their
-- order.
pub backtrace_symbols-reads :
    (lib : Libraries) (addr_list : List ℕ) (strs : List (List ℕ))
    → AreLocated lib addr_list strs
    → Returns
        (backtrace_symbols lib addr_list)
        (λ r. map (λ off. read_at off r.1) r.0 ≡ map some strs)
unfolding backtrace_symbols
backtrace_symbols-reads lib addr_list strs h =
    let (located, text) = locate_all-AreLocated lib addr_list strs h in
    rw located (
      Returns-map (Copied [] strs) _ (copy_strings 0 strs (lib.malloc (total_size strs)))
        (λ r c. c.strings)
        (copy_strings-Copied [] (lib.malloc (total_size strs)) strs (lib.length-malloc _) text))
