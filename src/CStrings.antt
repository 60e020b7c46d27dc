-- ===== src/CStrings.antt =====
-- C strings in blocks of memory, as src/AddressTranslation.hpp packs them. A string is the list of
-- its bytes before the NUL; a block is the list of its bytes, and a write outside it is a fault.
use ompt_dependency_tracker.Base.{
  ℕ, zero, suc, ◌+◌, ◌==◌, if◌then◌else◌, Option, none, some, ◌>>=◌, List, [], ◌∷◌, ◌++◌, length,
  take,
}

-- A write at the start of a block, and behind `off` bytes.
unfoldable pub write : List ℕ → List ℕ → Option (List ℕ)
write [] mem = some mem
write (b ∷ bs) [] = none
write (b ∷ bs) (m ∷ mem) = do rest ← write bs mem; some (b ∷ rest)

unfoldable pub write_at : ℕ → List ℕ → List ℕ → Option (List ℕ)
write_at zero bs mem = write bs mem
write_at (suc off) bs [] = none
write_at (suc off) bs (m ∷ mem) = do rest ← write_at off bs mem; some (m ∷ rest)

-- The C string at an offset.
unfoldable pub read : List ℕ → Option (List ℕ)
read [] = none
read (b ∷ mem) = if b == 0 then some [] else (read mem >>= λ cs. some (b ∷ cs))

unfoldable pub read_at : ℕ → List ℕ → Option (List ℕ)
read_at zero mem = read mem
read_at (suc off) [] = none
read_at (suc off) (m ∷ mem) = read_at off mem

-- The bytes that strings take with their NULs.
unfoldable pub total_size : List (List ℕ) → ℕ
total_size [] = 0
total_size (cs ∷ rest) = length cs + 1 + total_size rest

-- The second loop of backtraceSymbols: the strcpy of each string behind the ones before, and where
-- each starts.
unfoldable pub copy_strings : ℕ → List (List ℕ) → List ℕ → Option (List ℕ × List ℕ)
copy_strings f_strings [] mem = some ([], mem)
copy_strings f_strings (cs ∷ rest) mem = do
  mem' ← write_at f_strings (cs ++ 0 ∷ []) mem
  copied ← copy_strings (f_strings + length cs + 1) rest mem'
  some (f_strings ∷ copied.0, copied.1)

-- snprintf into a block of `len` bytes: the text is cut off to leave a place for its NUL.
unfoldable pub snprintf : ℕ → List ℕ → List ℕ → Option (List ℕ)
snprintf zero cs mem = some mem
snprintf (suc n) cs mem = write (take n cs ++ 0 ∷ []) mem

-- The loop of the second pass: `buf` and `len` stay the same in it.
unfoldable pub print_all : ℕ → List (List ℕ) → List ℕ → Option (List ℕ)
print_all len [] mem = some mem
print_all len (cs ∷ rest) mem = do mem' ← snprintf len cs mem; print_all len rest mem'
