-- ===== src/Symbols/Packing.antt =====
-- Writing strings into a block and reading them back, for translateAddressesBuf and
-- backtraceSymbols of src/AddressTranslation.hpp.
use mathlib.Core.List.{append_assoc, append-nil}
use ompt_dependency_tracker.Base.{
  ℕ, zero, suc, ◌+◌, ◌≤◌, ◌≡◌, ◌≢◌, ◌∙◌, sym, ap, refl, subst, arith, All, some, List, [], ◌∷◌,
  ◌++◌, map, length, take, length-append, Returns, Returns->>=,
}
use ompt_dependency_tracker.CStrings.{
  write, write_at, read, read_at, total_size, copy_strings, snprintf, print_all,
}
use ompt_dependency_tracker.Symbols.{BfdFile, Libraries, describe_address, translate_addresses_buf}

-- No NUL among the bytes.
abbrev pub IsText : List ℕ → Type 0
IsText = All λ c. c ≢ 0

pub write-append :
    (bs old mem : List ℕ) → length old ≡ length bs → write bs (old ++ mem) ≡ some (bs ++ mem)
unfolding write
write-append [] [] mem e = refl
write-append [] (o ∷ old) mem e = absurd (omega arith)
write-append (b ∷ bs) [] mem e = absurd (omega arith)
write-append (b ∷ bs) (o ∷ old) mem e = rw (write-append bs old mem (omega arith)) refl

pub write_at-append :
    (pre bs mem mem' : List ℕ)
    → write bs mem ≡ some mem'
    → write_at (length pre) bs (pre ++ mem) ≡ some (pre ++ mem')
unfolding write_at
write_at-append [] bs mem mem' e = e
write_at-append (p ∷ pre) bs mem mem' e = rw (write_at-append pre bs mem mem' e) refl

pub read-text : (cs mem : List ℕ) → IsText cs → read (cs ++ 0 ∷ mem) ≡ some cs
unfolding read
read-text [] mem t = refl
read-text (c ∷ cs) mem t = ground (arith, read-text cs mem t.1)

read_at-append : (pre mem : List ℕ) → read_at (length pre) (pre ++ mem) ≡ read mem
unfolding read_at
read_at-append [] mem = refl
read_at-append (p ∷ pre) mem = read_at-append pre mem

-- A block splits after any number of its bytes.
pub split_block :
    (n : ℕ) (mem : List ℕ)
    → n ≤ length mem
    → (a : List ℕ) × (b : List ℕ) × (mem ≡ a ++ b) × (length a ≡ n)
split_block zero mem h = ([], mem, refl, refl)
split_block (suc n) [] h = absurd (omega arith)
split_block (suc n) (m ∷ mem) h =
    let (a, b, e, l) = split_block n mem (omega arith) in (m ∷ a, b, ap (λ x. m ∷ x) e, omega arith)

-- The block after the loop: what was in front of it is kept, and the strings can be read.
pub record Copied (pre : List ℕ) (strs : List (List ℕ)) (r : List ℕ × List ℕ) : Type 0 where
  pub strings : map (λ off. read_at off r.1) r.0 ≡ map some strs
  pub rest : List ℕ
  pub kept : r.1 ≡ pre ++ rest
  pub size : length rest ≡ total_size strs

pub copy_strings-Copied :
    (pre mem : List ℕ) (strs : List (List ℕ))
    → length mem ≡ total_size strs
    → All IsText strs
    → Returns (copy_strings (length pre) strs (pre ++ mem)) (Copied pre strs)
unfolding copy_strings total_size
copy_strings-Copied pre mem [] size text = record {
  strings = refl;
  rest = mem;
  kept = refl;
  size = size;
}
copy_strings-Copied pre mem (cs ∷ strs) size text =
    let (old, after, split, old_size) = split_block (length cs + 1) mem (omega arith) in
    let now = cs ++ 0 ∷ [] in
    let now_size : length now ≡ length cs + 1 = length-append cs (0 ∷ []) in
    let written : write_at (length pre) now (pre ++ mem) ≡ some ((pre ++ now) ++ after) =
      subst (λ m. write_at (length pre) now (pre ++ m) ≡ some ((pre ++ now) ++ after)) (sym split)
        (write_at-append pre now (old ++ after) (now ++ after)
            (write-append now old after (omega arith))
          ∙ ap some (sym (append_assoc pre now after))) in
    let next : length pre + length cs + 1 ≡ length (pre ++ now) =
      omega (arith, length-append pre now) in
    rw written (
      Returns->>= (Copied (pre ++ now) strs) _ _ _
        (λ r done. record {
          strings =
              ap (λ x. x ∷ map (λ off. read_at off r.1) r.0)
                (ap (read_at (length pre)) (done.kept ∙ append_assoc pre now done.rest)
                  ∙ read_at-append pre (now ++ done.rest)
                  ∙ ap read (append_assoc cs (0 ∷ []) done.rest)
                  ∙ read-text cs done.rest text.0)
              ∙ ap (λ l. some cs ∷ l) done.strings;
          rest = now ++ done.rest;
          kept = done.kept ∙ append_assoc pre now done.rest;
          size = omega (arith, length-append now done.rest, done.size);
        })
        (subst
          (λ n. Returns (copy_strings n strs ((pre ++ now) ++ after)) (Copied (pre ++ now) strs))
          (sym next)
          (copy_strings-Copied (pre ++ now) after strs
            (omega (arith, ap length split ∙ length-append old after)) text.1)))

take-all : (cs : List ℕ) → take (length cs) cs ≡ cs
take-all [] = refl
take-all (c ∷ cs) = ap (λ l. c ∷ l) (take-all cs)

snprintf-exact :
    (cs mem : List ℕ) (n : ℕ)
    → n ≡ length cs + 1
    → length mem ≡ n
    → snprintf n cs mem ≡ some (cs ++ 0 ∷ [])
unfolding snprintf
snprintf-exact cs mem zero e size = absurd (omega arith)
snprintf-exact cs mem (suc n) e size =
    let same : n ≡ length cs = omega arith in
    let cut : take n cs ≡ cs = rw same (take-all cs) in
    rw cut (
      ap (write (cs ++ 0 ∷ [])) (sym (append-nil mem))
      ∙ write-append (cs ++ 0 ∷ []) mem [] (omega (arith, length-append cs (0 ∷ [])))
      ∙ ap some (append-nil _))

total_size-single : (cs : List ℕ) → total_size (cs ∷ []) ≡ length cs + 1
unfolding total_size
total_size-single cs = omega arith

print_all-single :
    (cs mem : List ℕ) (n : ℕ)
    → n ≡ length cs + 1
    → length mem ≡ n
    → print_all n (cs ∷ []) mem ≡ some (cs ++ 0 ∷ [])
unfolding print_all
print_all-single cs mem n e size = rw (snprintf-exact cs mem n e size) refl

-- For one address, as backtraceSymbols asks for it, the second pass has a block of the size that
-- the first pass found: nothing is written outside it, nothing is cut off, and the result is the
-- description of the address.
pub translate_addresses_buf-read :
    (lib : Libraries) (abfd : BfdFile) (addr : ℕ)
    → IsText (describe_address lib abfd addr)
    → Returns
        (translate_addresses_buf lib abfd (addr ∷ []))
        (λ mem. read mem ≡ some (describe_address lib abfd addr))
unfolding translate_addresses_buf
translate_addresses_buf-read lib abfd addr text =
    let cs = describe_address lib abfd addr in
    let total = total_size (cs ∷ []) in
    subst (λ m. Returns m (λ mem. read mem ≡ some cs))
      (sym (
        print_all-single cs (lib.malloc total) total (total_size-single cs)
          (lib.length-malloc total)))
      (read-text cs [] text)
