-- ===== src/TaskTypes/Formatting.antt =====
-- format_task_type of src/OMPT_helpers.hpp: the text of a type, and the room that it takes.
use Prim.Native.Nat.{bit_and}
use mathlib.Core.List.{append_assoc}
use ompt_dependency_tracker.Base.{
  ℕ, Bool, false, ◌||◌, ◌+◌, ◌≤◌, ◌==◌, if◌then◌else◌, ◌≡◌, ◌⊎◌, ◌∙◌, inl, inr, refl, sym, ap,
  subst, arith, All-append, some, List, [], ◌∷◌, ◌++◌, length, length-append, Returns, Returns-map,
  Returns->>=, Bool-cases,
}
use ompt_dependency_tracker.CStrings.{read, write_at}
use ompt_dependency_tracker.Symbols.Packing.{
  IsText, write-append, write_at-append, split_block, read-text,
}
use ompt_dependency_tracker.TaskTypes.{TypeBits, tests, append_text, append_texts, format_task_type}

-- The texts of the bits that are set, one behind the other.
abbrev pub type_text : ℕ → List (ℕ × List ℕ) → List ℕ
type_text type [] = []
type_text type (test ∷ rest) =
    (if bit_and type test.0 == 0 then [] else test.1) ++ type_text type rest

-- The bytes that all the texts take.
abbrev room : List (ℕ × List ℕ) → ℕ
room [] = 0
room (test ∷ rest) = length test.1 + room rest

-- The text stands behind what was there, and ends with a NUL if anything was written.
record Formatted (before rest text : List ℕ) (st : ℕ × List ℕ) : Type 0 where
  tail : List ℕ
  kept : st.1 ≡ before ++ (text ++ tail)
  size : length text + length tail ≡ length rest
  ended : ((text ≡ []) × (tail ≡ rest)) ⊎ ((r : List ℕ) × (tail ≡ 0 ∷ r))

append_texts-Formatted :
    (type : ℕ) (entries : List (ℕ × List ℕ)) (before rest : List ℕ)
    → room entries + 1 ≤ length rest
    → Returns
        (append_texts type entries (length before, before ++ rest))
        (Formatted before rest (type_text type entries))
unfolding append_texts append_text
append_texts-Formatted type [] before rest h = record {
  tail = rest;
  kept = refl;
  size = omega arith;
  ended = inl (refl, refl);
}
append_texts-Formatted type (test ∷ entries) before rest h =
    elim (Bool-cases (bit_and type test.0 == 0)) [
      | inl off ↦ rw off (append_texts-Formatted type entries before rest (omega arith))
      | inr on ↦
          let (old, after, split, old_size) = split_block (length test.1 + 1) rest (omega arith) in
          let now = test.1 ++ 0 ∷ [] in
          let written : write_at (length before) now (before ++ rest)
              ≡ some ((before ++ test.1) ++ 0 ∷ after) =
            subst
              (λ m.
                write_at (length before) now (before ++ m) ≡ some ((before ++ test.1) ++ 0 ∷ after))
              (sym split)
              (write_at-append before now (old ++ after) (now ++ after)
                  (write-append now old after (omega (arith, length-append test.1 (0 ∷ []))))
                ∙ ap (λ l. some (before ++ l)) (append_assoc test.1 (0 ∷ []) after)
                ∙ ap some (sym (append_assoc before test.1 (0 ∷ after)))) in
          let sizes : length rest ≡ length old + length after =
            ap length split ∙ length-append old after in
          rw (on, written)
            (Returns-map (Formatted (before ++ test.1) (0 ∷ after) (type_text type entries)) _ _
              (λ st f. record {
                tail = f.tail;
                kept =
                    f.kept
                    ∙ append_assoc before test.1 _
                    ∙ ap (λ l. before ++ l)
                        (sym (append_assoc test.1 (type_text type entries) f.tail));
                size = omega (arith, f.size, length-append test.1 (type_text type entries));
                ended = inr (elim f.ended [ inl (_, t) ↦ (after, t) | inr r ↦ r ]);
              })
              (subst
                (λ n.
                  Returns (append_texts type entries (n, (before ++ test.1) ++ 0 ∷ after))
                    (Formatted (before ++ test.1) (0 ∷ after) (type_text type entries)))
                (length-append before test.1)
                (append_texts-Formatted type entries (before ++ test.1) (0 ∷ after) (omega arith))))
    ]

-- The texts have no NUL, by computation.
abbrev has_nul : List ℕ → Bool
has_nul [] = false
has_nul (c ∷ cs) = c == 0 || has_nul cs

abbrev any_nul : List (ℕ × List ℕ) → Bool
any_nul [] = false
any_nul (test ∷ rest) = has_nul test.1 || any_nul rest

has_nul-IsText : (cs : List ℕ) → has_nul cs ≡ false → IsText cs
has_nul-IsText [] e = tt
has_nul-IsText (c ∷ cs) e = (ground arith, has_nul-IsText cs (ground arith))

type_text-IsText :
    (type : ℕ) (entries : List (ℕ × List ℕ))
    → any_nul entries ≡ false
    → IsText (type_text type entries)
type_text-IsText type [] e = tt
type_text-IsText type (test ∷ entries) e =
    let first : has_nul test.1 ≡ false = ground arith in
    let others : any_nul entries ≡ false = ground arith in
    elim (Bool-cases (bit_and type test.0 == 0)) [
      | inl off ↦ rw off (type_text-IsText type entries others)
      | inr on ↦ rw on (
          All-append _ test.1 (type_text type entries) (has_nul-IsText test.1 first)
            (type_text-IsText type entries others))
    ]

-- In a buffer of 2048 bytes, as on_ompt_callback_task_create and print_ids have it, format_task_type
-- never writes outside the buffer, whatever the type; the buffer then holds the texts of the bits
-- that are set, in their order, or is as it was, without a NUL of its own, if none is set.
pub format_task_type-reads :
    (bits : TypeBits) (type : ℕ) (buffer : List ℕ)
    → length buffer ≡ 2048
    → Returns (format_task_type bits type buffer) (λ mem.
      (length mem ≡ 2048)
      × (((type_text type (tests bits) ≡ []) × (mem ≡ buffer))
          ⊎ (read mem ≡ some (type_text type (tests bits)))))
unfolding format_task_type
format_task_type-reads bits type buffer size =
    Returns->>= (Formatted [] buffer (type_text type (tests bits))) _
      (append_texts type (tests bits) (0, buffer)) _
      (λ st f. (
        ap length f.kept ∙ length-append (type_text type (tests bits)) f.tail ∙ f.size ∙ size,
        elim f.ended [
          | inl (empty, same) ↦ inl (empty, f.kept ∙ ap (λ t. t ++ f.tail) empty ∙ same)
          | inr (r, nul) ↦ inr (
              ap read (f.kept ∙ ap (λ t. type_text type (tests bits) ++ t) nul)
              ∙ read-text (type_text type (tests bits)) r (type_text-IsText type (tests bits) refl))
        ],
      ))
      (append_texts-Formatted type (tests bits) [] buffer (omega arith))
