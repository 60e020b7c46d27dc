-- ===== src/TaskTypes.antt =====
-- src/OMPT_helpers.hpp: format_task_type, which prints the bits of a task's type into a buffer.
pub mod Formatting
pub mod PrintIds
mod Examples
use Prim.Native.Nat.{bit_and}
use ompt_dependency_tracker.Base.{
  ℕ, ◌+◌, ◌==◌, if◌then◌else◌, Option, some, ◌>>=◌, List, [], ◌∷◌, ◌++◌, length,
}
use ompt_dependency_tracker.CStrings.{write_at}

-- The bits of ompt.h.
pub record TypeBits : Type 0 where
  pub ompt_task_initial : ℕ
  pub ompt_task_implicit : ℕ
  pub ompt_task_explicit : ℕ
  pub ompt_task_target : ℕ
  pub ompt_task_undeferred : ℕ
  pub ompt_task_untied : ℕ
  pub ompt_task_final : ℕ
  pub ompt_task_mergeable : ℕ
  pub ompt_task_merged : ℕ

-- "ompt_task_"
abbrev prefix : List ℕ
prefix = 111 ∷ 109 ∷ 112 ∷ 116 ∷ 95 ∷ 116 ∷ 97 ∷ 115 ∷ 107 ∷ 95 ∷ []

-- "ompt_task_initial"
abbrev initial_text : List ℕ
initial_text = prefix ++ 105 ∷ 110 ∷ 105 ∷ 116 ∷ 105 ∷ 97 ∷ 108 ∷ []

-- "ompt_task_implicit"
abbrev implicit_text : List ℕ
implicit_text = prefix ++ 105 ∷ 109 ∷ 112 ∷ 108 ∷ 105 ∷ 99 ∷ 105 ∷ 116 ∷ []

-- "ompt_task_explicit"
abbrev explicit_text : List ℕ
explicit_text = prefix ++ 101 ∷ 120 ∷ 112 ∷ 108 ∷ 105 ∷ 99 ∷ 105 ∷ 116 ∷ []

-- "ompt_task_target"
abbrev target_text : List ℕ
target_text = prefix ++ 116 ∷ 97 ∷ 114 ∷ 103 ∷ 101 ∷ 116 ∷ []

-- "|ompt_task_undeferred"
abbrev undeferred_text : List ℕ
undeferred_text = 124 ∷ (prefix ++ 117 ∷ 110 ∷ 100 ∷ 101 ∷ 102 ∷ 101 ∷ 114 ∷ 114 ∷ 101 ∷ 100 ∷ [])

-- "|ompt_task_untied"
abbrev untied_text : List ℕ
untied_text = 124 ∷ (prefix ++ 117 ∷ 110 ∷ 116 ∷ 105 ∷ 101 ∷ 100 ∷ [])

-- "|ompt_task_final"
abbrev final_text : List ℕ
final_text = 124 ∷ (prefix ++ 102 ∷ 105 ∷ 110 ∷ 97 ∷ 108 ∷ [])

-- "|ompt_task_mergeable"
abbrev mergeable_text : List ℕ
mergeable_text = 124 ∷ (prefix ++ 109 ∷ 101 ∷ 114 ∷ 103 ∷ 101 ∷ 97 ∷ 98 ∷ 108 ∷ 101 ∷ [])

-- "|ompt_task_merged"
abbrev merged_text : List ℕ
merged_text = 124 ∷ (prefix ++ 109 ∷ 101 ∷ 114 ∷ 103 ∷ 101 ∷ 100 ∷ [])

-- The nine tests, in their order: the bit and the text.
abbrev pub tests : TypeBits → List (ℕ × List ℕ)
tests bits =
    (bits.ompt_task_initial, initial_text)
    ∷ (bits.ompt_task_implicit, implicit_text)
    ∷ (bits.ompt_task_explicit, explicit_text)
    ∷ (bits.ompt_task_target, target_text)
    ∷ (bits.ompt_task_undeferred, undeferred_text)
    ∷ (bits.ompt_task_untied, untied_text)
    ∷ (bits.ompt_task_final, final_text)
    ∷ (bits.ompt_task_mergeable, mergeable_text)
    ∷ (bits.ompt_task_merged, merged_text)
    ∷ []

-- `if (type & bit) progress += sprintf(progress, text)`, over `progress` and the buffer.
unfoldable pub append_text : ℕ → ℕ × List ℕ → ℕ × List ℕ → Option (ℕ × List ℕ)
append_text type test st =
    if bit_and type test.0 == 0
    then some st
    else (write_at st.0 (test.1 ++ 0 ∷ []) st.1 >>= λ buffer. some (st.0 + length test.1, buffer))

unfoldable pub append_texts : ℕ → List (ℕ × List ℕ) → ℕ × List ℕ → Option (ℕ × List ℕ)
append_texts type [] st = some st
append_texts type (test ∷ rest) st = do st' ← append_text type test st; append_texts type rest st'

unfoldable pub format_task_type : TypeBits → ℕ → List ℕ → Option (List ℕ)
format_task_type bits type buffer = append_texts type (tests bits) (0, buffer) >>= λ st. some st.1
