-- ===== src/Report.antt =====
-- src/BugLocalization.hpp: the report of the tasks that are flagged, which are all of them.
pub mod Rows
mod Examples
use ompt_dependency_tracker.Base.{ℕ, suc, Option, none, some, ◌>>=◌, List, [], ◌∷◌, map, get_elem?}
use ompt_dependency_tracker.Table.{find}
use ompt_dependency_tracker.ToolData.{ToolData}
use ompt_dependency_tracker.DependencyDag.{Iteration}
use ompt_dependency_tracker.CStrings.{read_at}
use ompt_dependency_tracker.Symbols.{Libraries, backtrace_symbols}

-- A line of the report.
pub record Row : Type 0 where
  pub task : ℕ
  pub codeptr_ra : ℕ
  pub location : List ℕ

-- The first loop of generate_report; `find(...)->second` of an unknown id is a fault.
unfoldable pub address_list : ToolData → List ℕ → Option (List ℕ)
address_list s [] = some []
address_list s (id ∷ task_ids) = do
  p ← find id s.id_to_task
  task ← get_elem? s.tasks p
  rest ← address_list s task_ids
  some (task.codeptr_ra ∷ rest)

-- The second loop, with `result[i]` read from the block that backtraceSymbols returned.
unfoldable pub print_rows : ℕ → List ℕ → List ℕ → List ℕ → Option (List Row)
print_rows i [] result mem = some []
print_rows i (address ∷ addresses) [] mem = none
print_rows i (address ∷ addresses) (off ∷ result) mem = do
  location ← read_at off mem
  rows ← print_rows (suc i) addresses result mem
  some (record { task = i; codeptr_ra = address; location = location } ∷ rows)

-- Every registered task, in the order in which the loop meets them.
abbrev pub flagged_tasks : Iteration → ToolData → List ℕ
flagged_tasks order s = map (λ e. e.0) (order.visit ℕ s.id_to_task)

module _ (lib : Libraries) where
  unfoldable pub generate_report : ToolData → List ℕ → Option (List Row)
  generate_report s task_ids = do
    addresses ← address_list s task_ids
    result ← backtrace_symbols lib addresses
    print_rows 0 addresses result.0 result.1

  module _ (order : Iteration) where
    unfoldable pub localize_bugs : ToolData → Option (List Row)
    localize_bugs s = generate_report s (flagged_tasks order s)
