-- ===== src/Report/Examples.antt =====
-- The report of one task, with id 4.
use mathlib.Core.List.Permᴰ
use ompt_dependency_tracker.Base.{
  ℕ, zero, suc, ◌≡◌, refl, subst, arith, some, List, [], ◌∷◌, get_elem?, All, Returns,
}
use ompt_dependency_tracker.Table.{find}
use ompt_dependency_tracker.Task.{Task, new_task, explicit}
use ompt_dependency_tracker.ToolData.{ToolData, new_tool_data}
use ompt_dependency_tracker.ToolData.Registry.{IsValid, IsChild}
use ompt_dependency_tracker.DependencyDag.{Iteration}
use ompt_dependency_tracker.Symbols.Backtrace.{IsLocated}
use ompt_dependency_tracker.Symbols.Examples.{tools, text_of_120, address_120-IsLocated}
use ompt_dependency_tracker.Report.{generate_report}
use ompt_dependency_tracker.Report.Rows.{AreRows, HasNames, generate_report-AreRows}

abbrev only_task : Task
only_task = new_task 4 0 9 explicit 120 0

abbrev one_task : ToolData
one_task = record new_tool_data { tasks = only_task ∷ []; id_to_task = (4, 0) ∷ [] }

only : (p : ℕ) (t : Task) → get_elem? one_task.tasks p ≡ some t → only_task ≡ t
only zero t e = ground arith
only (suc p) t e = cc

code : only_task.codeptr_ra ≡ 120
unfolding new_task
code = refl

one_task-IsValid : IsValid one_task
unfolding new_task
one_task-IsValid = record {
  named = ((_, refl, refl), tt);
  regions_named = tt;
  children = λ p t e.
      subst
        (λ (w : Task). All (IsChild one_task.tasks one_task.id_to_task w.id) w.ancestry_children)
        (only p t e) tt;
}

abbrev name : ℕ → List ℕ
name address = text_of_120

one_task-HasNames : HasNames tools name one_task
one_task-HasNames p t e =
    subst (λ (w : Task). IsLocated tools w.codeptr_ra text_of_120) (only p t e)
      (rw code address_120-IsLocated)

one_task_known : find 4 one_task.id_to_task ≡ some 0
unfolding find
one_task_known = refl

generate_report-AreRows_example :
    Returns (generate_report tools one_task (4 ∷ [])) (AreRows tools one_task 0 (4 ∷ []))
generate_report-AreRows_example =
    generate_report-AreRows tools name one_task (4 ∷ []) one_task-IsValid one_task-HasNames
      ((0, one_task_known), tt)

abbrev in_order : Iteration
in_order = record { visit = λ V m. m; visit-perm = λ V m. Permᴰ.refl m }
