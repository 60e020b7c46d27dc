-- ===== src/ToolData/Examples.antt =====
-- The operations of the registry on two tasks and a region.
use ompt_dependency_tracker.Base.{ℕ, zero, suc, ◌≡◌, refl, some, [], ◌∷◌, arith, get_elem?, Returns}
use ompt_dependency_tracker.Task.{Task, new_task, explicit}
use ompt_dependency_tracker.ParallelRegion.{ParallelRegion, new_region}
use ompt_dependency_tracker.ToolData.{ToolData, new_tool_data, register_task, complete_task}
use ompt_dependency_tracker.ToolData.Registry.{IsValid}
use ompt_dependency_tracker.ToolData.Registration.{Registers, register_task-Registers}
use ompt_dependency_tracker.ToolData.Lifecycle.{Completes, complete_task-Completes}

-- Task 4 is registered with region 7; its child, task 5, and region 8 are not yet registered.
abbrev root_task : Task
root_task = new_task 4 0 9 explicit 100 0

abbrev sub_task : Task
sub_task = new_task 5 4 9 explicit 200 0

abbrev region : ParallelRegion
region = new_region 8 0 2 300

abbrev two_tasks : ToolData
two_tasks = record new_tool_data {
  tasks = root_task ∷ sub_task ∷ [];
  regions = new_region 7 0 2 300 ∷ region ∷ [];
  id_to_task = (4, 0) ∷ [];
  id_to_parallel_region = (7, 0) ∷ [];
}

childless : (p : ℕ) (t : Task) → get_elem? two_tasks.tasks p ≡ some t → t.ancestry_children ≡ []
unfolding new_task
childless zero t e = ground arith
childless (suc zero) t e = ground arith
childless (suc (suc p)) t e = cc

two_tasks-IsValid : IsValid two_tasks
unfolding new_task new_region
two_tasks-IsValid = record {
  named = ((_, refl, refl), tt);
  regions_named = ((_, refl, refl), tt);
  children = λ p t e. rw (childless p t e) tt;
}

register_task-Registers_example :
    Returns (register_task 1 two_tasks) (Registers 1 sub_task two_tasks)
register_task-Registers_example =
    register_task-Registers 1 sub_task two_tasks refl two_tasks-IsValid

complete_task-Completes_example : Returns (complete_task 4 two_tasks) (Completes 4 two_tasks)
complete_task-Completes_example = complete_task-Completes 4 two_tasks two_tasks-IsValid
