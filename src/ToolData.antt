-- ===== src/ToolData.antt =====
-- src/ToolData.hpp: the tool's tables and the operations that register objects in them. The C++
-- heap that the tables point into is part of the state: a `Task*` is an index of `tasks`, a
-- `ParallelRegion*` an index of `regions`, and an index out of range is a fault.
-- Each function is one step, as its lock (or its caller's) makes it.
pub mod Registry
pub mod Registration
pub mod Untouched
pub mod Lifecycle
pub mod Regions
mod Examples
use ompt_dependency_tracker.Base.{
  ℕ, Option, none, some, ◌>>=◌, List, [], ◌∷◌, ◌++◌, get_elem?, set, length,
}
use ompt_dependency_tracker.Task.{Task, completed}
use ompt_dependency_tracker.Task
use ompt_dependency_tracker.ParallelRegion.{ParallelRegion}
use ompt_dependency_tracker.ParallelRegion
use ompt_dependency_tracker.Table.{find, insert}

-- `struct tool_data`, and the objects that it points to. The DAG and `id_to_vertex` are in
-- `DagBuilder`, the only code that touches them.
pub record ToolData : Type 0 where
  pub tasks : List Task
  pub regions : List ParallelRegion
  pub id_to_task : List (ℕ × ℕ)
  pub id_to_parallel_region : List (ℕ × ℕ)
  pub in_dep_to_tasks : List (ℕ × List ℕ)
  pub out_dep_to_tasks : List (ℕ × List ℕ)
  pub inout_dep_to_tasks : List (ℕ × List ℕ)
  pub dependences : List (ℕ × List ℕ)

-- `new tool_data_t()`.
abbrev pub new_tool_data : ToolData
new_tool_data = record {
  tasks = [];
  regions = [];
  id_to_task = [];
  id_to_parallel_region = [];
  in_dep_to_tasks = [];
  out_dep_to_tasks = [];
  inout_dep_to_tasks = [];
  dependences = [];
}

-- `p->f()` for a mutator `f` of the task at `p`.
unfoldable pub modify_task : ℕ → (Task → Task) → ToolData → Option ToolData
modify_task p f s = do t ← get_elem? s.tasks p; some (record s { tasks = set s.tasks p (f t) })

unfoldable pub modify_region : ℕ → (ParallelRegion → ParallelRegion) → ToolData → Option ToolData
modify_region p f s = do
  r ← get_elem? s.regions p
  some (record s { regions = set s.regions p (f r) })

unfoldable pub register_task_as_child_of_parallel_region : ℕ → ℕ → ToolData → Option ToolData
register_task_as_child_of_parallel_region region_id task_id s =
    elim (find region_id s.id_to_parallel_region) [
      | none ↦ some s
      | some region ↦ elim (find task_id s.id_to_task) [
        | none ↦ some s
        | some task ↦ modify_region region (ParallelRegion.add_child task) s
      ]
    ]

unfoldable pub register_parallel_region : ℕ → ToolData → Option ToolData
register_parallel_region new_region s = do
  region ← get_elem? s.regions new_region
  some (record s { id_to_parallel_region = insert region.id new_region s.id_to_parallel_region })

-- The parent's `add_child`, where the parent is registered.
unfoldable pub add_to_parent : ℕ → ℕ → ToolData → Option ToolData
add_to_parent parent_id new_task s = elim (find parent_id s.id_to_task) [
  | none ↦ some s
  | some parent ↦ modify_task parent (Task.add_child new_task) s
]

-- The parent is looked up after the insertion.
unfoldable pub register_task : ℕ → ToolData → Option ToolData
register_task new_task s = do
  task ← get_elem? s.tasks new_task
  add_to_parent task.parent_id new_task
      (record s { id_to_task = insert task.id new_task s.id_to_task })

unfoldable pub complete_task : ℕ → ToolData → Option ToolData
complete_task id s = elim (find id s.id_to_task) [
  | some task ↦ modify_task task (Task.change_state completed) s
  | none ↦ some s
]

-- `new Task(...)`: the object and its address.
unfoldable pub allocate_task : Task → ToolData → ToolData × ℕ
allocate_task t s = (record s { tasks = s.tasks ++ t ∷ [] }, length s.tasks)
