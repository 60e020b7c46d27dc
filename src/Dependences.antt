-- ===== src/Dependences.antt =====
-- src/callbacks.hpp: how depend clauses and taskwaits become edges of `dependences`, where the
-- tasks under the key u are those that depend on the task u. Each handler holds the locks of all
-- the tables that it touches, so it is one step.
pub mod Effect
pub mod History
pub mod Order
pub mod Frame
pub mod Closed
pub mod Waiting
pub mod Pairs
pub mod Examples
use ompt_dependency_tracker.Base.{
  ℕ, ◌==◌, if◌then◌else◌, Option, none, some, ◌>>=◌, List, [], ◌∷◌, get_elem?,
}
use ompt_dependency_tracker.Table.{find, append_to}
use ompt_dependency_tracker.Task.{Task}
use ompt_dependency_tracker.ToolData.{ToolData}

-- `ompt_task_dependence_t`.
pub record TaskDependence : Type 0 where
  pub variable_addr : ℕ
  pub dependence_flags : ℕ

-- The loop over the tasks that accessed the address before.
unfoldable pub add_dependences : ℕ → List ℕ → List (ℕ × List ℕ) → List (ℕ × List ℕ)
add_dependences task_id [] deps = deps
add_dependences task_id (prev ∷ rest) deps =
    add_dependences task_id rest (append_to prev task_id deps)

-- That loop behind its `find`: nothing is done for an address that the table lacks.
unfoldable pub depend_on : ℕ → Option (List ℕ) → ToolData → ToolData
depend_on task_id none s = s
depend_on task_id (some prev) s = record s {
  dependences = add_dependences task_id prev s.dependences;
}

unfoldable pub handle_out_dependence : ℕ → ℕ → ℕ → ToolData → ToolData
handle_out_dependence task_id flag address s0 =
    let s1 = depend_on task_id (find address s0.in_dep_to_tasks) s0 in
    let s2 = depend_on task_id (find address s1.inout_dep_to_tasks) s1 in
    let s3 = depend_on task_id (find address s2.out_dep_to_tasks) s2 in
    record s3 { out_dep_to_tasks = append_to address task_id s3.out_dep_to_tasks }

unfoldable pub handle_in_dependence : ℕ → ℕ → ℕ → ToolData → ToolData
handle_in_dependence task_id flag address s0 =
    let s1 = depend_on task_id (find address s0.out_dep_to_tasks) s0 in
    let s2 = depend_on task_id (find address s1.inout_dep_to_tasks) s1 in
    record s2 { in_dep_to_tasks = append_to address task_id s2.in_dep_to_tasks }

-- One round of the callback's loop: flag 1 has an empty branch, and so has every unknown flag.
unfoldable pub handle_dependence : ℕ → TaskDependence → ToolData → ToolData
handle_dependence task_id dep s =
    if dep.dependence_flags == 1
    then s
    else if dep.dependence_flags == 2
    then handle_in_dependence task_id dep.dependence_flags dep.variable_addr s
    else if dep.dependence_flags == 3
    then handle_out_dependence task_id dep.dependence_flags dep.variable_addr s
    else s

-- The loop of `on_ompt_callback_task_dependences`, over the `ndeps` entries of `deps`.
unfoldable pub handle_dependences : ℕ → List TaskDependence → ToolData → ToolData
handle_dependences task_id [] s = s
handle_dependences task_id (dep ∷ deps) s =
    handle_dependences task_id deps (handle_dependence task_id dep s)

-- The loop over the children at a taskwait.
unfoldable pub wait_for : ℕ → List Task → List ℕ → List (ℕ × List ℕ) → Option (List (ℕ × List ℕ))
wait_for task_id tasks [] deps = some deps
wait_for task_id tasks (child ∷ children) deps = do
  c ← get_elem? tasks child
  wait_for task_id tasks children (append_to c.id task_id deps)

unfoldable pub handle_taskwait_dependences : ℕ → ToolData → Option ToolData
handle_taskwait_dependences task_id s = elim (find task_id s.id_to_task) [
  | none ↦ some s
  | some p ↦ do
    t ← get_elem? s.tasks p
    dependences ← wait_for task_id s.tasks t.ancestry_children s.dependences
    some (record s { dependences = dependences })
]
