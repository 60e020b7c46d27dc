-- ===== src/Locks/Operations.antt =====
-- What each function of src/callbacks.hpp, src/ToolData.hpp, src/DAGBuilder.hpp, src/Task.hpp and
-- src/ParallelRegion.hpp locks, from its lock_guards, each of which unlocks at the end of its scope.
use ompt_dependency_tracker.Base.{ℕ, zero, suc, Option, none, some, List, [], ◌∷◌, ◌++◌}
use ompt_dependency_tracker.Task.{Task}
use ompt_dependency_tracker.Locks.{
  Mutex, id_to_parallel_region_mtx, id_to_task_mtx, in_deps_mtx, out_deps_mtx, inout_deps_mtx,
  dependences_mtx, dag_mtx, id_to_vertex_mtx, region_mtx, task_mtx, Action, lock, unlock,
}

-- The scope of a lock_guard.
unfoldable pub guard : Mutex → List Action → List Action
guard m body = lock m ∷ (body ++ unlock m ∷ [])

unfoldable pub handle_dependence_locks : List Action
handle_dependence_locks =
    guard in_deps_mtx (guard out_deps_mtx (guard inout_deps_mtx (guard dependences_mtx [])))

unfoldable pub handle_taskwait_locks : List Action
handle_taskwait_locks = guard id_to_task_mtx (guard dependences_mtx [])

-- add_tsp, add_child, change_state, set_as_initial_task, and print() of another task.
unfoldable pub task_locks : ℕ → List Action
task_locks p = guard (task_mtx p) []

unfoldable pub print_others_locks : List ℕ → List Action
print_others_locks [] = []
print_others_locks (p ∷ others) = task_locks p ++ print_others_locks others

-- print(2) of the task at `p`.
unfoldable pub print_locks : ℕ → Task → List Action
print_locks p t =
    guard (task_mtx p)
      (print_others_locks t.dependency_children ++ print_others_locks t.dependency_parents)

unfoldable pub add_child_locks : Option ℕ → List Action
add_child_locks none = []
add_child_locks (some p) = task_locks p

unfoldable pub printed_locks : Option (ℕ × Task) → List Action
printed_locks none = []
printed_locks (some (p, t)) = print_locks p t

-- The pointer of the parent, where it is registered, and the new task, where it is inserted.
unfoldable pub register_task_locks : Option ℕ → Option (ℕ × Task) → List Action
register_task_locks parent inserted =
    guard id_to_task_mtx (add_child_locks parent ++ printed_locks inserted)

unfoldable pub register_region_locks : List Action
register_region_locks = guard id_to_parallel_region_mtx []

-- The pointer of the region, where both are found.
unfoldable pub register_as_child_locks : Option ℕ → List Action
register_as_child_locks none = guard id_to_parallel_region_mtx (guard id_to_task_mtx [])
register_as_child_locks (some r) =
    guard id_to_parallel_region_mtx (guard id_to_task_mtx (guard (region_mtx r) []))

-- The children are printed with print(1), which prints no others.
unfoldable pub print_region_locks : ℕ → List ℕ → List Action
print_region_locks r children = guard (region_mtx r) (print_others_locks children)

-- add_parallel_region_vertex, and add_edges.
unfoldable pub graph_locks : List Action
graph_locks = guard dag_mtx (guard id_to_vertex_mtx [])

-- build_dag, for so many regions; add_task_vertex locks nothing.
unfoldable pub build_dag_locks : ℕ → List Action
build_dag_locks zero = graph_locks
build_dag_locks (suc n) = graph_locks ++ build_dag_locks n

-- The calls that a thread makes, one after the other, with what they find in the tables.
pub data Call : Type 0 where
  handle_dependence handle_taskwait register_region change_graph : Call
  register_task : Option ℕ → Option (ℕ × Task) → Call
  register_as_child : Option ℕ → Call
  change_task : ℕ → Call
  print_task : ℕ → Task → Call
  print_region : ℕ → List ℕ → Call

unfoldable pub locks : Call → List Action
locks handle_dependence = handle_dependence_locks
locks handle_taskwait = handle_taskwait_locks
locks register_region = register_region_locks
locks change_graph = graph_locks
locks (register_task parent inserted) = register_task_locks parent inserted
locks (register_as_child region) = register_as_child_locks region
locks (change_task p) = task_locks p
locks (print_task p t) = print_locks p t
locks (print_region r children) = print_region_locks r children

unfoldable pub all_locks : List Call → List Action
all_locks [] = []
all_locks (call ∷ calls) = locks call ++ all_locks calls
