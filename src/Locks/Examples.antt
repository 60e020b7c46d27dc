-- ===== src/Locks/Examples.antt =====
-- Two threads: one registers a task under its parent and prints it, and reaches a taskwait; the other
-- handles a depend clause, and changes the graph.
use ompt_dependency_tracker.Base.{◌≡◌, refl, true, false, some, List, [], ◌∷◌, map, get_elem?}
use ompt_dependency_tracker.Task.{new_task, explicit}
use ompt_dependency_tracker.ToolData.Untouched.{new_task-IsFresh}
use ompt_dependency_tracker.Locks.{
  Thread, lock, unlock, dag_mtx, id_to_vertex_mtx, id_to_task_mtx, dependences_mtx, act, advance,
  go_on, turn, schedule, is_held, holds, same, rank, owner, task_mtx,
}
use ompt_dependency_tracker.Locks.Operations.{
  Call, register_task, handle_taskwait, handle_dependence, change_graph, guard, locks, all_locks,
  register_task_locks, handle_dependence_locks, handle_taskwait_locks, graph_locks, add_child_locks,
  printed_locks, task_locks, print_locks, print_others_locks,
}
use ompt_dependency_tracker.Locks.Finishing.{AlwaysFinishes, caller}
use ompt_dependency_tracker.Callbacks.State.{Tool}
use ompt_dependency_tracker.Callbacks.Handlers.{scope_begin, taskwait}
use ompt_dependency_tracker.Callbacks.Events.{Event, task_create, task_dependences, sync_region}
use ompt_dependency_tracker.Callbacks.Examples.{rt, begun}
use ompt_dependency_tracker.Locks.Callbacks.{thread_calls, callbacks-AlwaysFinishes}
use ompt_dependency_tracker.Locks.Exits.{AlwaysExits}
use ompt_dependency_tracker.Locks.Interrupted.{
  interrupt, handling, interrupt-AlwaysExits, interrupt-stuck,
}

abbrev programs : List (List Call)
programs =
    (register_task (some 0) (some (1, new_task 1 0 0 explicit 100 0)) ∷ handle_taskwait ∷ [])
    ∷ (handle_dependence ∷ change_graph ∷ [])
    ∷ []

-- One thread creates a task; the other announces two depend clauses and reaches a taskwait.
abbrev two_callbacks : List (List (Event × Tool))
two_callbacks =
    ((task_create rt 0 3 1 100, begun) ∷ [])
    ∷ ((
      task_dependences 3 (
          record { variable_addr = 500; dependence_flags = 2 }
          ∷ record { variable_addr = 600; dependence_flags = 3 }
          ∷ []),
      begun,
    )
        ∷ (sync_region rt taskwait scope_begin 3, begun)
        ∷ [])
    ∷ []

callbacks-AlwaysFinishes_example : AlwaysFinishes (map caller (map thread_calls two_callbacks))
callbacks-AlwaysFinishes_example = callbacks-AlwaysFinishes two_callbacks

-- The first thread has locked the table of tasks, and its parent's mutex.
abbrev registering : Thread
registering = record {
  held = task_mtx 0 ∷ id_to_task_mtx ∷ [];
  rest =
      unlock (task_mtx 0)
      ∷ lock (task_mtx 1)
      ∷ unlock (task_mtx 1)
      ∷ unlock id_to_task_mtx
      ∷ lock id_to_task_mtx
      ∷ lock dependences_mtx
      ∷ unlock dependences_mtx
      ∷ unlock id_to_task_mtx
      ∷ [];
}

registering_first : get_elem? (schedule (0 ∷ 0 ∷ []) (map caller programs)) 0 ≡ some registering
unfolding schedule turn go_on advance act is_held holds same rank owner all_locks locks
    register_task_locks add_child_locks guard task_locks printed_locks print_locks
    print_others_locks new_task handle_taskwait_locks handle_dependence_locks graph_locks
registering_first = refl

registering_holds :
    (holds dag_mtx registering.held ≡ false) × (holds id_to_vertex_mtx registering.held ≡ false)
unfolding holds same rank owner
registering_holds = (refl, refl)

interrupt-AlwaysExits_example :
    AlwaysExits 0 (interrupt 2 0 (schedule (0 ∷ 0 ∷ []) (map caller programs)))
interrupt-AlwaysExits_example =
    interrupt-AlwaysExits programs (0 ∷ 0 ∷ []) 2 0 registering
      ((new_task-IsFresh 1 0 0 100 0, (tt, tt)), ((tt, (tt, tt)), tt)) registering_first
      registering_holds.0 registering_holds.1

-- ompt_finalize in add_edges.
abbrev building : Thread
building = record {
  held = id_to_vertex_mtx ∷ dag_mtx ∷ [];
  rest = unlock id_to_vertex_mtx ∷ unlock dag_mtx ∷ [];
}

building_holds : holds dag_mtx building.held ≡ true
unfolding holds same rank owner
building_holds = refl

interrupt-stuck_example :
    get_elem? (schedule (0 ∷ 0 ∷ 0 ∷ []) (interrupt 1 0 (building ∷ []))) 0
    ≡ some (handling 1 building)
interrupt-stuck_example =
    interrupt-stuck (building ∷ []) (0 ∷ 0 ∷ 0 ∷ []) 1 0 building refl building_holds
