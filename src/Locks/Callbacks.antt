-- ===== src/Locks/Callbacks.antt =====
-- The calls that lock of each callback of src/callbacks.hpp, in the state of the tool that it meets.
use ompt_dependency_tracker.Base.{
  ℕ, ◌==◌, if◌then◌else◌, Option, none, some, ◌>>=◌, List, [], ◌∷◌, ◌++◌, map, All, All-append,
  length, Option-cases, Bool-cases, inl, inr,
}
use ompt_dependency_tracker.Table.{find, insert}
use ompt_dependency_tracker.Task.{Task, new_task, explicit}
use ompt_dependency_tracker.ToolData.{ToolData}
use ompt_dependency_tracker.ToolData.Untouched.{IsFresh, new_task-IsFresh}
use ompt_dependency_tracker.Dependences.{TaskDependence}
use ompt_dependency_tracker.Callbacks.State.{Runtime, Tool, get_own_data}
use ompt_dependency_tracker.Callbacks.Handlers.{
  parent_of, ScopeEndpoint, scope_begin, scope_end, other_endpoint, SyncRegionKind, barrier,
  taskwait, taskgroup, other_kind,
}
use ompt_dependency_tracker.Callbacks.Events.{
  Event, thread_begin, thread_end, parallel_begin, parallel_end, task_create, implicit_task,
  task_dependences, task_dependence, task_schedule, sync_region, sync_region_wait,
}
use ompt_dependency_tracker.Locks.Operations.{
  Call, handle_dependence, handle_taskwait, register_task,
}
use ompt_dependency_tracker.Locks.Order.{PrintsFresh}
use ompt_dependency_tracker.Locks.Finishing.{AlwaysFinishes, caller, calls-AlwaysFinishes}

-- `register_task` of a new task: whether its parent is found, and whether it is inserted.
unfoldable pub register_call : Task → ToolData → Call
register_call t s =
    let p = length s.tasks in
    register_task (find t.parent_id (insert t.id p s.id_to_task))
      (elim (find t.id s.id_to_task) [ some _ ↦ none | none ↦ some (p, t) ])

-- The task that the callback makes, if it can read its thread's id and its parent's.
unfoldable pub task_to_create : Runtime → ℕ → ℕ → Tool → Option Task
task_to_create rt encountering_task_data codeptr_ra s = do
  thread_id ← get_own_data rt.thread_data s
  parent_task_id ← parent_of encountering_task_data s
  some (new_task s.next_task_id parent_task_id thread_id explicit codeptr_ra rt.now)

unfoldable pub create_calls : Option Task → ToolData → List Call
create_calls none s = []
create_calls (some t) s = register_call t s ∷ []

unfoldable pub dependence_calls : List TaskDependence → List Call
dependence_calls [] = []
dependence_calls (dep ∷ deps) =
    let rest = dependence_calls deps in
    if dep.dependence_flags == 2
    then handle_dependence ∷ rest
    else if dep.dependence_flags == 3
    then handle_dependence ∷ rest
    else rest

unfoldable pub sync_region_calls : SyncRegionKind → ScopeEndpoint → List Call
sync_region_calls taskwait scope_begin = handle_taskwait ∷ []
sync_region_calls _ _ = []

-- All other callbacks lock nothing.
unfoldable pub callback_calls : Event → Tool → List Call
callback_calls (task_create rt encountering new_data type codeptr) s =
    create_calls (task_to_create rt encountering codeptr s) s.tool_data
callback_calls (task_dependences task_data deps) s = dependence_calls deps
callback_calls (sync_region rt kind endpoint task_data) s = sync_region_calls kind endpoint
callback_calls _ s = []

-- The callbacks that one thread runs, each with the state that it meets.
unfoldable pub thread_calls : List (Event × Tool) → List Call
thread_calls [] = []
thread_calls (p ∷ callbacks) = callback_calls p.0 p.1 ++ thread_calls callbacks

register_call-PrintsFresh : (t : Task) (s : ToolData) → IsFresh t → PrintsFresh (register_call t s)
unfolding register_call
register_call-PrintsFresh t s f = elim (Option-cases (find t.id s.id_to_task)) [
  | inl absent ↦ rw absent f
  | inr (p, found) ↦ rw found tt
]

dependence_calls-PrintsFresh :
    (deps : List TaskDependence) → All PrintsFresh (dependence_calls deps)
unfolding dependence_calls
dependence_calls-PrintsFresh [] = tt
dependence_calls-PrintsFresh (dep ∷ deps) =
    let rest = dependence_calls-PrintsFresh deps in
    elim (Bool-cases (dep.dependence_flags == 2)) [
      | inl reads ↦ rw reads (tt, rest)
      | inr other ↦ elim (Bool-cases (dep.dependence_flags == 3)) [
        | inl writes ↦ rw (other, writes) (tt, rest)
        | inr neither ↦ rw (other, neither) rest
      ]
    ]

sync_region_calls-PrintsFresh :
    (kind : SyncRegionKind) (endpoint : ScopeEndpoint)
    → All PrintsFresh (sync_region_calls kind endpoint)
unfolding sync_region_calls
sync_region_calls-PrintsFresh barrier scope_begin = tt
sync_region_calls-PrintsFresh barrier scope_end = tt
sync_region_calls-PrintsFresh barrier other_endpoint = tt
sync_region_calls-PrintsFresh taskwait scope_begin = (tt, tt)
sync_region_calls-PrintsFresh taskwait scope_end = tt
sync_region_calls-PrintsFresh taskwait other_endpoint = tt
sync_region_calls-PrintsFresh taskgroup scope_begin = tt
sync_region_calls-PrintsFresh taskgroup scope_end = tt
sync_region_calls-PrintsFresh taskgroup other_endpoint = tt
sync_region_calls-PrintsFresh other_kind scope_begin = tt
sync_region_calls-PrintsFresh other_kind scope_end = tt
sync_region_calls-PrintsFresh other_kind other_endpoint = tt

create_calls-PrintsFresh :
    (rt : Runtime) (encountering codeptr : ℕ) (s : Tool)
    → All PrintsFresh (create_calls (task_to_create rt encountering codeptr s) s.tool_data)
unfolding create_calls task_to_create
create_calls-PrintsFresh rt encountering codeptr s =
    elim (Option-cases (get_own_data rt.thread_data s)) [
      | inl nothing ↦ rw nothing tt
      | inr (thread, e) ↦ elim (Option-cases (parent_of encountering s)) [
        | inl nothing ↦ rw (e, nothing) tt
        | inr (parent, e') ↦
            rw (e, e')
              (
                register_call-PrintsFresh
                    (new_task s.next_task_id parent thread explicit codeptr rt.now) s.tool_data
                    (new_task-IsFresh s.next_task_id parent thread codeptr rt.now),
                tt,
              )
      ]
    ]

callback_calls-PrintsFresh : (e : Event) (s : Tool) → All PrintsFresh (callback_calls e s)
unfolding callback_calls
callback_calls-PrintsFresh (task_create rt encountering new_data type codeptr) s =
    create_calls-PrintsFresh rt encountering codeptr s
callback_calls-PrintsFresh (task_dependences task_data deps) s = dependence_calls-PrintsFresh deps
callback_calls-PrintsFresh (sync_region rt kind endpoint task_data) s =
    sync_region_calls-PrintsFresh kind endpoint
callback_calls-PrintsFresh (thread_begin thread_data) s = tt
callback_calls-PrintsFresh (thread_end rt) s = tt
callback_calls-PrintsFresh (parallel_begin parallel_data) s = tt
callback_calls-PrintsFresh parallel_end s = tt
callback_calls-PrintsFresh (implicit_task endpoint) s = tt
callback_calls-PrintsFresh task_dependence s = tt
callback_calls-PrintsFresh (task_schedule rt first status second) s = tt
callback_calls-PrintsFresh (sync_region_wait kind endpoint) s = tt

thread_calls-PrintsFresh :
    (callbacks : List (Event × Tool)) → All PrintsFresh (thread_calls callbacks)
unfolding thread_calls
thread_calls-PrintsFresh [] = tt
thread_calls-PrintsFresh (p ∷ callbacks) =
    All-append PrintsFresh (callback_calls p.0 p.1) (thread_calls callbacks)
      (callback_calls-PrintsFresh p.0 p.1) (thread_calls-PrintsFresh callbacks)

-- Any number of threads, each running any callbacks, in whatever states of the tool they meet, always
-- finish: under no schedule is there a deadlock before all of them have come to their end, and no
-- schedule goes on forever.
pub callbacks-AlwaysFinishes :
    (threads : List (List (Event × Tool))) → AlwaysFinishes (map caller (map thread_calls threads))
callbacks-AlwaysFinishes threads =
    calls-AlwaysFinishes (map thread_calls threads) (all_fresh threads)
  where
    all_fresh : (ts : List (List (Event × Tool))) → All (All PrintsFresh) (map thread_calls ts)
    all_fresh [] = tt
    all_fresh (callbacks ∷ ts) = (thread_calls-PrintsFresh callbacks, all_fresh ts)
