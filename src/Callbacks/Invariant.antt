-- ===== src/Callbacks/Invariant.antt =====
-- Single callbacks of src/callbacks.hpp and whole runs of them, against the invariant.
use ompt_dependency_tracker.Base.{
  ℕ, ◌≡◌, ◌∙◌, some, List, [], ◌∷◌, Returns, Returns-eq, Returns->>=,
}
use ompt_dependency_tracker.Callbacks.State.{Tool, loaded}
use ompt_dependency_tracker.Callbacks.Preserves.{
  Promised, thread_begin-Inv, thread_end-Inv, parallel_begin-Inv, schedule-Inv, dependences-Inv,
  sync_region-Inv, create-Inv, count_sync_region_wait_keeps,
}
use ompt_dependency_tracker.Callbacks.Handlers.{
  scope_begin, scope_end, other_endpoint, on_parallel_end, on_implicit_task, on_task_dependence,
  on_sync_region_wait,
}
use ompt_dependency_tracker.Callbacks.Events.{
  Event, thread_begin, thread_end, parallel_begin, parallel_end, task_create, implicit_task,
  task_dependences, task_dependence, task_schedule, sync_region, sync_region_wait, step, run,
}
use ompt_dependency_tracker.Callbacks.Consistent.{Inv, loaded-Inv}

-- A callback of which the runtime keeps its promises never faults, and keeps the state consistent:
-- pointers and ids in the tool data lead to registered tasks, children name their parents, and the
-- tasks are numbered in the order of their creation.
pub step-Inv : (e : Event) (s : Tool) → Promised e s → Inv s → Returns (step e s) Inv
unfolding step on_parallel_end on_implicit_task on_task_dependence on_sync_region_wait
step-Inv (thread_begin thread_data) s h v = thread_begin-Inv thread_data s h v
step-Inv (thread_end rt) s h v = thread_end-Inv rt s h v
step-Inv (parallel_begin parallel_data) s h v = parallel_begin-Inv parallel_data s h v
step-Inv parallel_end s h v = record {
  consistent = v.consistent;
  next = v.next;
  counted = v.counted;
}
step-Inv (task_create rt encountering new_data type codeptr) s h v =
    create-Inv rt encountering new_data type codeptr s h v
step-Inv (implicit_task scope_begin) s h v = record {
  consistent = v.consistent;
  next = v.next;
  counted = v.counted;
}
step-Inv (implicit_task scope_end) s h v = record {
  consistent = v.consistent;
  next = v.next;
  counted = v.counted;
}
step-Inv (implicit_task other_endpoint) s h v = v
step-Inv (task_dependences task_data deps) s (n, known) v =
    dependences-Inv task_data deps s n known v
step-Inv task_dependence s h v = record {
  consistent = v.consistent;
  next = v.next;
  counted = v.counted;
}
step-Inv (task_schedule rt first status second) s (f, g, thread) v =
    schedule-Inv rt first status second s f g thread v
step-Inv (sync_region rt kind endpoint task_data) s h v =
    sync_region-Inv rt kind endpoint task_data s h v
step-Inv (sync_region_wait kind endpoint) s h v = record {
  consistent = v.consistent;
  next = v.next;
  counted = count_sync_region_wait_keeps endpoint kind _ ∙ v.counted;
}

-- The promises of a whole run, each in the state that the callbacks before it left.
abbrev pub AllPromised : List Event → Tool → Type 0
AllPromised [] s = Unit {0}
AllPromised (e ∷ events) s =
    Promised e s × ((s' : Tool) → step e s ≡ some s' → AllPromised events s')

run_from-Inv :
    (events : List Event) (s : Tool) → AllPromised events s → Inv s → Returns (run events s) Inv
unfolding run
run_from-Inv [] s h v = v
run_from-Inv (e ∷ events) s h v =
    Returns->>= (λ s'. Inv s' × (step e s ≡ some s')) Inv (step e s) (run events)
      (λ s' (v', stepped). run_from-Inv events s' (h.1 s' stepped) v')
      (Returns-eq Inv (step e s) (step-Inv e s h.0 v))

-- From loading on, whatever callbacks come in whatever order, if the runtime keeps its promises
-- then none of them faults and the state stays consistent.
pub run-Inv :
    (events : List Event) (words : ℕ → ℕ)
    → AllPromised events (loaded words)
    → Returns (run events (loaded words)) Inv
run-Inv events words h = run_from-Inv events (loaded words) h (loaded-Inv words)
