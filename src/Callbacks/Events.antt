-- ===== src/Callbacks/Events.antt =====
-- The tool under any sequence of callbacks.
use ompt_dependency_tracker.Base.{ℕ, Option, some, ◌>>=◌, List, [], ◌∷◌}
use ompt_dependency_tracker.Dependences.{TaskDependence}
use ompt_dependency_tracker.Callbacks.State.{Runtime, Tool}
use ompt_dependency_tracker.Callbacks.Handlers.{
  ScopeEndpoint, TaskStatus, SyncRegionKind, on_thread_begin, on_thread_end, on_parallel_begin,
  on_parallel_end, on_task_create, on_implicit_task, on_task_dependences, on_task_dependence,
  on_task_schedule, on_sync_region, on_sync_region_wait,
}

-- A call of each callback that `ompt_initialize` registers.
pub data Event : Type 0 where
  thread_begin : ℕ → Event
  thread_end : Runtime → Event
  parallel_begin : ℕ → Event
  parallel_end : Event
  task_create : Runtime → ℕ → ℕ → ℕ → ℕ → Event
  implicit_task : ScopeEndpoint → Event
  task_dependences : ℕ → List TaskDependence → Event
  task_dependence : Event
  task_schedule : Runtime → ℕ → TaskStatus → ℕ → Event
  sync_region : Runtime → SyncRegionKind → ScopeEndpoint → ℕ → Event
  sync_region_wait : SyncRegionKind → ScopeEndpoint → Event

unfoldable pub step : Event → Tool → Option Tool
step (thread_begin thread_data) s = on_thread_begin thread_data s
step (thread_end rt) s = on_thread_end rt s
step (parallel_begin parallel_data) s = on_parallel_begin parallel_data s
step parallel_end s = some (on_parallel_end s)
step (task_create rt encountering new_task_data type codeptr_ra) s =
    on_task_create rt encountering new_task_data type codeptr_ra s
step (implicit_task endpoint) s = some (on_implicit_task endpoint s)
step (task_dependences task_data deps) s = on_task_dependences task_data deps s
step task_dependence s = some (on_task_dependence s)
step (task_schedule rt first_task_data prior_task_status second_task_data) s =
    on_task_schedule rt first_task_data prior_task_status second_task_data s
step (sync_region rt kind endpoint task_data) s = on_sync_region rt kind endpoint task_data s
step (sync_region_wait kind endpoint) s = some (on_sync_region_wait kind endpoint s)

unfoldable pub run : List Event → Tool → Option Tool
run [] s = some s
run (e ∷ events) s = do s' ← step e s; run events s'
