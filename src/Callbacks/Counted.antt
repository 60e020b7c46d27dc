-- ===== src/Callbacks/Counted.antt =====
-- What each counter of src/dependency_tracker.cpp counts, said of the sequence of callbacks alone.
use ompt_dependency_tracker.Base.{ℕ, ◌+◌, if◌then◌else◌, Bool, true, false, List, [], ◌∷◌}
use ompt_dependency_tracker.Counters.{Counters}
use ompt_dependency_tracker.Callbacks.Handlers.{
  scope_begin, scope_end, task_others, task_cancel, task_yield, task_complete, barrier, taskwait,
  taskgroup,
}
use ompt_dependency_tracker.Callbacks.Events.{
  Event, thread_begin, thread_end, parallel_begin, parallel_end, task_create, implicit_task,
  task_dependences, task_dependence, task_schedule, sync_region, sync_region_wait,
}

-- A name for each counter.
pub data Counter : Type 0 where
  thread_begin_counter thread_end_counter parallel_begin_counter parallel_end_counter : Counter
  implicit_task_created_counter implicit_task_completed_counter explicit_task_counter : Counter
  task_dependences_counter task_dependence_counter task_schedule_others_counter : Counter
  task_schedule_cancel_counter task_schedule_yield_counter : Counter
  task_schedule_complete_counter task_sync_region_counter : Counter
  task_sync_region_begin_barrier_counter task_sync_region_begin_taskwait_counter : Counter
  task_sync_region_begin_taskgroup_counter task_sync_region_end_barrier_counter : Counter
  task_sync_region_end_taskwait_counter task_sync_region_end_taskgroup_counter : Counter
  task_sync_region_wait_counter task_sync_region_wait_begin_barrier_counter : Counter
  task_sync_region_wait_begin_taskwait_counter : Counter
  task_sync_region_wait_begin_taskgroup_counter : Counter
  task_sync_region_wait_end_barrier_counter task_sync_region_wait_end_taskwait_counter : Counter
  task_sync_region_wait_end_taskgroup_counter : Counter

abbrev pub value : Counter → Counters → ℕ
value thread_begin_counter c = c.n_thread_begin
value thread_end_counter c = c.n_thread_end
value parallel_begin_counter c = c.n_parallel_begin
value parallel_end_counter c = c.n_parallel_end
value implicit_task_created_counter c = c.n_implicit_task_created
value implicit_task_completed_counter c = c.n_implicit_task_completed
value explicit_task_counter c = c.n_explicit_task
value task_dependences_counter c = c.n_task_dependences
value task_dependence_counter c = c.n_task_dependence
value task_schedule_others_counter c = c.n_task_schedule_others
value task_schedule_cancel_counter c = c.n_task_schedule_cancel
value task_schedule_yield_counter c = c.n_task_schedule_yield
value task_schedule_complete_counter c = c.n_task_schedule_complete
value task_sync_region_counter c = c.n_task_sync_region
value task_sync_region_begin_barrier_counter c = c.n_task_sync_region_begin_barrier
value task_sync_region_begin_taskwait_counter c = c.n_task_sync_region_begin_taskwait
value task_sync_region_begin_taskgroup_counter c = c.n_task_sync_region_begin_taskgroup
value task_sync_region_end_barrier_counter c = c.n_task_sync_region_end_barrier
value task_sync_region_end_taskwait_counter c = c.n_task_sync_region_end_taskwait
value task_sync_region_end_taskgroup_counter c = c.n_task_sync_region_end_taskgroup
value task_sync_region_wait_counter c = c.n_task_sync_region_wait
value task_sync_region_wait_begin_barrier_counter c = c.n_task_sync_region_wait_begin_barrier
value task_sync_region_wait_begin_taskwait_counter c = c.n_task_sync_region_wait_begin_taskwait
value task_sync_region_wait_begin_taskgroup_counter c = c.n_task_sync_region_wait_begin_taskgroup
value task_sync_region_wait_end_barrier_counter c = c.n_task_sync_region_wait_end_barrier
value task_sync_region_wait_end_taskwait_counter c = c.n_task_sync_region_wait_end_taskwait
value task_sync_region_wait_end_taskgroup_counter c = c.n_task_sync_region_wait_end_taskgroup

-- The callbacks that a counter counts.
abbrev pub counts : Counter → Event → Bool
counts thread_begin_counter (thread_begin a) = true
counts thread_end_counter (thread_end rt) = true
counts parallel_begin_counter (parallel_begin a) = true
counts parallel_end_counter parallel_end = true
counts implicit_task_created_counter (implicit_task scope_begin) = true
counts implicit_task_completed_counter (implicit_task scope_end) = true
counts explicit_task_counter (task_create rt a b t p) = true
counts task_dependences_counter (task_dependences a ds) = true
counts task_dependence_counter task_dependence = true
counts task_schedule_others_counter (task_schedule rt a task_others b) = true
counts task_schedule_cancel_counter (task_schedule rt a task_cancel b) = true
counts task_schedule_yield_counter (task_schedule rt a task_yield b) = true
counts task_schedule_complete_counter (task_schedule rt a task_complete b) = true
counts task_sync_region_counter (sync_region rt k e a) = true
counts task_sync_region_begin_barrier_counter (sync_region rt barrier scope_begin a) = true
counts task_sync_region_begin_taskwait_counter (sync_region rt taskwait scope_begin a) = true
counts task_sync_region_begin_taskgroup_counter (sync_region rt taskgroup scope_begin a) = true
counts task_sync_region_end_barrier_counter (sync_region rt barrier scope_end a) = true
counts task_sync_region_end_taskwait_counter (sync_region rt taskwait scope_end a) = true
counts task_sync_region_end_taskgroup_counter (sync_region rt taskgroup scope_end a) = true
counts task_sync_region_wait_counter (sync_region_wait k e) = true
counts task_sync_region_wait_begin_barrier_counter (sync_region_wait barrier scope_begin) = true
counts task_sync_region_wait_begin_taskwait_counter (sync_region_wait taskwait scope_begin) = true
counts task_sync_region_wait_begin_taskgroup_counter (sync_region_wait taskgroup scope_begin) = true
counts task_sync_region_wait_end_barrier_counter (sync_region_wait barrier scope_end) = true
counts task_sync_region_wait_end_taskwait_counter (sync_region_wait taskwait scope_end) = true
counts task_sync_region_wait_end_taskgroup_counter (sync_region_wait taskgroup scope_end) = true
counts _ _ = false

-- The number of them in a sequence.
abbrev pub seen : Counter → List Event → ℕ
seen k [] = 0
seen k (e ∷ events) = (if counts k e then 1 else 0) + seen k events
