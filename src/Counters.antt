-- ===== src/Counters.antt =====
-- The callback counters of src/dependency_tracker.cpp, uint64_t as ATOMIC_COUNTERS is not defined.
pub mod Racing
pub mod Lost
mod Examples
use ompt_dependency_tracker.Base.{ℕ}

pub record Counters : Type 0 where
  pub n_thread_begin : ℕ
  pub n_thread_end : ℕ
  pub n_parallel_begin : ℕ
  pub n_parallel_end : ℕ
  pub n_implicit_task_created : ℕ
  pub n_implicit_task_completed : ℕ
  pub n_explicit_task : ℕ
  pub n_task_dependences : ℕ
  pub n_task_dependence : ℕ
  pub n_task_schedule_others : ℕ
  pub n_task_schedule_cancel : ℕ
  pub n_task_schedule_yield : ℕ
  pub n_task_schedule_complete : ℕ
  pub n_task_sync_region : ℕ
  pub n_task_sync_region_begin_barrier : ℕ
  pub n_task_sync_region_begin_taskwait : ℕ
  pub n_task_sync_region_begin_taskgroup : ℕ
  pub n_task_sync_region_end_barrier : ℕ
  pub n_task_sync_region_end_taskwait : ℕ
  pub n_task_sync_region_end_taskgroup : ℕ
  pub n_task_sync_region_wait : ℕ
  pub n_task_sync_region_wait_begin_barrier : ℕ
  pub n_task_sync_region_wait_begin_taskwait : ℕ
  pub n_task_sync_region_wait_begin_taskgroup : ℕ
  pub n_task_sync_region_wait_end_barrier : ℕ
  pub n_task_sync_region_wait_end_taskwait : ℕ
  pub n_task_sync_region_wait_end_taskgroup : ℕ

-- Globals start at zero.
abbrev pub no_events : Counters
no_events = record {
  n_thread_begin = 0;
  n_thread_end = 0;
  n_parallel_begin = 0;
  n_parallel_end = 0;
  n_implicit_task_created = 0;
  n_implicit_task_completed = 0;
  n_explicit_task = 0;
  n_task_dependences = 0;
  n_task_dependence = 0;
  n_task_schedule_others = 0;
  n_task_schedule_cancel = 0;
  n_task_schedule_yield = 0;
  n_task_schedule_complete = 0;
  n_task_sync_region = 0;
  n_task_sync_region_begin_barrier = 0;
  n_task_sync_region_begin_taskwait = 0;
  n_task_sync_region_begin_taskgroup = 0;
  n_task_sync_region_end_barrier = 0;
  n_task_sync_region_end_taskwait = 0;
  n_task_sync_region_end_taskgroup = 0;
  n_task_sync_region_wait = 0;
  n_task_sync_region_wait_begin_barrier = 0;
  n_task_sync_region_wait_begin_taskwait = 0;
  n_task_sync_region_wait_begin_taskgroup = 0;
  n_task_sync_region_wait_end_barrier = 0;
  n_task_sync_region_wait_end_taskwait = 0;
  n_task_sync_region_wait_end_taskgroup = 0;
}
