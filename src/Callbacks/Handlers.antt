-- ===== src/Callbacks/Handlers.antt =====
-- The callbacks, one function each. DEBUG output is left out; the reads that it makes are not.
use Prim.Native.Nat.{bit_and}
use ompt_dependency_tracker.Base.{ℕ, ◌==◌, if◌then◌else◌, Option, some, ◌>>=◌, List}
use ompt_dependency_tracker.Base.Word.{bump}
use ompt_dependency_tracker.Counters.{Counters}
use ompt_dependency_tracker.Task.{explicit, new_task}
use ompt_dependency_tracker.ToolData.{allocate_task, register_task}
use ompt_dependency_tracker.Dependences.{
  TaskDependence, handle_dependences, handle_taskwait_dependences,
}
use ompt_dependency_tracker.Callbacks.State.{
  Runtime, Tool, load, store, get_own_data, alloc_and_init_own_data, my_next_id, my_next_task_id,
  tally,
}

unfoldable pub on_thread_begin : ℕ → Tool → Option Tool
unfolding my_next_id alloc_and_init_own_data
on_thread_begin thread_data s0 =
    let s1 = tally (λ c. record c { n_thread_begin = bump c.n_thread_begin }) s0 in
    let (tid, s2) = my_next_id s1 in alloc_and_init_own_data thread_data tid s2

-- Under DEBUG, which dependency_tracker.cpp defines, the thread's id is read.
unfoldable pub on_thread_end : Runtime → Tool → Option Tool
on_thread_end rt s0 =
    let s1 = tally (λ c. record c { n_thread_end = bump c.n_thread_end }) s0 in
    do tid ← get_own_data rt.thread_data s1; some s1

-- Under DEBUG the pointer in the region's data is tested.
unfoldable pub on_parallel_begin : ℕ → Tool → Option Tool
on_parallel_begin parallel_data s0 =
    let s1 = tally (λ c. record c { n_parallel_begin = bump c.n_parallel_begin }) s0 in
    do ptr ← load parallel_data s1; some s1

unfoldable pub on_parallel_end : Tool → Tool
on_parallel_end = tally λ c. record c { n_parallel_end = bump c.n_parallel_end }

-- The initial task names its parallel region.
unfoldable pub name_parallel_region : Runtime → ℕ → Tool → Option Tool
name_parallel_region rt type s =
    if bit_and type rt.task_initial == 0 then some s else store rt.parallel_data rt.unique_id s

unfoldable pub parent_of : ℕ → Tool → Option ℕ
parent_of encountering_task_data s =
    if encountering_task_data == 0 then some 0 else load encountering_task_data s

-- `new Task`, then `register_task`.
unfoldable pub create_and_register : ℕ → ℕ → ℕ → ℕ → ℕ → Tool → Option Tool
create_and_register task_id parent_task_id thread_id codeptr_ra now s =
    let (td, task) =
      allocate_task (new_task task_id parent_task_id thread_id explicit codeptr_ra now)
        s.tool_data in
    do td' ← register_task task td; some (record s { tool_data = td' })

unfoldable pub on_task_create : Runtime → ℕ → ℕ → ℕ → ℕ → Tool → Option Tool
unfolding my_next_task_id name_parallel_region parent_of create_and_register
on_task_create rt encountering_task_data new_task_data type codeptr_ra s0 =
    let s1 = tally (λ c. record c { n_explicit_task = bump c.n_explicit_task }) s0 in
    let (id, s2) = my_next_task_id s1 in
    do
      s3 ← store new_task_data id s2
      s4 ← name_parallel_region rt type s3
      thread_id ← get_own_data rt.thread_data s4
      parent_task_id ← parent_of encountering_task_data s4
      task_id ← load new_task_data s4
      create_and_register task_id parent_task_id thread_id codeptr_ra rt.now s4

-- `ompt_scope_endpoint_t`, with any value that the code does not name.
pub data ScopeEndpoint : Type 0 where
  scope_begin scope_end other_endpoint : ScopeEndpoint

unfoldable pub on_implicit_task : ScopeEndpoint → Tool → Tool
on_implicit_task scope_begin =
    tally λ c. record c { n_implicit_task_created = bump c.n_implicit_task_created }
on_implicit_task scope_end =
    tally λ c. record c { n_implicit_task_completed = bump c.n_implicit_task_completed }
on_implicit_task other_endpoint = λ s. s

unfoldable pub on_task_dependences : ℕ → List TaskDependence → Tool → Option Tool
on_task_dependences task_data deps s0 =
    let s1 = tally (λ c. record c { n_task_dependences = bump c.n_task_dependences }) s0 in
    do
      task_id ← load task_data s1
      some (record s1 { tool_data = handle_dependences task_id deps s1.tool_data })

unfoldable pub on_task_dependence : Tool → Tool
on_task_dependence = tally λ c. record c { n_task_dependence = bump c.n_task_dependence }

-- `ompt_task_status_t`, with any value that the code does not name.
pub data TaskStatus : Type 0 where
  task_others task_cancel task_yield task_complete other_status : TaskStatus

unfoldable pub count_schedule : TaskStatus → Counters → Counters
count_schedule task_others c = record c { n_task_schedule_others = bump c.n_task_schedule_others }
count_schedule task_cancel c = record c { n_task_schedule_cancel = bump c.n_task_schedule_cancel }
count_schedule task_yield c = record c { n_task_schedule_yield = bump c.n_task_schedule_yield }
count_schedule task_complete c = record c {
  n_task_schedule_complete = bump c.n_task_schedule_complete;
}
count_schedule other_status c = c

-- The scheduling point that the callback builds is a local that nothing reads.
unfoldable pub on_task_schedule : Runtime → ℕ → TaskStatus → ℕ → Tool → Option Tool
on_task_schedule rt first_task_data prior_task_status second_task_data s = do
  first_task_id ← load first_task_data s
  second_task_id ← load second_task_data s
  thread_id ← get_own_data rt.thread_data s
  some (tally (count_schedule prior_task_status) s)

-- `ompt_sync_region_kind_t`, with any value that the code does not name.
pub data SyncRegionKind : Type 0 where
  barrier taskwait taskgroup other_kind : SyncRegionKind

unfoldable pub count_sync_region : ScopeEndpoint → SyncRegionKind → Counters → Counters
count_sync_region scope_begin barrier c = record c {
  n_task_sync_region_begin_barrier = bump c.n_task_sync_region_begin_barrier;
}
count_sync_region scope_begin taskwait c = record c {
  n_task_sync_region_begin_taskwait = bump c.n_task_sync_region_begin_taskwait;
}
count_sync_region scope_begin taskgroup c = record c {
  n_task_sync_region_begin_taskgroup = bump c.n_task_sync_region_begin_taskgroup;
}
count_sync_region scope_end barrier c = record c {
  n_task_sync_region_end_barrier = bump c.n_task_sync_region_end_barrier;
}
count_sync_region scope_end taskwait c = record c {
  n_task_sync_region_end_taskwait = bump c.n_task_sync_region_end_taskwait;
}
count_sync_region scope_end taskgroup c = record c {
  n_task_sync_region_end_taskgroup = bump c.n_task_sync_region_end_taskgroup;
}
count_sync_region _ _ c = c

-- What a taskwait does besides counting.
unfoldable pub enter_taskwait : Runtime → ℕ → Tool → Option Tool
enter_taskwait rt task_data s = do
  task_id ← load task_data s
  thread_id ← get_own_data rt.thread_data s
  td ← handle_taskwait_dependences task_id s.tool_data
  some (record s { tool_data = td })

unfoldable pub leave_taskwait : Runtime → ℕ → Tool → Option Tool
leave_taskwait rt task_data s = do
  task_id ← load task_data s
  thread_id ← get_own_data rt.thread_data s
  some s

unfoldable pub act_sync_region : Runtime → SyncRegionKind → ScopeEndpoint → ℕ → Tool → Option Tool
act_sync_region rt taskwait scope_begin task_data s = enter_taskwait rt task_data s
act_sync_region rt taskwait scope_end task_data s = leave_taskwait rt task_data s
act_sync_region rt _ _ task_data s = some s

unfoldable pub on_sync_region : Runtime → SyncRegionKind → ScopeEndpoint → ℕ → Tool → Option Tool
unfolding count_sync_region
on_sync_region rt kind endpoint task_data s0 =
    let s1 = tally (λ c. record c { n_task_sync_region = bump c.n_task_sync_region }) s0 in
    act_sync_region rt kind endpoint task_data (tally (count_sync_region endpoint kind) s1)

unfoldable pub count_sync_region_wait : ScopeEndpoint → SyncRegionKind → Counters → Counters
count_sync_region_wait scope_begin barrier c = record c {
  n_task_sync_region_wait_begin_barrier = bump c.n_task_sync_region_wait_begin_barrier;
}
count_sync_region_wait scope_begin taskwait c = record c {
  n_task_sync_region_wait_begin_taskwait = bump c.n_task_sync_region_wait_begin_taskwait;
}
count_sync_region_wait scope_begin taskgroup c = record c {
  n_task_sync_region_wait_begin_taskgroup = bump c.n_task_sync_region_wait_begin_taskgroup;
}
count_sync_region_wait scope_end barrier c = record c {
  n_task_sync_region_wait_end_barrier = bump c.n_task_sync_region_wait_end_barrier;
}
count_sync_region_wait scope_end taskwait c = record c {
  n_task_sync_region_wait_end_taskwait = bump c.n_task_sync_region_wait_end_taskwait;
}
count_sync_region_wait scope_end taskgroup c = record c {
  n_task_sync_region_wait_end_taskgroup = bump c.n_task_sync_region_wait_end_taskgroup;
}
count_sync_region_wait _ _ c = c

unfoldable pub on_sync_region_wait : SyncRegionKind → ScopeEndpoint → Tool → Tool
unfolding count_sync_region_wait
on_sync_region_wait kind endpoint s0 =
    let s1 =
      tally (λ c. record c { n_task_sync_region_wait = bump c.n_task_sync_region_wait }) s0 in
    tally (count_sync_region_wait endpoint kind) s1
