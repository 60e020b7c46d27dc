-- ===== src/Callbacks/Log/Steps.antt =====
-- Single callbacks of src/callbacks.hpp, against the log.
use ompt_dependency_tracker.Base.{
  ℕ, zero, suc, ◌≡◌, ◌≢◌, refl, subst, ◌∙◌, List, Returns, Returns-map, Returns->>=,
}
use ompt_dependency_tracker.Base.Word.{bump}
use ompt_dependency_tracker.Dependences.{TaskDependence, handle_taskwait_dependences}
use ompt_dependency_tracker.Callbacks.State.{Runtime, Tool, store, tally}
use ompt_dependency_tracker.Task.{new_task, explicit}
use ompt_dependency_tracker.Callbacks.Memory.{HasThread, parent_id_of, load-some, get_own_data-same}
use ompt_dependency_tracker.Callbacks.Handlers.{
  ScopeEndpoint, scope_begin, scope_end, other_endpoint, TaskStatus, SyncRegionKind, taskwait,
  on_thread_begin, on_thread_end, on_parallel_begin, on_parallel_end, on_implicit_task,
  on_task_create, on_task_dependences, on_task_dependence, on_task_schedule, on_sync_region,
  on_sync_region_wait, count_sync_region, act_sync_region, enter_taskwait, leave_taskwait,
}
use ompt_dependency_tracker.Callbacks.Events.{
  Event, thread_begin, thread_end, parallel_begin, parallel_end, task_create, implicit_task,
  task_dependences, task_dependence, task_schedule, sync_region, sync_region_wait, step,
}
use ompt_dependency_tracker.Callbacks.Creation.{Creates, on_task_create-Creates}
use ompt_dependency_tracker.Callbacks.Consistent.{Inv}
use ompt_dependency_tracker.Callbacks.Preserves.{Promised, Promised-same, count_sync_region_keeps}
use ompt_dependency_tracker.Callbacks.Log.{Fact, observe}
use ompt_dependency_tracker.Callbacks.Log.Facts.{Logged, Heeds, Heeds-nil}
use ompt_dependency_tracker.Callbacks.Log.Handled.{
  handle_dependences-Heeds, handle_taskwait_dependences-Heeds,
}
use ompt_dependency_tracker.Callbacks.Log.Created.{Registers-Heeds}

-- What a callback must do to the tool data.
abbrev pub Follows : List Fact → Event → Tool → Tool → Type 0
Follows past e s s' = Heeds past (observe e s) s.tool_data s'.tool_data

module _ (past : List Fact) where
  thread_begin-Follows :
      (thread_data : ℕ) (s : Tool)
      → thread_data ≢ 0
      → Logged past s.tool_data
      → Returns (on_thread_begin thread_data s) (Follows past (thread_begin thread_data) s)
  unfolding on_thread_begin store
  thread_begin-Follows zero s n l = absurd (n refl)
  thread_begin-Follows (suc a) s n l = Heeds-nil past s.tool_data l

  thread_end-Follows :
      (rt : Runtime) (s : Tool)
      → HasThread rt s
      → Logged past s.tool_data
      → Returns (on_thread_end rt s) (Follows past (thread_end rt) s)
  unfolding on_thread_end
  thread_end-Follows rt s thread l =
      let s1 = tally (λ c. record c { n_thread_end = bump c.n_thread_end }) s in
      rw (get_own_data-same rt.thread_data s s1 refl refl, thread.1) (Heeds-nil past s.tool_data l)

  parallel_begin-Follows :
      (parallel_data : ℕ) (s : Tool)
      → parallel_data ≢ 0
      → Logged past s.tool_data
      → Returns (on_parallel_begin parallel_data s) (Follows past (parallel_begin parallel_data) s)
  unfolding on_parallel_begin
  parallel_begin-Follows parallel_data s n l =
      let s1 = tally (λ c. record c { n_parallel_begin = bump c.n_parallel_begin }) s in
      rw (load-some parallel_data s1 n) (Heeds-nil past s.tool_data l)

  schedule-Follows :
      (rt : Runtime) (first : ℕ) (status : TaskStatus) (second : ℕ) (s : Tool)
      → first ≢ 0
      → second ≢ 0
      → HasThread rt s
      → Logged past s.tool_data
      → Returns
          (on_task_schedule rt first status second s)
          (Follows past (task_schedule rt first status second) s)
  unfolding on_task_schedule
  schedule-Follows rt first status second s f g thread l =
      rw (load-some first s f, load-some second s g, thread.1) (Heeds-nil past s.tool_data l)

  dependences-Follows :
      (task_data : ℕ) (deps : List TaskDependence) (s : Tool)
      → task_data ≢ 0
      → Logged past s.tool_data
      → Returns
          (on_task_dependences task_data deps s)
          (Follows past (task_dependences task_data deps) s)
  unfolding on_task_dependences
  dependences-Follows task_data deps s n l =
      let s1 = tally (λ c. record c { n_task_dependences = bump c.n_task_dependences }) s in
      rw (load-some task_data s1 n)
        (handle_dependences-Heeds (s.words task_data) deps past s.tool_data l)

  create-Follows :
      (rt : Runtime) (encountering new_data type codeptr : ℕ) (s : Tool)
      → Promised (task_create rt encountering new_data type codeptr) s
      → Inv s
      → Logged past s.tool_data
      → Returns
          (on_task_create rt encountering new_data type codeptr s)
          (Follows past (task_create rt encountering new_data type codeptr) s)
  unfolding new_task
  create-Follows rt encountering new_data type codeptr s (apart, (own, thread)) v l =
      let t =
        new_task s.next_task_id (parent_id_of encountering s.words) own explicit codeptr rt.now in
      Returns-map (Creates new_data t s) _ (on_task_create rt encountering new_data type codeptr s)
        (λ s' c.
          Registers-Heeds t past s.tool_data s'.tool_data v.consistent.valid c.inv.consistent.valid
            l c.registers refl)
        (on_task_create-Creates rt encountering new_data type codeptr own s apart thread v)

  -- What a callback at a sync region reports hangs on the memory alone.
  observe-same :
      (rt : Runtime) (kind : SyncRegionKind) (endpoint : ScopeEndpoint) (task_data : ℕ) (s t : Tool)
      → t.words ≡ s.words
      → observe (sync_region rt kind endpoint task_data) t
        ≡ observe (sync_region rt kind endpoint task_data) s
  observe-same rt taskwait scope_begin task_data s t w = rw w refl
  observe-same rt taskwait scope_end task_data s t w = refl
  observe-same rt taskwait other_endpoint task_data s t w = refl
  observe-same rt _ endpoint task_data s t w = refl

  act_sync_region-Follows :
      (rt : Runtime) (kind : SyncRegionKind) (endpoint : ScopeEndpoint) (task_data : ℕ) (s : Tool)
      → Promised (sync_region rt kind endpoint task_data) s
      → Inv s
      → Logged past s.tool_data
      → Returns
          (act_sync_region rt kind endpoint task_data s)
          (Follows past (sync_region rt kind endpoint task_data) s)
  unfolding act_sync_region enter_taskwait leave_taskwait
  act_sync_region-Follows rt taskwait scope_begin task_data s (n, thread) v l =
      rw (load-some task_data s n, thread.1)
        (Returns->>= _ _ (handle_taskwait_dependences (s.words task_data) s.tool_data) _ (λ td h. h)
          (handle_taskwait_dependences-Heeds (s.words task_data) past s.tool_data v.consistent.valid
            v.consistent.closed l))
  act_sync_region-Follows rt taskwait scope_end task_data s (n, thread) v l =
      rw (load-some task_data s n, thread.1) (Heeds-nil past s.tool_data l)
  act_sync_region-Follows rt taskwait other_endpoint task_data s h v l =
      Heeds-nil past s.tool_data l
  act_sync_region-Follows rt _ endpoint task_data s h v l = Heeds-nil past s.tool_data l

  sync_region-Follows :
      (rt : Runtime) (kind : SyncRegionKind) (endpoint : ScopeEndpoint) (task_data : ℕ) (s : Tool)
      → Promised (sync_region rt kind endpoint task_data) s
      → Inv s
      → Logged past s.tool_data
      → Returns
          (on_sync_region rt kind endpoint task_data s)
          (Follows past (sync_region rt kind endpoint task_data) s)
  unfolding on_sync_region
  sync_region-Follows rt kind endpoint task_data s h v l =
      Returns-map _ _ (act_sync_region rt kind endpoint task_data s1)
        (λ s' k.
          subst (λ facts. Heeds past facts s.tool_data s'.tool_data)
            (observe-same rt kind endpoint task_data s s1 refl) k)
        (act_sync_region-Follows rt kind endpoint task_data s1
          (Promised-same rt kind endpoint task_data s s1 refl refl h) v1 l)
    where
      s1 : Tool
      s1 =
          tally (count_sync_region endpoint kind)
            (tally (λ c. record c { n_task_sync_region = bump c.n_task_sync_region }) s)

      v1 : Inv s1
      v1 = record {
        consistent = v.consistent;
        next = v.next;
        counted = count_sync_region_keeps endpoint kind _ ∙ v.counted;
      }

  -- A callback of which the runtime keeps its promises does what its facts call for.
  pub step-Follows :
      (e : Event) (s : Tool)
      → Promised e s
      → Inv s
      → Logged past s.tool_data
      → Returns (step e s) (Follows past e s)
  unfolding step on_parallel_end on_implicit_task on_task_dependence on_sync_region_wait
  step-Follows (thread_begin thread_data) s h v l = thread_begin-Follows thread_data s h l
  step-Follows (thread_end rt) s h v l = thread_end-Follows rt s h l
  step-Follows (parallel_begin parallel_data) s h v l = parallel_begin-Follows parallel_data s h l
  step-Follows parallel_end s h v l = Heeds-nil past s.tool_data l
  step-Follows (task_create rt encountering new_data type codeptr) s h v l =
      create-Follows rt encountering new_data type codeptr s h v l
  step-Follows (implicit_task scope_begin) s h v l = Heeds-nil past s.tool_data l
  step-Follows (implicit_task scope_end) s h v l = Heeds-nil past s.tool_data l
  step-Follows (implicit_task other_endpoint) s h v l = Heeds-nil past s.tool_data l
  step-Follows (task_dependences task_data deps) s (n, known) v l =
      dependences-Follows task_data deps s n l
  step-Follows task_dependence s h v l = Heeds-nil past s.tool_data l
  step-Follows (task_schedule rt first status second) s (f, g, thread) v l =
      schedule-Follows rt first status second s f g thread l
  step-Follows (sync_region rt kind endpoint task_data) s h v l =
      sync_region-Follows rt kind endpoint task_data s h v l
  step-Follows (sync_region_wait kind endpoint) s h v l = Heeds-nil past s.tool_data l
