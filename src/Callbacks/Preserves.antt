-- ===== src/Callbacks/Preserves.antt =====
-- The callbacks of src/callbacks.hpp one by one, under what the runtime promises of each.
use ompt_dependency_tracker.Base.{
  ℕ, zero, suc, ◌%◌, ◌≡◌, ◌≢◌, refl, sym, ◌∙◌, List, arith, length, Returns, Returns-map,
  Returns->>=, ap,
}
use ompt_dependency_tracker.Base.Word.{word_mod, bump}
use ompt_dependency_tracker.Counters.{Counters}
use ompt_dependency_tracker.Dependences.{TaskDependence, handle_taskwait_dependences}
use ompt_dependency_tracker.Dependences.Frame.{handle_dependences-SameRegistry}
use ompt_dependency_tracker.Task.{Task}
use ompt_dependency_tracker.ToolData.Registry.{Known}
use ompt_dependency_tracker.Callbacks.State.{Runtime, Tool, store, tally}
use ompt_dependency_tracker.Callbacks.Memory.{HasThread, load-some, get_own_data-same}
use ompt_dependency_tracker.Callbacks.Handlers.{
  ScopeEndpoint, scope_begin, scope_end, other_endpoint, TaskStatus, SyncRegionKind, taskwait,
  on_thread_begin, on_thread_end, on_parallel_begin, on_task_create, on_task_dependences,
  on_task_schedule, on_sync_region, count_schedule, count_sync_region, count_sync_region_wait,
  act_sync_region, enter_taskwait, leave_taskwait,
}
use ompt_dependency_tracker.Callbacks.Events.{
  Event, thread_begin, thread_end, parallel_begin, task_create, task_dependences, task_schedule,
  sync_region,
}
use ompt_dependency_tracker.Callbacks.Creation.{Apart, Creates, on_task_create-Creates}
use ompt_dependency_tracker.Callbacks.Consistent.{
  Inv, handle_dependences-IsConsistent, handle_taskwait_dependences-IsConsistent,
}

-- What the runtime promises of a callback: pointers that the code follows are not NULL and are
-- pairwise apart, the calling thread has begun, and a task that announces its dependences was
-- created. An implicit task may reach a taskwait, of whatever id.
abbrev pub Promised : Event → Tool → Type 0
Promised (thread_begin thread_data) s = thread_data ≢ 0
Promised (thread_end rt) s = HasThread rt s
Promised (parallel_begin parallel_data) s = parallel_data ≢ 0
Promised (task_create rt encountering new_task_data type codeptr_ra) s =
    Apart rt encountering new_task_data × HasThread rt s
Promised (task_dependences task_data deps) s =
    (task_data ≢ 0) × Known s.tool_data.id_to_task (s.words task_data)
Promised (task_schedule rt first status second) s = (first ≢ 0) × (second ≢ 0) × HasThread rt s
Promised (sync_region rt taskwait endpoint task_data) s = (task_data ≢ 0) × HasThread rt s
Promised _ s = Unit {0}

-- A step that leaves the tool data, the ids and the count of tasks alone.
record SameTasks (s t : Tool) : Type 0 where
  tool_data : t.tool_data ≡ s.tool_data
  next_task_id : t.next_task_id ≡ s.next_task_id
  n_explicit_task : t.counters.n_explicit_task ≡ s.counters.n_explicit_task

SameTasks-Inv : (s t : Tool) → SameTasks s t → Inv s → Inv t
SameTasks-Inv s t same v = record {
  consistent = rw same.tool_data v.consistent;
  next = rw (same.next_task_id, same.tool_data) v.next;
  counted = same.n_explicit_task ∙ v.counted ∙ sym same.next_task_id;
}

pub thread_begin-Inv :
    (thread_data : ℕ) (s : Tool)
    → thread_data ≢ 0
    → Inv s
    → Returns (on_thread_begin thread_data s) Inv
unfolding on_thread_begin store
thread_begin-Inv zero s n v = absurd (n refl)
thread_begin-Inv (suc a) s n v = record {
  consistent = v.consistent;
  next = v.next;
  counted = v.counted;
}

pub thread_end-Inv :
    (rt : Runtime) (s : Tool) → HasThread rt s → Inv s → Returns (on_thread_end rt s) Inv
unfolding on_thread_end
thread_end-Inv rt s thread v =
    let s1 = tally (λ c. record c { n_thread_end = bump c.n_thread_end }) s in
    rw (get_own_data-same rt.thread_data s s1 refl refl, thread.1)
      (record { consistent = v.consistent; next = v.next; counted = v.counted })

pub parallel_begin-Inv :
    (parallel_data : ℕ) (s : Tool)
    → parallel_data ≢ 0
    → Inv s
    → Returns (on_parallel_begin parallel_data s) Inv
unfolding on_parallel_begin
parallel_begin-Inv parallel_data s n v =
    let s1 = tally (λ c. record c { n_parallel_begin = bump c.n_parallel_begin }) s in
    rw (load-some parallel_data s1 n)
      (record { consistent = v.consistent; next = v.next; counted = v.counted })

count_schedule_keeps :
    (status : TaskStatus) (c : Counters)
    → (count_schedule status c).n_explicit_task ≡ c.n_explicit_task
unfolding count_schedule
count_schedule_keeps status c = ground arith

pub schedule-Inv :
    (rt : Runtime) (first : ℕ) (status : TaskStatus) (second : ℕ) (s : Tool)
    → first ≢ 0
    → second ≢ 0
    → HasThread rt s
    → Inv s
    → Returns (on_task_schedule rt first status second s) Inv
unfolding on_task_schedule
schedule-Inv rt first status second s f g thread v =
    rw (load-some first s f, load-some second s g, thread.1)
      (record {
        consistent = v.consistent;
        next = v.next;
        counted = count_schedule_keeps status s.counters ∙ v.counted;
      })

pub dependences-Inv :
    (task_data : ℕ) (deps : List TaskDependence) (s : Tool)
    → task_data ≢ 0
    → Known s.tool_data.id_to_task (s.words task_data)
    → Inv s
    → Returns (on_task_dependences task_data deps s) Inv
unfolding on_task_dependences
dependences-Inv task_data deps s n known v =
    let s1 = tally (λ c. record c { n_task_dependences = bump c.n_task_dependences }) s in
    let same = handle_dependences-SameRegistry (s.words task_data) deps s.tool_data in
    rw (load-some task_data s1 n) (record {
      consistent =
          handle_dependences-IsConsistent (s.words task_data) deps s.tool_data known v.consistent;
      next = v.next ∙ ap (λ (ts : List Task). length ts % word_mod) (sym same.tasks);
      counted = v.counted;
    })

enter_taskwait-Inv :
    (rt : Runtime) (task_data : ℕ) (s : Tool)
    → task_data ≢ 0
    → HasThread rt s
    → Inv s
    → Returns (enter_taskwait rt task_data s) Inv
unfolding enter_taskwait
enter_taskwait-Inv rt task_data s n thread v =
    rw (load-some task_data s n, thread.1)
      (Returns->>= _ Inv (handle_taskwait_dependences (s.words task_data) s.tool_data) _
        (λ td (c, same). record {
          consistent = c;
          next = v.next ∙ ap (λ (ts : List Task). length ts % word_mod) (sym same.tasks);
          counted = v.counted;
        })
        (handle_taskwait_dependences-IsConsistent (s.words task_data) s.tool_data v.consistent))

leave_taskwait-Inv :
    (rt : Runtime) (task_data : ℕ) (s : Tool)
    → task_data ≢ 0
    → HasThread rt s
    → Inv s
    → Returns (leave_taskwait rt task_data s) Inv
unfolding leave_taskwait
leave_taskwait-Inv rt task_data s n thread v = rw (load-some task_data s n, thread.1) v

act_sync_region-Inv :
    (rt : Runtime) (kind : SyncRegionKind) (endpoint : ScopeEndpoint) (task_data : ℕ) (s : Tool)
    → Promised (sync_region rt kind endpoint task_data) s
    → Inv s
    → Returns (act_sync_region rt kind endpoint task_data s) Inv
unfolding act_sync_region
act_sync_region-Inv rt taskwait scope_begin task_data s (n, thread) v =
    enter_taskwait-Inv rt task_data s n thread v
act_sync_region-Inv rt taskwait scope_end task_data s (n, thread) v =
    leave_taskwait-Inv rt task_data s n thread v
act_sync_region-Inv rt taskwait other_endpoint task_data s h v = v
act_sync_region-Inv rt _ endpoint task_data s h v = v

pub count_sync_region_keeps :
    (endpoint : ScopeEndpoint) (kind : SyncRegionKind) (c : Counters)
    → (count_sync_region endpoint kind c).n_explicit_task ≡ c.n_explicit_task
unfolding count_sync_region
count_sync_region_keeps endpoint kind c = ground arith

pub count_sync_region_wait_keeps :
    (endpoint : ScopeEndpoint) (kind : SyncRegionKind) (c : Counters)
    → (count_sync_region_wait endpoint kind c).n_explicit_task ≡ c.n_explicit_task
unfolding count_sync_region_wait
count_sync_region_wait_keeps endpoint kind c = ground arith

pub Promised-same :
    (rt : Runtime) (kind : SyncRegionKind) (endpoint : ScopeEndpoint) (task_data : ℕ) (s t : Tool)
    → t.words ≡ s.words
    → t.own_data ≡ s.own_data
    → Promised (sync_region rt kind endpoint task_data) s
    → Promised (sync_region rt kind endpoint task_data) t
Promised-same rt taskwait endpoint task_data s t w o (n, (own, thread)) =
    (n, (own, get_own_data-same rt.thread_data s t (ap (λ f. f rt.thread_data) w) o ∙ thread))
Promised-same rt _ endpoint task_data s t w o h = tt

pub sync_region-Inv :
    (rt : Runtime) (kind : SyncRegionKind) (endpoint : ScopeEndpoint) (task_data : ℕ) (s : Tool)
    → Promised (sync_region rt kind endpoint task_data) s
    → Inv s
    → Returns (on_sync_region rt kind endpoint task_data s) Inv
unfolding on_sync_region
sync_region-Inv rt kind endpoint task_data s h v =
    act_sync_region-Inv rt kind endpoint task_data s1
      (Promised-same rt kind endpoint task_data s s1 refl refl h)
      (record {
        consistent = v.consistent;
        next = v.next;
        counted = count_sync_region_keeps endpoint kind _ ∙ v.counted;
      })
  where
    s1 : Tool
    s1 =
        tally (count_sync_region endpoint kind)
          (tally (λ c. record c { n_task_sync_region = bump c.n_task_sync_region }) s)

pub create-Inv :
    (rt : Runtime) (encountering new_data type codeptr : ℕ) (s : Tool)
    → Promised (task_create rt encountering new_data type codeptr) s
    → Inv s
    → Returns (on_task_create rt encountering new_data type codeptr s) Inv
create-Inv rt encountering new_data type codeptr s (apart, (own, thread)) v =
    Returns-map (Creates new_data _ s) Inv (on_task_create rt encountering new_data type codeptr s)
      (λ s' c. c.inv)
      (on_task_create-Creates rt encountering new_data type codeptr own s apart thread v)
