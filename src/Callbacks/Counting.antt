-- ===== src/Callbacks/Counting.antt =====
-- The counters of src/dependency_tracker.cpp over whole runs.
use ompt_dependency_tracker.Base.{
  ℕ, ◌+◌, ◌%◌, ◌<◌, if◌then◌else◌, ◌≡◌, sym, ◌∙◌, ap, Option, List, [], ◌∷◌, arith, Returns, length,
}
use ompt_dependency_tracker.Base.Word.{word_mod, bump}
use ompt_dependency_tracker.Counters.{Counters, no_events}
use ompt_dependency_tracker.ToolData.Registration.{IsNumbered}
use ompt_dependency_tracker.Callbacks.State.{Runtime, Tool, loaded, load, get_own_data}
use ompt_dependency_tracker.Callbacks.Handlers.{
  SyncRegionKind, ScopeEndpoint, TaskStatus, on_thread_begin, on_thread_end, on_parallel_begin,
  on_parallel_end, on_task_create, on_implicit_task, on_task_dependences, on_task_dependence,
  on_task_schedule, on_sync_region, on_sync_region_wait, count_schedule, count_sync_region,
  count_sync_region_wait,
}
use ompt_dependency_tracker.Callbacks.Events.{
  Event, thread_begin, thread_end, parallel_begin, parallel_end, task_create, implicit_task,
  task_dependences, task_dependence, task_schedule, sync_region, sync_region_wait, step, run,
}
use ompt_dependency_tracker.Callbacks.Consistent.{Inv}
use ompt_dependency_tracker.Callbacks.Invariant.{AllPromised, run-Inv}
use ompt_dependency_tracker.Callbacks.Counted.{Counter, explicit_task_counter, value, counts, seen}
use ompt_dependency_tracker.Base.{
  IfReturns, IfReturns->>=, IfReturns-read, IfReturns-map, Returns-both,
}
use ompt_dependency_tracker.Callbacks.Counts.{
  Counts, on_thread_begin-Counts, on_task_create-Counts, act_sync_region-Counts,
}

-- The counter k after the callback e.
abbrev Advances : Counter → Event → Counters → Counters → Type 0
Advances k e c c' = value k c' ≡ (if counts k e then bump (value k c) else value k c)

schedule-Advances :
    (k : Counter) (rt : Runtime) (first : ℕ) (status : TaskStatus) (second : ℕ) (c : Counters)
    → Advances k (task_schedule rt first status second) c (count_schedule status c)
unfolding count_schedule
schedule-Advances k rt first status second c = ground arith

sync_region-Advances :
    (k : Counter) (rt : Runtime) (kind : SyncRegionKind) (endpoint : ScopeEndpoint) (a : ℕ)
    (c : Counters)
    → Advances k (sync_region rt kind endpoint a) c (
        count_sync_region endpoint kind
          (record c { n_task_sync_region = bump c.n_task_sync_region }))
unfolding count_sync_region
sync_region-Advances k rt kind endpoint a c = ground arith

sync_region_wait-Advances :
    (k : Counter) (kind : SyncRegionKind) (endpoint : ScopeEndpoint) (c : Counters)
    → Advances k (sync_region_wait kind endpoint) c (
        count_sync_region_wait endpoint kind
          (record c { n_task_sync_region_wait = bump c.n_task_sync_region_wait }))
unfolding count_sync_region_wait
sync_region_wait-Advances k kind endpoint c = ground arith

-- A callback that leaves the counters c, which are right, advances the counters.
Counts-Advances :
    (k : Counter) (e : Event) (s : Tool) (c : Counters) (m : Option Tool)
    → Advances k e s.counters c
    → IfReturns m (Counts c)
    → IfReturns m (λ s'. Advances k e s.counters s'.counters)
Counts-Advances k e s c m right =
    IfReturns-map (Counts c) _ m (λ s' same. ap (value k) same ∙ right)

step-Advances :
    (k : Counter) (e : Event) (s : Tool)
    → IfReturns (step e s) (λ s'. Advances k e s.counters s'.counters)
unfolding step on_thread_end on_parallel_begin on_parallel_end on_implicit_task on_task_dependences
    on_task_dependence on_task_schedule on_sync_region on_sync_region_wait
step-Advances k (thread_begin a) s =
    Counts-Advances k (thread_begin a) s _ (on_thread_begin a s) (ground arith)
      (on_thread_begin-Counts a s)
step-Advances k (thread_end rt) s =
    IfReturns-read (λ s'. Advances k (thread_end rt) s.counters s'.counters)
      (get_own_data rt.thread_data _) _ (λ tid. ground arith)
step-Advances k (parallel_begin a) s =
    IfReturns-read (λ s'. Advances k (parallel_begin a) s.counters s'.counters) (load a _) _
      (λ ptr. ground arith)
step-Advances k parallel_end s = ground arith
step-Advances k (task_create rt encountering new_data type codeptr) s =
    Counts-Advances k (task_create rt encountering new_data type codeptr) s _
      (on_task_create rt encountering new_data type codeptr s) (ground arith)
      (on_task_create-Counts rt encountering new_data type codeptr s)
step-Advances k (implicit_task endpoint) s = ground arith
step-Advances k (task_dependences a deps) s =
    IfReturns-read (λ s'. Advances k (task_dependences a deps) s.counters s'.counters) (load a _) _
      (λ id. ground arith)
step-Advances k task_dependence s = ground arith
step-Advances k (task_schedule rt first status second) s =
    let Q =
      λ (s' : Tool). Advances k (task_schedule rt first status second) s.counters s'.counters in
    IfReturns-read Q (load first s) _ (λ f. IfReturns-read Q (load second s) _ (λ g.
      IfReturns-read Q (get_own_data rt.thread_data s) _
        (λ tid. schedule-Advances k rt first status second s.counters)))
step-Advances k (sync_region rt kind endpoint a) s =
    Counts-Advances k (sync_region rt kind endpoint a) s _ (on_sync_region rt kind endpoint a s)
      (sync_region-Advances k rt kind endpoint a s.counters)
      (act_sync_region-Counts rt kind endpoint a _)
step-Advances k (sync_region_wait kind endpoint) s =
    sync_region_wait-Advances k kind endpoint s.counters

run-seen :
    (k : Counter) (events : List Event) (s : Tool)
    → value k s.counters < word_mod
    → IfReturns
        (run events s)
        (λ s'. value k s'.counters ≡ (seen k events + value k s.counters) % word_mod)
unfolding run
run-seen k [] s small = omega arith
run-seen k (e ∷ events) s small =
    IfReturns->>= (λ s'. Advances k e s.counters s'.counters) _ (step e s) (run events)
      (step-Advances k e s)
      (λ s' advanced.
        IfReturns-map _ _ (run events s') (λ s'' counted. counted ∙ sum s' advanced)
          (run-seen k events s' (ground arith)))
  where
    sum :
        (s' : Tool)
        → Advances k e s.counters s'.counters
        → (seen k events + value k s'.counters) % word_mod
          ≡ (seen k (e ∷ events) + value k s.counters) % word_mod
    sum s' advanced = ground arith

run-loaded-seen :
    (k : Counter) (events : List Event) (words : ℕ → ℕ)
    → IfReturns (run events (loaded words)) (λ s. value k s.counters ≡ seen k events % word_mod)
run-loaded-seen k events words =
    IfReturns-map _ _ (run events (loaded words)) (λ s counted. counted ∙ start)
      (run-seen k events (loaded words) (ground arith))
  where
    start : (seen k events + value k no_events) % word_mod ≡ seen k events % word_mod
    start = ground arith

-- From loading on, after any run of callbacks under the runtime's promises, each of the 27 counters
-- holds the number of the callbacks of its kind in the run, modulo 2^64.
pub run-counts :
    (k : Counter) (events : List Event) (words : ℕ → ℕ)
    → AllPromised events (loaded words)
    → Returns (run events (loaded words)) (λ s. value k s.counters ≡ seen k events % word_mod)
run-counts k events words h =
    Returns-both Inv _ _ (run events (loaded words)) (λ s v c. c) (run-Inv events words h)
      (run-loaded-seen k events words)

-- From loading on, after any run of callbacks under the runtime's promises, as many tasks exist as
-- there were task_create callbacks, modulo 2^64, and each is registered under its number until the
-- numbers wrap.
pub run-tasks :
    (events : List Event) (words : ℕ → ℕ)
    → AllPromised events (loaded words)
    → Returns (run events (loaded words)) (λ s.
      (length s.tool_data.tasks % word_mod ≡ seen explicit_task_counter events % word_mod)
      × IsNumbered s.tool_data)
run-tasks events words h =
    Returns-both Inv _ _ (run events (loaded words))
      (λ s v c. (sym (v.counted ∙ v.next) ∙ c, v.consistent.numbered)) (run-Inv events words h)
      (run-loaded-seen explicit_task_counter events words)
