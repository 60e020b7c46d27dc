-- ===== src/Callbacks/Examples.antt =====
-- A run of the callbacks: a thread begins, creates the first task, and the task reaches a taskwait.
use ompt_dependency_tracker.Base.{
  ℕ, ◌≡◌, refl, sym, subst, ap, some, none, Option, ◌>>=◌, ◌==◌, if◌then◌else◌, ◌∙◌, List, [], ◌∷◌,
  Memᴰ, arith, Returns,
}
use ompt_dependency_tracker.Table.{bucket, find, insert}
use ompt_dependency_tracker.Task.{new_task, explicit}
use ompt_dependency_tracker.ToolData.{register_task, allocate_task, add_to_parent, modify_task}
use ompt_dependency_tracker.Dependences.{handle_taskwait_dependences}
use ompt_dependency_tracker.Callbacks.State.{Runtime, Tool, loaded, get_own_data, store}
use ompt_dependency_tracker.Callbacks.Handlers.{
  on_task_create, on_thread_begin, taskwait, scope_begin,
}
use ompt_dependency_tracker.Callbacks.Events.{
  Event, thread_begin, task_create, sync_region, step, run,
}
use ompt_dependency_tracker.Callbacks.Memory.{parent_id_of}
use ompt_dependency_tracker.Callbacks.Consistent.{Inv, loaded-Inv}
use ompt_dependency_tracker.Callbacks.Creation.{Apart, Creates, on_task_create-Creates}
use ompt_dependency_tracker.ToolData.Registration.{IsNumbered}
use ompt_dependency_tracker.Base.{◌%◌, length}
use ompt_dependency_tracker.Base.Word.{word_mod}
use ompt_dependency_tracker.Callbacks.Counted.{
  explicit_task_counter, task_sync_region_counter, value, seen,
}
use ompt_dependency_tracker.Callbacks.Counting.{run-counts, run-tasks}
use ompt_dependency_tracker.Callbacks.FirstTask.{first_task-waits_for_itself}
use ompt_dependency_tracker.Callbacks.Preserves.{Promised}
use ompt_dependency_tracker.ToolData.Untouched.{IsUntouched}
use ompt_dependency_tracker.Callbacks.Untouched.{run-IsUntouched}
use ompt_dependency_tracker.Callbacks.Invariant.{AllPromised, run-Inv}

-- Addresses of ompt_data_t objects: 1 of the thread, 2 of the parallel region, 3 of the task.
abbrev pub rt : Runtime
rt = record { thread_data = 1; parallel_data = 2; unique_id = 77; now = 1000; task_initial = 1 }

abbrev pub memory : ℕ → ℕ
memory a = 0

-- The tool once the thread has begun.
abbrev pub begun : Tool
begun = record (loaded memory) {
  counters = record (loaded memory).counters { n_thread_begin = 1 };
  next_id = 1;
  words = λ b. if 1 == b then 1 else memory b;
  own_data = 0 ∷ [];
}

pub begun-Inv : Inv begun
begun-Inv = record { consistent = (loaded-Inv memory).consistent; next = refl; counted = refl }

pub begun-thread : get_own_data 1 begun ≡ some 0
unfolding get_own_data
begun-thread = refl

pub creating_first : Apart rt 0 3
creating_first = record {
  new_set = ground arith;
  region_set = ground arith;
  new_thread = ground arith;
  region_thread = ground arith;
  region_new = ground arith;
  new_encountering = ground arith;
  region_encountering = ground arith;
}

on_task_create-Creates_example :
    Returns
      (on_task_create rt 0 3 1 100 begun)
      (Creates 3 (new_task 0 (parent_id_of 0 begun.words) 0 explicit 100 1000) begun)
on_task_create-Creates_example =
    on_task_create-Creates rt 0 3 1 100 0 begun creating_first begun-thread begun-Inv

first_task-waits_for_itself_example :
    Returns
      (on_task_create rt 0 3 1 100 begun >>= λ s'.
        handle_taskwait_dependences (s'.words 3) s'.tool_data)
      (λ td. Memᴰ 0 (bucket 0 td.dependences))
first_task-waits_for_itself_example =
    first_task-waits_for_itself rt 3 1 100 0 begun creating_first begun-thread begun-Inv refl

-- A taskwait of that task, after its creation.
abbrev pub events : List Event
events = thread_begin 1 ∷ task_create rt 0 3 1 100 ∷ sync_region rt taskwait scope_begin 3 ∷ []

abbrev pub or_else : Option Tool → Tool → Tool
or_else none s = s
or_else (some t) s = t

abbrev pub created : Tool
created = or_else (on_task_create rt 0 3 1 100 begun) begun

pub thread_begins : step (thread_begin 1) (loaded memory) ≡ some begun
unfolding step on_thread_begin
thread_begins = refl

pub task_is_created : step (task_create rt 0 3 1 100) begun ≡ some created
unfolding step on_task_create new_task store get_own_data register_task allocate_task add_to_parent
    find insert modify_task
task_is_created = refl

pub created-thread : get_own_data 1 created ≡ some 0
unfolding on_task_create new_task store get_own_data register_task allocate_task add_to_parent find
    insert modify_task
created-thread = refl

pub AllPromised-cons :
    (e : Event) (rest : List Event) (s t : Tool)
    → Promised e s
    → step e s ≡ some t
    → AllPromised rest t
    → AllPromised (e ∷ rest) s
AllPromised-cons e rest s t h stepped k =
    (h, λ s' other. subst (AllPromised rest) (ap (λ o. or_else o t) (sym stepped ∙ other)) k)

pub events-AllPromised : AllPromised events (loaded memory)
events-AllPromised =
    AllPromised-cons (thread_begin 1)
      (task_create rt 0 3 1 100 ∷ sync_region rt taskwait scope_begin 3 ∷ []) (loaded memory) begun
      (ground arith) thread_begins
      (AllPromised-cons (task_create rt 0 3 1 100) (sync_region rt taskwait scope_begin 3 ∷ [])
        begun created (creating_first, (0, begun-thread)) task_is_created
        ((ground arith, (0, created-thread)), λ s' stepped. tt))

run-Inv_example : Returns (run events (loaded memory)) Inv
run-Inv_example = run-Inv events memory events-AllPromised

run-counts_example : Returns (run events (loaded memory)) (λ s.
    value task_sync_region_counter s.counters ≡ seen task_sync_region_counter events % word_mod)
run-counts_example = run-counts task_sync_region_counter events memory events-AllPromised

run-tasks_example : Returns (run events (loaded memory)) (λ s.
    (length s.tool_data.tasks % word_mod ≡ seen explicit_task_counter events % word_mod)
    × IsNumbered s.tool_data)
run-tasks_example = run-tasks events memory events-AllPromised

run-IsUntouched_example : Returns (run events (loaded memory)) (λ s. IsUntouched s.tool_data)
run-IsUntouched_example = run-IsUntouched events memory events-AllPromised
