-- ===== src/Callbacks/Log/Examples.antt =====
-- A run of the callbacks of src/callbacks.hpp, against its log: task 0 is created as a child of task 0,
-- which is itself, and waits for its children.
use ompt_dependency_tracker.Base.{ℕ, ◌≡◌, refl, List, [], ◌∷◌, Returns}
use ompt_dependency_tracker.Table.{bucket, find, insert}
use ompt_dependency_tracker.Task.{new_task, add_child}
use ompt_dependency_tracker.ToolData.{register_task, allocate_task, add_to_parent, modify_task}
use ompt_dependency_tracker.Callbacks.State.{loaded, store, get_own_data}
use ompt_dependency_tracker.Callbacks.Handlers.{
  on_task_create, on_thread_begin, on_sync_region, act_sync_region, enter_taskwait,
}
use ompt_dependency_tracker.Callbacks.Events.{run, step}
use ompt_dependency_tracker.Callbacks.Examples.{memory, events, events-AllPromised}
use ompt_dependency_tracker.Dependences.{TaskDependence, handle_taskwait_dependences, wait_for}
use ompt_dependency_tracker.Callbacks.Log.{Fact, made, accessed, waited, log, expected, demand}
use ompt_dependency_tracker.Callbacks.Log.WholeRun.{run-expected}

run-expected_example :
    Returns
      (run events (loaded memory))
      (λ s. bucket 0 s.tool_data.dependences ≡ expected 0 [] (log events (loaded memory)))
run-expected_example = run-expected 0 events memory events-AllPromised

events-log : log events (loaded memory) ≡ made 0 0 ∷ waited 0 ∷ []
unfolding step on_task_create on_thread_begin new_task store get_own_data register_task
    allocate_task add_to_parent find insert modify_task on_sync_region act_sync_region
    enter_taskwait handle_taskwait_dependences wait_for add_child
events-log = refl

-- A parent, its child that writes an address, one that reads it, and the parent's taskwait.
abbrev writes : TaskDependence
writes = record { variable_addr = 64; dependence_flags = 3 }

abbrev reads : TaskDependence
reads = record { variable_addr = 64; dependence_flags = 2 }

abbrev facts : List Fact
facts = made 0 0 ∷ made 1 0 ∷ accessed 1 writes ∷ made 2 0 ∷ accessed 2 reads ∷ waited 0 ∷ []

writer-expected : expected 1 [] facts ≡ 2 ∷ 0 ∷ []
writer-expected = refl

reader-demand : demand 2 0 [] facts ≡ 1
reader-demand = refl

no_demand : demand 2 1 [] facts ≡ 0
no_demand = refl

-- The tasks of test/demo.cpp, under the ids of their creation: x = init(), y = f(x), z = g(x), and
-- finalize(y, z); and A() and B(), which g(x) creates and waits for. The single thread that creates
-- the four has no task object, so that 0 is taken for their parent.
abbrev demo : ℕ → ℕ → TaskDependence
demo variable flags = record { variable_addr = variable; dependence_flags = flags }

abbrev demo_facts : List Fact
demo_facts =
    made 0 0
    ∷ accessed 0 (demo 8 3)
    ∷ made 1 0
    ∷ accessed 1 (demo 8 2)
    ∷ accessed 1 (demo 16 3)
    ∷ made 2 0
    ∷ accessed 2 (demo 8 2)
    ∷ accessed 2 (demo 24 3)
    ∷ made 3 0
    ∷ accessed 3 (demo 16 2)
    ∷ accessed 3 (demo 24 2)
    ∷ made 4 2
    ∷ made 5 2
    ∷ waited 2
    ∷ []

from_x : expected 0 [] demo_facts ≡ 1 ∷ 2 ∷ []
from_x = refl

from_y : expected 1 [] demo_facts ≡ 3 ∷ []
from_y = refl

from_a : expected 4 [] demo_facts ≡ 2 ∷ []
from_a = refl
