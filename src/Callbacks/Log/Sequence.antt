-- ===== src/Callbacks/Log/Sequence.antt =====
-- A run of the callbacks of src/callbacks.hpp in which a thread creates two tasks, of which the second
-- reads what the first writes.
use ompt_dependency_tracker.Base.{◌≡◌, refl, List, [], ◌∷◌, arith}
use ompt_dependency_tracker.Base.{some}
use ompt_dependency_tracker.Table.{find, insert, append_to}
use ompt_dependency_tracker.Task.{new_task, add_child}
use ompt_dependency_tracker.ToolData.{register_task, allocate_task, add_to_parent, modify_task}
use ompt_dependency_tracker.ToolData.Registry.{Known}
use ompt_dependency_tracker.Dependences.{
  TaskDependence, handle_dependences, handle_dependence, handle_in_dependence,
  handle_out_dependence, depend_on, add_dependences,
}
use ompt_dependency_tracker.Callbacks.State.{Tool, loaded, store, get_own_data}
use ompt_dependency_tracker.Callbacks.Handlers.{
  on_task_create, on_thread_begin, on_task_dependences,
}
use ompt_dependency_tracker.Callbacks.Events.{
  Event, thread_begin, task_create, task_dependences, step,
}
use ompt_dependency_tracker.Callbacks.Creation.{Apart}
use ompt_dependency_tracker.Callbacks.Invariant.{AllPromised}
use ompt_dependency_tracker.Callbacks.Examples.{
  rt, memory, begun, begun-thread, created, thread_begins, task_is_created, creating_first,
  AllPromised-cons, or_else,
}
use ompt_dependency_tracker.Callbacks.Log.{Fact, made, accessed, log}
use ompt_dependency_tracker.Callbacks.Log.Order.{IsInOrder}

abbrev reads : TaskDependence
reads = record { variable_addr = 8; dependence_flags = 2 }

abbrev writes : TaskDependence
writes = record { variable_addr = 8; dependence_flags = 3 }

-- Task 0 writes the address 8, and task 1 reads it.
abbrev last_event : List Event
last_event = task_dependences 4 (reads ∷ []) ∷ []

abbrev second_task : List Event
second_task = task_create rt 0 4 1 200 ∷ last_event

abbrev first_announces : List Event
first_announces = task_dependences 3 (writes ∷ []) ∷ second_task

abbrev first_task : List Event
first_task = task_create rt 0 3 1 100 ∷ first_announces

abbrev pub in_sequence : List Event
in_sequence = thread_begin 1 ∷ first_task

abbrev written : Tool
written = or_else (on_task_dependences 3 (writes ∷ []) created) created

abbrev both_created : Tool
both_created = or_else (on_task_create rt 0 4 1 200 written) written

writes_are_announced : step (task_dependences 3 (writes ∷ [])) created ≡ some written
unfolding step on_task_create on_task_dependences new_task store get_own_data register_task
    allocate_task add_to_parent find insert modify_task add_child handle_dependences
    handle_dependence handle_in_dependence handle_out_dependence depend_on add_dependences append_to
writes_are_announced = refl

second_is_created : step (task_create rt 0 4 1 200) written ≡ some both_created
unfolding step on_task_create on_task_dependences new_task store get_own_data register_task
    allocate_task add_to_parent find insert modify_task add_child handle_dependences
    handle_dependence handle_in_dependence handle_out_dependence depend_on add_dependences append_to
second_is_created = refl

first-Known : Known created.tool_data.id_to_task (created.words 3)
unfolding on_task_create new_task store get_own_data register_task allocate_task add_to_parent find
    insert modify_task add_child
first-Known = (0, refl)

written-thread : get_own_data 1 written ≡ some 0
unfolding on_task_create on_task_dependences new_task store get_own_data register_task allocate_task
    add_to_parent find insert modify_task add_child handle_dependences handle_dependence
    handle_in_dependence handle_out_dependence depend_on add_dependences append_to
written-thread = refl

second-Known : Known both_created.tool_data.id_to_task (both_created.words 4)
unfolding on_task_create on_task_dependences new_task store get_own_data register_task allocate_task
    add_to_parent find insert modify_task add_child handle_dependences handle_dependence
    handle_in_dependence handle_out_dependence depend_on add_dependences append_to
second-Known = (1, refl)

creating_second : Apart rt 0 4
creating_second = record {
  new_set = ground arith;
  region_set = ground arith;
  new_thread = ground arith;
  region_thread = ground arith;
  region_new = ground arith;
  new_encountering = ground arith;
  region_encountering = ground arith;
}

pub in_sequence-AllPromised : AllPromised in_sequence (loaded memory)
in_sequence-AllPromised = AllPromised-cons _ first_task _ begun (ground arith) thread_begins (
    AllPromised-cons _ first_announces _ created (creating_first, (0, begun-thread)) task_is_created
      (AllPromised-cons _ second_task _ written (ground arith, first-Known) writes_are_announced
        (AllPromised-cons _ last_event _ both_created (creating_second, (0, written-thread))
          second_is_created ((ground arith, second-Known), λ s' stepped. tt))))

abbrev pub facts : List Fact
facts = made 0 0 ∷ accessed 0 writes ∷ made 1 0 ∷ accessed 1 reads ∷ []

pub in_sequence-log : log in_sequence (loaded memory) ≡ facts
unfolding step on_thread_begin on_task_create on_task_dependences new_task store get_own_data
    register_task allocate_task add_to_parent find insert modify_task add_child handle_dependences
    handle_dependence handle_in_dependence handle_out_dependence depend_on add_dependences append_to
in_sequence-log = refl

pub facts-IsInOrder : IsInOrder [] facts
facts-IsInOrder = ground arith
