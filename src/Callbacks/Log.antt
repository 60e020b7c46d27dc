-- ===== src/Callbacks/Log.antt =====
-- What the callbacks of src/callbacks.hpp report, as a log of facts about task ids, and the
-- dependences that such a log calls for. It is a specification: nothing of it is in the source.
pub mod Facts
pub mod Handled
pub mod Born
pub mod Created
pub mod Steps
pub mod WholeRun
pub mod Order
pub mod Sequence
mod Examples
use ompt_dependency_tracker.Base.{
  ℕ, ◌+◌, ◌==◌, if◌then◌else◌, Bool, false, ◌&&◌, ◌||◌, none, some, List, [], ◌∷◌, ◌++◌, map,
  replicate,
}
use ompt_dependency_tracker.Dependences.{TaskDependence}
use ompt_dependency_tracker.Dependences.History.{Access, clashes}
use ompt_dependency_tracker.Callbacks.State.{Tool}
use ompt_dependency_tracker.Callbacks.Handlers.{scope_begin, taskwait}
use ompt_dependency_tracker.Callbacks.Memory.{parent_id_of}
use ompt_dependency_tracker.Callbacks.Events.{
  Event, task_create, task_dependences, sync_region, step,
}

-- A task was created, with its parent's id; a task announced an access; a task reached a taskwait.
pub data Fact : Type 0 where
  made : ℕ → ℕ → Fact
  accessed : ℕ → TaskDependence → Fact
  waited : ℕ → Fact

-- What a callback reports, in the state that it meets.
abbrev pub observe : Event → Tool → List Fact
observe (task_create rt encountering new_data type codeptr) s =
    made s.next_task_id (parent_id_of encountering s.words) ∷ []
observe (task_dependences task_data deps) s = map (accessed (s.words task_data)) deps
observe (sync_region rt taskwait scope_begin task_data) s = waited (s.words task_data) ∷ []
observe _ s = []

-- The log of a run.
abbrev pub log : List Event → Tool → List Fact
log [] s = []
log (e ∷ events) s = observe e s ++ elim (step e s) [ none ↦ [] | some s' ↦ log events s' ]

-- A past has the latest fact first.
abbrev pub accesses : List Fact → List Access
accesses [] = []
accesses (made id parent ∷ past) = accesses past
accesses (accessed t d ∷ past) = (t, d) ∷ accesses past
accesses (waited t ∷ past) = accesses past

abbrev pub is_made : ℕ → List Fact → Bool
is_made k [] = false
is_made k (made id parent ∷ past) = id == k || is_made k past
is_made k (accessed t d ∷ past) = is_made k past
is_made k (waited t ∷ past) = is_made k past

-- How often a task u was created as a child of the task t, which existed, or was u itself.
abbrev pub births : ℕ → ℕ → List Fact → ℕ
births u t [] = 0
births u t (made id parent ∷ past) =
    (if id == u && (parent == t && (id == t || is_made t past)) then 1 else 0) + births u t past
births u t (accessed t' d ∷ past) = births u t past
births u t (waited t' ∷ past) = births u t past

-- The tasks that a fact makes depend on u: an access its task, once for each earlier access of u that
-- it clashes with, and a taskwait its task, once for each time that u was born to it.
abbrev pub adds : ℕ → List Fact → Fact → List ℕ
adds u past (made id parent) = []
adds u past (accessed t d) = replicate (clashes u (accesses past) d) t
adds u past (waited t) = replicate (births u t past) t

abbrev pub expected : ℕ → List Fact → List Fact → List ℕ
expected u past [] = []
expected u past (f ∷ facts) = adds u past f ++ expected u (f ∷ past) facts

-- The past after some more facts.
abbrev pub later : List Fact → List Fact → List Fact
later past [] = past
later past (f ∷ facts) = later (f ∷ past) facts

-- How many edges from u to v a fact calls for, and a log: a fact of v calls for one for each earlier
-- access of u that it clashes with, or for each birth of u that it waits for.
abbrev pub calls_for : ℕ → ℕ → List Fact → Fact → ℕ
calls_for u v past (made id parent) = 0
calls_for u v past (accessed t d) = if t == v then clashes u (accesses past) d else 0
calls_for u v past (waited t) = if t == v then births u t past else 0

abbrev pub demand : ℕ → ℕ → List Fact → List Fact → ℕ
demand u v past [] = 0
demand u v past (f ∷ facts) = calls_for u v past f + demand u v (f ∷ past) facts
