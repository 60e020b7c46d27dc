-- ===== src/Callbacks/Untouched.antt =====
-- What the callbacks of src/callbacks.hpp never write: the fields of src/Task.hpp after the
-- constructor, and the table of parallel regions.
use ompt_dependency_tracker.Base.{ℕ, List, Returns, Returns-map}
use ompt_dependency_tracker.ToolData.Untouched.{IsUntouched}
use ompt_dependency_tracker.Callbacks.State.{loaded}
use ompt_dependency_tracker.Callbacks.Events.{Event, run}
use ompt_dependency_tracker.Callbacks.Invariant.{AllPromised, run-Inv}

-- From loading on, whatever callbacks come in whatever order, if the runtime keeps its promises then
-- none of them faults, and afterwards every task object is explicit, in the state Created and not
-- initial, has nothing in its two lists of dependences, and has the one thread and the one scheduling
-- point ("create") of its constructor; there is no region object, and no entry in their table.
pub run-IsUntouched :
    (events : List Event) (words : ℕ → ℕ)
    → AllPromised events (loaded words)
    → Returns (run events (loaded words)) (λ s. IsUntouched s.tool_data)
run-IsUntouched events words h =
    Returns-map _ _ (run events (loaded words)) (λ s v. v.consistent.untouched)
      (run-Inv events words h)
