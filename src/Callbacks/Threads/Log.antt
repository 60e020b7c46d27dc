-- ===== src/Callbacks/Threads/Log.antt =====
-- The log of several threads in the callbacks of src/callbacks.hpp: their facts in the order in which
-- the turns made them. It is a specification: nothing of it is in the source.
use ompt_dependency_tracker.Base.{ℕ, Option, none, some, List, [], ◌∷◌, ◌++◌, get_elem?}
use ompt_dependency_tracker.Callbacks.State.{Tool}
use ompt_dependency_tracker.Callbacks.Threads.{
  Activity, arriving, numbered, announcing, waiting, finished, proceed_at,
}
use ompt_dependency_tracker.Callbacks.Log.{Fact, made, accessed, waited}

-- What one turn of an activity reports.
abbrev pub observe_turn : Option Activity → List Fact
observe_turn none = []
observe_turn (some (arriving c)) = []
observe_turn (some (numbered task_id c)) = made task_id c.parent ∷ []
observe_turn (some (announcing task_id [])) = []
observe_turn (some (announcing task_id (d ∷ deps))) = accessed task_id d ∷ []
observe_turn (some (waiting task_id)) = waited task_id ∷ []
observe_turn (some finished) = []

abbrev pub turns_log : List ℕ → Tool × List Activity → List Fact
turns_log [] st = []
turns_log (i ∷ turns) st =
    observe_turn (get_elem? st.1 i)
    ++ elim (proceed_at i (get_elem? st.1 i) st) [ none ↦ [] | some st' ↦ turns_log turns st' ]
