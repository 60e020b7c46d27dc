-- ===== src/Callbacks/Threads.antt =====
-- Several threads in the callbacks of src/callbacks.hpp at once. What they share there are the ids,
-- which __sync_fetch_and_add gives out, and the tool data, under its locks; between two such parts of
-- a callback, other threads may run.
pub mod Apart
pub mod Creating
pub mod Handling
pub mod Whole
pub mod Distinct
pub mod Finishing
pub mod Agreement
pub mod Log
pub mod Examples
use ompt_dependency_tracker.Base.{ℕ, Option, none, some, ◌>>=◌, List, [], ◌∷◌, get_elem?, set}
use ompt_dependency_tracker.Dependences.{
  TaskDependence, handle_dependence, handle_taskwait_dependences,
}
use ompt_dependency_tracker.Callbacks.State.{Tool, my_next_task_id}
use ompt_dependency_tracker.Callbacks.Handlers.{create_and_register}

-- What task_create reads before it registers the task, and the depend clauses that task_dependences
-- then announces for it.
pub record Creation : Type 0 where
  pub parent : ℕ
  pub thread : ℕ
  pub codeptr : ℕ
  pub now : ℕ
  pub deps : List TaskDependence

-- A task's callbacks: before task_create has the task's id, with the id, in the loop of
-- task_dependences with the depend clauses that are left; or a taskwait of a task; or no more.
pub data Activity : Type 0 where
  arriving : Creation → Activity
  numbered : ℕ → Creation → Activity
  announcing : ℕ → List TaskDependence → Activity
  waiting : ℕ → Activity
  finished : Activity

-- The id is taken.
unfoldable pub take_id : Creation → Tool → Option (Activity × Tool)
unfolding my_next_task_id
take_id c s = let (task_id, s') = my_next_task_id s in some (numbered task_id c, s')

-- The task is made and registered.
unfoldable pub enter_task : ℕ → Creation → Tool → Option (Activity × Tool)
enter_task task_id c s = do
  s' ← create_and_register task_id c.parent c.thread c.codeptr c.now s
  some (announcing task_id c.deps, s')

-- One round of the loop over the depend clauses.
unfoldable pub announce : ℕ → List TaskDependence → Tool → Option (Activity × Tool)
announce task_id [] s = some (finished, s)
announce task_id (d ∷ deps) s =
    some (announcing task_id deps, record s { tool_data = handle_dependence task_id d s.tool_data })

unfoldable pub wait : ℕ → Tool → Option (Activity × Tool)
wait task_id s = do
  td ← handle_taskwait_dependences task_id s.tool_data
  some (finished, record s { tool_data = td })

unfoldable pub proceed : Activity → Tool → Option (Activity × Tool)
proceed (arriving c) s = take_id c s
proceed (numbered task_id c) s = enter_task task_id c s
proceed (announcing task_id deps) s = announce task_id deps s
proceed (waiting task_id) s = wait task_id s
proceed finished s = some (finished, s)

-- Activity `i` goes on; the turn of one that does not exist is lost.
unfoldable pub proceed_at :
    ℕ → Option Activity → Tool × List Activity → Option (Tool × List Activity)
proceed_at i none st = some st
proceed_at i (some a) st = do p ← proceed a st.0; some (p.1, set st.1 i p.0)

unfoldable pub interleave : List ℕ → Tool × List Activity → Option (Tool × List Activity)
interleave [] st = some st
interleave (i ∷ turns) st = do st' ← proceed_at i (get_elem? st.1 i) st; interleave turns st'
