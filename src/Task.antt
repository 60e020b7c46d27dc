-- ===== src/Task.antt =====
-- src/Task.hpp: tasks and task scheduling points. A pointer to a task is its index in the store of
-- `ToolData`, a code address is a number, and a time is its whole seconds (tv_sec, which a double
-- holds exactly).
use Prim.Native.String.{String}
use ompt_dependency_tracker.Base.{ℕ, Bool, true, false, List, [], ◌∷◌, ◌++◌}

pub data TaskType : Type 0 where
  explicit implicit : TaskType

pub data TaskState : Type 0 where
  created running suspended canceled completed : TaskState

pub record TaskSchedulingPoint : Type 0 where
  pub tsp_type : String
  pub thread_id : ℕ
  pub time : ℕ

pub record Task : Type 0 where
  pub id : ℕ
  pub parent_id : ℕ
  pub type : TaskType
  pub state : TaskState
  pub initial : Bool
  pub codeptr_ra : ℕ
  pub encountering_threads : List ℕ
  pub ancestry_children : List ℕ
  pub dependency_children : List ℕ
  pub dependency_parents : List ℕ
  pub tsps : List TaskSchedulingPoint

-- The constructor; `now` is what gettimeofday answers.
unfoldable pub new_task : ℕ → ℕ → ℕ → TaskType → ℕ → ℕ → Task
new_task task_id parent_id thread_id task_type codeptr_ra now = record {
  id = task_id;
  parent_id = parent_id;
  type = task_type;
  state = created;
  initial = false;
  codeptr_ra = codeptr_ra;
  encountering_threads = thread_id ∷ [];
  ancestry_children = [];
  dependency_children = [];
  dependency_parents = [];
  tsps = record { tsp_type = "create"; thread_id = thread_id; time = now } ∷ [];
}

unfoldable pub add_tsp : TaskSchedulingPoint → Task → Task
add_tsp tsp t = record t { tsps = t.tsps ++ tsp ∷ [] }

unfoldable pub add_child : ℕ → Task → Task
add_child child t = record t { ancestry_children = t.ancestry_children ++ child ∷ [] }

unfoldable pub change_state : TaskState → Task → Task
change_state new_state t = record t { state = new_state }

unfoldable pub set_as_initial_task : Task → Task
set_as_initial_task t = record t { initial = true }
