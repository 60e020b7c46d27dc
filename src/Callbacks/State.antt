-- ===== src/Callbacks/State.antt =====
-- The state that the callbacks share, and the small functions at the top of src/callbacks.hpp.
use ompt_dependency_tracker.Base.{
  ℕ, zero, suc, ◌==◌, if◌then◌else◌, Option, none, some, ◌>>=◌, List, [], ◌∷◌, ◌++◌, get_elem?,
  length,
}
use ompt_dependency_tracker.Base.Word.{bump}
use ompt_dependency_tracker.Counters.{Counters, no_events}
use ompt_dependency_tracker.ToolData.{ToolData, new_tool_data}

-- What the runtime's functions answer in one callback, and the bit of ompt.h that it tests.
pub record Runtime : Type 0 where
  -- ompt_get_thread_data()
  pub thread_data : ℕ
  -- what ompt_get_parallel_info(0, ...) stores
  pub parallel_data : ℕ
  -- ompt_get_unique_id()
  pub unique_id : ℕ
  -- tv_sec of gettimeofday
  pub now : ℕ
  -- ompt_task_initial
  pub task_initial : ℕ

-- The state that callbacks share. `words` is the memory of the runtime's ompt_data_t objects, each a
-- union of a value and a pointer; address 0 is NULL. A `my_ompt_data_t*` is an index of `own_data`
-- plus one.
pub record Tool : Type 0 where
  pub counters : Counters
  pub next_id : ℕ
  pub next_task_id : ℕ
  pub words : ℕ → ℕ
  pub own_data : List ℕ
  pub tool_data : ToolData

-- The tool when it is loaded, after `ompt_initialize` made the tool data.
abbrev pub loaded : (ℕ → ℕ) → Tool
loaded words = record {
  counters = no_events;
  next_id = 0;
  next_task_id = 0;
  words = words;
  own_data = [];
  tool_data = new_tool_data;
}

-- `data->value` and `data->ptr`.
unfoldable pub load : ℕ → Tool → Option ℕ
load zero s = none
load (suc a) s = some (s.words (suc a))

unfoldable pub store : ℕ → ℕ → Tool → Option Tool
store zero v s = none
store (suc a) v s = some (record s { words = λ b. if suc a == b then v else s.words b })

unfoldable pub own_data_at : ℕ → List ℕ → Option ℕ
own_data_at zero owns = none
own_data_at (suc i) owns = get_elem? owns i

unfoldable pub get_own_data : ℕ → Tool → Option ℕ
unfolding load own_data_at
get_own_data data_ptr s = do ptr ← load data_ptr s; own_data_at ptr s.own_data

-- The malloc is taken to succeed.
unfoldable pub alloc_and_init_own_data : ℕ → ℕ → Tool → Option Tool
unfolding store
alloc_and_init_own_data data_ptr init_data s = do
  s' ← store data_ptr (suc (length s.own_data)) s
  some (record s' { own_data = s.own_data ++ init_data ∷ [] })

unfoldable pub my_next_id : Tool → ℕ × Tool
my_next_id s = (s.next_id, record s { next_id = bump s.next_id })

unfoldable pub my_next_task_id : Tool → ℕ × Tool
my_next_task_id s = (s.next_task_id, record s { next_task_id = bump s.next_task_id })

-- A counter is incremented.
abbrev pub tally : (Counters → Counters) → Tool → Tool
tally f s = record s { counters = f s.counters }
