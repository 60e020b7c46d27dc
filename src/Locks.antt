-- ===== src/Locks.antt =====
-- The mutexes of src/ToolData.hpp, src/Task.hpp and src/ParallelRegion.hpp, and threads that lock and
-- unlock them. A boost mutex is not recursive: it is free when no thread holds it, the one that asks
-- included.
pub mod Operations
pub mod Order
pub mod Progress
pub mod Finishing
pub mod Exits
pub mod Interrupted
pub mod Callbacks
mod Examples
use ompt_dependency_tracker.Base.{
  ℕ, suc, zero, ◌==◌, if◌then◌else◌, Bool, false, ◌&&◌, ◌||◌, Option, none, some, ◌>>=◌, List, [],
  ◌∷◌,
}

-- Those that the program locks; a task's and a region's own are named by its pointer.
pub data Mutex : Type 0 where
  id_to_parallel_region_mtx id_to_task_mtx in_deps_mtx out_deps_mtx inout_deps_mtx dependences_mtx
        dag_mtx id_to_vertex_mtx :
      Mutex
  region_mtx task_mtx : ℕ → Mutex

-- The order in which the functions lock them.
unfoldable pub rank : Mutex → ℕ
rank id_to_parallel_region_mtx = 0
rank id_to_task_mtx = 1
rank in_deps_mtx = 2
rank out_deps_mtx = 3
rank inout_deps_mtx = 4
rank dependences_mtx = 5
rank (region_mtx p) = 6
rank (task_mtx p) = 7
rank dag_mtx = 8
rank id_to_vertex_mtx = 9

unfoldable pub owner : Mutex → ℕ
owner (region_mtx p) = p
owner (task_mtx p) = p
owner _ = 0

unfoldable pub same : Mutex → Mutex → Bool
same m n = (rank m == rank n) && (owner m == owner n)

pub data Action : Type 0 where
  lock unlock : Mutex → Action

-- The mutexes that the thread's lock_guards hold, the latest first, and what it does next.
pub record Thread : Type 0 where
  pub held : List Mutex
  pub rest : List Action

unfoldable pub holds : Mutex → List Mutex → Bool
holds m [] = false
holds m (h ∷ held) = same m h || holds m held

unfoldable pub is_held : Mutex → List Thread → Bool
is_held m [] = false
is_held m (t ∷ threads) = holds m t.held || is_held m threads

-- A thread's next action, where it can be taken: none is a thread that waits, or has ended.
unfoldable pub act : List Thread → List Mutex → List Action → Option Thread
act all held [] = none
act all held (lock m ∷ rest) =
    if is_held m all then none else some (record { held = m ∷ held; rest = rest })
act all [] (unlock m ∷ rest) = none
act all (h ∷ held) (unlock m ∷ rest) =
    if same m h then some (record { held = held; rest = rest }) else none

unfoldable pub advance : List Thread → ℕ → List Thread → Option (List Thread)
advance all i [] = none
advance all zero (t ∷ threads) = do t' ← act all t.held t.rest; some (t' ∷ threads)
advance all (suc i) (t ∷ threads) = do threads' ← advance all i threads; some (t ∷ threads')

-- Thread `i` takes its next action.
unfoldable pub go_on : ℕ → List Thread → Option (List Thread)
go_on i threads = advance threads i threads

-- The threads take their turns in this order; a turn of one that cannot go on is lost.
unfoldable pub turn : Option (List Thread) → List Thread → List Thread
turn none threads = threads
turn (some after) threads = after

unfoldable pub schedule : List ℕ → List Thread → List Thread
schedule [] threads = threads
schedule (i ∷ turns) threads = schedule turns (turn (go_on i threads) threads)
