-- ===== src/Initialize.antt =====
-- ompt_initialize of src/dependency_tracker.cpp, with the registration macros of
-- src/OMPT_helpers.hpp. The runtime's lookup and its ompt_set_callback are parameters.
pub mod Registered
pub mod Examples
use Prim.Native.String.{String}
use ompt_dependency_tracker.Base.{
  ℕ, ◌==◌, if◌then◌else◌, Option, none, some, List, [], ◌∷◌, ◌++◌, map,
}
use ompt_dependency_tracker.Output.{Output, text}
use ompt_dependency_tracker.ToolData.{ToolData, new_tool_data}

-- `ompt_callbacks_t`, those that are registered. The handler of `name` is `on_name`.
pub data Callback : Type 0 where
  thread_begin thread_end parallel_begin parallel_end implicit_task task_create task_dependences
        task_dependence task_schedule sync_region sync_region_wait :
      Callback

unfoldable pub callback_name : Callback → String
callback_name thread_begin = "ompt_callback_thread_begin"
callback_name thread_end = "ompt_callback_thread_end"
callback_name parallel_begin = "ompt_callback_parallel_begin"
callback_name parallel_end = "ompt_callback_parallel_end"
callback_name implicit_task = "ompt_callback_implicit_task"
callback_name task_create = "ompt_callback_task_create"
callback_name task_dependences = "ompt_callback_task_dependences"
callback_name task_dependence = "ompt_callback_task_dependence"
callback_name task_schedule = "ompt_callback_task_schedule"
callback_name sync_region = "ompt_callback_sync_region"
callback_name sync_region_wait = "ompt_callback_sync_region_wait"

pub data SignalHandler : Type 0 where
  sigint_handler sigfpe_handler sigsegv_handler : SignalHandler

pub data Signal : Type 0 where
  sigint sigfpe sigsegv : Signal

-- The entry points that are looked up, in their order; ompt_get_unique_id twice.
abbrev pub entry_points : List String
entry_points =
    "ompt_set_callback" ∷ "ompt_get_callback" ∷ "ompt_get_state" ∷ "ompt_get_task_info"
    ∷ "ompt_get_thread_data" ∷ "ompt_get_parallel_info" ∷ "ompt_get_unique_id"
    ∷ "ompt_get_num_procs" ∷ "ompt_get_num_places" ∷ "ompt_get_place_proc_ids"
    ∷ "ompt_get_place_num" ∷ "ompt_get_partition_place_nums" ∷ "ompt_get_proc_id"
    ∷ "ompt_enumerate_states" ∷ "ompt_enumerate_mutex_impls" ∷ "ompt_get_unique_id" ∷ []

-- The callbacks in the order in which they are registered.
abbrev pub callbacks : List Callback
callbacks =
    thread_begin ∷ thread_end ∷ parallel_begin ∷ parallel_end ∷ implicit_task ∷ task_create
    ∷ task_dependences ∷ task_dependence ∷ task_schedule ∷ sync_region ∷ sync_region_wait ∷ []

-- What the runtime answers: to a lookup, a function's address or 0 for NULL; to ompt_set_callback, a
-- code, of which ompt.h names one ompt_set_never.
pub record OmptRuntime : Type 0 where
  pub lookup : String → ℕ
  pub set_callback : Callback → ℕ
  pub ompt_set_never : ℕ

-- What the call leaves behind.
pub record Initialized : Type 0 where
  pub tool_data : ToolData
  pub functions : List (String × ℕ)
  -- the calls of ompt_set_callback: for which callback, and with whose handler
  pub set : List (Callback × Callback)
  pub warnings : Output
  pub signals : List (Signal × SignalHandler)
  pub result : ℕ

module _ (rt : OmptRuntime) where
  open rt use {lookup, set_callback, ompt_set_never}

  -- The macro register_callback_t.
  unfoldable pub register_callback :
      Callback → List (Callback × Callback) × Output → List (Callback × Callback) × Output
  register_callback name done = (
    done.0 ++ (name, name) ∷ [],
    done.1
        ++ (if set_callback name == ompt_set_never
            then text "0: Could not register callback '"
              ∷ text (callback_name name)
              ∷ text "'\n"
              ∷ []
            else []),
  )

  unfoldable pub register_callbacks :
      List Callback → List (Callback × Callback) × Output → List (Callback × Callback) × Output
  register_callbacks [] done = done
  register_callbacks (name ∷ names) done = register_callbacks names (register_callback name done)

  -- none is a call of ompt_set_callback through a null pointer.
  unfoldable pub ompt_initialize : Option Initialized
  ompt_initialize =
      if lookup "ompt_set_callback" == 0
      then none
      else let registered = register_callbacks callbacks ([], []) in
        some (record {
          tool_data = new_tool_data;
          functions = map (λ name. (name, lookup name)) entry_points;
          set = registered.0;
          warnings = registered.1;
          signals =
              (sigint, sigint_handler) ∷ (sigfpe, sigfpe_handler) ∷ (sigsegv, sigsegv_handler) ∷ [];
          result = 1;
        })
