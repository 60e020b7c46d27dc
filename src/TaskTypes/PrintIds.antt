-- ===== src/TaskTypes/PrintIds.antt =====
-- print_ids of src/OMPT_helpers.hpp, with what the runtime answers as a parameter.
use ompt_dependency_tracker.Base.{ℕ, ◌==◌, if◌then◌else◌, Option, none, some, ◌>>=◌, List, [], ◌∷◌}
use ompt_dependency_tracker.CStrings.{read}
use ompt_dependency_tracker.Output.{Output, text, number, pointer, c_string}
use ompt_dependency_tracker.TaskTypes.{TypeBits, format_task_type}

-- `omp_frame_t`.
pub record Frame : Type 0 where
  pub exit_frame : ℕ
  pub enter_frame : ℕ

-- What ompt_get_task_info returns and stores, with the values that the two stored ompt_data_t
-- pointers lead to, and the value of ompt_get_thread_data; `frame` is none for NULL.
pub record TaskInfo : Type 0 where
  pub exists_task : ℕ
  pub task_type : ℕ
  pub frame : Option Frame
  pub task_parallel_value : ℕ
  pub task_value : ℕ
  pub thread_num : ℕ
  pub thread_value : ℕ

unfoldable pub value_if : ℕ → ℕ → ℕ
value_if exists_task value = if exists_task == 0 then 0 else value

unfoldable pub id_line : ℕ → TaskInfo → Frame → List ℕ → Output
id_line level info frame buffer =
    number info.thread_value
    ∷ text ": task level "
    ∷ number level
    ∷ text ": parallel_id="
    ∷ number (value_if info.exists_task info.task_parallel_value)
    ∷ text ", task_id="
    ∷ number (value_if info.exists_task info.task_value)
    ∷ text ", exit_frame="
    ∷ pointer frame.exit_frame
    ∷ text ", reenter_frame="
    ∷ pointer frame.enter_frame
    ∷ text ", task_type="
    ∷ c_string buffer
    ∷ text "="
    ∷ number info.task_type
    ∷ text ", thread_num="
    ∷ number info.thread_num
    ∷ text "\n"
    ∷ []

-- printf reads the buffer as a C string.
unfoldable pub print_line : ℕ → TaskInfo → Option Frame → List ℕ → Option Output
print_line level info none buffer = some []
print_line level info (some frame) buffer = do
  task_type ← read buffer
  some (id_line level info frame task_type)

-- `buffer` is what the 2048 bytes of the stack held before.
unfoldable pub print_ids : TypeBits → ℕ → TaskInfo → List ℕ → Option Output
print_ids bits level info buffer = do
  formatted ← format_task_type bits info.task_type buffer
  print_line level info info.frame formatted

-- What `%s` shows: the texts of the bits, or, if there are none, whatever was in the buffer.
abbrev pub shown : List ℕ → List ℕ → Option (List ℕ)
shown [] buffer = read buffer
shown (c ∷ cs) buffer = some (c ∷ cs)

abbrev pub described : ℕ → TaskInfo → Option Frame → Option (List ℕ) → Option Output
described level info none task_type = some []
described level info (some frame) task_type = task_type >>= λ cs. some (id_line level info frame cs)
