-- ===== src/Printing.antt =====
-- Task::print and print_tsps of src/Task.hpp, ParallelRegion::print of src/ParallelRegion.hpp. A task
-- prints others through their pointers: a dangling one is a fault, and so is the task's own, for its
-- mutex is held and cannot be locked again.
pub mod Fresh
use ompt_dependency_tracker.Base.{
  ℕ, ◌==◌, if◌then◌else◌, ltb, Bool, true, false, Option, none, some, ◌>>=◌, List, [], ◌∷◌, ◌++◌,
  get_elem?,
}
use ompt_dependency_tracker.Output.{Output, text, number, pointer}
use ompt_dependency_tracker.Task.{
  Task, TaskType, explicit, implicit, TaskState, created, running, suspended, canceled, completed,
  TaskSchedulingPoint,
}
use ompt_dependency_tracker.ParallelRegion.{ParallelRegion}

-- The loop over the scheduling points, in print_tsps and in print.
unfoldable pub print_points : List TaskSchedulingPoint → Output
print_points [] = []
print_points (e ∷ tsps) =
    text "Type: "
    ∷ text e.tsp_type
    ∷ text ", Thread: "
    ∷ number e.thread_id
    ∷ text "\n"
    ∷ print_points tsps

unfoldable pub print_tsps : Task → Output
print_tsps t = text "Task ID: " ∷ number t.id ∷ text "\n" ∷ print_points t.tsps

unfoldable pub type_line : TaskType → Output
type_line explicit = text "\t- Type: Explicit\n" ∷ []
type_line implicit = text "\t- Type: Implicit\n" ∷ []

unfoldable pub state_line : TaskState → Output
state_line created = text "\t- State: Created\n" ∷ []
state_line running = text "\t- State: Running\n" ∷ []
state_line suspended = text "\t- State: Suspended\n" ∷ []
state_line canceled = text "\t- State: Canceled\n" ∷ []
state_line completed = text "\t- State: Completed\n" ∷ []

unfoldable pub initial_line : Bool → Output
initial_line true = text "\t- Initial Task: True\n" ∷ []
initial_line false = text "\t- Initial Task: False\n" ∷ []

unfoldable pub print_threads : List ℕ → Output
print_threads [] = []
print_threads (e ∷ threads) = number e ∷ text ", " ∷ print_threads threads

-- `print()`, with the default verbosity 0.
unfoldable pub print_brief : Task → Output
print_brief t = text "Task: " ∷ number t.id ∷ text "\n" ∷ []

-- The loops over the tasks that depend on this task, and that it depends on.
unfoldable pub print_others : ℕ → List Task → List ℕ → Option Output
print_others this tasks [] = some []
print_others this tasks (e ∷ others) = do
  t ← (if e == this then none else get_elem? tasks e)
  rest ← print_others this tasks others
  some (print_brief t ++ rest)

-- What every verbosity above 0 shows.
unfoldable pub print_fields : Task → Output
print_fields t =
    text "Task:\n"
    ∷ text "\t- ID: "
    ∷ number t.id
    ∷ text "\n"
    ∷ text "\t- Parent ID: "
    ∷ number t.parent_id
    ∷ text "\n"
    ∷ (type_line t.type
        ++ (state_line t.state
            ++ (initial_line t.initial
                ++ text "\t- codeptr_ra = " ∷ pointer t.codeptr_ra ∷ text "\n" ∷ [])))

-- What a verbosity above 1 adds.
unfoldable pub print_details : ℕ → List Task → Task → Option Output
print_details this tasks t = do
  children ← print_others this tasks t.dependency_children
  parents ← print_others this tasks t.dependency_parents
  some (
      text "\t- Encountering Thread IDs: "
      ∷ (print_threads t.encountering_threads
          ++ text "\n"
            ∷ text "\t- Task Scheduling Points: "
            ∷ (print_points t.tsps
                ++ text "\n"
                  ∷ text "\t- Tasks that depend on this task:\n"
                  ∷ (children ++ text "\t- Tasks that this task depends on:\n" ∷ parents))))

-- `Task::print`, of the task at the pointer `this`.
unfoldable pub print : ℕ → List Task → Task → ℕ → Option Output
print this tasks t verbosity =
    if verbosity == 0
    then some (print_brief t)
    else if ltb 1 verbosity
    then (print_details this tasks t >>= λ details. some (print_fields t ++ details))
    else some (print_fields t)

unfoldable pub print_children : List Task → List ℕ → Option Output
print_children tasks [] = some []
print_children tasks (e ∷ children) = do
  t ← get_elem? tasks e
  first ← print e tasks t 1
  rest ← print_children tasks children
  some (first ++ rest)

-- `ParallelRegion::print`.
unfoldable pub print_region : List Task → ParallelRegion → ℕ → Option Output
print_region tasks r verbosity =
    let heading =
      text "Parallel Region: "
      ∷ text "\n"
      ∷ text "\t- ID: "
      ∷ number r.id
      ∷ text "\n"
      ∷ text "\t- Parent ID: "
      ∷ number r.parent_id
      ∷ text "\n"
      ∷ text "\t- Number of threads: "
      ∷ number r.n_threads
      ∷ text "\n"
      ∷ [] in
    if verbosity == 0
    then some (text "Parallel Region: " ∷ number r.id ∷ text "\n" ∷ [])
    else if ltb 1 verbosity
    then (print_children tasks r.children >>= λ children.
        some (heading ++ text "Child Tasks: " ∷ text "\n" ∷ children))
    else some heading
