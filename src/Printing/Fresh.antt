-- ===== src/Printing/Fresh.antt =====
-- Task::print of src/Task.hpp, of a task that has not changed since its creation.
use ompt_dependency_tracker.Base.{ℕ, ◌≡◌, some, List, [], ◌∷◌}
use ompt_dependency_tracker.Output.{Output, text, number, pointer}
use ompt_dependency_tracker.Task.{Task}
use ompt_dependency_tracker.ToolData.Untouched.{IsFresh}
use ompt_dependency_tracker.Printing.{
  print, print_others, print_details, print_fields, print_points, print_threads, type_line,
  state_line, initial_line,
}

-- The whole text for such a task: explicit, created, not initial, with one thread and one
-- scheduling point, and with no task in either list of dependences.
abbrev pub fresh_text : Task → ℕ → Output
fresh_text t thread =
    text "Task:\n"
    ∷ text "\t- ID: "
    ∷ number t.id
    ∷ text "\n"
    ∷ text "\t- Parent ID: "
    ∷ number t.parent_id
    ∷ text "\n"
    ∷ text "\t- Type: Explicit\n"
    ∷ text "\t- State: Created\n"
    ∷ text "\t- Initial Task: False\n"
    ∷ text "\t- codeptr_ra = "
    ∷ pointer t.codeptr_ra
    ∷ text "\n"
    ∷ text "\t- Encountering Thread IDs: "
    ∷ number thread
    ∷ text ", "
    ∷ text "\n"
    ∷ text "\t- Task Scheduling Points: "
    ∷ text "Type: "
    ∷ text "create"
    ∷ text ", Thread: "
    ∷ number thread
    ∷ text "\n"
    ∷ text "\n"
    ∷ text "\t- Tasks that depend on this task:\n"
    ∷ text "\t- Tasks that this task depends on:\n"
    ∷ []

pub print-IsFresh :
    (this : ℕ) (tasks : List Task) (t : Task) (f : IsFresh t)
    → print this tasks t 2 ≡ some (fresh_text t f.creation.0)
unfolding print print_details print_fields print_others print_points print_threads type_line
    state_line initial_line
print-IsFresh this tasks t f =
    let (thread, now, threads, tsps) = f.creation in
    simp (f.type, f.state, f.initial, f.dependency_children, f.dependency_parents, threads, tsps)
