-- ===== src/ToolData/Lifecycle.antt =====
-- complete_task of src/ToolData.hpp.
use ompt_dependency_tracker.Base.{
  ℕ, ◌≡◌, ◌≢◌, refl, some, inl, inr, arith, get_elem?, get_elem?-set_self, get_elem?-set_ne,
  Returns, Option-cases,
}
use ompt_dependency_tracker.Table.{find}
use ompt_dependency_tracker.Table.Laws.{All-find, find-ne}
use ompt_dependency_tracker.Task.{Task, completed}
use ompt_dependency_tracker.Task
use ompt_dependency_tracker.ToolData.{ToolData, modify_task, complete_task}
use ompt_dependency_tracker.ToolData.Registry.{IsValid, NamesTask, modify_task-IsValid}

-- The task of that id, if it is registered, is completed; every other task is as it was.
pub record Completes (id : ℕ) (s s' : ToolData) : Type 0 where
  pub valid : IsValid s'
  pub task :
      (p : ℕ) (t : Task)
      → find id s.id_to_task ≡ some p
      → get_elem? s.tasks p ≡ some t
      → get_elem? s'.tasks p ≡ some (record t { state = completed })
  pub others : (q : ℕ) → find id s.id_to_task ≢ some q → get_elem? s'.tasks q ≡ get_elem? s.tasks q
  pub ids : s'.id_to_task ≡ s.id_to_task
  pub dependences : s'.dependences ≡ s.dependences

-- In a valid registry completing an id never faults: the task that is registered under the id, if
-- there is one, is set to completed, no other task changes, and the registry stays valid.
pub complete_task-Completes :
    (id : ℕ) (s : ToolData) → IsValid s → Returns (complete_task id s) (Completes id s)
unfolding complete_task Task.change_state modify_task
complete_task-Completes id s v = elim (Option-cases (find id s.id_to_task)) [
  | inl absent ↦
      rw (absent, complete_task)
        (record {
          valid = v;
          task = λ p t found at. cc;
          others = λ q n. refl;
          ids = refl;
          dependences = refl;
        })
  | inr (p, found) ↦
      let (t, at, _) = All-find (NamesTask s.tasks) id p s.id_to_task v.named found in
      let valid =
        modify_task-IsValid p (Task.change_state completed) t s at refl refl (v.children p t at)
          v in
      rw (found, complete_task)
        (rw at (record {
          valid = rw at at valid;
          task = λ q u found' at'.
              ground (arith, get_elem?-set_self s.tasks p (Task.change_state completed t) t at);
          others = λ q n.
              get_elem?-set_ne s.tasks p q (Task.change_state completed t)
                (find-ne s.id_to_task id p q found n);
          ids = refl;
          dependences = refl;
        }))
]
