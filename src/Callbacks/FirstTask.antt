-- ===== src/Callbacks/FirstTask.antt =====
-- The first task of a run: task_create of src/callbacks.hpp gives it the id 0, and passes 0 for the
-- parent of a task without an encountering task, too.
use ompt_dependency_tracker.Base.{
  ◌++◌, ℕ, ◌≡◌, refl, subst, sym, some, ◌>>=◌, List, [], ◌∷◌, Memᴰ, arith, length, get_elem?,
  Returns, Returns-map, Returns->>=, ap, ◌∙◌, length-append,
}
use ompt_dependency_tracker.Table.{bucket, find}
use ompt_dependency_tracker.Task.{Task, new_task, explicit}
use ompt_dependency_tracker.Task
use ompt_dependency_tracker.Dependences.{handle_taskwait_dependences}
use ompt_dependency_tracker.Dependences.Waiting.{taskwait-bucket, mem-append-replicate}
use ompt_dependency_tracker.Callbacks.State.{Runtime, Tool, get_own_data}
use ompt_dependency_tracker.Callbacks.Handlers.{on_task_create}
use ompt_dependency_tracker.Callbacks.Consistent.{Inv}
use ompt_dependency_tracker.Callbacks.Creation.{Apart, Creates, on_task_create-Creates}

first_task_own_child :
    (t : Task) (new_data : ℕ) (s s' : Tool)
    → s.tool_data.tasks ≡ []
    → t.id ≡ 0
    → t.parent_id ≡ 0
    → Creates new_data t s s'
    → (find 0 s'.tool_data.id_to_task ≡ some 0)
      × (get_elem? s'.tool_data.tasks 0
          ≡ some (record t { ancestry_children = t.ancestry_children ++ 0 ∷ [] }))
first_task_own_child t new_data s s' empty id parent c =
    let found : find 0 s'.tool_data.id_to_task ≡ some 0 =
      c.inv.consistent.numbered.registered 0
        (omega (arith, c.registers.size, length-append s.tool_data.tasks (t ∷ []))) (omega arith) in
    (
      found,
      subst
          (λ n.
            get_elem? s'.tool_data.tasks 0
            ≡ some (record t { ancestry_children = t.ancestry_children ++ n ∷ [] }))
          (ap (λ (ts : List Task). length ts) empty)
          (c.registers.parent 0 t
            (subst (λ k. find k s'.tool_data.id_to_task ≡ some 0) (sym parent) found)
            (rw empty refl)),
    )

-- The first task that is created, with no encountering task, is its own child: at its first
-- taskwait the tool holds that it depends on itself.
pub first_task-waits_for_itself :
    (rt : Runtime) (new_data type codeptr own : ℕ) (s : Tool)
    → Apart rt 0 new_data
    → get_own_data rt.thread_data s ≡ some own
    → Inv s
    → s.tool_data.tasks ≡ []
    → Returns
        (on_task_create rt 0 new_data type codeptr s >>= λ s'.
          handle_taskwait_dependences (s'.words new_data) s'.tool_data)
        (λ td. Memᴰ 0 (bucket 0 td.dependences))
unfolding new_task Task.add_child
first_task-waits_for_itself rt new_data type codeptr own s apart thread v empty =
    Returns->>= (Creates new_data t s) _ (on_task_create rt 0 new_data type codeptr s) _
      (λ s' c.
        let (found, at) = first_task_own_child t new_data s s' empty first refl c in
        let ids = s'.words new_data in
        rw (c.announced, first)
          (Returns-map _ _ (handle_taskwait_dependences 0 s'.tool_data)
            (λ td after.
              subst (Memᴰ 0) (sym (after 0))
                (mem-append-replicate 0 (bucket 0 s'.tool_data.dependences) 1 (omega arith)))
            (taskwait-bucket 0 0 (Task.add_child 0 t) (0 ∷ []) s'.tool_data found at
              (rw at (ap (λ (i : ℕ). some (i ∷ [])) first)))))
      (on_task_create-Creates rt 0 new_data type codeptr own s apart thread v)
  where
    t : Task
    t = new_task s.next_task_id 0 own explicit codeptr rt.now

    first : s.next_task_id ≡ 0
    first = v.next ∙ rw empty refl
