-- ===== src/Callbacks/Threads/Agreement.antt =====
-- The turns of a task's callbacks, against the callbacks of src/callbacks.hpp as one step each.
use ompt_dependency_tracker.Base.{
  ℕ, suc, ◌≡◌, ◌≢◌, refl, ◌∙◌, some, ◌>>=◌, List, [], ◌∷◌, arith, inl, inr, Option-cases, length,
  length-append, replicate, Returns, Returns->>=,
}
use ompt_dependency_tracker.Base.Word.{bump}
use ompt_dependency_tracker.Task.{Task, new_task, explicit}
use ompt_dependency_tracker.ToolData.{ToolData}
use ompt_dependency_tracker.ToolData.Registration.{register_new}
use ompt_dependency_tracker.Dependences.{
  TaskDependence, handle_dependences, handle_taskwait_dependences,
}
use ompt_dependency_tracker.Callbacks.State.{Runtime, Tool, get_own_data, my_next_task_id, tally}
use ompt_dependency_tracker.Callbacks.Memory.{load-some, get_own_data-same, parent_id_of}
use ompt_dependency_tracker.Callbacks.Handlers.{
  on_task_create, on_task_dependences, create_and_register, on_sync_region, act_sync_region,
  enter_taskwait, taskwait, scope_begin, count_sync_region,
}
use ompt_dependency_tracker.Callbacks.Consistent.{Inv}
use ompt_dependency_tracker.Callbacks.Creation.{Apart, Creates, on_task_create-Creates}
use ompt_dependency_tracker.Callbacks.Threads.{
  Creation, arriving, announcing, finished, take_id, enter_task, announce, wait, proceed,
  proceed_at, interleave,
}

-- The last turns of a task: one for each depend clause, and one to leave the loop.
announcing-handle_dependences :
    (t : ℕ) (deps : List TaskDependence) (s : Tool)
    → interleave (replicate (suc (length deps)) 0) (s, announcing t deps ∷ [])
      ≡ some (record s { tool_data = handle_dependences t deps s.tool_data }, finished ∷ [])
unfolding interleave proceed_at proceed announce handle_dependences
announcing-handle_dependences t [] s = refl
announcing-handle_dependences t (d ∷ deps) s = announcing-handle_dependences t deps _

-- The first two: the id is taken, and the task is registered.
arriving-register_new :
    (c : Creation) (td : ToolData) (turns : List ℕ) (s : Tool)
    → register_new (new_task s.next_task_id c.parent c.thread explicit c.codeptr c.now) s.tool_data
      ≡ some td
    → interleave (0 ∷ 0 ∷ turns) (s, arriving c ∷ [])
      ≡ interleave turns (
        record s { next_task_id = bump s.next_task_id; tool_data = td },
        announcing s.next_task_id c.deps ∷ [],
      )
unfolding interleave proceed_at proceed take_id my_next_task_id enter_task create_and_register
    register_new
arriving-register_new c td turns s returned = rw returned refl

-- What task_create reads, of a runtime's answers and a thread's own data.
abbrev pub creation : Runtime → ℕ → ℕ → ℕ → List TaskDependence → Tool → Creation
creation rt encountering codeptr own deps s = record {
  parent = parent_id_of encountering s.words;
  thread = own;
  codeptr = codeptr;
  now = rt.now;
  deps = deps;
}

-- A task's callbacks with nothing in between, on pointers of different objects and from a thread that
-- has begun: task_create and then task_dependences, as the callbacks that they are, never fault, and
-- the turns of the task, two for task_create and one for each depend clause and for the end of the
-- loop, come to their end with the same tool data and the same next id.
pub task_callbacks-agree :
    (rt : Runtime) (encountering new_data type codeptr own : ℕ) (deps : List TaskDependence)
    (s : Tool)
    → Apart rt encountering new_data
    → get_own_data rt.thread_data s ≡ some own
    → Inv s
    → Returns
        (on_task_create rt encountering new_data type codeptr s >>= λ s1.
          on_task_dependences new_data deps s1)
        (λ s2.
          (r : Tool) × (interleave
              (0 ∷ 0 ∷ replicate (suc (length deps)) 0)
              (s, arriving (creation rt encountering codeptr own deps s) ∷ [])
            ≡ some (r, finished ∷ []))
          × (r.tool_data ≡ s2.tool_data)
          × (r.next_task_id ≡ s2.next_task_id))
unfolding on_task_dependences new_task
task_callbacks-agree rt encountering new_data type codeptr own deps s apart thread v =
    Returns->>= (Creates new_data t s) _ (on_task_create rt encountering new_data type codeptr s) _
      (λ s1 c.
        let s1' = tally (λ n. record n { n_task_dependences = bump n.n_task_dependences }) s1 in
        let r = record s {
          next_task_id = bump s.next_task_id;
          tool_data = handle_dependences s.next_task_id deps s1.tool_data;
        } in
        rw (load-some new_data s1' apart.new_set, c.announced)
          (
            r,
            arriving-register_new (creation rt encountering codeptr own deps s) s1.tool_data
                  (replicate (suc (length deps)) 0) s c.stored
                ∙ announcing-handle_dependences s.next_task_id deps
                    (record s { next_task_id = bump s.next_task_id; tool_data = s1.tool_data }),
            refl,
            omega (
              arith,
              v.next,
              c.inv.next,
              c.registers.size,
              length-append s.tool_data.tasks (t ∷ []),
            ),
          ))
      (on_task_create-Creates rt encountering new_data type codeptr own s apart thread v)
  where
    t : Task
    t = new_task s.next_task_id (parent_id_of encountering s.words) own explicit codeptr rt.now

-- A taskwait, from a thread that has begun, and its turn leave the same tool data, or both fault.
taskwait-agrees :
    (rt : Runtime) (task_data own : ℕ) (s : Tool)
    → task_data ≢ 0
    → get_own_data rt.thread_data s ≡ some own
    → (on_sync_region rt taskwait scope_begin task_data s >>= λ s'. some s'.tool_data)
      ≡ (wait (s.words task_data) s >>= λ p. some p.1.tool_data)
unfolding on_sync_region act_sync_region enter_taskwait wait
taskwait-agrees rt task_data own s n thread =
    let s1 =
      tally (count_sync_region scope_begin taskwait)
        (tally (λ c. record c { n_task_sync_region = bump c.n_task_sync_region }) s) in
    rw (load-some task_data s1 n, get_own_data-same rt.thread_data s s1 refl refl, thread)
      (elim (Option-cases (handle_taskwait_dependences (s.words task_data) s.tool_data)) [
        | inl fault ↦ rw fault refl
        | inr (td, returned) ↦ rw returned refl
      ])
