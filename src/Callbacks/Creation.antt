-- ===== src/Callbacks/Creation.antt =====
-- What the task_create callback does.
use ompt_dependency_tracker.Base.{
  ℕ, ◌%◌, ◌==◌, if◌then◌else◌, ◌≡◌, ◌≢◌, refl, sym, subst, ◌∙◌, some, [], ◌∷◌, arith, length,
  Returns, Returns->>=, Returns-eq, Returns-map, length-append, ap,
}
use ompt_dependency_tracker.Base.Word.{word_mod, bump}
use ompt_dependency_tracker.Counters.{Counters}
use ompt_dependency_tracker.Task.{Task, new_task, explicit}
use ompt_dependency_tracker.ToolData.{ToolData}
use ompt_dependency_tracker.ToolData.Registration.{Registers, register_new}
use ompt_dependency_tracker.ToolData.Untouched.{new_task-IsFresh}
use ompt_dependency_tracker.Callbacks.State.{Runtime, Tool, get_own_data, my_next_task_id}
use ompt_dependency_tracker.Callbacks.Handlers.{
  on_task_create, name_parallel_region, create_and_register,
}
use ompt_dependency_tracker.Callbacks.Memory.{
  load-some, store-some, get_own_data-same, OnlyWords, name_parallel_region-OnlyWords, parent_id_of,
  parent_of-some,
}
use ompt_dependency_tracker.Callbacks.Consistent.{
  IsConsistent, Inv, grown, register_new-IsConsistent,
}

-- The task with the next id, made by the thread, is registered, and its data holds its id.
pub record Creates (new_task_data : ℕ) (t : Task) (s s' : Tool) : Type 0 where
  pub inv : Inv s'
  pub announced : s'.words new_task_data ≡ t.id
  pub stored : register_new t s.tool_data ≡ some s'.tool_data
  pub registers : Registers (length s.tool_data.tasks) t (grown t s.tool_data) s'.tool_data

-- The last part of the callback.
create_and_register-Creates :
    (new_data task_id parent thread codeptr now : ℕ) (s : Tool)
    → task_id ≡ length s.tool_data.tasks % word_mod
    → s.words new_data ≡ task_id
    → IsConsistent s.tool_data
    → s.next_task_id ≡ bump task_id
    → s.counters.n_explicit_task ≡ s.next_task_id
    → Returns
        (create_and_register task_id parent thread codeptr now s)
        (Creates new_data (new_task task_id parent thread explicit codeptr now) s)
unfolding create_and_register new_task register_new
create_and_register-Creates new_data task_id parent thread codeptr now s id held c next counted =
    let t = new_task task_id parent thread explicit codeptr now in
    Returns->>= _ _ (register_new t s.tool_data) _
      (λ td ((c', r), returned). record {
        stored = returned;
        inv = record {
          consistent = c';
          next = omega (arith, r.size, length-append s.tool_data.tasks (t ∷ []), next, id);
          counted = counted;
        };
        announced = held;
        registers = r;
      })
      (Returns-eq _ (register_new t s.tool_data) (
        register_new-IsConsistent t s.tool_data id refl
          (new_task-IsFresh task_id parent thread codeptr now) c))

Creates-same :
    (new_data : ℕ) (t : Task) (s s0 s' : Tool)
    → s.tool_data ≡ s0.tool_data
    → Creates new_data t s s'
    → Creates new_data t s0 s'
Creates-same new_data t s s0 s' e c = record {
  inv = c.inv;
  announced = c.announced;
  stored = subst (λ td. register_new t td ≡ some s'.tool_data) e c.stored;
  registers = subst (λ td. Registers (length td.tasks) t (grown t td) s'.tool_data) e c.registers;
}

parent_id_of-same : (a : ℕ) (v w : ℕ → ℕ) → v a ≡ w a → parent_id_of a v ≡ parent_id_of a w
parent_id_of-same a v w e = ground arith

-- The pointers that the runtime passes are those of different objects.
pub record Apart (rt : Runtime) (encountering new_task_data : ℕ) : Type 0 where
  pub new_set : new_task_data ≢ 0
  pub region_set : rt.parallel_data ≢ 0
  pub new_thread : new_task_data ≢ rt.thread_data
  pub region_thread : rt.parallel_data ≢ rt.thread_data
  pub region_new : rt.parallel_data ≢ new_task_data
  pub new_encountering : new_task_data ≢ encountering
  pub region_encountering : rt.parallel_data ≢ encountering

-- On pointers of different objects, from a thread that has begun, the callback never faults: it
-- creates and registers the task with the next id, the encountering task's id for its parent (0
-- where there is none) and the thread's id, and leaves the id in the new task's data.
pub on_task_create-Creates :
    (rt : Runtime) (encountering new_data type codeptr own : ℕ) (s : Tool)
    → Apart rt encountering new_data
    → get_own_data rt.thread_data s ≡ some own
    → Inv s
    → Returns (on_task_create rt encountering new_data type codeptr s) (
        Creates new_data
          (new_task s.next_task_id (parent_id_of encountering s.words) own explicit codeptr rt.now)
          s)
unfolding on_task_create my_next_task_id
on_task_create-Creates rt encountering new_data type codeptr own s apart thread v =
    rw (store-some new_data s.next_task_id s2 apart.new_set) (
      Returns->>= (OnlyWords (λ a. rt.parallel_data ≢ a) s3) _ (name_parallel_region rt type s3) _
        (λ s4 w.
          let held : s4.words new_data ≡ s.next_task_id =
            w.kept new_data apart.region_new ∙ ground arith in
          let own_word : s4.words rt.thread_data ≡ s.words rt.thread_data =
            w.kept rt.thread_data apart.region_thread ∙ ground arith in
          let parent_word : s4.words encountering ≡ s.words encountering =
            w.kept encountering apart.region_encountering ∙ ground arith in
          rw
            (
              get_own_data-same rt.thread_data s s4 own_word w.own_data,
              thread,
              parent_of-some encountering s4,
              load-some new_data s4 apart.new_set,
              held,
              parent_id_of-same encountering s4.words s.words parent_word,
            )
            (Returns-map _ _ (create_and_register s.next_task_id _ own codeptr rt.now s4)
              (λ s' c. Creates-same new_data _ s4 s s' w.tool_data c)
              (create_and_register-Creates new_data s.next_task_id _ own codeptr rt.now s4
                (v.next ∙ ap (λ (td : ToolData). length td.tasks % word_mod) (sym w.tool_data)) held
                (subst IsConsistent (sym w.tool_data) v.consistent) w.next_task_id
                (ap (λ (c : Counters). c.n_explicit_task) w.counters
                  ∙ ap bump v.counted
                  ∙ sym w.next_task_id))))
        (name_parallel_region-OnlyWords rt type s3 apart.region_set))
  where
    s2 : Tool
    s2 = record s {
      counters = record s.counters { n_explicit_task = bump s.counters.n_explicit_task };
      next_task_id = bump s.next_task_id;
    }

    s3 : Tool
    s3 = record s2 { words = λ b. if new_data == b then s.next_task_id else s.words b }
