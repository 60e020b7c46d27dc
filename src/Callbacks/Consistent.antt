-- ===== src/Callbacks/Consistent.antt =====
-- The invariant of the tool data under the callbacks.
use ompt_dependency_tracker.Base.{
  ℕ, ◌%◌, ◌≡◌, refl, subst, List, [], ◌∷◌, ◌++◌, arith, length, get_elem?, get_elem?-append_last,
  Returns, Returns-map, Returns-and, some,
}
use ompt_dependency_tracker.Base.Word.{word_mod}
use ompt_dependency_tracker.Table.Laws.{Entries-map}
use ompt_dependency_tracker.Task.{Task}
use ompt_dependency_tracker.ToolData.{ToolData, allocate_task, register_task, new_tool_data}
use ompt_dependency_tracker.ToolData.Registry.{
  Known, Known-insert, IsValid, new_tool_data-IsValid, allocate_task-IsValid, register_task-IsValid,
  SameRegistry, SameRegistry-IsValid,
}
use ompt_dependency_tracker.ToolData.Registration.{
  Registers, register_task-Registers, register_new, IsNumbered, new_tool_data-IsNumbered,
  Registers-IsNumbered,
}
use ompt_dependency_tracker.ToolData.Untouched.{
  IsFresh, IsUntouched, new_tool_data-IsUntouched, Registers-IsUntouched, SameRegistry-IsUntouched,
}
use ompt_dependency_tracker.Callbacks.State.{Tool, loaded}
use ompt_dependency_tracker.Dependences.{
  TaskDependence, handle_dependences, handle_taskwait_dependences,
}
use ompt_dependency_tracker.Dependences.Closed.{
  IsClosed, new_tool_data-IsClosed, handle_dependences-IsClosed, OnlyEdges,
  handle_taskwait_dependences-IsClosed,
}
use ompt_dependency_tracker.Dependences.Frame.{handle_dependences-SameRegistry}

pub record IsConsistent (s : ToolData) : Type 0 where
  pub valid : IsValid s
  pub closed : IsClosed s
  pub numbered : IsNumbered s
  pub untouched : IsUntouched s

pub new_tool_data-IsConsistent : IsConsistent new_tool_data
new_tool_data-IsConsistent = record {
  valid = new_tool_data-IsValid;
  closed = new_tool_data-IsClosed;
  numbered = new_tool_data-IsNumbered;
  untouched = new_tool_data-IsUntouched;
}

pub Registers-IsClosed :
    (p : ℕ) (t : Task) (s s' : ToolData) → IsClosed s → Registers p t s s' → IsClosed s'
Registers-IsClosed p t s s' c r =
    let more = λ (k : ℕ) (known : Known s.id_to_task k). Known-insert t.id p k s.id_to_task known in
    record {
      ins = rw (r.ids, r.ins) (Entries-map _ _ _ _ s.in_dep_to_tasks (λ k u. u) more c.ins);
      outs = rw (r.ids, r.outs) (Entries-map _ _ _ _ s.out_dep_to_tasks (λ k u. u) more c.outs);
      inouts =
          rw (r.ids, r.inouts) (Entries-map _ _ _ _ s.inout_dep_to_tasks (λ k u. u) more c.inouts);
      edges = rw (r.ids, r.dependences) (Entries-map _ _ _ _ s.dependences more more c.edges);
    }

-- The state in which `register_task` finds the new task.
abbrev pub grown : Task → ToolData → ToolData
grown t s = record s { tasks = s.tasks ++ t ∷ [] }

-- A task without children is created and registered: this always returns.
pub register_new-Registers :
    (t : Task) (s : ToolData)
    → t.ancestry_children ≡ []
    → IsValid s
    → Returns (register_new t s) (λ s'. IsValid s' × Registers (length s.tasks) t (grown t s) s')
unfolding register_new allocate_task
register_new-Registers t s no_children v =
    let p = length s.tasks in
    let at = get_elem?-append_last s.tasks t in
    let valid = allocate_task-IsValid t s no_children v in
    Returns-and _ _ (register_task p (grown t s)) (register_task-IsValid p t (grown t s) at valid)
      (register_task-Registers p t (grown t s) at valid)

-- A task with the next number and no children is created and registered: this always returns.
pub register_new-IsConsistent :
    (t : Task) (s : ToolData)
    → t.id ≡ length s.tasks % word_mod
    → t.ancestry_children ≡ []
    → IsFresh t
    → IsConsistent s
    → Returns
        (register_new t s)
        (λ s'. IsConsistent s' × Registers (length s.tasks) t (grown t s) s')
register_new-IsConsistent t s id no_children fresh c =
    let p = length s.tasks in
    Returns-map _ _ (register_new t s)
      (λ s' (v, r). (
        record {
          valid = v;
          closed =
              Registers-IsClosed p t (grown t s) s'
                (record {
                  ins = c.closed.ins;
                  outs = c.closed.outs;
                  inouts = c.closed.inouts;
                  edges = c.closed.edges;
                })
                r;
          numbered = Registers-IsNumbered t s s' id c.numbered r;
          untouched = Registers-IsUntouched p t s s' fresh c.untouched r;
        },
        r,
      ))
      (register_new-Registers t s no_children c.valid)

SameRegistry-IsNumbered : (s t : ToolData) → SameRegistry s t → IsNumbered s → IsNumbered t
SameRegistry-IsNumbered s t same n = record {
  numbered = λ p u e. n.numbered p u (subst (λ tasks. get_elem? tasks p ≡ some u) same.tasks e);
  registered = rw (same.tasks, same.id_to_task) n.registered;
  first = rw (same.tasks, same.id_to_task) n.first;
}

pub handle_dependences-IsConsistent :
    (t : ℕ) (deps : List TaskDependence) (s : ToolData)
    → Known s.id_to_task t
    → IsConsistent s
    → IsConsistent (handle_dependences t deps s)
handle_dependences-IsConsistent t deps s known c =
    let same = handle_dependences-SameRegistry t deps s in
    record {
      valid = SameRegistry-IsValid s _ same c.valid;
      closed = handle_dependences-IsClosed t deps s known c.closed;
      numbered = SameRegistry-IsNumbered s _ same c.numbered;
      untouched = SameRegistry-IsUntouched s _ same c.untouched;
    }

pub OnlyEdges-SameRegistry : (s t : ToolData) → OnlyEdges s t → SameRegistry s t
OnlyEdges-SameRegistry s t e = ground arith

pub handle_taskwait_dependences-IsConsistent :
    (t : ℕ) (s : ToolData)
    → IsConsistent s
    → Returns (handle_taskwait_dependences t s) (λ s'. IsConsistent s' × SameRegistry s s')
handle_taskwait_dependences-IsConsistent t s c =
    Returns-map _ _ (handle_taskwait_dependences t s)
      (λ s' (only, closed).
        let same = OnlyEdges-SameRegistry s s' only in
        (
          record {
            valid = SameRegistry-IsValid s s' same c.valid;
            closed = closed;
            numbered = SameRegistry-IsNumbered s s' same c.numbered;
            untouched = SameRegistry-IsUntouched s s' same c.untouched;
          },
          same,
        ))
      (handle_taskwait_dependences-IsClosed t s c.valid c.closed)

-- The state of the tool: the tool data is consistent, and the counter of created tasks, their
-- number and the next id agree modulo 2^64.
pub record Inv (s : Tool) : Type 0 where
  pub consistent : IsConsistent s.tool_data
  pub next : s.next_task_id ≡ length s.tool_data.tasks % word_mod
  pub counted : s.counters.n_explicit_task ≡ s.next_task_id

-- From loading on.
pub loaded-Inv : (words : ℕ → ℕ) → Inv (loaded words)
loaded-Inv words = record { consistent = new_tool_data-IsConsistent; next = refl; counted = refl }
