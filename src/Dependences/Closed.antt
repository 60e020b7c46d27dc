-- ===== src/Dependences/Closed.antt =====
-- The ids in the tables of accesses and in `dependences`, against the ids of registered tasks.
use ompt_dependency_tracker.Base.{
  ℕ, ◌≡◌, refl, inl, inr, Option, none, some, List, [], ◌∷◌, All, Returns, Returns->>=,
  Option-cases, subst, sym,
}
use ompt_dependency_tracker.Table.{find, append_to}
use ompt_dependency_tracker.Table.Laws.{All-find, Entries, Entries-append_to, Entries-find}
use ompt_dependency_tracker.Task.{Task}
use ompt_dependency_tracker.ToolData.{ToolData, new_tool_data}
use ompt_dependency_tracker.ToolData.Registry.{Known, IsChild, IsValid, NamesTask}
use ompt_dependency_tracker.Dependences.{
  TaskDependence, add_dependences, depend_on, handle_in_dependence, handle_out_dependence,
  handle_dependence, handle_dependences, wait_for, handle_taskwait_dependences,
}
use ompt_dependency_tracker.Dependences.Frame.{handle_dependence-SameRegistry}
use ompt_dependency_tracker.Dependences.History.{handle_dependence_cases}

abbrev pub Accesses : List (ℕ × ℕ) → List (ℕ × List ℕ) → Type 0
Accesses ids = Entries (λ a. Unit {0}) (Known ids)

abbrev pub Edges : List (ℕ × ℕ) → List (ℕ × List ℕ) → Type 0
Edges ids = Entries (Known ids) (Known ids)

pub record IsClosed (s : ToolData) : Type 0 where
  pub ins : Accesses s.id_to_task s.in_dep_to_tasks
  pub outs : Accesses s.id_to_task s.out_dep_to_tasks
  pub inouts : Accesses s.id_to_task s.inout_dep_to_tasks
  pub edges : Edges s.id_to_task s.dependences

pub new_tool_data-IsClosed : IsClosed new_tool_data
new_tool_data-IsClosed = record { ins = tt; outs = tt; inouts = tt; edges = tt }

Edges-add_dependences :
    (ids : List (ℕ × ℕ)) (t : ℕ) (prev : List ℕ) (deps : List (ℕ × List ℕ))
    → Known ids t
    → All (Known ids) prev
    → Edges ids deps
    → Edges ids (add_dependences t prev deps)
unfolding add_dependences
Edges-add_dependences ids t [] deps known ps es = es
Edges-add_dependences ids t (p ∷ prev) deps known ps es =
    Edges-add_dependences ids t prev (append_to p t deps) known ps.1
      (Entries-append_to (Known ids) (Known ids) p t deps ps.0 known es)

depend_on-IsClosed :
    (t a : ℕ) (table : List (ℕ × List ℕ)) (s : ToolData)
    → Known s.id_to_task t
    → Accesses s.id_to_task table
    → IsClosed s
    → IsClosed (depend_on t (find a table) s)
unfolding depend_on
depend_on-IsClosed t a table s known known_all c = elim (Option-cases (find a table)) [
  | inl e ↦ rw (e, depend_on) c
  | inr (prev, e) ↦
      rw (e, depend_on)
        (record {
          ins = c.ins;
          outs = c.outs;
          inouts = c.inouts;
          edges =
              Edges-add_dependences s.id_to_task t prev s.dependences known
                (Entries-find _ (Known s.id_to_task) a prev table known_all e) c.edges;
        })
]

depend_on-ids :
    (t : ℕ) (found : Option (List ℕ)) (s : ToolData)
    → (depend_on t found s).id_to_task ≡ s.id_to_task
unfolding depend_on
depend_on-ids t none s = refl
depend_on-ids t (some prev) s = refl

handle_in_dependence-IsClosed :
    (t flag a : ℕ) (s : ToolData)
    → Known s.id_to_task t
    → IsClosed s
    → IsClosed (handle_in_dependence t flag a s)
unfolding handle_in_dependence
handle_in_dependence-IsClosed t flag a s known c =
    let s1 = depend_on t (find a s.out_dep_to_tasks) s in
    let same1 = depend_on-ids t (find a s.out_dep_to_tasks) s in
    let known1 : Known s1.id_to_task t = subst (λ ids. Known ids t) (sym same1) known in
    let c1 : IsClosed s1 = depend_on-IsClosed t a s.out_dep_to_tasks s known c.outs c in
    let s2 = depend_on t (find a s1.inout_dep_to_tasks) s1 in
    let same2 = depend_on-ids t (find a s1.inout_dep_to_tasks) s1 in
    let known2 : Known s2.id_to_task t = subst (λ ids. Known ids t) (sym same2) known1 in
    let c2 : IsClosed s2 = depend_on-IsClosed t a s1.inout_dep_to_tasks s1 known1 c1.inouts c1 in
    record {
      ins = Entries-append_to _ (Known s2.id_to_task) a t s2.in_dep_to_tasks tt known2 c2.ins;
      outs = c2.outs;
      inouts = c2.inouts;
      edges = c2.edges;
    }

handle_out_dependence-IsClosed :
    (t flag a : ℕ) (s : ToolData)
    → Known s.id_to_task t
    → IsClosed s
    → IsClosed (handle_out_dependence t flag a s)
unfolding handle_out_dependence
handle_out_dependence-IsClosed t flag a s known c =
    let s1 = depend_on t (find a s.in_dep_to_tasks) s in
    let same1 = depend_on-ids t (find a s.in_dep_to_tasks) s in
    let known1 : Known s1.id_to_task t = subst (λ ids. Known ids t) (sym same1) known in
    let c1 : IsClosed s1 = depend_on-IsClosed t a s.in_dep_to_tasks s known c.ins c in
    let s2 = depend_on t (find a s1.inout_dep_to_tasks) s1 in
    let same2 = depend_on-ids t (find a s1.inout_dep_to_tasks) s1 in
    let known2 : Known s2.id_to_task t = subst (λ ids. Known ids t) (sym same2) known1 in
    let c2 : IsClosed s2 = depend_on-IsClosed t a s1.inout_dep_to_tasks s1 known1 c1.inouts c1 in
    let s3 = depend_on t (find a s2.out_dep_to_tasks) s2 in
    let same3 = depend_on-ids t (find a s2.out_dep_to_tasks) s2 in
    let known3 : Known s3.id_to_task t = subst (λ ids. Known ids t) (sym same3) known2 in
    let c3 : IsClosed s3 = depend_on-IsClosed t a s2.out_dep_to_tasks s2 known2 c2.outs c2 in
    record {
      ins = c3.ins;
      outs = Entries-append_to _ (Known s3.id_to_task) a t s3.out_dep_to_tasks tt known3 c3.outs;
      inouts = c3.inouts;
      edges = c3.edges;
    }

pub handle_dependence-IsClosed :
    (t : ℕ) (d : TaskDependence) (s : ToolData)
    → Known s.id_to_task t
    → IsClosed s
    → IsClosed (handle_dependence t d s)
handle_dependence-IsClosed t d s known c =
    handle_dependence_cases IsClosed t d s
      (λ _. handle_in_dependence-IsClosed t d.dependence_flags d.variable_addr s known c)
      (λ _. handle_out_dependence-IsClosed t d.dependence_flags d.variable_addr s known c)
      (λ _ _. c)

-- The depend clauses of a registered task keep the tables closed.
pub handle_dependences-IsClosed :
    (t : ℕ) (deps : List TaskDependence) (s : ToolData)
    → Known s.id_to_task t
    → IsClosed s
    → IsClosed (handle_dependences t deps s)
unfolding handle_dependences
handle_dependences-IsClosed t [] s known c = c
handle_dependences-IsClosed t (d ∷ deps) s known c =
    handle_dependences-IsClosed t deps (handle_dependence t d s)
      (subst (λ ids. Known ids t) (sym (handle_dependence-SameRegistry t d s).id_to_task) known)
      (handle_dependence-IsClosed t d s known c)

-- The loop of a taskwait.
wait_for-Edges :
    (ids : List (ℕ × ℕ)) (t parent : ℕ) (tasks : List Task) (cs : List ℕ) (deps : List (ℕ × List ℕ))
    → Known ids t
    → All (IsChild tasks ids parent) cs
    → Edges ids deps
    → Returns (wait_for t tasks cs deps) (Edges ids)
unfolding wait_for
wait_for-Edges ids t parent tasks [] deps known all es = es
wait_for-Edges ids t parent tasks (c ∷ cs) deps known all es =
    let (u, found, _, child_known) = all.0 in
    rw found (
      wait_for-Edges ids t parent tasks cs (append_to u.id t deps) known all.1
        (Entries-append_to (Known ids) (Known ids) u.id t deps child_known known es))

-- Nothing but `dependences` differs.
abbrev pub OnlyEdges : ToolData → ToolData → Type 0
OnlyEdges s s' = s' ≡ record s { dependences = s'.dependences }

-- A taskwait of any id never faults, changes `dependences` alone and keeps it closed.
pub handle_taskwait_dependences-IsClosed :
    (t : ℕ) (s : ToolData)
    → IsValid s
    → IsClosed s
    → Returns (handle_taskwait_dependences t s) (λ s'. OnlyEdges s s' × IsClosed s')
unfolding handle_taskwait_dependences
handle_taskwait_dependences-IsClosed t s v c = elim (Option-cases (find t s.id_to_task)) [
  | inl absent ↦ rw (absent, handle_taskwait_dependences) (refl, c)
  | inr (p, found) ↦
      let (task, at, id) = All-find (NamesTask s.tasks) t p s.id_to_task v.named found in
      rw (found, handle_taskwait_dependences)
        (rw at (
          Returns->>= _ _ (wait_for t s.tasks task.ancestry_children s.dependences) _
            (λ deps edges.
              (refl, record { ins = c.ins; outs = c.outs; inouts = c.inouts; edges = edges }))
            (wait_for-Edges s.id_to_task t task.id s.tasks task.ancestry_children s.dependences
              (p, found) (v.children p task at) c.edges)))
]
