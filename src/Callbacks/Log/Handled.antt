-- ===== src/Callbacks/Log/Handled.antt =====
-- The handlers of depend clauses and taskwaits of src/callbacks.hpp, against the log.
use mathlib.Core.List.{append-nil}
use ompt_dependency_tracker.Base.{
  ℕ, ◌≡◌, inl, inr, refl, sym, ap, ◌∙◌, List, [], ◌∷◌, ◌++◌, arith, replicate, map, Returns,
  Returns-map, Returns-and, Returns-both, Option-cases,
}
use ompt_dependency_tracker.Table.{find, bucket}
use ompt_dependency_tracker.Table.Laws.{All-find}
use ompt_dependency_tracker.ToolData.{ToolData}
use ompt_dependency_tracker.ToolData.Registry.{SameRegistry, IsValid, NamesTask}
use ompt_dependency_tracker.Dependences.{
  TaskDependence, handle_dependence, handle_dependences, handle_taskwait_dependences,
}
use ompt_dependency_tracker.Dependences.History.{
  Access, uses-concat, Records, handle_dependence-Records, handle_dependence-bucket,
}
use ompt_dependency_tracker.Dependences.Waiting.{taskwait-bucket}
use ompt_dependency_tracker.Dependences.Pairs.{
  Agrees, handle_dependence-Agrees, handle_taskwait_dependences-Agrees,
}
use ompt_dependency_tracker.Dependences.Frame.{handle_dependence-SameRegistry}
use ompt_dependency_tracker.Dependences.Closed.{
  IsClosed, OnlyEdges, handle_taskwait_dependences-IsClosed,
}
use ompt_dependency_tracker.Callbacks.Log.Facts.{
  Logged, Heeds, Heeds-nil, Heeds-cons, births_zero, unknown,
}
use ompt_dependency_tracker.Callbacks.Log.{
  Fact, accessed, waited, accesses, is_made, births, expected,
}

-- Whether the latest access stands first or last is the same to the tables.
Records-cons :
    (t : ℕ) (d : TaskDependence) (past : List Access) (s : ToolData)
    → Records (past ++ (t, d) ∷ []) s
    → Records ((t, d) ∷ past) s
Records-cons t d past s r = record {
  ins = λ u a. omega (arith, r.ins u a, uses-concat _ u a t d past);
  outs = λ u a. omega (arith, r.outs u a, uses-concat _ u a t d past);
  inouts = r.inouts;
}

-- The registry and the past children stay as they are.
SameRegistry-Logged :
    (f : Fact) (past : List Fact) (s s' : ToolData)
    → SameRegistry s s'
    → ((k : ℕ) → is_made k (f ∷ past) ≡ is_made k past)
    → ((u t : ℕ) → births u t (f ∷ past) ≡ births u t past)
    → Records (accesses (f ∷ past)) s'
    → Agrees s'.dependences
    → Logged past s
    → Logged (f ∷ past) s'
SameRegistry-Logged f past s s' same made_same births_same r a l = record {
  agree = a;
  once = λ k. rw (same.id_to_task, made_same k) (l.once k);
  records = r;
  known = λ k. rw (same.id_to_task, made_same k) (l.known k);
  born =
      rw (same.tasks, same.id_to_task)
        (λ t p task e at.
          let (ids, found, counted) = l.born t p task e at in
          (ids, found, λ u. counted u ∙ sym (births_same u t)));
}

pub handle_dependence-Heeds :
    (t : ℕ) (d : TaskDependence) (past : List Fact) (s : ToolData)
    → Logged past s
    → Heeds past (accessed t d ∷ []) s (handle_dependence t d s)
handle_dependence-Heeds t d past s l = record {
  logged =
      SameRegistry-Logged (accessed t d) past s (handle_dependence t d s)
        (handle_dependence-SameRegistry t d s) (λ k. refl) (λ u k. refl)
        (Records-cons t d (accesses past) (handle_dependence t d s)
          (handle_dependence-Records t d (accesses past) s l.records))
        (handle_dependence-Agrees t d s l.agree) l;
  added = λ u.
      handle_dependence-bucket u t d (accesses past) s l.records
      ∙ ap (λ l. bucket u s.dependences ++ l) (sym (append-nil _));
}

pub handle_dependences-Heeds :
    (t : ℕ) (deps : List TaskDependence) (past : List Fact) (s : ToolData)
    → Logged past s
    → Heeds past (map (accessed t) deps) s (handle_dependences t deps s)
unfolding handle_dependences
handle_dependences-Heeds t [] past s l = Heeds-nil past s l
handle_dependences-Heeds t (d ∷ deps) past s l =
    let first = handle_dependence-Heeds t d past s l in
    Heeds-cons past (map (accessed t) deps) (accessed t d) s (handle_dependence t d s) _ first
      (handle_dependences-Heeds t deps (accessed t d ∷ past) (handle_dependence t d s) first.logged)

OnlyEdges-Records :
    (past : List Access) (s s' : ToolData) → OnlyEdges s s' → Records past s → Records past s'
OnlyEdges-Records past s s' only r = record {
  ins = rw (ap (λ (d : ToolData). d.in_dep_to_tasks) only) r.ins;
  outs = rw (ap (λ (d : ToolData). d.out_dep_to_tasks) only) r.outs;
  inouts = rw (ap (λ (d : ToolData). d.inout_dep_to_tasks) only) r.inouts;
}

taskwait_added :
    (t : ℕ) (past : List Fact) (s : ToolData)
    → IsValid s
    → Logged past s
    → Returns (handle_taskwait_dependences t s) (λ s'.
      (u : ℕ) → bucket u s'.dependences ≡ bucket u s.dependences ++ expected u past (waited t ∷ []))
unfolding handle_taskwait_dependences
taskwait_added t past s v l = elim (Option-cases (find t s.id_to_task)) [
  | inl absent ↦
      rw (absent, handle_taskwait_dependences)
        (λ u. rw (births_zero u t past (unknown t past s l absent)) (sym (append-nil _)))
  | inr (p, found) ↦
      let (task, at, id) = All-find (NamesTask s.tasks) t p s.id_to_task v.named found in
      let (ids, children, counted) = l.born t p task found at in
      Returns-map _ _ (handle_taskwait_dependences t s)
        (λ s' added u.
          added u
          ∙ ap (λ n. bucket u s.dependences ++ replicate n t) (counted u)
          ∙ ap (λ ts. bucket u s.dependences ++ ts) (sym (append-nil _)))
        (taskwait-bucket t p task ids s found at children)
]

-- A taskwait of any id.
pub handle_taskwait_dependences-Heeds :
    (t : ℕ) (past : List Fact) (s : ToolData)
    → IsValid s
    → IsClosed s
    → Logged past s
    → Returns (handle_taskwait_dependences t s) (Heeds past (waited t ∷ []) s)
handle_taskwait_dependences-Heeds t past s v c l =
    Returns-both (λ s'. OnlyEdges s s' × IsClosed s' × Added s') (λ s'. Agrees s'.dependences) _
      (handle_taskwait_dependences t s)
      (λ s' (only, closed, added) a. record {
        logged =
            SameRegistry-Logged (waited t) past s s' (ground arith) (λ k. refl) (λ u k. refl)
              (OnlyEdges-Records (accesses past) s s' only l.records) a l;
        added = added;
      })
      (Returns-map _ _ (handle_taskwait_dependences t s)
        (λ s' ((only, closed), added). (only, closed, added))
        (Returns-and _ _ (handle_taskwait_dependences t s)
          (handle_taskwait_dependences-IsClosed t s v c) (taskwait_added t past s v l)))
      (handle_taskwait_dependences-Agrees t s l.agree)
  where
    Added : ToolData → Type 0
    Added s' =
        (u : ℕ)
        → bucket u s'.dependences ≡ bucket u s.dependences ++ expected u past (waited t ∷ [])
