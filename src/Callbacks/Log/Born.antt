-- ===== src/Callbacks/Log/Born.antt =====
-- The children in the tables of src/ToolData.hpp when a task is created.
use ompt_dependency_tracker.Base.{
  ℕ, ◌≡◌, inl, inr, refl, sym, subst, ap, ◌∙◌, some, List, [], ◌∷◌, ◌++◌, arith, get_elem?,
  get_elem?-append, get_elem?-append_last, length, Option-cases,
}
use ompt_dependency_tracker.Table.{find, insert}
use ompt_dependency_tracker.Table.Laws.{All-find, find-insert}
use ompt_dependency_tracker.Task.{Task}
use ompt_dependency_tracker.Task
use ompt_dependency_tracker.ToolData.{ToolData}
use ompt_dependency_tracker.ToolData.Registry.{IsValid, NamesTask}
use ompt_dependency_tracker.ToolData.Registration.{Registers}
use ompt_dependency_tracker.ToolData.Untouched.{is_parent}
use ompt_dependency_tracker.Dependences.Waiting.{ids_at}
use ompt_dependency_tracker.Callbacks.Log.{Fact}
use ompt_dependency_tracker.Callbacks.Log.Facts.{Born, Logged, births_zero, unknown}

-- Every task keeps its place and its id.
abbrev pub SameIds : List Task → List Task → Type 0
SameIds xs ys =
    (p : ℕ) (t : Task)
    → get_elem? xs p ≡ some t
    → (u : Task) × (get_elem? ys p ≡ some u) × (u.id ≡ t.id)

pub ids_at-SameIds :
    (xs ys : List Task) (ps ids : List ℕ)
    → SameIds xs ys
    → ids_at xs ps ≡ some ids
    → ids_at ys ps ≡ some ids
ids_at-SameIds xs ys [] ids same e = e
ids_at-SameIds xs ys (p ∷ ps) ids same e = elim (Option-cases (get_elem? xs p)) [
  | inl dangling ↦ absurd (ground arith)
  | inr (t, at) ↦ elim (Option-cases (ids_at xs ps)) [
    | inl dangling ↦ absurd (ground arith)
    | inr (rest, others) ↦
        let (u, at', id) = same p t at in
        let later = ids_at-SameIds xs ys ps rest same others in ground arith
  ]
]

pub ids_at-concat :
    (xs : List Task) (p : ℕ) (t : Task) (ps ids : List ℕ)
    → get_elem? xs p ≡ some t
    → ids_at xs ps ≡ some ids
    → ids_at xs (ps ++ p ∷ []) ≡ some (ids ++ t.id ∷ [])
ids_at-concat xs p t [] ids at e = ground arith
ids_at-concat xs p t (q ∷ ps) ids at e = elim (Option-cases (get_elem? xs q)) [
  | inl dangling ↦ absurd (ground arith)
  | inr (u, at') ↦ elim (Option-cases (ids_at xs ps)) [
    | inl dangling ↦ absurd (ground arith)
    | inr (rest, others) ↦ let later = ids_at-concat xs p t ps rest at others in ground arith
  ]
]

pub Registers-SameIds :
    (p : ℕ) (t : Task) (s s' : ToolData) → Registers p t s s' → SameIds s.tasks s'.tasks
unfolding Task.add_child
Registers-SameIds p t s s' r q w at = elim (is_parent (find t.parent_id s'.id_to_task) q) [
  | inl found ↦ (Task.add_child p w, r.parent q w found at, refl)
  | inr other ↦ (w, r.others q other ∙ at, refl)
]

-- The children of a registered task, before the new task is entered in its parent.
pub grown-Born :
    (k q : ℕ) (t w : Task) (past : List Fact) (s : ToolData)
    → t.ancestry_children ≡ []
    → IsValid s
    → Logged past s
    → find k (insert t.id (length s.tasks) s.id_to_task) ≡ some q
    → get_elem? (s.tasks ++ t ∷ []) q ≡ some w
    → Born past (s.tasks ++ t ∷ []) k w
grown-Born k q t w past s no_children v l found at = elim (Option-cases (find k s.id_to_task)) [
  | inl absent ↦
      let here : q ≡ length s.tasks =
        ground (arith, find-insert t.id k (length s.tasks) s.id_to_task) in
      let last = get_elem?-append_last s.tasks t in
      let new : w ≡ t = ground arith in
      let none_yet : w.ancestry_children ≡ [] =
        ap (λ (x : Task). x.ancestry_children) new ∙ no_children in
      ([], rw none_yet refl, λ u. sym (births_zero u k past (unknown k past s l absent)))
  | inr (p, old) ↦
      let here : q ≡ p = ground (arith, find-insert t.id k (length s.tasks) s.id_to_task) in
      let (task, at', id) = All-find (NamesTask s.tasks) k p s.id_to_task v.named old in
      let kept = get_elem?-append s.tasks (t ∷ []) p task at' in
      let same : task ≡ w = ground arith in
      let (ids, children, counted) = l.born k p task old at' in
      (
        ids,
        subst (λ (x : Task). ids_at (s.tasks ++ t ∷ []) x.ancestry_children ≡ some ids) same
            (ids_at-SameIds s.tasks (s.tasks ++ t ∷ []) task.ancestry_children ids
              (λ i x e. (x, get_elem?-append s.tasks (t ∷ []) i x e, refl)) children),
        counted,
      )
]
