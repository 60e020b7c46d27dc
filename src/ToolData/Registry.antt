-- ===== src/ToolData/Registry.antt =====
-- The validity of the registry of src/ToolData.hpp: its pointers lead to the objects that its keys
-- name, and a task's children are tasks that name it as their parent.
use ompt_dependency_tracker.Base.{
  ℕ, ◌==◌, ◌≡◌, refl, sym, subst, ◌∙◌, inl, inr, some, List, [], ◌∷◌, ◌++◌, All, All-append,
  All-map, arith, get_elem?, set, get_elem?-set, get_elem?-set_self, get_elem?-set_ne,
  get_elem?-concat, ap, get_elem?-append, Returns, Option-cases, Bool-cases,
}
use ompt_dependency_tracker.Table.{find, insert}
use ompt_dependency_tracker.Table.Laws.{All-find, All-insert, find-insert}
use ompt_dependency_tracker.Task.{Task}
use ompt_dependency_tracker.Task
use ompt_dependency_tracker.ParallelRegion.{ParallelRegion}
use ompt_dependency_tracker.ToolData.{
  ToolData, modify_task, add_to_parent, register_task, allocate_task, new_tool_data,
}

-- The pointer of an entry leads to a task with the entry's key for its id.
abbrev pub NamesTask : List Task → ℕ × ℕ → Type 0
NamesTask tasks e = (t : Task) × (get_elem? tasks e.1 ≡ some t) × (t.id ≡ e.0)

abbrev pub NamesRegion : List ParallelRegion → ℕ × ℕ → Type 0
NamesRegion regions e = (r : ParallelRegion) × (get_elem? regions e.1 ≡ some r) × (r.id ≡ e.0)

-- The id is a key of the table.
abbrev pub Known : List (ℕ × ℕ) → ℕ → Type 0
Known ids k = (p : ℕ) × (find k ids ≡ some p)

-- The pointer leads to a task whose parent id is `id`, and whose own id is registered.
abbrev pub IsChild : List Task → List (ℕ × ℕ) → ℕ → ℕ → Type 0
IsChild tasks ids id c =
    (u : Task) × (get_elem? tasks c ≡ some u) × (u.parent_id ≡ id) × Known ids u.id

pub Known-insert : (k p j : ℕ) (ids : List (ℕ × ℕ)) → Known ids j → Known (insert k p ids) j
Known-insert k p j ids (q, e) = (q, ground (arith, find-insert k j p ids))

pub Known-insert_self : (k p : ℕ) (ids : List (ℕ × ℕ)) → Known (insert k p ids) k
Known-insert_self k p ids = elim (Option-cases (find k ids)) [
  | inl e ↦ (p, ground (arith, find-insert k k p ids))
  | inr (q, e) ↦ (q, ground (arith, find-insert k k p ids))
]

pub record IsValid (s : ToolData) : Type 0 where
  pub named : All (NamesTask s.tasks) s.id_to_task
  pub regions_named : All (NamesRegion s.regions) s.id_to_parallel_region
  pub children :
      (p : ℕ) (t : Task)
      → get_elem? s.tasks p ≡ some t
      → All (IsChild s.tasks s.id_to_task t.id) t.ancestry_children

pub new_tool_data-IsValid : IsValid new_tool_data
new_tool_data-IsValid = record { named = tt; regions_named = tt; children = λ p t e. cc }

-- Every task keeps its place, its id and its parent.
abbrev pub KeepsIds : List Task → List Task → Type 0
KeepsIds xs ys =
    (p : ℕ) (t : Task)
    → get_elem? xs p ≡ some t
    → (u : Task) × (get_elem? ys p ≡ some u) × (u.id ≡ t.id) × (u.parent_id ≡ t.parent_id)

NamesTask-keep : (xs ys : List Task) (e : ℕ × ℕ) → KeepsIds xs ys → NamesTask xs e → NamesTask ys e
NamesTask-keep xs ys e keep (t, at, id) = let (u, at', id', _) = keep e.1 t at in (u, at', id' ∙ id)

IsChild-keep :
    (xs ys : List Task) (ids : List (ℕ × ℕ)) (id c : ℕ)
    → KeepsIds xs ys
    → IsChild xs ids id c
    → IsChild ys ids id c
IsChild-keep xs ys ids id c keep (t, at, parent, known) =
    let (u, at', same, parent') = keep c t at in
    (u, at', parent' ∙ parent, subst (Known ids) (sym same) known)

KeepsIds-append : (xs ys : List Task) → KeepsIds xs (xs ++ ys)
KeepsIds-append xs ys p t e = (t, get_elem?-append xs ys p t e, refl, refl)

KeepsIds-set :
    (xs : List Task) (p : ℕ) (t u : Task)
    → get_elem? xs p ≡ some t
    → u.id ≡ t.id
    → u.parent_id ≡ t.parent_id
    → KeepsIds xs (set xs p u)
KeepsIds-set xs p t u e id parent q v f = elim (Bool-cases (p == q)) [
  | inl same ↦ (u, ground (arith, get_elem?-set_self xs p u t), ground arith, ground arith)
  | inr other ↦ (v, ground (arith, get_elem?-set_ne xs p q u), refl, refl)
]

-- A mutator that keeps the ids, and gives the task only children that name it, keeps the registry.
pub modify_task-IsValid :
    (p : ℕ) (f : Task → Task) (t : Task) (s : ToolData)
    → get_elem? s.tasks p ≡ some t
    → (f t).id ≡ t.id
    → (f t).parent_id ≡ t.parent_id
    → All (IsChild s.tasks s.id_to_task t.id) (f t).ancestry_children
    → IsValid s
    → Returns (modify_task p f s) IsValid
unfolding modify_task
modify_task-IsValid p f t s e id parent children v = rw e (record {
  named = All-map _ _ s.id_to_task (λ entry. NamesTask-keep s.tasks after entry keep) v.named;
  regions_named = v.regions_named;
  children = λ q u at. elim (get_elem?-set s.tasks p q (f t) u at) [
    | inl (_, new) ↦
        subst (λ (w : Task). All (IsChild after s.id_to_task w.id) w.ancestry_children) (sym new)
          (subst (λ i. All (IsChild after s.id_to_task i) (f t).ancestry_children) (sym id)
            (kept t.id (f t).ancestry_children children))
    | inr old ↦ kept u.id u.ancestry_children (v.children q u old)
  ];
})
  where
    after : List Task
    after = set s.tasks p (f t)

    keep : KeepsIds s.tasks after
    keep = KeepsIds-set s.tasks p t (f t) e id parent

    kept :
        (i : ℕ) (cs : List ℕ)
        → All (IsChild s.tasks s.id_to_task i) cs
        → All (IsChild after s.id_to_task i) cs
    kept i cs = All-map _ _ cs (λ c. IsChild-keep s.tasks after s.id_to_task i c keep)

-- `new Task` keeps the registry, whatever task without children it makes.
pub allocate_task-IsValid :
    (t : Task) (s : ToolData) → t.ancestry_children ≡ [] → IsValid s → IsValid (allocate_task t s).0
unfolding allocate_task
allocate_task-IsValid t s none_yet v = record {
  named = All-map _ _ s.id_to_task (λ entry. NamesTask-keep s.tasks after entry keep) v.named;
  regions_named = v.regions_named;
  children = λ p u at. elim (get_elem?-concat s.tasks t u p at) [
    | inl (new, _) ↦
        subst (λ cs. All (IsChild after s.id_to_task u.id) cs)
          (sym (ap (λ (w : Task). w.ancestry_children) new ∙ none_yet)) tt
    | inr old ↦
        All-map _ _ u.ancestry_children (λ c. IsChild-keep s.tasks after s.id_to_task u.id c keep)
          (v.children p u old)
  ];
}
  where
    after : List Task
    after = s.tasks ++ t ∷ []

    keep : KeepsIds s.tasks after
    keep = KeepsIds-append s.tasks (t ∷ [])

add_to_parent-IsValid :
    (p : ℕ) (t : Task) (s : ToolData)
    → get_elem? s.tasks p ≡ some t
    → Known s.id_to_task t.id
    → IsValid s
    → Returns (add_to_parent t.parent_id p s) IsValid
unfolding add_to_parent Task.add_child
add_to_parent-IsValid p t s e known v = elim (Option-cases (find t.parent_id s.id_to_task)) [
  | inl absent ↦ rw (absent, add_to_parent) v
  | inr (q, found) ↦
      let (parent, at, id) =
        All-find (NamesTask s.tasks) t.parent_id q s.id_to_task v.named found in
      rw (found, add_to_parent)
        (modify_task-IsValid q (Task.add_child p) parent s at refl refl
          (All-append _ parent.ancestry_children (p ∷ []) (v.children q parent at)
            ((t, e, sym id, known), tt))
          v)
]

-- Registering a task of the heap never faults and keeps the registry.
pub register_task-IsValid :
    (p : ℕ) (t : Task) (s : ToolData)
    → get_elem? s.tasks p ≡ some t
    → IsValid s
    → Returns (register_task p s) IsValid
unfolding register_task
register_task-IsValid p t s e v = rw e (
    add_to_parent-IsValid p t (record s { id_to_task = insert t.id p s.id_to_task }) e
      (Known-insert_self t.id p s.id_to_task)
      (record {
        named = All-insert (NamesTask s.tasks) t.id p s.id_to_task v.named (t, e, refl);
        regions_named = v.regions_named;
        children = λ q u at.
            All-map _ _ u.ancestry_children
              (λ c (w, found, parent, known).
                (w, found, parent, Known-insert t.id p w.id s.id_to_task known))
              (v.children q u at);
      }))

-- The registry is left alone.
pub record SameRegistry (s t : ToolData) : Type 0 where
  pub tasks : t.tasks ≡ s.tasks
  pub regions : t.regions ≡ s.regions
  pub id_to_task : t.id_to_task ≡ s.id_to_task
  pub id_to_parallel_region : t.id_to_parallel_region ≡ s.id_to_parallel_region

pub SameRegistry-trans : (s t u : ToolData) → SameRegistry s t → SameRegistry t u → SameRegistry s u
SameRegistry-trans s t u st tu = record {
  tasks = tu.tasks ∙ st.tasks;
  regions = tu.regions ∙ st.regions;
  id_to_task = tu.id_to_task ∙ st.id_to_task;
  id_to_parallel_region = tu.id_to_parallel_region ∙ st.id_to_parallel_region;
}

-- Validity is about the registry alone.
pub SameRegistry-IsValid : (s t : ToolData) → SameRegistry s t → IsValid s → IsValid t
SameRegistry-IsValid s t same v = record {
  named = rw (same.tasks, same.id_to_task) v.named;
  regions_named = rw (same.regions, same.id_to_parallel_region) v.regions_named;
  children = λ p u at.
      rw (same.tasks, same.id_to_task)
        (v.children p u (subst (λ tasks. get_elem? tasks p ≡ some u) same.tasks at));
}
