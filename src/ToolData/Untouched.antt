-- ===== src/ToolData/Untouched.antt =====
-- What the callbacks leave in the fields of src/Task.hpp and in the table of regions: they create
-- explicit tasks and append children, and do nothing else to a task or a region.
use ompt_dependency_tracker.Base.{
  ℕ, ◌≡◌, ◌≢◌, ◌⊎◌, Option, refl, sym, subst, ◌∙◌, inl, inr, false, some, none, [], ◌∷◌, ◌++◌,
  arith, get_elem?, get_elem?-concat, Bool-cases, ◌==◌,
}
use ompt_dependency_tracker.Table.{find}
use ompt_dependency_tracker.Task.{Task, explicit, created, new_task}
use ompt_dependency_tracker.ToolData.{ToolData, new_tool_data}
use ompt_dependency_tracker.ToolData.Registry.{SameRegistry}
use ompt_dependency_tracker.ToolData.Registration.{Registers}

-- The task is as its constructor made it, but for its children.
pub record IsFresh (t : Task) : Type 0 where
  pub type : t.type ≡ explicit
  pub state : t.state ≡ created
  pub initial : t.initial ≡ false
  pub dependency_children : t.dependency_children ≡ []
  pub dependency_parents : t.dependency_parents ≡ []
  pub creation :
      (thread now : ℕ) × (t.encountering_threads ≡ thread ∷ [])
      × (t.tsps ≡ record { tsp_type = "create"; thread_id = thread; time = now } ∷ [])

pub record IsUntouched (s : ToolData) : Type 0 where
  pub fresh : (p : ℕ) (t : Task) → get_elem? s.tasks p ≡ some t → IsFresh t
  pub regions : s.regions ≡ []
  pub id_to_parallel_region : s.id_to_parallel_region ≡ []

pub new_tool_data-IsUntouched : IsUntouched new_tool_data
new_tool_data-IsUntouched = record {
  fresh = λ p t e. cc;
  regions = refl;
  id_to_parallel_region = refl;
}

pub new_task-IsFresh :
    (id parent thread codeptr now : ℕ) → IsFresh (new_task id parent thread explicit codeptr now)
unfolding new_task
new_task-IsFresh id parent thread codeptr now = record {
  type = refl;
  state = refl;
  initial = refl;
  dependency_children = refl;
  dependency_parents = refl;
  creation = (thread, now, refl, refl);
}

add_child-IsFresh :
    (p : ℕ) (t : Task)
    → IsFresh t
    → IsFresh (record t { ancestry_children = t.ancestry_children ++ p ∷ [] })
add_child-IsFresh p t f = record {
  type = f.type;
  state = f.state;
  initial = f.initial;
  dependency_children = f.dependency_children;
  dependency_parents = f.dependency_parents;
  creation = f.creation;
}

pub SameRegistry-IsUntouched : (s t : ToolData) → SameRegistry s t → IsUntouched s → IsUntouched t
SameRegistry-IsUntouched s t same u = record {
  fresh = λ p w at. u.fresh p w (subst (λ ts. get_elem? ts p ≡ some w) same.tasks at);
  regions = same.regions ∙ u.regions;
  id_to_parallel_region = same.id_to_parallel_region ∙ u.id_to_parallel_region;
}

pub is_parent : (found : Option ℕ) (q : ℕ) → (found ≡ some q) ⊎ (found ≢ some q)
is_parent none q = inr (λ e. cc)
is_parent (some p) q = elim (Bool-cases (p == q)) [
  | inl hit ↦ inl (ground arith)
  | inr miss ↦ inr (λ e. ground arith)
]

pub Registers-IsUntouched :
    (p : ℕ) (t : Task) (s s' : ToolData)
    → IsFresh t
    → IsUntouched s
    → Registers p t (record s { tasks = s.tasks ++ t ∷ [] }) s'
    → IsUntouched s'
Registers-IsUntouched p t s s' new u r = record {
  fresh = λ q w at.
      let (old, before, _) = r.same_ids q w at in
      elim (is_parent (find t.parent_id s'.id_to_task) q) [
        | inl found ↦
            let same : record old { ancestry_children = old.ancestry_children ++ p ∷ [] } ≡ w =
              grind (arith, r.parent q old found before) in
            subst IsFresh same (add_child-IsFresh p old (grown-IsFresh q old before))
        | inr other ↦ grown-IsFresh q w (sym (r.others q other) ∙ at)
      ];
  regions = r.regions ∙ u.regions;
  id_to_parallel_region = r.id_to_parallel_region ∙ u.id_to_parallel_region;
}
  where
    grown-IsFresh : (q : ℕ) (w : Task) → get_elem? (s.tasks ++ t ∷ []) q ≡ some w → IsFresh w
    grown-IsFresh q w at = elim (get_elem?-concat s.tasks t w q at) [
      | inl (same, _) ↦ subst IsFresh (sym same) new
      | inr old ↦ u.fresh q w old
    ]
