-- ===== src/ToolData/Registration.antt =====
-- What registering a task changes, and the numbering of the tasks that the callbacks create.
use ompt_dependency_tracker.Base.{
  ℕ, ◌+◌, ◌%◌, ◌<◌, ◌≡◌, refl, sym, subst, ◌∙◌, ◌≢◌, inl, inr, Option, some, List, [], ◌∷◌, ◌++◌,
  arith, get_elem?, set, length, get_elem?-set, get_elem?-set_self, get_elem?-set_ne,
  get_elem?-concat, length-set, length-append, ap, Returns, Option-cases,
}
use ompt_dependency_tracker.Base.Word.{word_mod}
use ompt_dependency_tracker.Table.{find, insert}
use ompt_dependency_tracker.Table.Laws.{All-find, All-insert, find-insert, find-ne}
use ompt_dependency_tracker.Task.{Task}
use ompt_dependency_tracker.Task
use ompt_dependency_tracker.ToolData.{
  ToolData, modify_task, add_to_parent, register_task, allocate_task, new_tool_data,
}
use ompt_dependency_tracker.ToolData.Registry.{IsValid, NamesTask}

-- What `register_task` does to a task `t` at the address `p`.
pub record Registers (p : ℕ) (t : Task) (s s' : ToolData) : Type 0 where
  pub ids : s'.id_to_task ≡ insert t.id p s.id_to_task
  pub size : length s'.tasks ≡ length s.tasks
  pub same_ids :
      (q : ℕ) (u : Task)
      → get_elem? s'.tasks q ≡ some u
      → (w : Task) × (get_elem? s.tasks q ≡ some w) × (u.id ≡ w.id)
  -- The registered parent gains the task as its last child.
  pub parent :
      (q : ℕ) (w : Task)
      → find t.parent_id s'.id_to_task ≡ some q
      → get_elem? s.tasks q ≡ some w
      → get_elem? s'.tasks q ≡ some (record w { ancestry_children = w.ancestry_children ++ p ∷ [] })
  -- Every other task is as it was.
  pub others :
      (q : ℕ) → find t.parent_id s'.id_to_task ≢ some q → get_elem? s'.tasks q ≡ get_elem? s.tasks q
  pub regions : s'.regions ≡ s.regions
  pub ins : s'.in_dep_to_tasks ≡ s.in_dep_to_tasks
  pub outs : s'.out_dep_to_tasks ≡ s.out_dep_to_tasks
  pub inouts : s'.inout_dep_to_tasks ≡ s.inout_dep_to_tasks
  pub dependences : s'.dependences ≡ s.dependences
  pub id_to_parallel_region : s'.id_to_parallel_region ≡ s.id_to_parallel_region

set-same_ids :
    (xs : List Task) (q : ℕ) (w u : Task) (r : ℕ) (v : Task)
    → get_elem? xs q ≡ some w
    → u.id ≡ w.id
    → get_elem? (set xs q u) r ≡ some v
    → (x : Task) × (get_elem? xs r ≡ some x) × (v.id ≡ x.id)
set-same_ids xs q w u r v at id e = elim (get_elem?-set xs q r u v e) [
  | inl (same, new) ↦
      (w, subst (λ i. get_elem? xs i ≡ some w) same at, ap (λ (x : Task). x.id) new ∙ id)
  | inr old ↦ (v, old, refl)
]

-- In a valid registry the parent that is found after the insertion is a task of the heap.
parent_at :
    (p : ℕ) (t : Task) (s : ToolData)
    → get_elem? s.tasks p ≡ some t
    → IsValid s
    → (q : ℕ) → find t.parent_id (insert t.id p s.id_to_task) ≡ some q
    → (w : Task) × (get_elem? s.tasks q ≡ some w) × (w.id ≡ t.parent_id)
parent_at p t s e v q found =
    All-find (NamesTask s.tasks) t.parent_id q (insert t.id p s.id_to_task)
      (All-insert (NamesTask s.tasks) t.id p s.id_to_task v.named (t, e, refl)) found

-- Registering a task of the heap in a valid registry always returns, with exactly these changes.
pub register_task-Registers :
    (p : ℕ) (t : Task) (s : ToolData)
    → get_elem? s.tasks p ≡ some t
    → IsValid s
    → Returns (register_task p s) (Registers p t s)
unfolding register_task add_to_parent modify_task Task.add_child
register_task-Registers p t s e v =
    let ids = insert t.id p s.id_to_task in
    rw e (elim (Option-cases (find t.parent_id ids)) [
      | inl absent ↦
          rw (absent, add_to_parent)
            (record {
              ids = refl;
              size = refl;
              same_ids = λ q u at. (u, at, refl);
              parent = λ q w found at. cc;
              others = λ q n. refl;
              regions = refl;
              ins = refl;
              outs = refl;
              inouts = refl;
              dependences = refl;
              id_to_parallel_region = refl;
            })
      | inr (q, found) ↦
          let (w, at, _) = parent_at p t s e v q found in
          rw (found, add_to_parent)
            (rw at (record {
              ids = refl;
              size = length-set s.tasks q (Task.add_child p w);
              same_ids = λ r u at'. set-same_ids s.tasks q w (Task.add_child p w) r u at refl at';
              parent = λ r x found' at'.
                  ground (arith, get_elem?-set_self s.tasks q (Task.add_child p w) w at);
              others = λ r n.
                  get_elem?-set_ne s.tasks q r (Task.add_child p w)
                    (find-ne ids t.parent_id q r found n);
              regions = refl;
              ins = refl;
              outs = refl;
              inouts = refl;
              dependences = refl;
              id_to_parallel_region = refl;
            }))
    ])

-- `new Task`, then `register_task`.
unfoldable pub register_new : Task → ToolData → Option ToolData
register_new t s = register_task (allocate_task t s).1 (allocate_task t s).0

-- Tasks are numbered from 0 in the order of their creation, modulo 2^64, and the table holds the
-- first task of each number.
pub record IsNumbered (s : ToolData) : Type 0 where
  pub numbered : (p : ℕ) (t : Task) → get_elem? s.tasks p ≡ some t → t.id ≡ p % word_mod
  pub registered : (k : ℕ) → k < length s.tasks → k < word_mod → find k s.id_to_task ≡ some k
  pub first :
      (k p : ℕ) → find k s.id_to_task ≡ some p → (p ≡ k) × (k < length s.tasks) × (k < word_mod)

pub new_tool_data-IsNumbered : IsNumbered new_tool_data
unfolding find
new_tool_data-IsNumbered = record {
  numbered = λ p t e. cc;
  registered = λ k h w. absurd (omega arith);
  first = λ k p e. cc;
}

-- The two facts about a key k, over a table to which the task number `size` is added.
module _ (ids : List (ℕ × ℕ)) (size k : ℕ) where
  registered-insert :
      (id : ℕ)
      → id ≡ size % word_mod
      → (k < size → k < word_mod → find k ids ≡ some k)
      → ((p : ℕ) → find k ids ≡ some p → (p ≡ k) × (k < size) × (k < word_mod))
      → k < size + 1
      → k < word_mod
      → find k (insert id size ids) ≡ some k
  registered-insert id e reg first h w = elim (Option-cases (find k ids)) [
    | inl absent ↦ ground (arith, find-insert id k size ids)
    | inr (p, found) ↦ ground (arith, find-insert id k size ids, first p)
  ]

  first-insert :
      (p id : ℕ)
      → id ≡ size % word_mod
      → (k < size → k < word_mod → find k ids ≡ some k)
      → ((q : ℕ) → find k ids ≡ some q → (q ≡ k) × (k < size) × (k < word_mod))
      → find k (insert id size ids) ≡ some p
      → (p ≡ k) × (k < size + 1) × (k < word_mod)
  first-insert p id e reg first found = elim (Option-cases (find k ids)) [
    | inl absent ↦ ground (arith, find-insert id k size ids)
    | inr (q, old) ↦ ground (arith, find-insert id k size ids, first q)
  ]

pub Registers-IsNumbered :
    (t : Task) (s s' : ToolData)
    → t.id ≡ length s.tasks % word_mod
    → IsNumbered s
    → Registers (length s.tasks) t (record s { tasks = s.tasks ++ t ∷ [] }) s'
    → IsNumbered s'
Registers-IsNumbered t s s' id n r = record {
  numbered = λ p u at.
      let (w, old, same) = r.same_ids p u at in
      elim (get_elem?-concat s.tasks t w p old) [
        | inl (new, last) ↦
            same ∙ ap (λ (x : Task). x.id) new ∙ id ∙ ap (λ i. i % word_mod) (sym last)
        | inr before ↦ same ∙ n.numbered p w before
      ];
  registered = λ k h w. rw r.ids (
      registered-insert s.id_to_task (length s.tasks) k t.id id (n.registered k) (n.first k)
        (omega (arith, r.size, length-append s.tasks (t ∷ []))) w);
  first = λ k p e.
      let (same, below, small) =
        first-insert s.id_to_task (length s.tasks) k p t.id id (n.registered k) (n.first k)
          (subst (λ ids. find k ids ≡ some p) r.ids e) in
      (same, omega (arith, r.size, length-append s.tasks (t ∷ [])), small);
}
