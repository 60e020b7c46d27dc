-- ===== src/Callbacks/Log/Created.antt =====
-- The creation of a task, against the tables of src/ToolData.hpp and the log.
use mathlib.Core.List.{append-nil, map-append}
use ompt_dependency_tracker.Base.{
  ℕ, ◌+◌, ◌==◌, if◌then◌else◌, ◌≡◌, ◌≢◌, ◌↔◌, inl, inr, sym, subst, ap, ◌∙◌, true, false, some,
  List, [], ◌∷◌, ◌++◌, arith, get_elem?, get_elem?-append_last, length, Bool-cases, Option-cases,
}
use ompt_dependency_tracker.Table.{find, insert, bucket}
use ompt_dependency_tracker.Table.Laws.{All-find, find-insert}
use ompt_dependency_tracker.Task.{Task}
use ompt_dependency_tracker.Task
use ompt_dependency_tracker.ToolData.{ToolData}
use ompt_dependency_tracker.ToolData.Registry.{
  Known, Known-insert, Known-insert_self, IsValid, NamesTask,
}
use ompt_dependency_tracker.ToolData.Registration.{Registers}
use ompt_dependency_tracker.ToolData.Untouched.{is_parent}
use ompt_dependency_tracker.Dependences.Effect.{count, count-concat}
use ompt_dependency_tracker.Dependences.Waiting.{ids_at}
use ompt_dependency_tracker.DagBuilder.Vertices.{keys}
use ompt_dependency_tracker.Callbacks.Consistent.{grown}
use ompt_dependency_tracker.Callbacks.Log.{Fact, made, is_made}
use ompt_dependency_tracker.Callbacks.Log.Born.{
  ids_at-SameIds, ids_at-concat, Registers-SameIds, grown-Born,
}
use ompt_dependency_tracker.Callbacks.Log.Facts.{Born, Logged, unknown, Heeds}

module _ (t : Task) (past : List Fact) (s s' : ToolData) (v : IsValid s) (v' : IsValid s')
    (l : Logged past s) (r : Registers (length s.tasks) t (grown t s) s') where
  Registers-Known :
      (k : ℕ) → Known s'.id_to_task k ↔ (is_made k (made t.id t.parent_id ∷ past) ≡ true)
  Registers-Known k = rw r.ids (
    λ (p, e). elim (Option-cases (find k s.id_to_task)) [
      | inl absent ↦ ground (arith, find-insert t.id k (length s.tasks) s.id_to_task)
      | inr (q, old) ↦ let m = (l.known k).0 (q, old) in ground arith
    ],
    λ m. elim (Bool-cases (t.id == k)) [
      | inl hit ↦
          let same : t.id ≡ k = ground arith in
          subst (Known (insert t.id (length s.tasks) s.id_to_task)) same
            (Known-insert_self t.id (length s.tasks) s.id_to_task)
      | inr miss ↦ Known-insert t.id (length s.tasks) k s.id_to_task ((l.known k).1 (ground arith))
    ],
  )

  made_once :
      (k : ℕ)
      → count k (keys s'.id_to_task) ≡ (if is_made k (made t.id t.parent_id ∷ past) then 1 else 0)
  unfolding insert
  made_once k = rw r.ids (elim (Option-cases (find t.id s.id_to_task)) [
    | inl absent ↦
        let first = unknown t.id past s l absent in
        rw (absent, insert)
          (rw (map-append (λ (e : ℕ × ℕ). e.0) s.id_to_task ((t.id, length s.tasks) ∷ [])) (
            count-concat k t.id (keys s.id_to_task)
            ∙ ap (λ n. n + (if t.id == k then 1 else 0)) (l.once k)
            ∙ elim (Bool-cases (t.id == k)) [
              | inl hit ↦
                  let same : t.id ≡ k = ground arith in
                  let not_yet : is_made k past ≡ false =
                    ap (λ i. is_made i past) (sym same) ∙ first in
                  ground arith
              | inr miss ↦ ground arith
            ]))
    | inr (p, old) ↦
        let again = (l.known t.id).0 (p, old) in
        rw (old, insert)
          (l.once k ∙ elim (Bool-cases (t.id == k)) [
            | inl hit ↦
                let same : t.id ≡ k = ground arith in
                let already : is_made k past ≡ true = ap (λ i. is_made i past) (sym same) ∙ again in
                ground arith
            | inr miss ↦ ground arith
          ])
  ])

  -- The task is the new task's parent.
  add_child-Born :
      (k q : ℕ) (w task : Task)
      → find t.parent_id s'.id_to_task ≡ some q
      → t.parent_id ≡ k
      → is_made k (made t.id t.parent_id ∷ past) ≡ true
      → get_elem? (s.tasks ++ t ∷ []) q ≡ some w
      → get_elem? s'.tasks q ≡ some task
      → Born past s'.tasks k w
      → Born (made t.id t.parent_id ∷ past) s'.tasks k task
  unfolding Task.add_child
  add_child-Born k q w task is_its parent_is m before at (ids, children, counted) =
      let (z, new_at, new_id) =
        Registers-SameIds (length s.tasks) t (grown t s) s' r (length s.tasks) t
          (get_elem?-append_last s.tasks t) in
      let grew : Task.add_child (length s.tasks) w ≡ task =
        grind (arith, r.parent q w is_its before) in
      (
        ids ++ t.id ∷ [],
        subst (λ (c : Task). ids_at s'.tasks c.ancestry_children ≡ some (ids ++ t.id ∷ [])) grew
            (ids_at-concat s'.tasks (length s.tasks) z w.ancestry_children ids new_at children
              ∙ ap (λ i. some (ids ++ i ∷ [])) new_id),
        λ u. ground (arith, count-concat u t.id ids, counted u),
      )

  -- The task is not.
  others-Born :
      (k q : ℕ) (w task : Task)
      → find t.parent_id s'.id_to_task ≢ some q
      → find k s'.id_to_task ≡ some q
      → get_elem? (s.tasks ++ t ∷ []) q ≡ some w
      → get_elem? s'.tasks q ≡ some task
      → Born past s'.tasks k w
      → Born (made t.id t.parent_id ∷ past) s'.tasks k task
  others-Born k q w task other found before at (ids, children, counted) =
      let same : w ≡ task = ground (arith, r.others q other) in
      let not_parent : (t.parent_id == k) ≡ false = elim (Bool-cases (t.parent_id == k)) [
        | inl hit ↦
            let is_its : t.parent_id ≡ k = ground arith in
            absurd (other (subst (λ i. find i s'.id_to_task ≡ some q) (sym is_its) found))
        | inr miss ↦ miss
      ] in
      (
        ids,
        subst (λ (c : Task). ids_at s'.tasks c.ancestry_children ≡ some ids) same children,
        λ u. ground (arith, counted u),
      )

  Registers-Born :
      (k q : ℕ) (task : Task)
      → t.ancestry_children ≡ []
      → find k s'.id_to_task ≡ some q
      → get_elem? s'.tasks q ≡ some task
      → Born (made t.id t.parent_id ∷ past) s'.tasks k task
  Registers-Born k q task no_children found at =
      let (w, before, same_id) = r.same_ids q task at in
      let (ids, children, counted) =
        grown-Born k q t w past s no_children v l
          (subst (λ table. find k table ≡ some q) r.ids found) before in
      let moved =
        ids_at-SameIds (s.tasks ++ t ∷ []) s'.tasks w.ancestry_children ids
          (Registers-SameIds (length s.tasks) t (grown t s) s' r) children in
      elim (is_parent (find t.parent_id s'.id_to_task) q) [
        | inl is_its ↦
            let (x, at', named) = All-find (NamesTask s'.tasks) k q s'.id_to_task v'.named found in
            let (y, at'', parent_named) =
              All-find (NamesTask s'.tasks) t.parent_id q s'.id_to_task v'.named is_its in
            add_child-Born k q w task is_its (ground arith) ((Registers-Known k).0 (q, found))
              before at (ids, moved, counted)
        | inr other ↦ others-Born k q w task other found before at (ids, moved, counted)
      ]

  pub Registers-Heeds : t.ancestry_children ≡ [] → Heeds past (made t.id t.parent_id ∷ []) s s'
  Registers-Heeds no_children = record {
    logged = record {
      agree = rw r.dependences l.agree;
      once = made_once;
      records = record {
        ins = rw r.ins l.records.ins;
        outs = rw r.outs l.records.outs;
        inouts = rw r.inouts l.records.inouts;
      };
      known = Registers-Known;
      born = λ k q task found at. Registers-Born k q task no_children found at;
    };
    added = λ u. ap (bucket u) r.dependences ∙ sym (append-nil _);
  }
