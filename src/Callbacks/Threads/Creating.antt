-- ===== src/Callbacks/Threads/Creating.antt =====
-- The parts of on_ompt_callback_task_create of src/callbacks.hpp, while other threads run.
use ompt_dependency_tracker.Base.{
  ℕ, ◌+◌, ◌<◌, ◌≡◌, ◌≢◌, inl, inr, refl, sym, subst, ◌∙◌, ap, none, some, List, [], ◌∷◌, arith,
  get_elem?, set, length, get_elem?-concat, length-append, Returns, Returns->>=, Option-cases,
}
use ompt_dependency_tracker.Base.Word.{word_mod, bump}
use ompt_dependency_tracker.Table.{find, insert}
use ompt_dependency_tracker.Table.Laws.{All-find, find-insert}
use ompt_dependency_tracker.Task.{Task, new_task, explicit}
use ompt_dependency_tracker.ToolData.{ToolData}
use ompt_dependency_tracker.ToolData.Registry.{
  Known, IsValid, NamesTask, Known-insert, Known-insert_self,
}
use ompt_dependency_tracker.ToolData.Registration.{Registers, register_new}
use ompt_dependency_tracker.ToolData.Untouched.{new_task-IsFresh, Registers-IsUntouched}
use ompt_dependency_tracker.Dependences.Closed.{IsClosed}
use ompt_dependency_tracker.Callbacks.State.{Tool}
use ompt_dependency_tracker.Callbacks.Handlers.{create_and_register}
use ompt_dependency_tracker.Callbacks.Consistent.{grown, register_new-Registers, Registers-IsClosed}
use ompt_dependency_tracker.Callbacks.Threads.{
  Creation, Activity, arriving, numbered, announcing, enter_task,
}
use ompt_dependency_tracker.Callbacks.Threads.Apart.{
  is_arriving, is_open, total-set, pending, announced_id, HoldsAt, HoldsAt-set, HoldsAt-set_none,
  AllRegistered, AreApart,
}

-- The next id is nobody's.
unused :
    (n : ℕ) (s : Tool) (activities : List Activity)
    → AreApart n s activities
    → find s.next_task_id s.tool_data.id_to_task ≡ none
unused n s activities a = elim (Option-cases (find s.next_task_id s.tool_data.id_to_task)) [
  | inl absent ↦ absent
  | inr (p, found) ↦
      let (t, at, id) =
        All-find (NamesTask s.tool_data.tasks) s.next_task_id p s.tool_data.id_to_task a.valid.named
          found in
      absurd (omega (arith, a.older p t at, id))
]

-- A callback takes the next id.
pub arrive-AreApart :
    (n i : ℕ) (k : Creation) (s : Tool) (activities : List Activity)
    → n < word_mod
    → get_elem? activities i ≡ some (arriving k)
    → AreApart n s activities
    → AreApart n
        (record s { next_task_id = bump s.next_task_id })
        (set activities i (numbered s.next_task_id k))
arrive-AreApart n i k s activities small at a =
    let c = arriving k in
    let c' = numbered s.next_task_id k in
    let arrived = total-set is_arriving activities i c c' at in
    let opened = total-set is_open activities i c c' at in
    let next : bump s.next_task_id ≡ s.next_task_id + 1 = omega (arith, arrived, a.room, small) in
    record {
      valid = a.valid;
      closed = a.closed;
      untouched = a.untouched;
      all_registered = a.all_registered;
      room = omega (arith, next, arrived, a.room);
      older = λ p t e. omega (arith, a.older p t e, next);
      fresh = λ j id q. elim (HoldsAt-set pending activities i j id c c' at q) [
        | inl (same, taken) ↦
            let which : s.next_task_id ≡ id = cc in
            (
              omega (arith, which, next),
              subst (λ m. find m s.tool_data.id_to_task ≡ none) which (unused n s activities a),
            )
        | inr (other, old) ↦
            let (below, absent) = a.fresh j id old in (omega (arith, below, next), absent)
      ];
      apart = λ j m id q r. elim (HoldsAt-set pending activities i j id c c' at q) [
        | inl (same, taken) ↦ elim (HoldsAt-set pending activities i m id c c' at r) [
          | inl (same', taken') ↦ sym same ∙ same'
          | inr (other, old) ↦
              let which : s.next_task_id ≡ id = cc in
              absurd (omega (arith, which, (a.fresh m id old).0))
        ]
        | inr (other, old) ↦ elim (HoldsAt-set pending activities i m id c c' at r) [
          | inl (same', taken') ↦
              let which : s.next_task_id ≡ id = cc in
              absurd (omega (arith, which, (a.fresh j id old).0))
          | inr (other', old') ↦ a.apart j m id old old'
        ]
      ];
      announced = λ j id h.
          a.announced j id (HoldsAt-set_none announced_id activities i j id c c' at refl h).1;
      created = omega (arith, opened, a.created);
    }

-- A task that is registered under an id that is not taken leaves all tasks under their own.
Registers-AllRegistered :
    (t : Task) (s s' : ToolData)
    → find t.id s.id_to_task ≡ none
    → Registers (length s.tasks) t (grown t s) s'
    → AllRegistered s
    → AllRegistered s'
Registers-AllRegistered t s s' absent r all q u at =
    let (w, before, same) = r.same_ids q u at in
    rw (r.ids, same)
      (elim (get_elem?-concat s.tasks t w q before) [
        | inl (new, last) ↦
            rw (new, last)
              (ground (arith, absent, find-insert t.id t.id (length s.tasks) s.id_to_task))
        | inr old ↦
            let found = all q w old in
            ground (arith, found, find-insert t.id w.id (length s.tasks) s.id_to_task)
      ])

grown-IsClosed : (t : Task) (s : ToolData) → IsClosed s → IsClosed (grown t s)
grown-IsClosed t s c = record { ins = c.ins; outs = c.outs; inouts = c.inouts; edges = c.edges }

module _ (n i task_id : ℕ) (k : Creation) (s : Tool) (activities : List Activity)
    (at : get_elem? activities i ≡ some (numbered task_id k)) (a : AreApart n s activities) where
  abbrev pub created_task : Task
  created_task = new_task task_id k.parent k.thread explicit k.codeptr k.now

  mine : HoldsAt pending activities i task_id
  mine = (numbered task_id k, at, refl)

  -- The task is registered, and its depend clauses are yet to come.
  Registers-AreApart :
      (td : ToolData)
      → IsValid td
      → Registers (length s.tool_data.tasks) created_task (grown created_task s.tool_data) td
      → AreApart n (record s { tool_data = td }) (set activities i (announcing task_id k.deps))
  unfolding new_task
  Registers-AreApart td v r =
      let b = numbered task_id k in
      let b' = announcing task_id k.deps in
      let (below, absent) = a.fresh i task_id mine in
      let arrived = total-set is_arriving activities i b b' at in
      let opened = total-set is_open activities i b b' at in
      record {
        valid = v;
        closed =
            Registers-IsClosed (length s.tool_data.tasks) created_task
              (grown created_task s.tool_data) td (grown-IsClosed created_task s.tool_data a.closed)
              r;
        untouched =
            Registers-IsUntouched (length s.tool_data.tasks) created_task s.tool_data td
              (new_task-IsFresh task_id k.parent k.thread k.codeptr k.now) a.untouched r;
        all_registered =
            Registers-AllRegistered created_task s.tool_data td absent r a.all_registered;
        room = omega (arith, arrived, a.room);
        older = λ p u e.
            let (w, before, same) = r.same_ids p u e in
            elim (get_elem?-concat s.tool_data.tasks created_task w p before) [
              | inl (new, last) ↦ omega (arith, same, ap (λ (x : Task). x.id) new, below)
              | inr old ↦ omega (arith, same, a.older p w old)
            ];
        fresh = λ j id q.
            let (other, old) = HoldsAt-set_none pending activities i j id b b' at refl q in
            let (below', absent') = a.fresh j id old in
            let differ : task_id ≢ id =
              λ e. other (a.apart i j id (subst (HoldsAt pending activities i) e mine) old) in
            (
              below',
              rw r.ids (
                  ground (
                    arith,
                    absent',
                    find-insert task_id id (length s.tool_data.tasks) s.tool_data.id_to_task,
                  )),
            );
        apart = λ j m id q q'.
            a.apart j m id (HoldsAt-set_none pending activities i j id b b' at refl q).1
              (HoldsAt-set_none pending activities i m id b b' at refl q').1;
        announced = λ j id h.
            rw r.ids (elim (HoldsAt-set announced_id activities i j id b b' at h) [
              | inl (same, holds) ↦
                  let which : task_id ≡ id = cc in
                  subst (Known (insert task_id (length s.tool_data.tasks) s.tool_data.id_to_task))
                    which
                    (Known-insert_self task_id (length s.tool_data.tasks) s.tool_data.id_to_task)
              | inr (other, old) ↦
                  Known-insert task_id (length s.tool_data.tasks) id s.tool_data.id_to_task
                    (a.announced j id old)
            ]);
        created =
            omega (
              arith,
              opened,
              a.created,
              r.size,
              length-append s.tool_data.tasks (created_task ∷ []),
            );
      }

  pub register-AreApart : Returns (enter_task task_id k s) (λ p.
      AreApart n p.1 (set activities i p.0)
      × Registers
          (length s.tool_data.tasks)
          created_task
          (grown created_task s.tool_data)
          p.1.tool_data)
  unfolding enter_task create_and_register new_task register_new
  register-AreApart =
      Returns->>=
        (λ s'.
          AreApart n s' (set activities i (announcing task_id k.deps))
          × Registers (length s.tool_data.tasks) created_task (grown created_task s.tool_data)
              s'.tool_data)
        _ (create_and_register task_id k.parent k.thread k.codeptr k.now s) _ (λ s' h. h)
        (Returns->>= _ _ (register_new created_task s.tool_data) _
          (λ td (v, r). (Registers-AreApart td v r, r))
          (register_new-Registers created_task s.tool_data refl a.valid))
