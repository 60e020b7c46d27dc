-- ===== src/Callbacks/Threads/Handling.antt =====
-- The depend clauses and taskwaits of src/callbacks.hpp, while other threads run.
use ompt_dependency_tracker.Base.{
  ℕ, ◌≡◌, refl, inl, inr, none, some, List, [], ◌∷◌, arith, get_elem?, set, Returns, Returns->>=,
}
use ompt_dependency_tracker.ToolData.{ToolData}
use ompt_dependency_tracker.ToolData.Registry.{SameRegistry, SameRegistry-IsValid}
use ompt_dependency_tracker.ToolData.Untouched.{SameRegistry-IsUntouched}
use ompt_dependency_tracker.Dependences.{
  TaskDependence, handle_dependence, handle_taskwait_dependences,
}
use ompt_dependency_tracker.Dependences.Frame.{handle_dependence-SameRegistry}
use ompt_dependency_tracker.Dependences.Closed.{
  IsClosed, handle_dependence-IsClosed, handle_taskwait_dependences-IsClosed,
}
use ompt_dependency_tracker.Callbacks.State.{Tool}
use ompt_dependency_tracker.Callbacks.Consistent.{OnlyEdges-SameRegistry}
use ompt_dependency_tracker.Callbacks.Threads.{
  Activity, announcing, waiting, finished, announce, wait,
}
use ompt_dependency_tracker.Callbacks.Threads.Apart.{
  is_arriving, is_open, total-set, pending, announced_id, HoldsAt-set, HoldsAt-set_none, AreApart,
}

-- An activity that creates nothing goes on, and leaves the registry alone.
SameRegistry-AreApart :
    (n i : ℕ) (b b' : Activity) (td : ToolData) (s : Tool) (activities : List Activity)
    → get_elem? activities i ≡ some b
    → is_arriving b' ≡ is_arriving b
    → is_open b' ≡ is_open b
    → pending b' ≡ none
    → ((id : ℕ) → announced_id b' ≡ some id → announced_id b ≡ some id)
    → SameRegistry s.tool_data td
    → IsClosed td
    → AreApart n s activities
    → AreApart n (record s { tool_data = td }) (set activities i b')
SameRegistry-AreApart n i b b' td s activities at arriving_same open_same free still same c a =
    record {
      valid = SameRegistry-IsValid s.tool_data td same a.valid;
      closed = c;
      untouched = SameRegistry-IsUntouched s.tool_data td same a.untouched;
      all_registered = rw (same.tasks, same.id_to_task) a.all_registered;
      room = omega (arith, a.room, total-set is_arriving activities i b b' at, arriving_same);
      older = rw same.tasks a.older;
      fresh =
          rw same.id_to_task
            (λ j id q. a.fresh j id (HoldsAt-set_none pending activities i j id b b' at free q).1);
      apart = λ j m id q r.
          a.apart j m id (HoldsAt-set_none pending activities i j id b b' at free q).1
            (HoldsAt-set_none pending activities i m id b b' at free r).1;
      announced = rw same.id_to_task (λ j id h.
          elim (HoldsAt-set announced_id activities i j id b b' at h) [
            | inl (here, holds) ↦ a.announced i id (b, at, still id holds)
            | inr (other, old) ↦ a.announced j id old
          ]);
      created =
          rw same.tasks
            (omega (arith, a.created, total-set is_open activities i b b' at, open_same));
    }

pub announce-AreApart :
    (n i t : ℕ) (deps : List TaskDependence) (s : Tool) (activities : List Activity)
    → get_elem? activities i ≡ some (announcing t deps)
    → AreApart n s activities
    → Returns (announce t deps s) (λ p. AreApart n p.1 (set activities i p.0))
unfolding announce
announce-AreApart n i t [] s activities at a =
    SameRegistry-AreApart n i (announcing t []) finished s.tool_data s activities at refl refl refl
      (λ id e. cc)
      (record { tasks = refl; regions = refl; id_to_task = refl; id_to_parallel_region = refl })
      a.closed a
announce-AreApart n i t (d ∷ deps) s activities at a =
    SameRegistry-AreApart n i (announcing t (d ∷ deps)) (announcing t deps)
      (handle_dependence t d s.tool_data) s activities at refl refl refl (λ id e. e)
      (handle_dependence-SameRegistry t d s.tool_data)
      (handle_dependence-IsClosed t d s.tool_data
        (a.announced i t (announcing t (d ∷ deps), at, refl)) a.closed)
      a

pub wait-AreApart :
    (n i t : ℕ) (s : Tool) (activities : List Activity)
    → get_elem? activities i ≡ some (waiting t)
    → AreApart n s activities
    → Returns (wait t s) (λ p. AreApart n p.1 (set activities i p.0))
unfolding wait
wait-AreApart n i t s activities at a =
    Returns->>= _ _ (handle_taskwait_dependences t s.tool_data) _
      (λ td (only, closed).
        SameRegistry-AreApart n i (waiting t) finished td s activities at refl refl refl
          (λ id e. cc) (OnlyEdges-SameRegistry s.tool_data td only) closed a)
      (handle_taskwait_dependences-IsClosed t s.tool_data a.valid a.closed)
