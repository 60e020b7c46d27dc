-- ===== src/Callbacks/Threads/Whole.antt =====
-- Whole schedules of the threads in the callbacks of src/callbacks.hpp.
use ompt_dependency_tracker.Base.{
  ℕ, zero, suc, ◌<◌, ◌≡◌, arith, inl, inr, refl, sym, subst, ap, some, List, [], ◌∷◌, ◌++◌,
  get_elem?, set, Returns, Returns->>=, Returns-map, Returns-and, Returns-eq, Option-cases,
}
use ompt_dependency_tracker.Base.Word.{word_mod}
use ompt_dependency_tracker.Task.{new_task}
use ompt_dependency_tracker.Dependences.{handle_taskwait_dependences}
use ompt_dependency_tracker.Callbacks.State.{Tool, my_next_task_id}
use ompt_dependency_tracker.Callbacks.Log.{Fact, later}
use ompt_dependency_tracker.Callbacks.Log.Facts.{Logged, Heeds, Heeds-nil, Heeds-append}
use ompt_dependency_tracker.Callbacks.Log.Created.{Registers-Heeds}
use ompt_dependency_tracker.Callbacks.Log.Handled.{
  handle_dependence-Heeds, handle_taskwait_dependences-Heeds,
}
use ompt_dependency_tracker.Callbacks.Threads.{
  Activity, arriving, numbered, announcing, waiting, finished, take_id, enter_task, announce, wait,
  proceed, proceed_at, interleave,
}
use ompt_dependency_tracker.Callbacks.Threads.Apart.{AreApart}
use ompt_dependency_tracker.Callbacks.Threads.Creating.{
  created_task, arrive-AreApart, register-AreApart,
}
use ompt_dependency_tracker.Callbacks.Threads.Handling.{announce-AreApart, wait-AreApart}
use ompt_dependency_tracker.Callbacks.Threads.Log.{observe_turn, turns_log}

set-same {ℓ} :
    {A : Type ℓ} (xs : List A) (i : ℕ) (x : A) → get_elem? xs i ≡ some x → set xs i x ≡ xs
set-same [] i x at = refl
set-same (y ∷ xs) zero x at = ground arith
set-same (y ∷ xs) (suc i) x at = ap (λ l. y ∷ l) (set-same xs i x at)

module _ (n i : ℕ) (past : List Fact) (s : Tool) (activities : List Activity) (small : n < word_mod)
    (a : AreApart n s activities) (l : Logged past s.tool_data) where
  proceed-Heeds :
      (b : Activity)
      → get_elem? activities i ≡ some b
      → Returns (proceed b s) (λ p.
        AreApart n p.1 (set activities i p.0)
        × Heeds past (observe_turn (some b)) s.tool_data p.1.tool_data)
  unfolding proceed take_id my_next_task_id new_task announce wait
  proceed-Heeds (arriving k) at =
      (arrive-AreApart n i k s activities small at a, Heeds-nil past s.tool_data l)
  proceed-Heeds (numbered task_id k) at =
      Returns-map _ _ (enter_task task_id k s)
        (λ p (a', r). (
          a',
          Registers-Heeds (created_task n i task_id k s activities at a) past s.tool_data
              p.1.tool_data a.valid a'.valid l r refl,
        ))
        (register-AreApart n i task_id k s activities at a)
  proceed-Heeds (announcing t []) at =
      (announce-AreApart n i t [] s activities at a, Heeds-nil past s.tool_data l)
  proceed-Heeds (announcing t (d ∷ deps)) at = (
    announce-AreApart n i t (d ∷ deps) s activities at a,
    handle_dependence-Heeds t d past s.tool_data l,
  )
  proceed-Heeds (waiting t) at =
      Returns-and _ _ (wait t s) (wait-AreApart n i t s activities at a) (
        Returns->>= _ _ (handle_taskwait_dependences t s.tool_data) _ (λ td h. h)
          (handle_taskwait_dependences-Heeds t past s.tool_data a.valid a.closed l))
  proceed-Heeds finished at = (
    subst (AreApart n s) (sym (set-same activities i finished at)) a,
    Heeds-nil past s.tool_data l,
  )

  proceed_at-Heeds : Returns (proceed_at i (get_elem? activities i) (s, activities)) (λ st.
      AreApart n st.0 st.1
      × Heeds past (observe_turn (get_elem? activities i)) s.tool_data st.0.tool_data)
  unfolding proceed_at
  proceed_at-Heeds = elim (Option-cases (get_elem? activities i)) [
    | inl nobody ↦ rw nobody (a, Heeds-nil past s.tool_data l)
    | inr (b, at) ↦ rw at (Returns->>= _ _ (proceed b s) _ (λ p h. h) (proceed-Heeds b at))
  ]

turns_log-cons :
    (i : ℕ) (turns : List ℕ) (st st' : Tool × List Activity)
    → proceed_at i (get_elem? st.1 i) st ≡ some st'
    → turns_log (i ∷ turns) st ≡ observe_turn (get_elem? st.1 i) ++ turns_log turns st'
turns_log-cons i turns st st' moved = rw moved refl

-- Under every schedule the activities stay apart, and the tool data does what the log calls for.
pub interleave-Heeds :
    (turns : List ℕ) (n : ℕ) (past : List Fact) (s : Tool) (activities : List Activity)
    → n < word_mod
    → AreApart n s activities
    → Logged past s.tool_data
    → Returns (interleave turns (s, activities)) (λ st.
      AreApart n st.0 st.1
      × Heeds past (turns_log turns (s, activities)) s.tool_data st.0.tool_data)
unfolding interleave
interleave-Heeds [] n past s activities small a l = (a, Heeds-nil past s.tool_data l)
interleave-Heeds (i ∷ turns) n past s activities small a l =
    Returns->>= _ _ (proceed_at i (get_elem? activities i) (s, activities)) _
      (λ st ((a', h), moved).
        Returns-map _ _ (interleave turns st)
          (λ st' (a'', rest). (
            a'',
            subst (λ facts. Heeds past facts s.tool_data st'.0.tool_data)
                (sym (turns_log-cons i turns (s, activities) st moved))
                (Heeds-append past (observe_turn (get_elem? activities i)) (turns_log turns st)
                  s.tool_data st.0.tool_data st'.0.tool_data h rest),
          ))
          (interleave-Heeds turns n (later past (observe_turn (get_elem? activities i))) st.0 st.1
            small a' h.logged))
      (Returns-eq _ (proceed_at i (get_elem? activities i) (s, activities))
        (proceed_at-Heeds n i past s activities small a l))
