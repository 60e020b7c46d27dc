-- ===== src/Callbacks/Threads/Finishing.antt =====
-- How the threads in the callbacks of src/callbacks.hpp come to their end.
use ompt_dependency_tracker.Base.{
  ℕ, suc, ◌+◌, ◌-◌, ◌<◌, ◌≤◌, ◌==◌, if◌then◌else◌, ◌≡◌, refl, sym, subst, ap, ◌∙◌, Option, none,
  some, List, [], ◌∷◌, arith, get_elem?, set, get_elem?-set_self, get_elem?-set_ne, length, All,
  inl, inr, Option-cases, IfReturns, IfReturns->>=, IfReturns-read, IfReturns-map, Returns,
  Returns-both,
}
use native.Mathlib.Decide.{ℕ_discrete}
use ompt_dependency_tracker.Base.Word.{word_mod}
use ompt_dependency_tracker.Dependences.{handle_taskwait_dependences}
use ompt_dependency_tracker.Dependences.Effect.{count}
use ompt_dependency_tracker.Callbacks.State.{Tool, loaded, my_next_task_id}
use ompt_dependency_tracker.Callbacks.Handlers.{create_and_register}
use ompt_dependency_tracker.Callbacks.Threads.{
  Activity, arriving, numbered, announcing, waiting, finished, take_id, enter_task, announce, wait,
  proceed, proceed_at, interleave,
}
use ompt_dependency_tracker.Callbacks.Threads.Apart.{is_arriving, is_open, total}
use ompt_dependency_tracker.Callbacks.Threads.Distinct.{IsStarting, interleave-AllRegistered}

-- The turns that an activity needs.
abbrev pub work : Activity → ℕ
work (arriving c) = 3 + length c.deps
work (numbered task_id c) = 2 + length c.deps
work (announcing task_id deps) = 1 + length deps
work (waiting task_id) = 1
work finished = 0

abbrev pub work_left : Option Activity → ℕ
work_left none = 0
work_left (some b) = work b

proceed-work : (b : Activity) (s : Tool) → IfReturns (proceed b s) (λ p. work p.0 ≡ work b - 1)
unfolding proceed take_id my_next_task_id enter_task announce wait
proceed-work (arriving c) s = omega arith
proceed-work (numbered task_id c) s =
    IfReturns-read (λ (p : Activity × Tool). work p.0 ≡ 2 + length c.deps - 1)
      (create_and_register task_id c.parent c.thread c.codeptr c.now s)
      (λ s'. some (announcing task_id c.deps, s')) (λ s'. omega arith)
proceed-work (announcing task_id []) s = omega arith
proceed-work (announcing task_id (d ∷ deps)) s = omega arith
proceed-work (waiting task_id) s =
    IfReturns-read (λ (p : Activity × Tool). work p.0 ≡ 0)
      (handle_taskwait_dependences task_id s.tool_data)
      (λ td. some (finished, record s { tool_data = td })) (λ td. refl)
proceed-work finished s = omega arith

work_left-set :
    (activities : List Activity) (i j : ℕ) (b b' : Activity)
    → get_elem? activities j ≡ some b
    → work b' ≡ work b - 1
    → work_left (get_elem? (set activities j b') i)
      ≡ work_left (get_elem? activities i) - (if j == i then 1 else 0)
work_left-set activities i j b b' at less = elim (ℕ_discrete j i) [
  | yes same ↦
      let here : get_elem? activities i ≡ some b = ap (get_elem? activities) (sym same) ∙ at in
      let there = get_elem?-set_self activities i b' b here in rw same (ground (arith, less))
  | no other ↦ ground (arith, get_elem?-set_ne activities j i b' other)
]

nobody_goes_on :
    (activities : List Activity) (i j : ℕ)
    → get_elem? activities j ≡ none
    → work_left (get_elem? activities i)
      ≡ work_left (get_elem? activities i) - (if j == i then 1 else 0)
nobody_goes_on activities i j nobody = elim (ℕ_discrete j i) [
  | yes same ↦
      let here : get_elem? activities i ≡ none = ap (get_elem? activities) (sym same) ∙ nobody in
      rw here (omega arith)
  | no other ↦ ground arith
]

proceed_at-work :
    (i j : ℕ) (s : Tool) (activities : List Activity)
    → IfReturns (proceed_at j (get_elem? activities j) (s, activities)) (λ st.
      work_left (get_elem? st.1 i) ≡ work_left (get_elem? activities i) - (if j == i then 1 else 0))
unfolding proceed_at
proceed_at-work i j s activities = elim (Option-cases (get_elem? activities j)) [
  | inl nobody ↦ rw nobody (nobody_goes_on activities i j nobody)
  | inr (b, at) ↦ rw at (
      IfReturns->>= _ _ (proceed b s) _ (proceed-work b s)
        (λ p less. work_left-set activities i j b p.0 at less))
]

interleave-work :
    (turns : List ℕ) (i : ℕ) (s : Tool) (activities : List Activity)
    → IfReturns
        (interleave turns (s, activities))
        (λ st. work_left (get_elem? st.1 i) ≡ work_left (get_elem? activities i) - count i turns)
unfolding interleave
interleave-work [] i s activities = omega arith
interleave-work (j ∷ turns) i s activities =
    IfReturns->>= _ _ (proceed_at j (get_elem? activities j) (s, activities)) _
      (proceed_at-work i j s activities)
      (λ st less.
        IfReturns-map _ _ (interleave turns st) (λ st' e. omega (arith, e, less))
          (interleave-work turns i st.0 st.1))

ended :
    (activities : List Activity)
    → ((i : ℕ) → work_left (get_elem? activities i) ≡ 0)
    → All (λ b. b ≡ finished) activities
ended [] h = tt
ended (arriving c ∷ activities) h = absurd (omega (arith, h 0))
ended (numbered task_id c ∷ activities) h = absurd (omega (arith, h 0))
ended (announcing task_id deps ∷ activities) h = absurd (omega (arith, h 0))
ended (waiting task_id ∷ activities) h = absurd (omega (arith, h 0))
ended (finished ∷ activities) h = (refl, ended activities (λ i. h (suc i)))

none_open :
    (activities : List Activity) → All (λ b. b ≡ finished) activities → total is_open activities ≡ 0
none_open [] h = refl
none_open (b ∷ activities) h = omega (arith, ap is_open h.0, none_open activities h.1)

interleave_ends :
    (turns : List ℕ) (s : Tool) (activities : List Activity)
    → ((i : ℕ) → work_left (get_elem? activities i) ≤ count i turns)
    → IfReturns (interleave turns (s, activities)) (λ st. All (λ b. b ≡ finished) st.1)
interleave_ends turns s activities enough = elim (Option-cases (interleave turns (s, activities))) [
  | inl fault ↦ rw fault tt
  | inr (st, e) ↦ rw e (
      ended st.1 (λ i.
        let left =
          subst
            (λ r. IfReturns r (λ st.
              work_left (get_elem? st.1 i) ≡ work_left (get_elem? activities i) - count i turns))
            e (interleave-work turns i s activities) in
        omega (arith, left, enough i)))
]

-- The callbacks of fewer than 2^64 tasks, and any taskwaits, run at once, from loading on. Under every
-- schedule in which each of them has enough turns (two for task_create, one for each depend clause
-- and one for the end of task_dependences; one for a taskwait), all of them come to their end without
-- a fault, and as many tasks are registered as there were to create.
pub interleave-finished :
    (turns : List ℕ) (words : ℕ → ℕ) (activities : List Activity)
    → All IsStarting activities
    → total is_arriving activities < word_mod
    → ((i : ℕ) → work_left (get_elem? activities i) ≤ count i turns)
    → Returns (interleave turns (loaded words, activities)) (λ st.
      All (λ b. b ≡ finished) st.1 × (length st.0.tool_data.tasks ≡ total is_arriving activities))
interleave-finished turns words activities h small enough =
    Returns-both _ _ _ (interleave turns (loaded words, activities))
      (λ st (valid, closed, registered, created) ended.
        (ended, omega (arith, created, none_open st.1 ended)))
      (interleave-AllRegistered turns words activities h small)
      (interleave_ends turns (loaded words) activities enough)
