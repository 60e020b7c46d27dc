-- ===== src/Callbacks/Threads/Apart.antt =====
-- What stays true while several threads are in the callbacks of src/callbacks.hpp.
use ompt_dependency_tracker.Base.{
  ℕ, zero, suc, ◌+◌, ◌<◌, ◌≡◌, ◌≢◌, ◌⊎◌, inl, inr, sym, subst, ◌∙◌, Option, none, some, List, [],
  ◌∷◌, arith, get_elem?, set, length, get_elem?-set_self, get_elem?-set_ne,
}
use native.Mathlib.Decide.{ℕ_discrete}
use ompt_dependency_tracker.Table.{find}
use ompt_dependency_tracker.Task.{Task}
use ompt_dependency_tracker.ToolData.{ToolData}
use ompt_dependency_tracker.ToolData.Registry.{Known, IsValid}
use ompt_dependency_tracker.ToolData.Untouched.{IsUntouched}
use ompt_dependency_tracker.Dependences.Closed.{IsClosed}
use ompt_dependency_tracker.Callbacks.State.{Tool}
use ompt_dependency_tracker.Callbacks.Threads.{Activity, arriving, numbered, announcing}

-- How many of the activities have yet to take an id, and how many to register their task.
abbrev pub is_arriving : Activity → ℕ
is_arriving (arriving c) = 1
is_arriving _ = 0

abbrev pub is_open : Activity → ℕ
is_open (arriving c) = 1
is_open (numbered task_id c) = 1
is_open _ = 0

abbrev pub total : (Activity → ℕ) → List Activity → ℕ
total w [] = 0
total w (a ∷ activities) = w a + total w activities

pub total-set :
    (w : Activity → ℕ) (activities : List Activity) (i : ℕ) (a a' : Activity)
    → get_elem? activities i ≡ some a
    → total w (set activities i a') + w a ≡ total w activities + w a'
total-set w [] i a a' at = cc
total-set w (b ∷ activities) zero a a' at = let same : b ≡ a = cc in rw same (omega arith)
total-set w (b ∷ activities) (suc i) a a' at = omega (arith, total-set w activities i a a' at)

-- The id that the activity has taken and not yet registered.
abbrev pub pending : Activity → Option ℕ
pending (numbered task_id c) = some task_id
pending _ = none

-- The id whose depend clauses the activity announces.
abbrev pub announced_id : Activity → Option ℕ
announced_id (announcing task_id deps) = some task_id
announced_id _ = none

-- Activity `i` holds the id, in the sense of f.
abbrev pub HoldsAt : (Activity → Option ℕ) → List Activity → ℕ → ℕ → Type 0
HoldsAt f activities i id = (a : Activity) × (get_elem? activities i ≡ some a) × (f a ≡ some id)

pub HoldsAt-set :
    (f : Activity → Option ℕ) (activities : List Activity) (i j id : ℕ) (a a' : Activity)
    → get_elem? activities i ≡ some a
    → HoldsAt f (set activities i a') j id
    → ((i ≡ j) × (f a' ≡ some id)) ⊎ ((i ≢ j) × HoldsAt f activities j id)
HoldsAt-set f activities i j id a a' at (b, at', p) = elim (ℕ_discrete i j) [
  | yes same ↦
      let new : get_elem? (set activities i a') j ≡ some a' =
        subst (λ k. get_elem? (set activities i a') k ≡ some a') same
          (get_elem?-set_self activities i a' a at) in
      let which : b ≡ a' = cc in inl (same, subst (λ x. f x ≡ some id) which p)
  | no other ↦ inr (other, (b, sym (get_elem?-set_ne activities i j a' other) ∙ at', p))
]

-- Every task of the heap is registered under its own id: no two tasks have the same.
abbrev pub AllRegistered : ToolData → Type 0
AllRegistered td =
    (p : ℕ) (t : Task) → get_elem? td.tasks p ≡ some t → find t.id td.id_to_task ≡ some p

-- n activities create tasks.
pub record AreApart (n : ℕ) (s : Tool) (activities : List Activity) : Type 0 where
  pub valid : IsValid s.tool_data
  pub closed : IsClosed s.tool_data
  pub untouched : IsUntouched s.tool_data
  pub all_registered : AllRegistered s.tool_data
  pub room : s.next_task_id + total is_arriving activities ≡ n
  pub older : (p : ℕ) (t : Task) → get_elem? s.tool_data.tasks p ≡ some t → t.id < s.next_task_id
  pub fresh :
      (i id : ℕ)
      → HoldsAt pending activities i id
      → (id < s.next_task_id) × (find id s.tool_data.id_to_task ≡ none)
  pub apart :
      (i j id : ℕ) → HoldsAt pending activities i id → HoldsAt pending activities j id → i ≡ j
  pub announced :
      (i id : ℕ) → HoldsAt announced_id activities i id → Known s.tool_data.id_to_task id
  pub created : length s.tool_data.tasks + total is_open activities ≡ n

-- Activity `i` holds no id any more.
pub HoldsAt-set_none :
    (f : Activity → Option ℕ) (activities : List Activity) (i j id : ℕ) (a a' : Activity)
    → get_elem? activities i ≡ some a
    → f a' ≡ none
    → HoldsAt f (set activities i a') j id
    → (i ≢ j) × HoldsAt f activities j id
HoldsAt-set_none f activities i j id a a' at free h =
    elim (HoldsAt-set f activities i j id a a' at h) [ inl (same, holds) ↦ cc | inr old ↦ old ]
