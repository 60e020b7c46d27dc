-- ===== src/Callbacks/Threads/Distinct.antt =====
-- The tasks that several threads create at once in the callbacks of src/callbacks.hpp.
use ompt_dependency_tracker.Base.{
  ℕ, zero, suc, ◌+◌, ◌<◌, ◌≡◌, none, some, List, [], ◌∷◌, arith, length, Option, refl, sym, subst,
  All, Returns, Returns-map,
}
use ompt_dependency_tracker.Base.Word.{word_mod}
use ompt_dependency_tracker.ToolData.Registry.{IsValid, new_tool_data-IsValid}
use ompt_dependency_tracker.ToolData.Untouched.{new_tool_data-IsUntouched}
use ompt_dependency_tracker.Dependences.Closed.{IsClosed, new_tool_data-IsClosed}
use ompt_dependency_tracker.Callbacks.State.{loaded}
use ompt_dependency_tracker.Callbacks.Log.Facts.{Heeds, new_tool_data-Logged}
use ompt_dependency_tracker.ToolData.{new_tool_data}
use ompt_dependency_tracker.Callbacks.Threads.{
  Activity, arriving, numbered, announcing, waiting, finished, interleave,
}
use ompt_dependency_tracker.Callbacks.Threads.Apart.{
  is_arriving, is_open, total, pending, announced_id, HoldsAt, AllRegistered, AreApart,
}
use ompt_dependency_tracker.Callbacks.Threads.Log.{turns_log}
use ompt_dependency_tracker.Callbacks.Threads.Whole.{interleave-Heeds}

-- A task's callbacks before they begin, or a taskwait.
abbrev pub IsStarting : Activity → Type 0
IsStarting (arriving c) = Unit {0}
IsStarting (waiting task_id) = Unit {0}
IsStarting _ = ⊥

open-total :
    (activities : List Activity)
    → All IsStarting activities
    → total is_open activities ≡ total is_arriving activities
open-total [] h = refl
open-total (arriving c ∷ activities) h = omega (arith, open-total activities h.1)
open-total (waiting task_id ∷ activities) h = omega (arith, open-total activities h.1)
open-total (numbered task_id c ∷ activities) h = absurd h.0
open-total (announcing task_id deps ∷ activities) h = absurd h.0
open-total (finished ∷ activities) h = absurd h.0

-- None of them holds an id yet.
starting_free :
    (f : Activity → Option ℕ) (activities : List Activity) (i id : ℕ)
    → ((b : Activity) → IsStarting b → f b ≡ none)
    → All IsStarting activities
    → ¬ HoldsAt f activities i id
starting_free f [] i id free h (b, at, holds) = cc
starting_free f (b ∷ activities) zero id free h (c, at, holds) =
    let same : b ≡ c = cc in
    let nothing = free b h.0 in
    let something : f b ≡ some id = subst (λ x. f x ≡ some id) (sym same) holds in cc
starting_free f (b ∷ activities) (suc i) id free h q = starting_free f activities i id free h.1 q

no_pending : (b : Activity) → IsStarting b → pending b ≡ none
no_pending (arriving c) h = refl
no_pending (waiting task_id) h = refl
no_pending (numbered task_id c) h = absurd h
no_pending (announcing task_id deps) h = absurd h
no_pending finished h = absurd h

no_announced : (b : Activity) → IsStarting b → announced_id b ≡ none
no_announced (arriving c) h = refl
no_announced (waiting task_id) h = refl
no_announced (numbered task_id c) h = absurd h
no_announced (announcing task_id deps) h = absurd h
no_announced finished h = absurd h

loaded-AreApart :
    (words : ℕ → ℕ) (activities : List Activity)
    → All IsStarting activities
    → AreApart (total is_arriving activities) (loaded words) activities
loaded-AreApart words activities h = record {
  valid = new_tool_data-IsValid;
  closed = new_tool_data-IsClosed;
  untouched = new_tool_data-IsUntouched;
  all_registered = λ p t at. cc;
  room = omega arith;
  older = λ p t at. cc;
  fresh = λ i id q. absurd (starting_free pending activities i id no_pending h q);
  apart = λ i j id q r. absurd (starting_free pending activities i id no_pending h q);
  announced = λ i id q. absurd (starting_free announced_id activities i id no_announced h q);
  created = omega (arith, open-total activities h);
}

pub interleave_loaded :
    (turns : List ℕ) (words : ℕ → ℕ) (activities : List Activity)
    → All IsStarting activities
    → total is_arriving activities < word_mod
    → Returns (interleave turns (loaded words, activities)) (λ st.
      AreApart (total is_arriving activities) st.0 st.1
      × Heeds [] (turns_log turns (loaded words, activities)) new_tool_data st.0.tool_data)
interleave_loaded turns words activities h small =
    interleave-Heeds turns (total is_arriving activities) [] (loaded words) activities small
      (loaded-AreApart words activities h) new_tool_data-Logged

-- The callbacks of fewer than 2^64 tasks, and any taskwaits, run at once, from loading on, on any
-- number of threads: under every schedule none of them faults, the registry stays valid and the
-- tables closed, every task is registered under its own id, so that no two have the same, and as
-- many tasks exist as have been registered.
pub interleave-AllRegistered :
    (turns : List ℕ) (words : ℕ → ℕ) (activities : List Activity)
    → All IsStarting activities
    → total is_arriving activities < word_mod
    → Returns (interleave turns (loaded words, activities)) (λ st.
      IsValid st.0.tool_data
      × IsClosed st.0.tool_data
      × AllRegistered st.0.tool_data
      × (length st.0.tool_data.tasks + total is_open st.1 ≡ total is_arriving activities))
interleave-AllRegistered turns words activities h small =
    Returns-map _ _ (interleave turns (loaded words, activities))
      (λ st (a, heeds). (a.valid, a.closed, a.all_registered, a.created))
      (interleave_loaded turns words activities h small)
