-- ===== src/Locks/Exits.antt =====
-- Threads of which one ends the process once it has nothing left to do, as a signal handler of
-- src/SignalHandler.hpp does with its call of exit.
pub mod Resumed
use ompt_dependency_tracker.Base.{
  ◌∙◌, ℕ, zero, suc, ◌<◌, ◌≡◌, ◌≢◌, sym, subst, inl, inr, none, some, List, [], ◌∷◌, arith,
  get_elem?, Option-cases,
}
use ompt_dependency_tracker.Locks.{Action, Thread, go_on}
use ompt_dependency_tracker.Locks.Progress.{
  AreOrdered, AllDone, CanStep, is_nil, AreOrdered-progress,
}
use ompt_dependency_tracker.Locks.Finishing.{left, go_on-AreOrdered}
use ompt_dependency_tracker.Locks.Exits.Resumed.{
  longer, resumed, moved, get_elem?-resumed, longer-busy, go_on-resumed, go_on-stays,
}

-- Whatever thread goes on, as often as one can, the thread `i` comes to its end: until then never are
-- all of them stuck, and never do they go on forever. What the others had left is of no account.
pub data AlwaysExits (i : ℕ) : List Thread → Type 0 where
  exits :
      {threads : List Thread} {t : Thread}
      → get_elem? threads i ≡ some t
      → t.rest ≡ []
      → AlwaysExits i threads
  goes_on :
      {threads : List Thread}
      → CanStep threads
      → ((j : ℕ) (after : List Thread) → go_on j threads ≡ some after → AlwaysExits i after)
      → AlwaysExits i threads

AllDone-get_elem? :
    (threads : List Thread) (i : ℕ) (t : Thread)
    → AllDone threads
    → get_elem? threads i ≡ some t
    → t.rest ≡ []
AllDone-get_elem? [] i t d at = cc
AllDone-get_elem? (u ∷ threads) zero t d at =
    let same_thread : u ≡ t = cc in subst (λ (w : Thread). w.rest ≡ []) same_thread d.0
AllDone-get_elem? (u ∷ threads) (suc i) t d at = AllDone-get_elem? threads i t d.1 at

CanStep-resumed :
    (more : List Action) (i : ℕ) (threads : List Thread) (t : Thread)
    → get_elem? threads i ≡ some t
    → t.rest ≢ []
    → AreOrdered (resumed i more threads)
    → CanStep threads
unfolding longer
CanStep-resumed more i threads t at busy o = elim (AreOrdered-progress (resumed i more threads) o) [
  | inl done ↦ absurd (
      longer-busy t.rest more busy (
        AllDone-get_elem? (resumed i more threads) i (longer more t) done
          (get_elem?-resumed i more threads t at)))
  | inr (j, after, e) ↦ elim (Option-cases (go_on j threads)) [
    | inl waits ↦
        let stuck = moved _ _ none _ waits (go_on-resumed more j i threads t at busy) in
        absurd (none-some after (sym stuck ∙ e))
    | inr (after', e') ↦ (j, after', e')
  ]
]
  where
    none-some : (after : List Thread) → ¬ (none ≡ some after)
    none-some after e = cc

within :
    (more : List Action) (fuel i : ℕ) (threads : List Thread) (t : Thread)
    → left (resumed i more threads) < fuel
    → get_elem? threads i ≡ some t
    → AreOrdered (resumed i more threads)
    → AlwaysExits i threads
within more zero i threads t le at o = absurd (omega (arith, le))
within more (suc fuel) i threads t le at o = elim (is_nil t.rest) [
  | inl done ↦ exits at done
  | inr busy ↦ goes_on (CanStep-resumed more i threads t at busy o) (λ j after e.
      let same_step = moved _ _ (some after) _ e (go_on-resumed more j i threads t at busy) in
      let (after-ordered, less) =
        go_on-AreOrdered j (resumed i more threads) (resumed i more after) o same_step in
      let (t', at') = go_on-stays j i threads after t at e in
      within more fuel i after t' (omega (arith, less, le)) at' after-ordered)
]

-- If the threads lock in the order of the ranks, were the thread `i` to do `more` in the end, then it
-- comes to its end without that, too.
pub AreOrdered-AlwaysExits :
    (more : List Action) (i : ℕ) (threads : List Thread) (t : Thread)
    → get_elem? threads i ≡ some t
    → AreOrdered (resumed i more threads)
    → AlwaysExits i threads
AreOrdered-AlwaysExits more i threads t at o =
    within more (suc (left (resumed i more threads))) i threads t (omega arith) at o
