-- ===== src/Locks/Finishing.antt =====
-- Whole runs of the threads, under any schedule.
use ompt_dependency_tracker.Base.{
  ℕ, zero, suc, ◌+◌, ◌<◌, ◌≡◌, ◌⊎◌, inl, inr, refl, subst, some, List, [], ◌∷◌, map, All, arith,
  length, Bool-cases, IfReturns, IfReturns->>=,
}
use ompt_dependency_tracker.Locks.{
  Mutex, Action, lock, unlock, Thread, same, is_held, act, advance, go_on,
}
use ompt_dependency_tracker.Locks.Operations.{Call, all_locks}
use ompt_dependency_tracker.Locks.Order.{IsOrdered, PrintsFresh, all_locks-IsOrdered}
use ompt_dependency_tracker.Locks.Progress.{AreOrdered, AllDone, CanStep, AreOrdered-progress}

-- Whatever thread goes on, as often as one can, all come to their end: never are they stuck before,
-- and never do they go on forever.
pub data AlwaysFinishes : List Thread → Type 0 where
  finishes :
      {threads : List Thread}
      → AllDone threads ⊎ CanStep threads
      → ((i : ℕ) (after : List Thread) → go_on i threads ≡ some after → AlwaysFinishes after)
      → AlwaysFinishes threads

-- A thread that makes these calls.
abbrev pub caller : List Call → Thread
caller calls = record { held = []; rest = all_locks calls }

pub left : List Thread → ℕ
left [] = 0
left (t ∷ threads) = length t.rest + left threads

act-IsOrdered :
    (all : List Thread) (held : List Mutex) (rest : List Action)
    → IsOrdered held rest
    → IfReturns
        (act all held rest)
        (λ t. IsOrdered t.held t.rest × (length rest ≡ suc (length t.rest)))
unfolding act
act-IsOrdered all held [] o = tt
act-IsOrdered all held (lock m ∷ rest) o = elim (Bool-cases (is_held m all)) [
  | inl taken ↦ rw taken tt
  | inr free ↦ rw free (o.1, refl)
]
act-IsOrdered all [] (unlock m ∷ rest) o = tt
act-IsOrdered all (h ∷ held) (unlock m ∷ rest) o = elim (Bool-cases (same m h)) [
  | inl latest ↦ rw latest (o.1, refl)
  | inr other ↦ rw other tt
]

advance-AreOrdered :
    (all : List Thread) (i : ℕ) (threads : List Thread)
    → AreOrdered threads
    → IfReturns
        (advance all i threads)
        (λ after. AreOrdered after × (left threads ≡ suc (left after)))
unfolding advance left
advance-AreOrdered all i [] o = tt
advance-AreOrdered all zero (t ∷ threads) o =
    IfReturns->>= _ _ (act all t.held t.rest) _ (act-IsOrdered all t.held t.rest o.0)
      (λ t' (here, less). ((here, o.1), omega (arith, less)))
advance-AreOrdered all (suc i) (t ∷ threads) o =
    IfReturns->>= _ _ (advance all i threads) _ (advance-AreOrdered all i threads o.1)
      (λ after (there, less). ((o.0, there), omega (arith, less)))

pub go_on-AreOrdered :
    (i : ℕ) (threads after : List Thread)
    → AreOrdered threads
    → go_on i threads ≡ some after
    → AreOrdered after × (left threads ≡ suc (left after))
unfolding go_on
go_on-AreOrdered i threads after o e =
    subst (λ r. IfReturns r (λ ts. AreOrdered ts × (left threads ≡ suc (left ts)))) e
      (advance-AreOrdered threads i threads o)

within :
    (fuel : ℕ) (threads : List Thread)
    → left threads < fuel
    → AreOrdered threads
    → AlwaysFinishes threads
within zero threads le o = absurd (omega (arith, le))
within (suc fuel) threads le o = finishes (AreOrdered-progress threads o) (λ i after e.
    let (after-ordered, less) = go_on-AreOrdered i threads after o e in
    within fuel after (omega (arith, less, le)) after-ordered)

pub AreOrdered-AlwaysFinishes :
    (threads : List Thread) → AreOrdered threads → AlwaysFinishes threads
AreOrdered-AlwaysFinishes threads o = within (suc (left threads)) threads (omega arith) o

pub callers-AreOrdered :
    (programs : List (List Call))
    → All (All PrintsFresh) programs
    → AreOrdered (map caller programs)
callers-AreOrdered [] f = tt
callers-AreOrdered (calls ∷ programs) f =
    (all_locks-IsOrdered calls f.0, callers-AreOrdered programs f.1)

-- Any number of threads, each making any of the tool's calls in any order, always finish: under no
-- schedule is there a deadlock before all of them have made all their calls, and no schedule goes on
-- forever. The condition is that a task is printed in full only while it is as it was created, when
-- its lists of dependences are empty.
pub calls-AlwaysFinishes :
    (programs : List (List Call))
    → All (All PrintsFresh) programs
    → AlwaysFinishes (map caller programs)
calls-AlwaysFinishes programs f =
    AreOrdered-AlwaysFinishes (map caller programs) (callers-AreOrdered programs f)
