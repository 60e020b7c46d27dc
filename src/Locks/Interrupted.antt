-- ===== src/Locks/Interrupted.antt =====
-- A thread that a signal interrupts: it runs signal_handler_prologue of src/SignalHandler.hpp, whose
-- build_dag locks, and then signal_handler_epilogue, which ends the process.
use ompt_dependency_tracker.Base.{
  ℕ, zero, suc, ◌<◌, ◌≡◌, ◌∙◌, refl, sym, ap, subst, inl, inr, IfReturns, IfReturns->>=, true,
  false, none, some, List, [], ◌∷◌, map, All, arith, get_elem?, Option-cases,
}
use ompt_dependency_tracker.Locks.{
  Mutex, Action, lock, Thread, rank, owner, same, holds, is_held, act, advance, go_on, turn,
  schedule, dag_mtx, id_to_vertex_mtx,
}
use ompt_dependency_tracker.Locks.Operations.{Call, guard, graph_locks, build_dag_locks}
use ompt_dependency_tracker.Locks.Order.{
  PrintsFresh, FitsAbove, FitsAbove-append, graph_locks-FitsAbove,
}
use ompt_dependency_tracker.Locks.Progress.{AreOrdered}
use ompt_dependency_tracker.Locks.Exits.{AlwaysExits, AreOrdered-AlwaysExits}
use ompt_dependency_tracker.Locks.Exits.Resumed.{longer, resumed}
use ompt_dependency_tracker.Locks.Finishing.{caller, callers-AreOrdered, go_on-AreOrdered}

-- The thread runs the handler in place of what it had left, for so many registered regions: once
-- build_dag has returned, the handler calls exit, and the process ends with nothing released.
unfoldable pub handling : ℕ → Thread → Thread
handling n t = record t { rest = build_dag_locks n }

unfoldable pub interrupt : ℕ → ℕ → List Thread → List Thread
interrupt n i [] = []
interrupt n zero (t ∷ threads) = handling n t ∷ threads
interrupt n (suc i) (t ∷ threads) = t ∷ interrupt n i threads

schedule-AreOrdered :
    (turns : List ℕ) (threads : List Thread)
    → AreOrdered threads
    → AreOrdered (schedule turns threads)
unfolding schedule turn
schedule-AreOrdered [] threads o = o
schedule-AreOrdered (i ∷ turns) threads o = elim (Option-cases (go_on i threads)) [
  | inl waits ↦ rw waits (schedule-AreOrdered turns threads o)
  | inr (after, e) ↦ rw e (schedule-AreOrdered turns after (go_on-AreOrdered i threads after o e).0)
]

build_dag_locks-FitsAbove : (n : ℕ) → FitsAbove 8 (build_dag_locks n)
unfolding build_dag_locks
build_dag_locks-FitsAbove zero = graph_locks-FitsAbove 8 (omega arith)
build_dag_locks-FitsAbove (suc n) =
    FitsAbove-append 8 graph_locks (build_dag_locks n) (graph_locks-FitsAbove 8 (omega arith))
      (build_dag_locks-FitsAbove n)

rank-other : (h : Mutex) → same dag_mtx h ≡ false → same id_to_vertex_mtx h ≡ false → rank h < 8
unfolding same rank owner
rank-other h p q = ground arith

holds-other :
    (held : List Mutex)
    → holds dag_mtx held ≡ false
    → holds id_to_vertex_mtx held ≡ false
    → All (λ h. rank h < 8) held
unfolding holds
holds-other [] p q = tt
holds-other (h ∷ held) p q =
    (rank-other h (ground arith) (ground arith), holds-other held (ground arith) (ground arith))

interrupt-AreOrdered :
    (n i : ℕ) (threads : List Thread) (t : Thread)
    → get_elem? threads i ≡ some t
    → holds dag_mtx t.held ≡ false
    → holds id_to_vertex_mtx t.held ≡ false
    → AreOrdered threads
    → AreOrdered (resumed i t.rest (interrupt n i threads))
unfolding interrupt handling resumed longer
interrupt-AreOrdered n i [] t at p q o = tt
interrupt-AreOrdered n zero (u ∷ threads) t at p q o =
    let same_thread : u ≡ t = cc in
    rw (← same_thread) (
      build_dag_locks-FitsAbove n u.held u.rest
          (holds-other u.held (rw same_thread p) (rw same_thread q)) o.0,
      o.1,
    )
interrupt-AreOrdered n (suc i) (u ∷ threads) t at p q o =
    (o.0, interrupt-AreOrdered n i threads t at p q o.1)

interrupt-get_elem? :
    (n i : ℕ) (threads : List Thread) (t : Thread)
    → get_elem? threads i ≡ some t
    → get_elem? (interrupt n i threads) i ≡ some (handling n t)
unfolding interrupt
interrupt-get_elem? n i [] t at = cc
interrupt-get_elem? n zero (u ∷ threads) t at = let same_thread : u ≡ t = cc in rw same_thread refl
interrupt-get_elem? n (suc i) (u ∷ threads) t at = interrupt-get_elem? n i threads t at

-- Whatever the tool's threads have locked and unlocked so far, when a signal interrupts one of them
-- while it holds neither of the graph's two mutexes, then under every schedule the handler's build_dag
-- gets all its locks and returns, so that the handler reaches its exit: until then never are all
-- threads stuck, and never do they go on forever. The thread may hold any of the other mutexes, which
-- it never releases. A task is printed in full only while it is as it was created. What the tables
-- hold at that point is not part of the statement.
pub interrupt-AlwaysExits :
    (programs : List (List Call)) (turns : List ℕ) (n i : ℕ) (t : Thread)
    → All (All PrintsFresh) programs
    → get_elem? (schedule turns (map caller programs)) i ≡ some t
    → holds dag_mtx t.held ≡ false
    → holds id_to_vertex_mtx t.held ≡ false
    → AlwaysExits i (interrupt n i (schedule turns (map caller programs)))
interrupt-AlwaysExits programs turns n i t f at p q =
    let threads = schedule turns (map caller programs) in
    AreOrdered-AlwaysExits t.rest i (interrupt n i threads) (handling n t)
      (interrupt-get_elem? n i threads t at)
      (interrupt-AreOrdered n i threads t at p q
        (schedule-AreOrdered turns (map caller programs) (callers-AreOrdered programs f)))

is_held-get_elem? :
    (m : Mutex) (threads : List Thread) (i : ℕ) (t : Thread)
    → get_elem? threads i ≡ some t
    → holds m t.held ≡ true
    → is_held m threads ≡ true
unfolding is_held
is_held-get_elem? m [] i t at h = cc
is_held-get_elem? m (u ∷ threads) zero t at h =
    let same_thread : u ≡ t = cc in rw (same_thread, h) refl
is_held-get_elem? m (u ∷ threads) (suc i) t at h =
    ground (arith, is_held-get_elem? m threads i t at h)

-- A thread that cannot go on stays as it is while others do.
advance-waiting :
    (all : List Thread) (j : ℕ) (threads : List Thread) (i : ℕ) (t : Thread)
    → get_elem? threads i ≡ some t
    → act all t.held t.rest ≡ none
    → IfReturns (advance all j threads) (λ after. get_elem? after i ≡ some t)
unfolding advance
advance-waiting all j [] i t at w = tt
advance-waiting all zero (u ∷ threads) zero t at w =
    let same_thread : u ≡ t = cc in rw (same_thread, w) tt
advance-waiting all zero (u ∷ threads) (suc i) t at w =
    elim (Option-cases (act all u.held u.rest)) [ inl waits ↦ rw waits tt | inr (u', e) ↦ rw e at ]
advance-waiting all (suc j) (u ∷ threads) zero t at w =
    elim (Option-cases (advance all j threads)) [
      | inl waits ↦ rw waits tt
      | inr (after, e) ↦ rw e at
    ]
advance-waiting all (suc j) (u ∷ threads) (suc i) t at w =
    IfReturns->>= _ _ (advance all j threads) _ (advance-waiting all j threads i t at w)
      (λ after e. e)

-- A thread that asks for what it holds.
asks_own :
    (threads : List Thread) (i : ℕ) (m : Mutex) (held : List Mutex) (rest : List Action)
    → get_elem? threads i ≡ some (record { held = held; rest = lock m ∷ rest })
    → holds m held ≡ true
    → (turns : List ℕ)
    → get_elem? (schedule turns threads) i ≡ some (record { held = held; rest = lock m ∷ rest })
unfolding schedule turn act go_on
asks_own threads i m held rest at h [] = at
asks_own threads i m held rest at h (j ∷ turns) = elim (Option-cases (go_on j threads)) [
  | inl waits ↦ rw waits (asks_own threads i m held rest at h turns)
  | inr (after, e) ↦ rw e (asks_own after i m held rest (kept after e) h turns)
]
  where
    waits_itself : act threads held (lock m ∷ rest) ≡ none
    waits_itself = rw (is_held-get_elem? m threads i _ at h) refl

    kept :
        (after : List Thread)
        → go_on j threads ≡ some after
        → get_elem? after i ≡ some (record { held = held; rest = lock m ∷ rest })
    kept after e =
        subst
          (λ o.
            IfReturns o
              (λ ts. get_elem? ts i ≡ some (record { held = held; rest = lock m ∷ rest })))
          e (advance-waiting threads j threads i _ at waits_itself)

handling-asks :
    (n : ℕ) (t : Thread)
    → (rest : List Action) × (handling n t ≡ record { held = t.held; rest = lock dag_mtx ∷ rest })
unfolding handling build_dag_locks graph_locks guard
handling-asks zero t = (_, refl)
handling-asks (suc n) t = (_, refl)

-- A signal that interrupts a thread while it holds `dag_mtx`, as in the build_dag of ompt_finalize
-- or of another handler, leaves it stuck for good: the handler asks for the mutex that its own thread
-- holds, and under no schedule does it get it.
pub interrupt-stuck :
    (threads : List Thread) (turns : List ℕ) (n i : ℕ) (t : Thread)
    → get_elem? threads i ≡ some t
    → holds dag_mtx t.held ≡ true
    → get_elem? (schedule turns (interrupt n i threads)) i ≡ some (handling n t)
interrupt-stuck threads turns n i t at h =
    let (rest, asks) = handling-asks n t in
    let found = interrupt-get_elem? n i threads t at in
    subst (λ u. get_elem? (schedule turns (interrupt n i threads)) i ≡ some u) (sym asks)
      (asks_own (interrupt n i threads) i dag_mtx t.held rest (found ∙ ap some asks) h turns)
