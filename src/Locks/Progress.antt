-- ===== src/Locks/Progress.antt =====
-- Which of the threads can go on.
use ompt_dependency_tracker.Base.{
  ℕ, zero, suc, ◌<◌, ◌≤◌, ◌≡◌, ◌≢◌, ◌⊎◌, inl, inr, refl, sym, subst, true, false, some, List, [],
  ◌∷◌, All, arith,
}
use native.Mathlib.Decide.{dec_lt, dec_le}
use ompt_dependency_tracker.Locks.{
  Mutex, Action, lock, unlock, Thread, rank, same, holds, is_held, act, advance, go_on,
}
use ompt_dependency_tracker.Locks.Order.{IsOrdered, raised}

abbrev pub AreOrdered : List Thread → Type 0
AreOrdered = All λ (t : Thread). IsOrdered t.held t.rest

abbrev pub AllDone : List Thread → Type 0
AllDone = All λ (t : Thread). t.rest ≡ []

abbrev pub CanStep : List Thread → Type 0
CanStep threads = (i : ℕ) × (after : List Thread) × (go_on i threads ≡ some after)

abbrev CanAct : List Thread → List Mutex → List Action → Type 0
CanAct all held rest = (t : Thread) × (act all held rest ≡ some t)

-- Some thread of the list can.
abbrev CanAdvance : List Thread → List Thread → Type 0
CanAdvance all threads = (i : ℕ) × (after : List Thread) × (advance all i threads ≡ some after)

abbrev Below : ℕ → List Mutex → Type 0
Below k held = All (λ h. rank h < k) held

abbrev AllBelow : ℕ → List Thread → Type 0
AllBelow k threads = All (λ (t : Thread). Below k t.held) threads

here-CanAdvance :
    (all : List Thread) (t : Thread) (threads : List Thread)
    → CanAct all t.held t.rest
    → CanAdvance all (t ∷ threads)
unfolding advance
here-CanAdvance all t threads (t', e) = (0, t' ∷ threads, rw e refl)

there-CanAdvance :
    (all : List Thread) (t : Thread) (threads : List Thread)
    → CanAdvance all threads
    → CanAdvance all (t ∷ threads)
unfolding advance
there-CanAdvance all t threads (i, after, e) = (suc i, t ∷ after, rw e refl)

same_refl : (m : Mutex) → same m m ≡ true
unfolding same
same_refl m = ground arith

holds-Below : (m : Mutex) (held : List Mutex) → Below (rank m) held → holds m held ≡ false
unfolding holds same
holds-Below m [] b = refl
holds-Below m (h ∷ held) b = ground (arith, holds-Below m held b.1, b.0)

is_held-AllBelow :
    (k : ℕ) (m : Mutex) (threads : List Thread)
    → k ≤ rank m
    → AllBelow k threads
    → is_held m threads ≡ false
unfolding is_held
is_held-AllBelow k m [] le b = refl
is_held-AllBelow k m (t ∷ threads) le b =
    rw (holds-Below m t.held (raised k (rank m) t.held le b.0), is_held-AllBelow k m threads le b.1)
      refl

lock-CanAct :
    (all : List Thread) (k : ℕ) (m : Mutex) (held : List Mutex) (rest : List Action)
    → AllBelow k all
    → k ≤ rank m
    → CanAct all held (lock m ∷ rest)
unfolding act
lock-CanAct all k m held rest b le =
    (record { held = m ∷ held; rest = rest }, rw (is_held-AllBelow k m all le b) refl)

-- Where nothing is held, whoever has not ended can go on.
free-CanAct :
    (all : List Thread) (held : List Mutex) (rest : List Action)
    → AllBelow 0 all
    → Below 0 held
    → IsOrdered held rest
    → rest ≢ []
    → CanAct all held rest
free-CanAct all held [] b own o more = absurd (more refl)
free-CanAct all held (lock m ∷ rest) b own o more = lock-CanAct all 0 m held rest b (omega arith)
free-CanAct all [] (unlock m ∷ rest) b own o more = elim o [ ]
free-CanAct all (h ∷ held) (unlock m ∷ rest) b own o more = absurd (omega (arith, own.0))

-- Whoever holds a mutex of the highest rank can go on.
highest-CanAct :
    (all : List Thread) (k : ℕ) (held : List Mutex) (rest : List Action)
    → AllBelow (suc k) all
    → ¬ Below k held
    → IsOrdered held rest
    → CanAct all held rest
unfolding act
highest-CanAct all k held [] b high o = absurd (high (subst (Below k) (sym o) tt))
highest-CanAct all k held (lock m ∷ rest) b high o = elim (dec_le (suc k) (rank m)) [
  | yes le ↦ lock-CanAct all (suc k) m held rest b le
  | no low ↦ absurd (high (raised (rank m) k held (omega (arith, low)) o.0))
]
highest-CanAct all k [] (unlock m ∷ rest) b high o = elim o [ ]
highest-CanAct all k (h ∷ held) (unlock m ∷ rest) b high o =
    (record { held = held; rest = rest }, rw (o.0, same_refl m) refl)

is_below : (k : ℕ) (held : List Mutex) → Dec (Below k held)
is_below k [] = yes tt
is_below k (h ∷ held) = elim (dec_lt (rank h) k) [
  | no high ↦ no (λ b. high b.0)
  | yes low ↦ elim (is_below k held) [ yes b ↦ yes (low, b) | no high ↦ no (λ b. high b.1) ]
]

-- Either nothing of rank `k` is held, or someone can go on.
search_highest :
    (all : List Thread) (k : ℕ) (threads : List Thread)
    → AllBelow (suc k) all
    → AreOrdered threads
    → AllBelow k threads ⊎ CanAdvance all threads
search_highest all k [] b o = inl tt
search_highest all k (t ∷ threads) b o = elim (is_below k t.held) [
  | no high ↦ inr (here-CanAdvance all t threads (highest-CanAct all k t.held t.rest b high o.0))
  | yes low ↦ elim (search_highest all k threads b o.1) [
    | inl lower ↦ inl (low, lower)
    | inr can ↦ inr (there-CanAdvance all t threads can)
  ]
]

pub is_nil : (actions : List Action) → (actions ≡ []) ⊎ (actions ≢ [])
is_nil [] = inl refl
is_nil (a ∷ actions) = inr (λ e. cc)

-- Where nothing is held, either all have ended, or someone can go on.
search_free :
    (all threads : List Thread)
    → AllBelow 0 all
    → AllBelow 0 threads
    → AreOrdered threads
    → AllDone threads ⊎ CanAdvance all threads
search_free all [] b own o = inl tt
search_free all (t ∷ threads) b own o = elim (is_nil t.rest) [
  | inr more ↦ inr (here-CanAdvance all t threads (free-CanAct all t.held t.rest b own.0 o.0 more))
  | inl done ↦ elim (search_free all threads b own.1 o.1) [
    | inl rest ↦ inl (done, rest)
    | inr can ↦ inr (there-CanAdvance all t threads can)
  ]
]

from_rank :
    (k : ℕ) (threads : List Thread)
    → AllBelow k threads
    → AreOrdered threads
    → AllDone threads ⊎ CanStep threads
unfolding go_on
from_rank zero threads b o = search_free threads threads b b o
from_rank (suc k) threads b o = elim (search_highest threads k threads b o) [
  | inl lower ↦ from_rank k threads lower o
  | inr can ↦ inr can
]

rank-lt : (m : Mutex) → rank m < 10
unfolding rank
rank-lt m = ground arith

-- Threads that lock in the order of the ranks are never deadlocked.
pub AreOrdered-progress :
    (threads : List Thread) → AreOrdered threads → AllDone threads ⊎ CanStep threads
AreOrdered-progress threads o = from_rank 10 threads (all_below threads) o
  where
    below : (held : List Mutex) → Below 10 held
    below [] = tt
    below (h ∷ held) = (rank-lt h, below held)

    all_below : (ts : List Thread) → AllBelow 10 ts
    all_below [] = tt
    all_below (t ∷ ts) = (below t.held, all_below ts)
