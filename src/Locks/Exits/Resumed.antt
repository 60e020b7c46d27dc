-- ===== src/Locks/Exits/Resumed.antt =====
-- Threads of which one has more to do at its end: until then all go on the same way.
use ompt_dependency_tracker.Base.{
  ℕ, zero, suc, ◌≡◌, ◌≢◌, refl, subst, inl, inr, Option, none, some, List, [], ◌∷◌, ◌++◌, get_elem?,
  Option-cases, Bool-cases, IfReturns, IfReturns->>=,
}
use ompt_dependency_tracker.Locks.{
  Mutex, Action, lock, unlock, Thread, same, is_held, act, advance, go_on,
}

-- The same thread with more to do, and the same threads where the thread `i` has.
unfoldable pub longer : List Action → Thread → Thread
longer more t = record t { rest = t.rest ++ more }

unfoldable pub resumed : ℕ → List Action → List Thread → List Thread
resumed i more [] = []
resumed zero more (t ∷ threads) = longer more t ∷ threads
resumed (suc i) more (t ∷ threads) = t ∷ resumed i more threads

is_held-resumed :
    (m : Mutex) (i : ℕ) (more : List Action) (threads : List Thread)
    → is_held m (resumed i more threads) ≡ is_held m threads
unfolding resumed is_held longer
is_held-resumed m i more [] = refl
is_held-resumed m zero more (t ∷ threads) = refl
is_held-resumed m (suc i) more (t ∷ threads) = rw (is_held-resumed m i more threads) refl

-- What a thread does depends on the others by what they hold.
abbrev HoldSame : List Thread → List Thread → Type 0
HoldSame all all' = (m : Mutex) → is_held m all' ≡ is_held m all

act-same :
    (all all' : List Thread) (held : List Mutex) (rest : List Action)
    → HoldSame all all'
    → act all' held rest ≡ act all held rest
unfolding act
act-same all all' held [] h = refl
act-same all all' held (lock m ∷ rest) h = rw (h m) refl
act-same all all' [] (unlock m ∷ rest) h = refl
act-same all all' (x ∷ held) (unlock m ∷ rest) h = refl

-- Two steps that agree up to `f`.
abbrev pub Follows {ℓ} : {A : Type ℓ} → (A → A) → Option A → Option A → Type ℓ
Follows f none o = o ≡ none
Follows f (some x) o = o ≡ some (f x)

pub moved {ℓ} :
    {A : Type ℓ} → (f : A → A) (o r o' : Option A) → o ≡ r → Follows f o o' → Follows f r o'
moved f o r o' e h = subst (λ x. Follows f x o') e h

-- A thread that has something to do does the same when there is more to do after it.
act-longer :
    (all all' : List Thread) (held : List Mutex) (rest more : List Action)
    → HoldSame all all'
    → rest ≢ []
    → Follows (longer more) (act all held rest) (act all' held (rest ++ more))
unfolding act longer
act-longer all all' held [] more h busy = absurd (busy refl)
act-longer all all' held (lock m ∷ rest) more h busy = elim (Bool-cases (is_held m all)) [
  | inl taken ↦ rw (h m, taken) refl
  | inr free ↦ rw (h m, free) refl
]
act-longer all all' [] (unlock m ∷ rest) more h busy = refl
act-longer all all' (x ∷ held) (unlock m ∷ rest) more h busy = elim (Bool-cases (same m x)) [
  | inl latest ↦ rw latest refl
  | inr other ↦ rw other refl
]

advance-same :
    (all all' : List Thread) (j : ℕ) (threads : List Thread)
    → HoldSame all all'
    → advance all' j threads ≡ advance all j threads
unfolding advance
advance-same all all' j [] h = refl
advance-same all all' zero (t ∷ threads) h = rw (act-same all all' t.held t.rest h) refl
advance-same all all' (suc j) (t ∷ threads) h = rw (advance-same all all' j threads h) refl

advance-resumed :
    (all all' : List Thread) (more : List Action) (j i : ℕ) (threads : List Thread) (t : Thread)
    → HoldSame all all'
    → get_elem? threads i ≡ some t
    → t.rest ≢ []
    → Follows (resumed i more) (advance all j threads) (advance all' j (resumed i more threads))
unfolding advance resumed longer
advance-resumed all all' more j i [] t h at busy = cc
advance-resumed all all' more zero zero (u ∷ threads) t h at busy =
    let same_thread : t ≡ u = cc in
    let here =
      act-longer all all' u.held u.rest more h
        (subst (λ (w : Thread). w.rest ≢ []) same_thread busy) in
    elim (Option-cases (act all u.held u.rest)) [
      | inl waits ↦ rw (waits, moved _ _ none _ waits here) refl
      | inr (u', e) ↦ rw (e, moved _ _ (some u') _ e here) refl
    ]
advance-resumed all all' more zero (suc i) (u ∷ threads) t h at busy =
    rw (act-same all all' u.held u.rest h) (elim (Option-cases (act all u.held u.rest)) [
      | inl waits ↦ rw waits refl
      | inr (u', e) ↦ rw e refl
    ])
advance-resumed all all' more (suc j) zero (u ∷ threads) t h at busy =
    rw (advance-same all all' j threads h) (elim (Option-cases (advance all j threads)) [
      | inl waits ↦ rw waits refl
      | inr (after, e) ↦ rw e refl
    ])
advance-resumed all all' more (suc j) (suc i) (u ∷ threads) t h at busy =
    let there = advance-resumed all all' more j i threads t h at busy in
    elim (Option-cases (advance all j threads)) [
      | inl waits ↦ rw (waits, moved _ _ none _ waits there) refl
      | inr (after, e) ↦ rw (e, moved _ _ (some after) _ e there) refl
    ]

-- No thread goes away.
advance-stays :
    (all : List Thread) (j : ℕ) (threads : List Thread) (i : ℕ) (t : Thread)
    → get_elem? threads i ≡ some t
    → IfReturns (advance all j threads) (λ after. (t' : Thread) × (get_elem? after i ≡ some t'))
unfolding advance
advance-stays all j [] i t at = cc
advance-stays all zero (u ∷ threads) zero t at =
    IfReturns->>= _ _ (act all u.held u.rest) _ (all_return (act all u.held u.rest))
      (λ u' e. (u', refl))
  where
    all_return : (o : Option Thread) → IfReturns o (λ x. Unit {0})
    all_return none = tt
    all_return (some x) = tt
advance-stays all zero (u ∷ threads) (suc i) t at = elim (Option-cases (act all u.held u.rest)) [
  | inl waits ↦ rw waits tt
  | inr (u', e) ↦ rw e (t, at)
]
advance-stays all (suc j) (u ∷ threads) zero t at = elim (Option-cases (advance all j threads)) [
  | inl waits ↦ rw waits tt
  | inr (after, e) ↦ rw e (u, refl)
]
advance-stays all (suc j) (u ∷ threads) (suc i) t at =
    IfReturns->>= _ _ (advance all j threads) _ (advance-stays all j threads i t at) (λ after e. e)

pub get_elem?-resumed :
    (i : ℕ) (more : List Action) (threads : List Thread) (t : Thread)
    → get_elem? threads i ≡ some t
    → get_elem? (resumed i more threads) i ≡ some (longer more t)
unfolding resumed
get_elem?-resumed i more [] t at = cc
get_elem?-resumed zero more (u ∷ threads) t at = let same_thread : u ≡ t = cc in rw same_thread refl
get_elem?-resumed (suc i) more (u ∷ threads) t at = get_elem?-resumed i more threads t at

pub longer-busy : (rest more : List Action) → rest ≢ [] → (rest ++ more) ≢ []
longer-busy [] more busy e = busy refl
longer-busy (a ∷ rest) more busy e = cc

-- As long as the thread `i` has something to do, the threads go on exactly as they would if it had
-- more to do after that.
pub go_on-resumed :
    (more : List Action) (j i : ℕ) (threads : List Thread) (t : Thread)
    → get_elem? threads i ≡ some t
    → t.rest ≢ []
    → Follows (resumed i more) (go_on j threads) (go_on j (resumed i more threads))
unfolding go_on
go_on-resumed more j i threads t at busy =
    advance-resumed threads (resumed i more threads) more j i threads t
      (λ m. is_held-resumed m i more threads) at busy

pub go_on-stays :
    (j i : ℕ) (threads after : List Thread) (t : Thread)
    → get_elem? threads i ≡ some t
    → go_on j threads ≡ some after
    → (t' : Thread) × (get_elem? after i ≡ some t')
unfolding go_on
go_on-stays j i threads after t at e =
    subst (λ o. IfReturns o (λ ts. (t' : Thread) × (get_elem? ts i ≡ some t'))) e
      (advance-stays threads j threads i t at)
