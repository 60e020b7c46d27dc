-- ===== src/Counters/Lost.antt =====
-- The counters of src/dependency_tracker.cpp when every thread loads before any of them stores.
use mathlib.Core.List.{append_assoc}
use ompt_dependency_tracker.Base.{
  ℕ, zero, suc, ◌≡◌, ◌∙◌, refl, sym, ap, subst, none, some, List, [], ◌∷◌, ◌++◌, replicate, arith,
  length, length-append,
}
use ompt_dependency_tracker.Base.Word.{bump}
use ompt_dependency_tracker.Counters.Racing.{Worker, count, count_at, taken, race}

-- A thread before its callback's load, before its store, and after it.
abbrev pub ready : Worker
ready = record { loaded = none; to_come = 1 }

abbrev pub pending : ℕ → Worker
pending v = record { loaded = some v; to_come = 0 }

abbrev pub ended : Worker
ended = record { loaded = none; to_come = 0 }

-- `n` threads one after the other, from thread `i` on.
abbrev pub sweep : ℕ → ℕ → List ℕ
sweep i zero = []
sweep i (suc n) = i ∷ sweep (suc i) n

race-append : (xs ys : List ℕ) (s : ℕ × List Worker) → race (xs ++ ys) s ≡ race ys (race xs s)
unfolding race
race-append [] ys s = refl
race-append (i ∷ xs) ys s = race-append xs ys (taken (count_at s.0 i s.1) s)

-- The thread behind those of `before` takes its turn.
count_at-length :
    (n n' : ℕ) (w w' : Worker) (before after : List Worker)
    → count n w.loaded w.to_come ≡ some (n', w')
    → count_at n (length before) (before ++ w ∷ after) ≡ some (n', before ++ w' ∷ after)
unfolding count_at
count_at-length n n' w w' [] after e = rw e refl
count_at-length n n' w w' (b ∷ before) after e = rw (count_at-length n n' w w' before after e) refl

-- A sweep in which each thread goes from `w` to `w'`, and the counter stays at `n`.
sweep-all :
    (n : ℕ) (w w' : Worker)
    → count n w.loaded w.to_come ≡ some (n, w')
    → (before : List Worker) (m : ℕ)
    → race (sweep (length before) m) (n, before ++ replicate m w) ≡ (n, before ++ replicate m w')
unfolding race taken
sweep-all n w w' e before zero = refl
sweep-all n w w' e before (suc m) =
    let longer : length (before ++ w' ∷ []) ≡ suc (length before) =
      omega (arith, length-append before (w' ∷ [])) in
    ap (λ o. race (sweep (suc (length before)) m) (taken o (n, before ++ w ∷ replicate m w)))
      (count_at-length n n w w' before (replicate m w) e)
    ∙ ap (λ ws. race (sweep (suc (length before)) m) (n, ws))
        (sym (append_assoc before (w' ∷ []) (replicate m w)))
    ∙ subst
        (λ k.
          race (sweep k m) (n, (before ++ w' ∷ []) ++ replicate m w)
          ≡ (n, (before ++ w' ∷ []) ++ replicate m w'))
        longer (sweep-all n w w' e (before ++ w' ∷ []) m)
    ∙ ap (λ ws. (n, ws)) (append_assoc before (w' ∷ []) (replicate m w'))

-- If all of n + 1 threads load the counter before the first of them stores, then once all have stored
-- it has gone up by one (modulo 2^64), whatever n is: the other n callbacks are lost from the count.
pub race-lost :
    (n v : ℕ)
    → race (sweep 0 (suc n) ++ sweep 0 (suc n)) (v, replicate (suc n) ready)
      ≡ (bump v, replicate (suc n) ended)
unfolding race taken count_at count
race-lost n v =
    race-append (sweep 0 (suc n)) (sweep 0 (suc n)) (v, replicate (suc n) ready)
    ∙ ap (race (sweep 0 (suc n))) (sweep-all v ready (pending v) refl [] (suc n))
    ∙ sweep-all (bump v) (pending v) ended refl (ended ∷ []) n
