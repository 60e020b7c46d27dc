-- ===== src/Counters/Racing.antt =====
-- One counter of src/dependency_tracker.cpp under several threads. Without ATOMIC_COUNTERS it is a
-- plain uint64_t, so a callback's `n++` is a load and a store, between which other threads may run.
use ompt_dependency_tracker.Base.{
  ℕ, zero, suc, ◌+◌, ◌<◌, ◌≤◌, ◌≡◌, refl, Option, none, some, ◌>>=◌, List, [], ◌∷◌, All, ◌⊎◌, inl,
  inr, arith, IfReturns, IfReturns->>=, IfReturns-map,
}
use ompt_dependency_tracker.Base.Word.{bump, word_mod}

-- What the thread has loaded and not yet stored, and how many of its callbacks are to come.
pub record Worker : Type 0 where
  pub loaded : Option ℕ
  pub to_come : ℕ

unfoldable pub count : ℕ → Option ℕ → ℕ → Option (ℕ × Worker)
count n none zero = none
count n none (suc k) = some (n, record { loaded = some n; to_come = k })
count n (some v) k = some (bump v, record { loaded = none; to_come = k })

unfoldable pub count_at : ℕ → ℕ → List Worker → Option (ℕ × List Worker)
count_at n i [] = none
count_at n zero (w ∷ ws) = do p ← count n w.loaded w.to_come; some (p.0, p.1 ∷ ws)
count_at n (suc i) (w ∷ ws) = do p ← count_at n i ws; some (p.0, w ∷ p.1)

-- A turn of a thread that has ended is lost.
unfoldable pub taken : Option (ℕ × List Worker) → ℕ × List Worker → ℕ × List Worker
taken none s = s
taken (some s') s = s'

unfoldable pub race : List ℕ → ℕ × List Worker → ℕ × List Worker
race [] s = s
race (i ∷ turns) s = race turns (taken (count_at s.0 i s.1) s)

-- Increments that are not stored yet.
abbrev pub open_in : Option ℕ → ℕ
open_in none = 0
open_in (some v) = 1

abbrev pub unfinished : List Worker → ℕ
unfinished [] = 0
unfinished (w ∷ ws) = open_in w.loaded + w.to_come + unfinished ws

-- A loaded value is one that the counter had.
abbrev HasLoaded : ℕ → ℕ → Option ℕ → Type 0
HasLoaded n0 made none = Unit {0}
HasLoaded n0 made (some v) = (n0 ≤ v) × (v ≤ n0 + made)

abbrev HaveLoaded : ℕ → ℕ → List Worker → Type 0
HaveLoaded n0 made = All λ (w : Worker). HasLoaded n0 made w.loaded

-- `made` stores have been made, of `total`.
record Racing (n0 total made n : ℕ) (ws : List Worker) : Type 0 where
  counted : made + unfinished ws ≡ total
  low : n0 ≤ n
  high : n ≤ n0 + made
  some_made : (made ≡ 0) ⊎ (n0 < n)
  values : HaveLoaded n0 made ws

HasLoaded-le : (n0 a b : ℕ) (v : Option ℕ) → a ≤ b → HasLoaded n0 a v → HasLoaded n0 b v
HasLoaded-le n0 a b none le h = tt
HasLoaded-le n0 a b (some v) le h = (h.0, omega arith)

HaveLoaded-le : (n0 a b : ℕ) (ws : List Worker) → a ≤ b → HaveLoaded n0 a ws → HaveLoaded n0 b ws
HaveLoaded-le n0 a b [] le h = tt
HaveLoaded-le n0 a b (w ∷ ws) le h =
    (HasLoaded-le n0 a b w.loaded le h.0, HaveLoaded-le n0 a b ws le h.1)

-- What one action does, when `before` increments are not stored: a load keeps the counter, and a
-- store makes it one more than a value that it had.
record Moved (n0 made n before : ℕ) (n' : ℕ) (ws : List Worker) : Type 0 where
  more : ℕ
  fewer : before ≡ more + unfinished ws
  low : n0 ≤ n'
  high : n' ≤ n0 + (made + more)
  grown : ((more ≡ 0) × (n' ≡ n)) ⊎ (n0 < n')
  values : HaveLoaded n0 (made + more) ws

bump-small : (v : ℕ) → v + 1 < word_mod → bump v ≡ v + 1
bump-small v h = omega arith

count-Moved :
    (n0 made n k : ℕ) (v : Option ℕ)
    → n0 ≤ n
    → n ≤ n0 + made
    → HasLoaded n0 made v
    → n0 + (made + (open_in v + k)) < word_mod
    → IfReturns (count n v k) (λ p. Moved n0 made n (open_in v + k + 0) p.0 (p.1 ∷ []))
unfolding count
count-Moved n0 made n zero none low high h small = tt
count-Moved n0 made n (suc k) none low high h small = record {
  more = 0;
  fewer = omega arith;
  low = low;
  high = omega arith;
  grown = inl (refl, refl);
  values = ((low, omega arith), tt);
}
count-Moved n0 made n k (some v) low high h small =
    let stored = bump-small v (omega (arith, h.1, small)) in
    record {
      more = 1;
      fewer = omega arith;
      low = omega (arith, stored, h.0);
      high = omega (arith, stored, h.1);
      grown = inr (omega (arith, stored, h.0));
      values = (tt, tt);
    }

count_at-Moved :
    (n0 made n i : ℕ) (ws : List Worker)
    → n0 ≤ n
    → n ≤ n0 + made
    → HaveLoaded n0 made ws
    → n0 + (made + unfinished ws) < word_mod
    → IfReturns (count_at n i ws) (λ p. Moved n0 made n (unfinished ws) p.0 p.1)
unfolding count_at
count_at-Moved n0 made n i [] low high h small = tt
count_at-Moved n0 made n zero (w ∷ ws) low high h small =
    IfReturns->>= _ _ (count n w.loaded w.to_come) _
      (count-Moved n0 made n w.to_come w.loaded low high h.0 (omega (arith, small)))
      (λ p m. record {
        more = m.more;
        fewer = omega (arith, m.fewer);
        low = m.low;
        high = m.high;
        grown = m.grown;
        values = (m.values.0, HaveLoaded-le n0 made (made + m.more) ws (omega arith) h.1);
      })
count_at-Moved n0 made n (suc i) (w ∷ ws) low high h small =
    IfReturns->>= _ _ (count_at n i ws) _
      (count_at-Moved n0 made n i ws low high h.1 (omega (arith, small)))
      (λ p m. record {
        more = m.more;
        fewer = omega (arith, m.fewer);
        low = m.low;
        high = m.high;
        grown = m.grown;
        values = (HasLoaded-le n0 made (made + m.more) w.loaded (omega arith) h.0, m.values);
      })

count_at-Racing :
    (n0 total made n i : ℕ) (ws : List Worker)
    → n0 + total < word_mod
    → Racing n0 total made n ws
    → IfReturns (count_at n i ws) (λ p. (made' : ℕ) × Racing n0 total made' p.0 p.1)
count_at-Racing n0 total made n i ws small r =
    IfReturns-map _ _ (count_at n i ws)
      (λ p m. (
        made + m.more,
        record {
          counted = omega (arith, r.counted, m.fewer);
          low = m.low;
          high = m.high;
          some_made = elim m.grown [
            | inl (none_more, same) ↦ elim r.some_made [
              | inl none_made ↦ inl (omega (arith, none_more, none_made))
              | inr grown ↦ inr (omega (arith, same, grown))
            ]
            | inr grown ↦ inr grown
          ];
          values = m.values;
        },
      ))
      (count_at-Moved n0 made n i ws r.low r.high r.values (omega (arith, small, r.counted)))

race-Racing :
    (turns : List ℕ) (n0 total made n : ℕ) (ws : List Worker)
    → n0 + total < word_mod
    → Racing n0 total made n ws
    → (made' : ℕ) × Racing n0 total made' (race turns (n, ws)).0 (race turns (n, ws)).1
unfolding race taken
race-Racing [] n0 total made n ws small r = (made, r)
race-Racing (i ∷ turns) n0 total made n ws small r =
    let (made', r') = after (count_at n i ws) (count_at-Racing n0 total made n i ws small r) in
    race-Racing turns n0 total made' (taken (count_at n i ws) (n, ws)).0
      (taken (count_at n i ws) (n, ws)).1 small r'
  where
    after :
        (o : Option (ℕ × List Worker))
        → IfReturns o (λ p. (made' : ℕ) × Racing n0 total made' p.0 p.1)
        → (made' : ℕ) × Racing n0 total made' (taken o (n, ws)).0 (taken o (n, ws)).1
    after none h = (made, r)
    after (some p) h = h

abbrev pub NoneLoaded : List Worker → Type 0
NoneLoaded = All λ (w : Worker). w.loaded ≡ none

NoneLoaded-HaveLoaded : (n0 : ℕ) (ws : List Worker) → NoneLoaded ws → HaveLoaded n0 0 ws
NoneLoaded-HaveLoaded n0 [] h = tt
NoneLoaded-HaveLoaded n0 (w ∷ ws) h = (rw h.0 tt, NoneLoaded-HaveLoaded n0 ws h.1)

-- However many threads count, and however their loads and stores fall, as long as there are fewer than
-- 2^64 increments in all: the counter never falls below its first value, it is never more than that
-- value plus the increments that have been stored, and it is above it once one has been stored.
pub race-bounds :
    (turns : List ℕ) (n0 : ℕ) (ws : List Worker)
    → NoneLoaded ws
    → n0 + unfinished ws < word_mod
    → (n0 ≤ (race turns (n0, ws)).0)
      × ((race turns (n0, ws)).0 + unfinished (race turns (n0, ws)).1 ≤ n0 + unfinished ws)
      × ((unfinished (race turns (n0, ws)).1 ≡ unfinished ws) ⊎ (n0 < (race turns (n0, ws)).0))
race-bounds turns n0 ws none_loaded small =
    let (made, r) = race-Racing turns n0 (unfinished ws) 0 n0 ws small (record {
      counted = omega arith;
      low = omega arith;
      high = omega arith;
      some_made = inl refl;
      values = NoneLoaded-HaveLoaded n0 ws none_loaded;
    }) in
    (
      r.low,
      omega (arith, r.counted, r.high),
      elim r.some_made [
        | inl none_made ↦ inl (omega (arith, none_made, r.counted))
        | inr grown ↦ inr grown
      ],
    )
