-- ===== src/Counters/Examples.antt =====
-- Two threads that count, and three whose counts are lost.
use ompt_dependency_tracker.Base.{
  ℕ, ◌+◌, ◌≤◌, ◌<◌, ◌≡◌, ◌⊎◌, refl, none, List, [], ◌∷◌, ◌++◌, replicate, arith,
}
use ompt_dependency_tracker.Base.Word.{bump}
use ompt_dependency_tracker.Counters.Racing.{Worker, race, unfinished, race-bounds}
use ompt_dependency_tracker.Counters.Lost.{ready, ended, sweep, race-lost}

abbrev turns : List ℕ
turns = 0 ∷ 1 ∷ 1 ∷ 0 ∷ 0 ∷ []

abbrev two : List Worker
two = record { loaded = none; to_come = 2 } ∷ record { loaded = none; to_come = 1 } ∷ []

race-bounds_example :
    (5 ≤ (race turns (5, two)).0)
    × ((race turns (5, two)).0 + unfinished (race turns (5, two)).1 ≤ 5 + unfinished two)
    × ((unfinished (race turns (5, two)).1 ≡ unfinished two) ⊎ (5 < (race turns (5, two)).0))
race-bounds_example = race-bounds turns 5 two (refl, (refl, tt)) (omega arith)

race-lost_example :
    race (sweep 0 3 ++ sweep 0 3) (7, replicate 3 ready) ≡ (bump 7, replicate 3 ended)
race-lost_example = race-lost 2 7
