-- ===== src/Callbacks/Log/Order.antt =====
-- The dependences that a log calls for, against the order of the ids.
use ompt_dependency_tracker.Base.{ℕ, ◌≤◌, ◌<◌, ◌≡◌, false, List, [], ◌∷◌, arith}
use ompt_dependency_tracker.Dependences.{TaskDependence}
use ompt_dependency_tracker.Dependences.History.{Access, conflicts, clashes}
use ompt_dependency_tracker.Callbacks.Log.{Fact, made, accessed, waited, accesses, births, demand}

-- No access of the past is of a task above t, and those of t do not conflict with d.
abbrev pub IsLast : ℕ → TaskDependence → List Access → Type 0
IsLast t d [] = Unit {0}
IsLast t d ((t', e) ∷ past) = (t' ≤ t) × (t' ≡ t → conflicts e d ≡ false) × IsLast t d past

-- Tasks announce their accesses in the order of their ids, none conflicts with itself, and none waits
-- that has a child.
abbrev pub IsInOrder : List Fact → List Fact → Type 0
IsInOrder past [] = Unit {0}
IsInOrder past (made id parent ∷ facts) = IsInOrder (made id parent ∷ past) facts
IsInOrder past (accessed t d ∷ facts) =
    IsLast t d (accesses past) × IsInOrder (accessed t d ∷ past) facts
IsInOrder past (waited t ∷ facts) =
    ((u : ℕ) → births u t past ≡ 0) × IsInOrder (waited t ∷ past) facts

clashes-lt :
    (u t : ℕ) (d : TaskDependence) (past : List Access)
    → IsLast t d past
    → 0 < clashes u past d
    → u < t
clashes-lt u t d [] last some_clash = absurd (omega arith)
clashes-lt u t d ((t', e) ∷ past) last some_clash =
    ground (arith, last.1, clashes-lt u t d past last.2)

-- Every edge that such a log calls for leads to a larger id.
pub demand-lt :
    (u v : ℕ) (past facts : List Fact) → IsInOrder past facts → 0 < demand u v past facts → u < v
demand-lt u v past [] o some_edge = absurd (omega arith)
demand-lt u v past (made id parent ∷ facts) o some_edge =
    demand-lt u v (made id parent ∷ past) facts o (omega arith)
demand-lt u v past (accessed t d ∷ facts) o some_edge =
    ground
      (arith, clashes-lt u t d (accesses past) o.0, demand-lt u v (accessed t d ∷ past) facts o.1)
demand-lt u v past (waited t ∷ facts) o some_edge =
    ground (arith, o.0 u, demand-lt u v (waited t ∷ past) facts o.1)
