-- ===== src/Dependences/Order.antt =====
-- The edges of `dependences` against the order of the accesses.
use ompt_dependency_tracker.Base.{
  ℕ, ◌≤◌, ◌<◌, ◌≡◌, ◌↔◌, ◌⊎◌, inl, inr, false, List, [], ◌∷◌, ◌++◌, Memᴰ, Memᴰ-append,
  Memᴰ-replicate, arith, replicate,
}
use mathlib.Core.List.Memᴰ
use ompt_dependency_tracker.Table.{bucket}
use ompt_dependency_tracker.ToolData.{new_tool_data}
use ompt_dependency_tracker.Dependences.{TaskDependence}
use ompt_dependency_tracker.Dependences.History.{
  Access, track, conflicts, clashes, dependents, track-dependents,
}

-- Both name the same address, and one is under flag 3 and the other under flag 2 or 3.
abbrev pub Clash : TaskDependence → TaskDependence → Type 0
Clash d e =
    (d.variable_addr ≡ e.variable_addr)
    × ((d.dependence_flags ≡ 2) × (e.dependence_flags ≡ 3)
        ⊎ (d.dependence_flags ≡ 3) × ((e.dependence_flags ≡ 2) ⊎ (e.dependence_flags ≡ 3)))

-- Some access of the task v clashes with d.
abbrev pub Follows : TaskDependence → ℕ → List Access → Type 0
Follows d v [] = ⊥
Follows d v ((t, e) ∷ h) = ((t ≡ v) × Clash d e) ⊎ Follows d v h

-- Some access of the task v comes after one of the task u and clashes with it.
abbrev pub Precedes : ℕ → ℕ → List Access → Type 0
Precedes u v [] = ⊥
Precedes u v ((t, d) ∷ h) = ((t ≡ u) × Follows d v h) ⊎ Precedes u v h

-- Some access of v clashes with one of u in the past.
abbrev Waits : ℕ → ℕ → List Access → List Access → Type 0
Waits u v [] h = ⊥
Waits u v ((t, d) ∷ past) h = ((t ≡ u) × Follows d v h) ⊎ Waits u v past h

Waits-nil : (u v : ℕ) (past : List Access) → ¬ Waits u v past []
Waits-nil u v [] w = w
Waits-nil u v ((t, d) ∷ past) (inl w) = w.1
Waits-nil u v ((t, d) ∷ past) (inr w) = Waits-nil u v past w

Waits-concat :
    (u v t : ℕ) (d : TaskDependence) (past h : List Access)
    → Waits u v (past ++ (t, d) ∷ []) h ↔ (Waits u v past h ⊎ (t ≡ u) × Follows d v h)
Waits-concat u v t d [] h = ground arith
Waits-concat u v t d (x ∷ past) h = ground (arith, Waits-concat u v t d past h)

Waits-cons :
    (u v t : ℕ) (d : TaskDependence) (past h : List Access)
    → Waits u v past ((t, d) ∷ h) ↔ (Waits u v past h ⊎ (t ≡ v) × (0 < clashes u past d))
Waits-cons u v t d [] h = ground arith
Waits-cons u v t d (x ∷ past) h = ground (arith, Waits-cons u v t d past h)

mem-dependents :
    (u v : ℕ) (past h : List Access)
    → Memᴰ v (dependents u past h) ↔ (Waits u v past h ⊎ Precedes u v h)
mem-dependents u v past [] =
    (λ m. absurd (Memᴰ.not-nil m), λ w. absurd (ground (arith, Waits-nil u v past)))
mem-dependents u v past ((t, d) ∷ h) = ground (
  arith,
  Memᴰ-append v (replicate (clashes u past d) t) (dependents u (past ++ (t, d) ∷ []) h),
  Memᴰ-replicate v t (clashes u past d),
  mem-dependents u v (past ++ (t, d) ∷ []) h,
  Waits-concat u v t d past h,
  Waits-cons u v t d past h,
)

-- After any sequence of depend clauses, v is entered under u exactly if some access of v came after
-- one of u to the same address, one of the two under flag 3 and the other under flag 2 or 3. Accesses
-- under any other flag are ignored, those under flag 1 too, which the source calls OUT dependences.
pub track-mem :
    (u v : ℕ) (h : List Access)
    → Memᴰ v (bucket u (track h new_tool_data).dependences) ↔ Precedes u v h
track-mem u v h = rw (track-dependents u h) (ground (arith, mem-dependents u v [] h))

-- No access of the sequence is of a task below t, and those of t do not conflict with d.
abbrev pub IsAfter : ℕ → TaskDependence → List Access → Type 0
IsAfter t d [] = Unit {0}
IsAfter t d ((t', e) ∷ h) = (t ≤ t') × (t ≡ t' → conflicts d e ≡ false) × IsAfter t d h

-- Tasks announce their dependences in the order of their ids, and none conflicts with itself.
abbrev pub IsOrdered : List Access → Type 0
IsOrdered [] = Unit {0}
IsOrdered ((t, d) ∷ h) = IsAfter t d h × IsOrdered h

Follows-lt :
    (t v : ℕ) (d : TaskDependence) (h : List Access) → IsAfter t d h → Follows d v h → t < v
Follows-lt t v d [] a f = elim f [ ]
Follows-lt t v d ((t', e) ∷ h) a (inl f) = grind arith
Follows-lt t v d ((t', e) ∷ h) a (inr f) = Follows-lt t v d h a.2 f

Precedes-lt : (u v : ℕ) (h : List Access) → IsOrdered h → Precedes u v h → u < v
Precedes-lt u v [] o p = elim p [ ]
Precedes-lt u v ((t, d) ∷ h) o (inl p) = omega (arith, Follows-lt t v d h o.0 p.1)
Precedes-lt u v ((t, d) ∷ h) o (inr p) = Precedes-lt u v h o.1 p

-- Where the tasks announce their dependences in the order of their ids and no task conflicts with
-- itself, every edge that depend clauses make leads to a task of a larger id: they form no cycle.
pub track-lt :
    (u v : ℕ) (h : List Access)
    → IsOrdered h
    → Memᴰ v (bucket u (track h new_tool_data).dependences)
    → u < v
track-lt u v h o m = Precedes-lt u v h o ((track-mem u v h).0 m)
