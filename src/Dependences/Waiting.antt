-- ===== src/Dependences/Waiting.antt =====
-- handle_taskwait_dependences of src/callbacks.hpp: each child of the waiting task gets the task as
-- one that depends on it. Depend clauses are compared across all tasks, also between a task and its
-- children.
use mathlib.Core.List.Memᴰ
use ompt_dependency_tracker.Base.{
  ℕ, ◌<◌, ◌≡◌, refl, sym, subst, Option, some, ◌>>=◌, List, [], ◌∷◌, ◌++◌, Memᴰ, Memᴰ-cons,
  Memᴰ-append, Memᴰ-replicate, arith, get_elem?, replicate, Returns, Returns-map, Option-cases, inl,
  inr,
}
use ompt_dependency_tracker.Table.{find, bucket, append_to}
use ompt_dependency_tracker.Task.{Task}
use ompt_dependency_tracker.ToolData.{ToolData}
use ompt_dependency_tracker.ToolData.Registry.{SameRegistry}
use ompt_dependency_tracker.Dependences.{
  wait_for, handle_taskwait_dependences, add_dependences, handle_in_dependence,
}
use ompt_dependency_tracker.Dependences.Effect.{
  count, bucket-add_dependences, handle_in_dependence-bucket,
}
use ompt_dependency_tracker.Dependences.Frame.{handle_in_dependence-SameRegistry}

-- The ids of the tasks at some addresses, where each holds a task.
abbrev pub ids_at : List Task → List ℕ → Option (List ℕ)
ids_at tasks [] = some []
ids_at tasks (p ∷ ps) = do t ← get_elem? tasks p; ids ← ids_at tasks ps; some (t.id ∷ ids)

wait_for-ids_at :
    (t : ℕ) (tasks : List Task) (ps ids : List ℕ) (deps : List (ℕ × List ℕ))
    → ids_at tasks ps ≡ some ids
    → wait_for t tasks ps deps ≡ some (add_dependences t ids deps)
unfolding wait_for add_dependences
wait_for-ids_at t tasks [] ids deps e = ground arith
wait_for-ids_at t tasks (p ∷ ps) ids deps e = elim (Option-cases (get_elem? tasks p)) [
  | inl dangling ↦ absurd (ground arith)
  | inr (c, at) ↦ elim (Option-cases (ids_at tasks ps)) [
    | inl dangling ↦ absurd (ground arith)
    | inr (rest, others) ↦
        let whole : ids ≡ c.id ∷ rest = ground arith in
        rw (at, whole) (wait_for-ids_at t tasks ps rest (append_to c.id t deps) others)
  ]
]

-- A registered task waits for its children: under each child's id its own id is added, once for
-- each time that the child is listed, and nothing else is added.
pub taskwait-bucket :
    (t p : ℕ) (task : Task) (ids : List ℕ) (s : ToolData)
    → find t s.id_to_task ≡ some p
    → get_elem? s.tasks p ≡ some task
    → ids_at s.tasks task.ancestry_children ≡ some ids
    → Returns (handle_taskwait_dependences t s) (λ s'.
      (u : ℕ) → bucket u s'.dependences ≡ bucket u s.dependences ++ replicate (count u ids) t)
unfolding handle_taskwait_dependences
taskwait-bucket t p task ids s found at children =
    rw (found, handle_taskwait_dependences)
      (rw (at, wait_for-ids_at t s.tasks task.ancestry_children ids s.dependences children)
        (λ u. bucket-add_dependences u t ids s.dependences))

count_pos : (u : ℕ) (xs : List ℕ) → Memᴰ u xs → 0 < count u xs
count_pos u [] m = absurd (Memᴰ.not-nil m)
count_pos u (x ∷ xs) m = ground (arith, Memᴰ-cons u x xs, count_pos u xs)

pub mem-append-replicate : (x : ℕ) (xs : List ℕ) (n : ℕ) → 0 < n → Memᴰ x (xs ++ replicate n x)
mem-append-replicate x xs n h =
    (Memᴰ-append x xs (replicate n x)).1 (inr ((Memᴰ-replicate x x n).1 (refl, h)))

-- A task that wrote an address, a child of it that names the address as IN, and a taskwait of the
-- task: the tool then holds that each of the two depends on the other.
pub nested_cycle :
    (parent child p a : ℕ) (task : Task) (ids : List ℕ) (s : ToolData)
    → find parent s.id_to_task ≡ some p
    → get_elem? s.tasks p ≡ some task
    → ids_at s.tasks task.ancestry_children ≡ some ids
    → Memᴰ child ids
    → Memᴰ parent (bucket a s.out_dep_to_tasks)
    → Returns (handle_taskwait_dependences parent (handle_in_dependence child 2 a s)) (λ s'.
      Memᴰ child (bucket parent s'.dependences) × Memᴰ parent (bucket child s'.dependences))
nested_cycle parent child p a task ids s found at children is_child wrote =
    Returns-map _ _ (handle_taskwait_dependences parent s1)
      (λ s' after. (
        subst (Memᴰ child) (sym (after parent))
            ((Memᴰ-append child (bucket parent s1.dependences) _).1 (inl depends)),
        subst (Memᴰ parent) (sym (after child)) (
            mem-append-replicate parent (bucket child s1.dependences) (count child ids)
              (count_pos child ids is_child)),
      ))
      (taskwait-bucket parent p task ids s1 (rw same.id_to_task found) (rw same.tasks at)
        (rw same.tasks children))
  where
    s1 : ToolData
    s1 = handle_in_dependence child 2 a s

    same : SameRegistry s s1
    same = handle_in_dependence-SameRegistry child 2 a s

    depends : Memᴰ child (bucket parent s1.dependences)
    depends = subst (Memᴰ child) (sym (handle_in_dependence-bucket parent child 2 a s)) (
        mem-append-replicate child (bucket parent s.dependences) _
          (omega (arith, count_pos parent (bucket a s.out_dep_to_tasks) wrote)))
