-- ===== src/Locks/Order.antt =====
-- The order in which the functions lock.
use mathlib.Core.List.{append_assoc}
use ompt_dependency_tracker.Base.{
  ℕ, ◌+◌, ◌<◌, ◌≤◌, ◌≡◌, refl, sym, subst, Option, none, some, List, [], ◌∷◌, ◌++◌, All, arith,
}
use ompt_dependency_tracker.Task.{Task}
use ompt_dependency_tracker.ToolData.Untouched.{IsFresh}
use ompt_dependency_tracker.Locks.{
  Mutex, Action, lock, unlock, rank, id_to_task_mtx, id_to_parallel_region_mtx, in_deps_mtx,
  out_deps_mtx, inout_deps_mtx, dependences_mtx, dag_mtx, id_to_vertex_mtx, region_mtx, task_mtx,
}
use ompt_dependency_tracker.Locks.Operations.{
  guard, locks, all_locks, Call, handle_dependence, handle_taskwait, register_region, change_graph,
  register_task, register_as_child, change_task, print_task, print_region, handle_dependence_locks,
  handle_taskwait_locks, register_region_locks, graph_locks, register_task_locks,
  register_as_child_locks, task_locks, print_locks, print_region_locks, print_others_locks,
  add_child_locks, printed_locks,
}

-- What is asked for has a higher rank than all that is held; what is released is the latest, and
-- nothing is held at the end.
abbrev pub IsOrdered : List Mutex → List Action → Type 0
IsOrdered held [] = held ≡ []
IsOrdered held (lock m ∷ rest) = All (λ h. rank h < rank m) held × IsOrdered (m ∷ held) rest
IsOrdered [] (unlock m ∷ rest) = ⊥
IsOrdered (h ∷ held) (unlock m ∷ rest) = (h ≡ m) × IsOrdered held rest

-- It can stand where everything that is held has a rank below `k`.
abbrev pub FitsAbove : ℕ → List Action → Type 0
FitsAbove k actions =
    (held : List Mutex) (rest : List Action)
    → All (λ h. rank h < k) held
    → IsOrdered held rest
    → IsOrdered held (actions ++ rest)

pub raised :
    (j k : ℕ) (held : List Mutex) → j ≤ k → All (λ h. rank h < j) held → All (λ h. rank h < k) held
raised j k [] le b = tt
raised j k (h ∷ held) le b = (omega (arith, b.0), raised j k held le b.1)

FitsAbove-le : (j k : ℕ) (xs : List Action) → j ≤ k → FitsAbove k xs → FitsAbove j xs
FitsAbove-le j k xs le f held rest b o = f held rest (raised j k held le b) o

pub FitsAbove-append :
    (k : ℕ) (xs ys : List Action) → FitsAbove k xs → FitsAbove k ys → FitsAbove k (xs ++ ys)
FitsAbove-append k xs ys f g held rest b o =
    subst (IsOrdered held) (sym (append_assoc xs ys rest)) (f held (ys ++ rest) b (g held rest b o))

guard-FitsAbove :
    (k : ℕ) (m : Mutex) (body : List Action)
    → k ≤ rank m
    → FitsAbove (rank m + 1) body
    → FitsAbove k (guard m body)
unfolding guard
guard-FitsAbove k m body le f held rest b o = (
  raised k (rank m) held le b,
  subst (IsOrdered (m ∷ held)) (sym (append_assoc body (unlock m ∷ []) rest)) (
      f (m ∷ held) (unlock m ∷ rest) (omega arith, raised k (rank m + 1) held (omega (arith, le)) b)
        (refl, o)),
)

nil-FitsAbove : (k : ℕ) → FitsAbove k []
nil-FitsAbove k held rest b o = o

task_locks-FitsAbove : (k p : ℕ) → k ≤ 7 → FitsAbove k (task_locks p)
unfolding task_locks rank
task_locks-FitsAbove k p le = guard-FitsAbove k (task_mtx p) [] le (nil-FitsAbove 8)

print_others-FitsAbove : (k : ℕ) (others : List ℕ) → k ≤ 7 → FitsAbove k (print_others_locks others)
unfolding print_others_locks
print_others-FitsAbove k [] le = nil-FitsAbove k
print_others-FitsAbove k (p ∷ others) le =
    FitsAbove-append k (task_locks p) (print_others_locks others) (task_locks-FitsAbove k p le)
      (print_others-FitsAbove k others le)

print-FitsAbove : (k p : ℕ) (t : Task) → IsFresh t → k ≤ 7 → FitsAbove k (print_locks p t)
unfolding print_locks print_others_locks rank
print-FitsAbove k p t f le =
    rw (f.dependency_children, f.dependency_parents)
      (guard-FitsAbove k (task_mtx p) [] le (nil-FitsAbove 8))

add_child-FitsAbove : (k : ℕ) (parent : Option ℕ) → k ≤ 7 → FitsAbove k (add_child_locks parent)
unfolding add_child_locks
add_child-FitsAbove k none le = nil-FitsAbove k
add_child-FitsAbove k (some p) le = task_locks-FitsAbove k p le

pub graph_locks-FitsAbove : (k : ℕ) → k ≤ 8 → FitsAbove k graph_locks
unfolding graph_locks rank
graph_locks-FitsAbove k le =
    guard-FitsAbove k dag_mtx _ le
      (guard-FitsAbove 9 id_to_vertex_mtx _ (omega arith) (nil-FitsAbove 10))

-- A task that is printed has not changed since its creation.
abbrev pub PrintsFresh : Call → Type 0
PrintsFresh (register_task parent (some (p, t))) = IsFresh t
PrintsFresh (print_task p t) = IsFresh t
PrintsFresh _ = Unit {0}

locks-FitsAbove : (call : Call) → PrintsFresh call → FitsAbove 0 (locks call)
unfolding locks handle_dependence_locks handle_taskwait_locks register_region_locks
    register_task_locks register_as_child_locks print_region_locks printed_locks rank
locks-FitsAbove handle_dependence f = guard-FitsAbove 0 in_deps_mtx _ (omega arith) (
    guard-FitsAbove 3 out_deps_mtx _ (omega arith) (
      guard-FitsAbove 4 inout_deps_mtx _ (omega arith)
        (guard-FitsAbove 5 dependences_mtx _ (omega arith) (nil-FitsAbove 6))))
locks-FitsAbove handle_taskwait f =
    guard-FitsAbove 0 id_to_task_mtx _ (omega arith)
      (guard-FitsAbove 2 dependences_mtx _ (omega arith) (nil-FitsAbove 6))
locks-FitsAbove register_region f =
    guard-FitsAbove 0 id_to_parallel_region_mtx _ (omega arith) (nil-FitsAbove 1)
locks-FitsAbove change_graph f = graph_locks-FitsAbove 0 (omega arith)
locks-FitsAbove (register_task parent none) f = guard-FitsAbove 0 id_to_task_mtx _ (omega arith) (
    FitsAbove-append 2 (add_child_locks parent) [] (add_child-FitsAbove 2 parent (omega arith))
      (nil-FitsAbove 2))
locks-FitsAbove (register_task parent (some (p, t))) f =
    guard-FitsAbove 0 id_to_task_mtx _ (omega arith) (
      FitsAbove-append 2 (add_child_locks parent) (print_locks p t)
        (add_child-FitsAbove 2 parent (omega arith)) (print-FitsAbove 2 p t f (omega arith)))
locks-FitsAbove (register_as_child none) f =
    guard-FitsAbove 0 id_to_parallel_region_mtx _ (omega arith)
      (guard-FitsAbove 1 id_to_task_mtx _ (omega arith) (nil-FitsAbove 2))
locks-FitsAbove (register_as_child (some r)) f =
    guard-FitsAbove 0 id_to_parallel_region_mtx _ (omega arith) (
      guard-FitsAbove 1 id_to_task_mtx _ (omega arith)
        (guard-FitsAbove 2 (region_mtx r) _ (omega arith) (nil-FitsAbove 7)))
locks-FitsAbove (change_task p) f = task_locks-FitsAbove 0 p (omega arith)
locks-FitsAbove (print_task p t) f = print-FitsAbove 0 p t f (omega arith)
locks-FitsAbove (print_region r children) f =
    guard-FitsAbove 0 (region_mtx r) _ (omega arith)
      (print_others-FitsAbove 7 children (omega arith))

pub all_locks-IsOrdered :
    (calls : List Call) → All PrintsFresh calls → IsOrdered [] (all_locks calls)
unfolding all_locks
all_locks-IsOrdered [] f = refl
all_locks-IsOrdered (call ∷ calls) f =
    locks-FitsAbove call f.0 [] (all_locks calls) tt (all_locks-IsOrdered calls f.1)
