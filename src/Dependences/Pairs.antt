-- ===== src/Dependences/Pairs.antt =====
-- The handlers of src/callbacks.hpp keep each key of `dependences` once: all the pairs of the table
-- are those that a lookup finds.
use ompt_dependency_tracker.Base.{
  ℕ, ◌+◌, ◌==◌, if◌then◌else◌, ◌≡◌, inl, inr, ◌&&◌, Option, none, some, List, [], ◌∷◌, ◌++◌, arith,
  get_elem?, Option-cases,
}
use ompt_dependency_tracker.Base.{IfReturns, IfReturns-read, IfReturns->>=}
use ompt_dependency_tracker.Table.{find, update, insert, append_to, bucket}
use ompt_dependency_tracker.Table.Laws.{bucket-append_to}
use ompt_dependency_tracker.Task.{Task}
use ompt_dependency_tracker.ToolData.{ToolData}
use ompt_dependency_tracker.Dependences.{
  TaskDependence, add_dependences, depend_on, handle_in_dependence, handle_out_dependence,
  handle_dependence, wait_for, handle_taskwait_dependences,
}
use ompt_dependency_tracker.Dependences.Effect.{count, count-concat}
use ompt_dependency_tracker.Dependences.History.{handle_dependence_cases}
use ompt_dependency_tracker.DagBuilder.Edges.{pairs_from, pairs}

abbrev pub count_pair : ℕ → ℕ → List (ℕ × ℕ) → ℕ
count_pair u v [] = 0
count_pair u v ((x, y) ∷ ps) = (if x == u && y == v then 1 else 0) + count_pair u v ps

count_pair-append :
    (u v : ℕ) (ps qs : List (ℕ × ℕ))
    → count_pair u v (ps ++ qs) ≡ count_pair u v ps + count_pair u v qs
count_pair-append u v [] qs = omega arith
count_pair-append u v ((x, y) ∷ ps) qs = omega (arith, count_pair-append u v ps qs)

count_pair-from :
    (u v k : ℕ) (l : List ℕ) → count_pair u v (pairs_from k l) ≡ (if k == u then count v l else 0)
count_pair-from u v k [] = ground arith
count_pair-from u v k (x ∷ l) = ground (arith, count_pair-from u v k l)

-- The pairs of the table are those that a lookup finds.
abbrev pub Agrees : List (ℕ × List ℕ) → Type 0
Agrees m = (u v : ℕ) → count_pair u v (pairs m) ≡ count v (bucket u m)

module _ (u v k x : ℕ) where
  pairs-insert :
      (m : List (ℕ × List ℕ))
      → count_pair u v (pairs (m ++ (k, x ∷ []) ∷ []))
        ≡ count_pair u v (pairs m) + (if k == u && x == v then 1 else 0)
  pairs-insert [] = ground arith
  pairs-insert ((j, l) ∷ m) = ground (
    arith,
    count_pair-append u v (pairs_from j l) (pairs m),
    count_pair-append u v (pairs_from j l) (pairs (m ++ (k, x ∷ []) ∷ [])),
    pairs-insert m,
  )

  pairs-update :
      (m : List (ℕ × List ℕ)) (old : List ℕ)
      → find k m ≡ some old
      → count_pair u v (pairs (update k (λ l. l ++ x ∷ []) m))
        ≡ count_pair u v (pairs m) + (if k == u && x == v then 1 else 0)
  unfolding find update
  pairs-update [] old e = cc
  pairs-update ((j, l) ∷ m) old e = ground (
    arith,
    count_pair-append u v (pairs_from j l) (pairs m),
    count_pair-append u v (pairs_from j (l ++ x ∷ [])) (pairs m),
    count_pair-append u v (pairs_from j l) (pairs (update k (λ (l : List ℕ). l ++ x ∷ []) m)),
    count_pair-from u v j l,
    count_pair-from u v j (l ++ x ∷ []),
    count-concat v x l,
    pairs-update m old,
  )

  pairs-append_to :
      (m : List (ℕ × List ℕ))
      → count_pair u v (pairs (append_to k x m))
        ≡ count_pair u v (pairs m) + (if k == u && x == v then 1 else 0)
  unfolding append_to insert
  pairs-append_to m = elim (Option-cases (find k m)) [
    | inl absent ↦ rw (absent, append_to) (rw (absent, insert) (pairs-insert m))
    | inr (old, found) ↦ rw (found, append_to) (pairs-update m old found)
  ]

append_to-Agrees : (k x : ℕ) (m : List (ℕ × List ℕ)) → Agrees m → Agrees (append_to k x m)
append_to-Agrees k x m a u v = ground (
  arith,
  pairs-append_to u v k x m,
  bucket-append_to k x u m,
  count-concat v x (bucket u m),
  a u v,
)

add_dependences-Agrees :
    (t : ℕ) (prev : List ℕ) (deps : List (ℕ × List ℕ))
    → Agrees deps
    → Agrees (add_dependences t prev deps)
unfolding add_dependences
add_dependences-Agrees t [] deps a = a
add_dependences-Agrees t (p ∷ prev) deps a =
    add_dependences-Agrees t prev (append_to p t deps) (append_to-Agrees p t deps a)

depend_on-Agrees :
    (t : ℕ) (found : Option (List ℕ)) (s : ToolData)
    → Agrees s.dependences
    → Agrees (depend_on t found s).dependences
unfolding depend_on
depend_on-Agrees t none s a = a
depend_on-Agrees t (some prev) s a = add_dependences-Agrees t prev s.dependences a

pub handle_dependence-Agrees :
    (t : ℕ) (d : TaskDependence) (s : ToolData)
    → Agrees s.dependences
    → Agrees (handle_dependence t d s).dependences
unfolding handle_in_dependence handle_out_dependence
handle_dependence-Agrees t d s a =
    handle_dependence_cases (λ s'. Agrees s'.dependences) t d s
      (λ _. depend_on-Agrees t _ _ (depend_on-Agrees t _ s a))
      (λ _. depend_on-Agrees t _ _ (depend_on-Agrees t _ _ (depend_on-Agrees t _ s a))) (λ _ _. a)

wait_for-Agrees :
    (t : ℕ) (tasks : List Task) (cs : List ℕ) (deps : List (ℕ × List ℕ))
    → Agrees deps
    → IfReturns (wait_for t tasks cs deps) Agrees
unfolding wait_for
wait_for-Agrees t tasks [] deps a = a
wait_for-Agrees t tasks (c ∷ cs) deps a =
    IfReturns-read Agrees (get_elem? tasks c) _
      (λ w. wait_for-Agrees t tasks cs (append_to w.id t deps) (append_to-Agrees w.id t deps a))

pub handle_taskwait_dependences-Agrees :
    (t : ℕ) (s : ToolData)
    → Agrees s.dependences
    → IfReturns (handle_taskwait_dependences t s) (λ s'. Agrees s'.dependences)
unfolding handle_taskwait_dependences
handle_taskwait_dependences-Agrees t s a = elim (Option-cases (find t s.id_to_task)) [
  | inl absent ↦ rw (absent, handle_taskwait_dependences) a
  | inr (p, found) ↦
      rw (found, handle_taskwait_dependences)
        (IfReturns-read _ (get_elem? s.tasks p) _ (λ task.
          IfReturns->>= Agrees _ (wait_for t s.tasks task.ancestry_children s.dependences) _
            (wait_for-Agrees t s.tasks task.ancestry_children s.dependences a) (λ deps h. h)))
]
