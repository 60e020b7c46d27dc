-- ===== src/Dependences/Effect.antt =====
-- What one handler adds to `dependences`, and what it leaves alone.
use Prim.Native.Nat.add
use mathlib.Core.List.{append_assoc, append-nil}
use ompt_dependency_tracker.Base.{
  ℕ, ◌+◌, ◌==◌, if◌then◌else◌, ◌≡◌, refl, sym, ap, ◌∙◌, List, [], ◌∷◌, ◌++◌, Option, none, some,
  arith, inl, inr, Bool-cases, replicate, replicate-add, append-replicate,
}
use ompt_dependency_tracker.Table.{bucket, append_to, find, or_empty}
use ompt_dependency_tracker.Table.Laws.{bucket-append_to}
use ompt_dependency_tracker.ToolData.{ToolData}
use ompt_dependency_tracker.Dependences.{
  add_dependences, depend_on, handle_out_dependence, handle_in_dependence,
}

abbrev pub count : ℕ → List ℕ → ℕ
count u [] = 0
count u (x ∷ xs) = (if x == u then 1 else 0) + count u xs

pub count-concat :
    (u x : ℕ) (xs : List ℕ) → count u (xs ++ x ∷ []) ≡ count u xs + (if x == u then 1 else 0)
count-concat u x [] = ground arith
count-concat u x (y ∷ xs) = ground (arith, count-concat u x xs)

pub bucket-add_dependences :
    (u t : ℕ) (prev : List ℕ) (deps : List (ℕ × List ℕ))
    → bucket u (add_dependences t prev deps) ≡ bucket u deps ++ replicate (count u prev) t
unfolding add_dependences
bucket-add_dependences u t [] deps = sym (append-nil _)
bucket-add_dependences u t (p ∷ prev) deps =
    bucket-add_dependences u t prev (append_to p t deps) ∙ elim (Bool-cases (p == u)) [
      | inl hit ↦
          rw (bucket-append_to p t u deps, hit)
            (append_assoc (bucket u deps) (t ∷ []) _
              ∙ ap (λ l. bucket u deps ++ l) (replicate-add 1 (count u prev) t))
      | inr miss ↦ rw (bucket-append_to p t u deps, miss, add.zero (count u prev)) refl
    ]

pub bucket-depend_on :
    (u t : ℕ) (found : Option (List ℕ)) (s : ToolData)
    → bucket u (depend_on t found s).dependences
      ≡ bucket u s.dependences ++ replicate (count u (or_empty found)) t
unfolding depend_on
bucket-depend_on u t none s = sym (append-nil _)
bucket-depend_on u t (some prev) s = bucket-add_dependences u t prev s.dependences

-- The tables of accesses are no concern of `depend_on`.
pub record SameTables (s t : ToolData) : Type 0 where
  pub ins : t.in_dep_to_tasks ≡ s.in_dep_to_tasks
  pub outs : t.out_dep_to_tasks ≡ s.out_dep_to_tasks
  pub inouts : t.inout_dep_to_tasks ≡ s.inout_dep_to_tasks

pub depend_on-SameTables :
    (t : ℕ) (found : Option (List ℕ)) (s : ToolData) → SameTables s (depend_on t found s)
unfolding depend_on
depend_on-SameTables t none s = ground arith
depend_on-SameTables t (some prev) s = ground arith

-- An IN dependence adds its task once for each recorded OUT or INOUT access of the address.
pub handle_in_dependence-bucket :
    (u t flag a : ℕ) (s : ToolData)
    → bucket u (handle_in_dependence t flag a s).dependences
      ≡ bucket u s.dependences
        ++ replicate
            (count u (bucket a s.out_dep_to_tasks) + count u (bucket a s.inout_dep_to_tasks))
            t
unfolding handle_in_dependence
handle_in_dependence-bucket u t flag a s =
    let outs = find a s.out_dep_to_tasks in
    let s1 = depend_on t outs s in
    bucket-depend_on u t (find a s1.inout_dep_to_tasks) s1
    ∙ rw ((depend_on-SameTables t outs s).inouts, bucket-depend_on u t outs s)
        (append-replicate _ (count u (or_empty outs)) _ t)

-- An OUT dependence adds its task once for each recorded access of the address, of any kind.
pub handle_out_dependence-bucket :
    (u t flag a : ℕ) (s : ToolData)
    → bucket u (handle_out_dependence t flag a s).dependences
      ≡ bucket u s.dependences
        ++ replicate
            (count u (bucket a s.in_dep_to_tasks)
              + count u (bucket a s.inout_dep_to_tasks)
              + count u (bucket a s.out_dep_to_tasks))
            t
unfolding handle_out_dependence
handle_out_dependence-bucket u t flag a s =
    let ins = find a s.in_dep_to_tasks in
    let s1 = depend_on t ins s in
    let same1 = depend_on-SameTables t ins s in
    let inouts = find a s1.inout_dep_to_tasks in
    let s2 = depend_on t inouts s1 in
    let same2 = depend_on-SameTables t inouts s1 in
    let n = count u (or_empty ins) in
    let step1 = bucket-depend_on u t ins s in
    let step2 = bucket-depend_on u t inouts s1 in
    bucket-depend_on u t (find a s2.out_dep_to_tasks) s2
    ∙ rw (step2, step1, same2.outs, same1.outs, same1.inouts)
        (rw
          (append-replicate (bucket u s.dependences) n (count u (bucket a s.inout_dep_to_tasks)) t)
          (append-replicate _ _ _ t))

-- Each handler enters its task under the address in one table, and leaves the other two alone.
pub handle_in_dependence-tables :
    (t flag a : ℕ) (s : ToolData)
    → SameTables
        (record s { in_dep_to_tasks = append_to a t s.in_dep_to_tasks })
        (handle_in_dependence t flag a s)
unfolding handle_in_dependence depend_on
handle_in_dependence-tables t flag a s = ground arith

pub handle_out_dependence-tables :
    (t flag a : ℕ) (s : ToolData)
    → SameTables
        (record s { out_dep_to_tasks = append_to a t s.out_dep_to_tasks })
        (handle_out_dependence t flag a s)
unfolding handle_out_dependence depend_on
handle_out_dependence-tables t flag a s = ground arith
