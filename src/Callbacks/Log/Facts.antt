-- ===== src/Callbacks/Log/Facts.antt =====
-- What the tables of src/ToolData.hpp hold of a log, and what a handler must do with its facts.
use mathlib.Core.List.{append_assoc, append-nil}
use ompt_dependency_tracker.Base.{
  ℕ, zero, suc, ◌+◌, ◌==◌, if◌then◌else◌, ◌≡◌, ◌↔◌, inl, inr, refl, sym, subst, ap, ◌∙◌, true,
  false, ◌||◌, none, some, List, [], ◌∷◌, ◌++◌, arith, replicate, get_elem?, Bool-cases,
}
use ompt_dependency_tracker.Table.{find, bucket}
use ompt_dependency_tracker.Task.{Task}
use ompt_dependency_tracker.ToolData.{ToolData, new_tool_data}
use ompt_dependency_tracker.ToolData.Registry.{Known}
use ompt_dependency_tracker.Dependences.Effect.{count}
use ompt_dependency_tracker.Dependences.History.{clashes, Records, new_tool_data-Records}
use ompt_dependency_tracker.Dependences.Waiting.{ids_at}
use ompt_dependency_tracker.Dependences.Pairs.{Agrees}
use ompt_dependency_tracker.DagBuilder.Vertices.{keys}
use ompt_dependency_tracker.Callbacks.Log.{
  Fact, made, accessed, waited, accesses, is_made, births, adds, expected, later, calls_for, demand,
}

-- The children of the task with the id t are those that were born to it.
abbrev pub Born : List Fact → List Task → ℕ → Task → Type 0
Born past tasks t task =
    (ids : List ℕ) × (ids_at tasks task.ancestry_children ≡ some ids)
    × ((u : ℕ) → count u ids ≡ births u t past)

-- The tables hold the past.
pub record Logged (past : List Fact) (s : ToolData) : Type 0 where
  pub agree : Agrees s.dependences
  -- Each task that was made is entered once.
  pub once : (k : ℕ) → count k (keys s.id_to_task) ≡ (if is_made k past then 1 else 0)
  pub records : Records (accesses past) s
  pub known : (k : ℕ) → Known s.id_to_task k ↔ (is_made k past ≡ true)
  pub born :
      (t p : ℕ) (task : Task)
      → find t s.id_to_task ≡ some p
      → get_elem? s.tasks p ≡ some task
      → Born past s.tasks t task

pub new_tool_data-Logged : Logged [] new_tool_data
unfolding find
new_tool_data-Logged = record {
  agree = λ u v. refl;
  once = λ k. refl;
  records = new_tool_data-Records;
  known = λ k. ((λ (p, e). cc), (λ e. cc));
  born = λ t p task e at. cc;
}

-- A task that is not made has no children.
pub births_zero : (u t : ℕ) (past : List Fact) → is_made t past ≡ false → births u t past ≡ 0
births_zero u t [] e = refl
births_zero u t (made id parent ∷ past) e = ground (arith, births_zero u t past)
births_zero u t (accessed t' d ∷ past) e = births_zero u t past e
births_zero u t (waited t' ∷ past) e = births_zero u t past e

pub expected-append :
    (u : ℕ) (past xs ys : List Fact)
    → expected u past (xs ++ ys) ≡ expected u past xs ++ expected u (later past xs) ys
expected-append u past [] ys = refl
expected-append u past (f ∷ xs) ys =
    ap (λ l. adds u past f ++ l) (expected-append u (f ∷ past) xs ys)
    ∙ sym (
        append_assoc (adds u past f) (expected u (f ∷ past) xs)
          (expected u (later (f ∷ past) xs) ys))

-- What a handler must do with some facts: record them, and add to `dependences` what they call for.
pub record Heeds (past facts : List Fact) (s s' : ToolData) : Type 0 where
  pub logged : Logged (later past facts) s'
  pub added : (u : ℕ) → bucket u s'.dependences ≡ bucket u s.dependences ++ expected u past facts

pub Heeds-nil : (past : List Fact) (s : ToolData) → Logged past s → Heeds past [] s s
Heeds-nil past s l = record { logged = l; added = λ u. sym (append-nil _) }

pub Heeds-cons :
    (past facts : List Fact) (f : Fact) (s s' s'' : ToolData)
    → Heeds past (f ∷ []) s s'
    → Heeds (f ∷ past) facts s' s''
    → Heeds past (f ∷ facts) s s''
Heeds-cons past facts f s s' s'' h k = record {
  logged = k.logged;
  added = λ u.
      k.added u
      ∙ ap (λ l. l ++ expected u (f ∷ past) facts)
          (h.added u ∙ ap (λ l. bucket u s.dependences ++ l) (append-nil _))
      ∙ append_assoc (bucket u s.dependences) (adds u past f) (expected u (f ∷ past) facts);
}

-- A task that is not in the table has not been made.
pub unknown :
    (k : ℕ) (past : List Fact) (s : ToolData)
    → Logged past s
    → find k s.id_to_task ≡ none
    → is_made k past ≡ false
unknown k past s l e = elim (Bool-cases (is_made k past)) [
  | inl yes_made ↦ let (p, found) = (l.known k).1 yes_made in cc
  | inr not_made ↦ not_made
]

later-append : (past xs ys : List Fact) → later past (xs ++ ys) ≡ later (later past xs) ys
later-append past [] ys = refl
later-append past (f ∷ xs) ys = later-append (f ∷ past) xs ys

pub Heeds-append :
    (past xs ys : List Fact) (s s' s'' : ToolData)
    → Heeds past xs s s'
    → Heeds (later past xs) ys s' s''
    → Heeds past (xs ++ ys) s s''
Heeds-append past xs ys s s' s'' h k = record {
  logged = subst (λ p. Logged p s'') (sym (later-append past xs ys)) k.logged;
  added = λ u.
      k.added u
      ∙ ap (λ l. l ++ expected u (later past xs) ys) (h.added u)
      ∙ append_assoc (bucket u s.dependences) (expected u past xs) (expected u (later past xs) ys)
      ∙ ap (λ l. bucket u s.dependences ++ l) (sym (expected-append u past xs ys));
}

-- The order of the facts does not matter to what was made.
pub is_made-later :
    (k : ℕ) (past facts : List Fact)
    → is_made k (later past facts) ≡ is_made k facts || is_made k past
is_made-later k past [] = refl
is_made-later k past (made id parent ∷ facts) =
    ground (arith, is_made-later k (made id parent ∷ past) facts)
is_made-later k past (accessed t d ∷ facts) = is_made-later k (accessed t d ∷ past) facts
is_made-later k past (waited t ∷ facts) = is_made-later k (waited t ∷ past) facts

count-append : (v : ℕ) (xs ys : List ℕ) → count v (xs ++ ys) ≡ count v xs + count v ys
count-append v [] ys = omega arith
count-append v (x ∷ xs) ys = omega (arith, count-append v xs ys)

count-replicate : (v n t : ℕ) → count v (replicate n t) ≡ (if t == v then n else 0)
count-replicate v zero t = ground arith
count-replicate v (suc n) t = ground (arith, count-replicate v n t)

count-adds :
    (u v : ℕ) (past : List Fact) (f : Fact) → count v (adds u past f) ≡ calls_for u v past f
count-adds u v past (made id parent) = refl
count-adds u v past (accessed t d) = count-replicate v (clashes u (accesses past) d) t
count-adds u v past (waited t) = count-replicate v (births u t past) t

pub count-expected :
    (u v : ℕ) (past facts : List Fact) → count v (expected u past facts) ≡ demand u v past facts
count-expected u v past [] = refl
count-expected u v past (f ∷ facts) = omega (
  arith,
  count-append v (adds u past f) (expected u (f ∷ past) facts),
  count-adds u v past f,
  count-expected u v (f ∷ past) facts,
)
