-- ===== src/Report/Rows.antt =====
-- The rows of the report of src/BugLocalization.hpp, against the registry and libbfd.
use mathlib.Core.List.Permᴰ
use ompt_dependency_tracker.Base.{
  ℕ, suc, ◌≡◌, refl, sym, subst, arith, All, All-map, some, List, [], ◌∷◌, map, get_elem?, Permᴰ,
  Permᴰ-All, Permᴰ-map, Bool-cases, ◌==◌, Returns, Returns-map, Returns->>=, inl, inr,
}
use ompt_dependency_tracker.Table.{find}
use ompt_dependency_tracker.Table.Laws.{All-find}
use ompt_dependency_tracker.Task.{Task}
use ompt_dependency_tracker.ToolData.{ToolData}
use ompt_dependency_tracker.ToolData.Registry.{IsValid, NamesTask, Known}
use ompt_dependency_tracker.DependencyDag.{Iteration}
use ompt_dependency_tracker.CStrings.{read_at}
use ompt_dependency_tracker.Symbols.{Libraries, backtrace_symbols}
use ompt_dependency_tracker.Symbols.Backtrace.{IsLocated, AreLocated, backtrace_symbols-reads}
use ompt_dependency_tracker.Report.{
  Row, address_list, print_rows, generate_report, flagged_tasks, localize_bugs,
}

-- The row is about the registered task with this id.
pub record IsRow (lib : Libraries) (s : ToolData) (id : ℕ) (row : Row) : Type 0 where
  pub pointer : ℕ
  pub task : Task
  pub found : find id s.id_to_task ≡ some pointer
  pub at : get_elem? s.tasks pointer ≡ some task
  pub address : row.codeptr_ra ≡ task.codeptr_ra
  pub located : IsLocated lib task.codeptr_ra row.location

-- One row for each id, in their order, numbered from i on.
abbrev pub AreRows : Libraries → ToolData → ℕ → List ℕ → List Row → Type 0
AreRows lib s i [] [] = Unit
AreRows lib s i [] (row ∷ rows) = ⊥
AreRows lib s i (id ∷ ids) [] = ⊥
AreRows lib s i (id ∷ ids) (row ∷ rows) =
    (row.task ≡ i) × IsRow lib s id row × AreRows lib s (suc i) ids rows

-- The name that libbfd has for the code of every task of the heap.
abbrev pub HasNames : Libraries → (ℕ → List ℕ) → ToolData → Type 0
HasNames lib name s =
    (p : ℕ) (t : Task)
    → get_elem? s.tasks p ≡ some t
    → IsLocated lib t.codeptr_ra (name t.codeptr_ra)

-- The addresses are those of the tasks with these ids.
abbrev AreAddresses : Libraries → (ℕ → List ℕ) → ToolData → List ℕ → List ℕ → Type 0
AreAddresses lib name s [] [] = Unit
AreAddresses lib name s [] (a ∷ addresses) = ⊥
AreAddresses lib name s (id ∷ ids) [] = ⊥
AreAddresses lib name s (id ∷ ids) (a ∷ addresses) =
    IsRow lib s id (record { task = 0; codeptr_ra = a; location = name a })
    × AreAddresses lib name s ids addresses

address_list-AreAddresses :
    (lib : Libraries) (name : ℕ → List ℕ) (s : ToolData) (ids : List ℕ)
    → IsValid s
    → HasNames lib name s
    → All (Known s.id_to_task) ids
    → Returns (address_list s ids) (AreAddresses lib name s ids)
unfolding address_list
address_list-AreAddresses lib name s [] v names known = tt
address_list-AreAddresses lib name s (id ∷ ids) v names ((p, found), known) =
    let (t, at, _) = All-find (NamesTask s.tasks) id p s.id_to_task v.named found in
    rw (found, at)
      (Returns->>= (AreAddresses lib name s ids) _ (address_list s ids) _
        (λ addresses rest. (
          record {
            pointer = p;
            task = t;
            found = found;
            at = at;
            address = refl;
            located = names p t at;
          },
          rest,
        ))
        (address_list-AreAddresses lib name s ids v names known))

AreAddresses-AreLocated :
    (lib : Libraries) (name : ℕ → List ℕ) (s : ToolData) (ids addresses : List ℕ)
    → AreAddresses lib name s ids addresses
    → AreLocated lib addresses (map name addresses)
AreAddresses-AreLocated lib name s [] [] h = tt
AreAddresses-AreLocated lib name s [] (a ∷ addresses) h = elim h [ ]
AreAddresses-AreLocated lib name s (id ∷ ids) [] h = elim h [ ]
AreAddresses-AreLocated lib name s (id ∷ ids) (a ∷ addresses) h = (
  subst (λ x. IsLocated lib x (name a)) (sym h.0.address) h.0.located,
  AreAddresses-AreLocated lib name s ids addresses h.1,
)

print_rows-AreRows :
    (lib : Libraries) (name : ℕ → List ℕ) (s : ToolData) (i : ℕ) (ids addresses offs mem : List ℕ)
    → AreAddresses lib name s ids addresses
    → map (λ off. read_at off mem) offs ≡ map some (map name addresses)
    → Returns (print_rows i addresses offs mem) (AreRows lib s i ids)
unfolding print_rows
print_rows-AreRows lib name s i [] [] offs mem h e = tt
print_rows-AreRows lib name s i [] (a ∷ addresses) offs mem h e = elim h [ ]
print_rows-AreRows lib name s i (id ∷ ids) [] offs mem h e = elim h [ ]
print_rows-AreRows lib name s i (id ∷ ids) (a ∷ addresses) [] mem h e = absurd (ground arith)
print_rows-AreRows lib name s i (id ∷ ids) (a ∷ addresses) (off ∷ offs) mem h e =
    let first : read_at off mem ≡ some (name a) = cc in
    let others : map (λ o. read_at o mem) offs ≡ map some (map name addresses) = cc in
    rw first (
      Returns->>= (AreRows lib s (suc i) ids) _ (print_rows (suc i) addresses offs mem) _
        (λ rows rest. (
          refl,
          record {
            pointer = h.0.pointer;
            task = h.0.task;
            found = h.0.found;
            at = h.0.at;
            address = h.0.address;
            located = h.0.located;
          },
          rest,
        ))
        (print_rows-AreRows lib name s (suc i) ids addresses offs mem h.1 others))

-- In a valid registry, where libbfd can read the code address of every task, the report never
-- faults. It has one row for each flagged task, in their order, which shows the code address of
-- that task and the description of this address; and the task that it prints is the number of the
-- row, counted from 0, not the id of the task.
pub generate_report-AreRows :
    (lib : Libraries) (name : ℕ → List ℕ) (s : ToolData) (task_ids : List ℕ)
    → IsValid s
    → HasNames lib name s
    → All (Known s.id_to_task) task_ids
    → Returns (generate_report lib s task_ids) (AreRows lib s 0 task_ids)
unfolding generate_report
generate_report-AreRows lib name s task_ids v names known =
    Returns->>= (AreAddresses lib name s task_ids) _ (address_list s task_ids) _
      (λ addresses h.
        Returns->>= _ _ (backtrace_symbols lib addresses) _
          (λ result e. print_rows-AreRows lib name s 0 task_ids addresses result.0 result.1 h e)
          (backtrace_symbols-reads lib addresses (map name addresses)
            (AreAddresses-AreLocated lib name s task_ids addresses h)))
      (address_list-AreAddresses lib name s task_ids v names known)

-- Every key of the table is known.
keys-Known : (ids : List (ℕ × ℕ)) → All (λ (e : ℕ × ℕ). Known ids e.0) ids
unfolding find
keys-Known [] = tt
keys-Known ((k, p) ∷ ids) =
    ((p, ground arith), All-map _ _ ids (λ e known. later e.0 known) (keys-Known ids))
  where
    later : (j : ℕ) → Known ids j → Known ((k, p) ∷ ids) j
    later j known = elim (Bool-cases (k == j)) [
      | inl hit ↦ (p, ground arith)
      | inr miss ↦ (known.0, ground arith)
    ]

flagged_tasks-Known :
    (order : Iteration) (s : ToolData) → All (Known s.id_to_task) (flagged_tasks order s)
flagged_tasks-Known order s = All-of_map (order.visit ℕ s.id_to_task) (
    Permᴰ-All (λ (e : ℕ × ℕ). Known s.id_to_task e.0) (Permᴰ.symm (order.visit-perm ℕ s.id_to_task))
      (keys-Known s.id_to_task))
  where
    All-of_map :
        (m : List (ℕ × ℕ))
        → All (λ (e : ℕ × ℕ). Known s.id_to_task e.0) m
        → All (Known s.id_to_task) (map (λ (e : ℕ × ℕ). e.0) m)
    All-of_map [] h = tt
    All-of_map (e ∷ m) h = (h.0, All-of_map m h.1)

-- In a valid registry, where libbfd can read the code address of every task, localizing bugs never
-- faults: it reports on every registered id once, in the order in which the loop meets them.
pub localize_bugs-AreRows :
    (lib : Libraries) (name : ℕ → List ℕ) (order : Iteration) (s : ToolData)
    → IsValid s
    → HasNames lib name s
    → Returns (localize_bugs lib order s) (λ rows.
      AreRows lib s 0 (flagged_tasks order s) rows
      × Permᴰ (flagged_tasks order s) (map (λ (e : ℕ × ℕ). e.0) s.id_to_task))
unfolding localize_bugs
localize_bugs-AreRows lib name order s v names =
    Returns-map _ _ (generate_report lib s (flagged_tasks order s))
      (λ rows h. (h, Permᴰ-map (λ (e : ℕ × ℕ). e.0) (order.visit-perm ℕ s.id_to_task)))
      (generate_report-AreRows lib name s (flagged_tasks order s) v names
        (flagged_tasks-Known order s))
