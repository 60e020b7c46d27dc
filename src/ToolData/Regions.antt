-- ===== src/ToolData/Regions.antt =====
-- The registration of parallel regions and of their children.
use ompt_dependency_tracker.Base.{
  ℕ, ◌≡◌, ◌≢◌, refl, some, none, inl, inr, arith, [], ◌∷◌, ◌++◌, get_elem?, Returns, Option-cases,
}
use ompt_dependency_tracker.Table.{find}
use ompt_dependency_tracker.Table.Laws.{All-insert, find-insert}
use ompt_dependency_tracker.ParallelRegion.{ParallelRegion}
use ompt_dependency_tracker.ParallelRegion
use ompt_dependency_tracker.ToolData.{ToolData, register_parallel_region}
use ompt_dependency_tracker.ToolData.Registry.{IsValid, NamesRegion}

-- The region's id leads to the region that was registered under it first.
pub record RegistersRegion (p : ℕ) (r : ParallelRegion) (s s' : ToolData) : Type 0 where
  pub valid : IsValid s'
  pub new : find r.id s.id_to_parallel_region ≡ none → find r.id s'.id_to_parallel_region ≡ some p
  pub old :
      (k q : ℕ) → find k s.id_to_parallel_region ≡ some q → find k s'.id_to_parallel_region ≡ some q
  pub others : (k : ℕ) → r.id ≢ k → find k s'.id_to_parallel_region ≡ find k s.id_to_parallel_region

-- Registering a region of the heap never faults and keeps the registry valid: the id leads to the
-- region if it led to none before, and every other entry stays.
pub register_parallel_region-RegistersRegion :
    (p : ℕ) (r : ParallelRegion) (s : ToolData)
    → get_elem? s.regions p ≡ some r
    → IsValid s
    → Returns (register_parallel_region p s) (RegistersRegion p r s)
unfolding register_parallel_region
register_parallel_region-RegistersRegion p r s e v = rw e (record {
  valid = record {
    named = v.named;
    regions_named =
        All-insert (NamesRegion s.regions) r.id p s.id_to_parallel_region v.regions_named
          (r, e, refl);
    children = v.children;
  };
  new = λ n. ground (arith, find-insert r.id r.id p s.id_to_parallel_region);
  old = λ k q f. ground (arith, find-insert r.id k p s.id_to_parallel_region);
  others = λ k n. elim (Option-cases (find k s.id_to_parallel_region)) [
    | inl absent ↦ ground (arith, find-insert r.id k p s.id_to_parallel_region)
    | inr (q, f) ↦ ground (arith, find-insert r.id k p s.id_to_parallel_region)
  ];
})

-- The region's list of children gains the task; the rest of the regions is as it was.
pub record JoinsRegion (region_id task_id : ℕ) (s s' : ToolData) : Type 0 where
  pub valid : IsValid s'
  pub joined :
      (p t : ℕ) (r : ParallelRegion)
      → find region_id s.id_to_parallel_region ≡ some p
      → find task_id s.id_to_task ≡ some t
      → get_elem? s.regions p ≡ some r
      → get_elem? s'.regions p ≡ some (record r { children = r.children ++ t ∷ [] })
  pub others :
      (q : ℕ)
      → find region_id s.id_to_parallel_region ≢ some q
      → get_elem? s'.regions q ≡ get_elem? s.regions q
  pub unknown : find task_id s.id_to_task ≡ none → s'.regions ≡ s.regions
  pub same_tasks : s'.tasks ≡ s.tasks
