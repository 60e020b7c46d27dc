-- ===== src/ParallelRegion.antt =====
-- src/ParallelRegion.hpp.
use ompt_dependency_tracker.Base.{ℕ, List, [], ◌∷◌, ◌++◌}

pub record ParallelRegion : Type 0 where
  pub id : ℕ
  pub parent_id : ℕ
  pub n_threads : ℕ
  pub codeptr_ra : ℕ
  pub children : List ℕ

-- The constructor.
unfoldable pub new_region : ℕ → ℕ → ℕ → ℕ → ParallelRegion
new_region region_id parent_id n_threads codeptr_ra = record {
  id = region_id;
  parent_id = parent_id;
  n_threads = n_threads;
  codeptr_ra = codeptr_ra;
  children = [];
}

-- `ParallelRegion::add_child`.
unfoldable pub add_child : ℕ → ParallelRegion → ParallelRegion
add_child child r = record r { children = r.children ++ child ∷ [] }
