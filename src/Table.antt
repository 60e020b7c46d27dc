-- ===== src/Table.antt =====
-- std::unordered_map over 64-bit keys, as the tracker uses it: an association list in which
-- `insert` appends. Keys are task and region ids and, for the three address maps, addresses.
pub mod Laws
use ompt_dependency_tracker.Base.{ℕ, ◌==◌, if◌then◌else◌, List, [], ◌∷◌, ◌++◌, Option, none, some}

module _ {ℓ} {V : Type ℓ} where
  unfoldable pub find : ℕ → List (ℕ × V) → Option V
  find k [] = none
  find k ((j, v) ∷ m) = if j == k then some v else find k m

  unfoldable pub update : ℕ → (V → V) → List (ℕ × V) → List (ℕ × V)
  update k f [] = []
  update k f ((j, v) ∷ m) = if j == k then (j, f v) ∷ m else (j, v) ∷ update k f m

  -- `insert` leaves a key that is present alone.
  unfoldable pub insert : ℕ → V → List (ℕ × V) → List (ℕ × V)
  unfolding find
  insert k v m = elim (find k m) [ some _ ↦ m | none ↦ m ++ (k, v) ∷ [] ]

-- The code's idiom `find`, then `push_back` on what is found, or `insert` a new vector.
unfoldable pub append_to : ℕ → ℕ → List (ℕ × List ℕ) → List (ℕ × List ℕ)
append_to k x m = elim (find k m) [
  | some _ ↦ update k (λ l. l ++ x ∷ []) m
  | none ↦ insert k (x ∷ []) m
]

abbrev pub or_empty : Option (List ℕ) → List ℕ
or_empty none = []
or_empty (some l) = l

-- The vector under a key, empty if there is none.
abbrev pub bucket : ℕ → List (ℕ × List ℕ) → List ℕ
bucket k m = or_empty (find k m)
