-- ===== src/HashmapDemo.antt =====
-- src/tbb_concurrent_hashmap_demo.cpp: a loop that adds up values by their keys in a
-- tbb::concurrent_hash_map, on one thread and on several. The accessor `a` is one object, declared
-- before the parallel region, so that the threads share it. The ints are taken to be natural numbers
-- that do not overflow.
pub mod Totals
pub mod Races
mod Examples
use ompt_dependency_tracker.Base.{
  ℕ, ◌+◌, ◌==◌, if◌then◌else◌, ◌≡◌, Bool, true, false, Option, none, some, ◌>>=◌, List, [], ◌∷◌,
  get_elem?, set,
}

-- tbb::concurrent_hash_map<int, int>, as it is documented: `insert` leaves a key that is present
-- alone, and a write through an accessor changes the one value.
pub record ConcurrentMap : Type 1 where
  pub Map : Type 0
  pub empty : Map
  pub value_of : ℕ → Map → Option ℕ
  pub insert : ℕ → ℕ → Map → Map
  pub write : ℕ → ℕ → Map → Map
  pub value_of-empty : (k : ℕ) → value_of k empty ≡ none
  pub value_of-insert :
      (k v j : ℕ) (m : Map)
      → value_of j (insert k v m)
        ≡ elim (value_of j m) [ some w ↦ some w | none ↦ if k == j then some v else none ]
  pub value_of-write :
      (k v j : ℕ) (m : Map)
      → value_of j (write k v m)
        ≡ elim (value_of j m) [ some w ↦ some (if k == j then v else w) | none ↦ none ]

-- The loop's body, between its calls of the map.
pub data Body : Type 0 where
  starting : ℕ → ℕ → Body
  adding : ℕ → Body
  inserting : ℕ → ℕ → Body
  ended : Body

-- The vector of the program.
abbrev pub vec : List (ℕ × ℕ)
vec = (1, 1) ∷ (1, 9) ∷ (2, 1) ∷ (2, 2) ∷ (2, 7) ∷ (3, 0) ∷ (3, 0) ∷ (3, 0) ∷ (3, 0) ∷ (3, 10) ∷ []

module _ (tbb : ConcurrentMap) where
  open tbb use {Map, empty, value_of, insert, write}

  -- The map, and the key that the accessor points to.
  pub record Demo : Type 0 where
    pub tbb_um : Map
    pub a : Option ℕ

  abbrev pub empty_demo : Demo
  empty_demo = record { tbb_um = empty; a = none }

  -- `tbb_um.find(a, key)`: an absent key leaves the accessor empty.
  unfoldable pub find : ℕ → Demo → Bool × Demo
  find key s = elim (value_of key s.tbb_um) [
    | some v ↦ (true, record s { a = some key })
    | none ↦ (false, record s { a = none })
  ]

  -- `a->second += value; a.release();`
  unfoldable pub add : ℕ → Demo → Option Demo
  add value s = do
    key ← s.a
    old ← value_of key s.tbb_um
    some (record s { tbb_um = write key (old + value) s.tbb_um; a = none })

  -- `tbb_um.insert( {key, value} )`
  unfoldable pub insert_pair : ℕ → ℕ → Demo → Demo
  insert_pair key value s = record s { tbb_um = insert key value s.tbb_um }

  unfoldable pub run_part : Body → Demo → Option (Body × Demo)
  run_part (starting key value) s =
      let (found, s') = find key s in some (if found then adding value else inserting key value, s')
  run_part (adding value) s = do s' ← add value s; some (ended, s')
  run_part (inserting key value) s = some (ended, insert_pair key value s)
  run_part ended s = some (ended, s)

  -- A round of the loop with nothing in between.
  unfoldable pub one_round : ℕ → ℕ → Demo → Option Demo
  one_round key value s = do p ← run_part (starting key value) s; q ← run_part p.0 p.1; some q.1

  -- The loop on one thread.
  unfoldable pub add_up : List (ℕ × ℕ) → Demo → Option Demo
  add_up [] s = some s
  add_up ((key, value) ∷ rest) s = do s' ← one_round key value s; add_up rest s'

  -- Several rounds of the loop at once, in the order of the turns.
  unfoldable pub take_turn : ℕ → Option Body → Demo × List Body → Option (Demo × List Body)
  take_turn i none st = some st
  take_turn i (some b) st = do p ← run_part b st.0; some (p.1, set st.1 i p.0)

  unfoldable pub add_up_at_once : List ℕ → Demo × List Body → Option (Demo × List Body)
  add_up_at_once [] st = some st
  add_up_at_once (i ∷ turns) st = do
    st' ← take_turn i (get_elem? st.1 i) st
    add_up_at_once turns st'
