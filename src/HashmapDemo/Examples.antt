-- ===== src/HashmapDemo/Examples.antt =====
-- The loop of src/tbb_concurrent_hashmap_demo.cpp on the vector of the program, with a map on lists.
use ompt_dependency_tracker.Base.{ℕ, ◌≡◌, refl, none, some, List, [], ◌∷◌, Returns}
use ompt_dependency_tracker.Table.{update}
use ompt_dependency_tracker.Table
use ompt_dependency_tracker.Table.Laws.{find-insert, find-update}
use ompt_dependency_tracker.HashmapDemo.{
  ConcurrentMap, Demo, vec, empty_demo, starting, ended, add_up, add_up_at_once,
}
use ompt_dependency_tracker.HashmapDemo.Totals.{total_of, add_up-total_of}
use ompt_dependency_tracker.HashmapDemo.Races.{race_loses, race-faults}

find-nil : (k : ℕ) → Table.find {V = ℕ} k [] ≡ none
unfolding Table.find
find-nil k = refl

abbrev lists : ConcurrentMap
lists = record {
  Map = List (ℕ × ℕ);
  empty = [];
  value_of = Table.find;
  insert = Table.insert;
  write = λ k v m. update k (λ w. v) m;
  value_of-empty = find-nil;
  value_of-insert = λ k v j m. find-insert k j v m;
  value_of-write = λ k v j m. find-update k j (λ w. v) m;
}

add_up-total_of_example :
    Returns
      (add_up lists vec (empty_demo lists))
      (λ s. (k : ℕ) → lists.value_of k s.tbb_um ≡ total_of k vec)
add_up-total_of_example = add_up-total_of lists vec

ten : total_of 2 vec ≡ some 10
ten = refl

abbrev start : Demo lists
start = record { tbb_um = []; a = none }

abbrev two_keys : Demo lists
two_keys = record { tbb_um = (1, 1) ∷ (2, 1) ∷ []; a = none }

absent : lists.value_of 1 start.tbb_um ≡ none
unfolding Table.find
absent = refl

present : lists.value_of 1 two_keys.tbb_um ≡ some 1
unfolding Table.find
present = refl

present' : lists.value_of 2 two_keys.tbb_um ≡ some 1
unfolding Table.find
present' = refl

race_loses_example :
    Returns
      (add_up_at_once lists (0 ∷ 1 ∷ 0 ∷ 1 ∷ []) (start, starting 1 1 ∷ starting 1 9 ∷ []))
      (λ st. (st.1 ≡ ended ∷ ended ∷ []) × (lists.value_of 1 st.0.tbb_um ≡ some 1))
race_loses_example = race_loses lists 1 1 9 start absent

race-faults_example :
    add_up_at_once lists (0 ∷ 1 ∷ 0 ∷ 1 ∷ []) (two_keys, starting 1 9 ∷ starting 2 2 ∷ []) ≡ none
race-faults_example = race-faults lists 1 2 9 2 1 1 two_keys present present'
