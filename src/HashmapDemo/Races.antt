-- ===== src/HashmapDemo/Races.antt =====
-- What goes wrong when two threads are in the loop of src/tbb_concurrent_hashmap_demo.cpp at once.
use ompt_dependency_tracker.Base.{ℕ, ◌≡◌, refl, none, some, [], ◌∷◌, arith, Returns}
use ompt_dependency_tracker.HashmapDemo.{
  ConcurrentMap, Demo, starting, ended, add, insert_pair, run_part, take_turn, add_up_at_once,
}
use ompt_dependency_tracker.HashmapDemo.Totals.{find-none, find-some}

module _ (tbb : ConcurrentMap) where
  open tbb use {value_of, value_of-insert}

  -- Two threads find the same key absent, and then each inserts its value: the map has the value of
  -- the first alone, and that of the second is lost.
  pub race_loses :
      (key v w : ℕ) (s : Demo tbb)
      → value_of key s.tbb_um ≡ none
      → Returns
          (add_up_at_once tbb (0 ∷ 1 ∷ 0 ∷ 1 ∷ []) (s, starting key v ∷ starting key w ∷ []))
          (λ st. (st.1 ≡ ended ∷ ended ∷ []) × (value_of key st.0.tbb_um ≡ some v))
  unfolding add_up_at_once take_turn run_part insert_pair
  race_loses key v w s absent = rw (find-none tbb key s absent) (
      rw (find-none tbb key (record s { a = none }) absent) (
        refl,
        ground (
          arith,
          value_of-insert key w key (tbb.insert key v s.tbb_um),
          value_of-insert key v key s.tbb_um,
        ),
      ))

  -- Two threads find their keys, and then each adds through the one accessor: the first adds to the
  -- key of the second and releases the accessor, and the second follows an empty accessor.
  pub race-faults :
      (key other v w x y : ℕ) (s : Demo tbb)
      → value_of key s.tbb_um ≡ some x
      → value_of other s.tbb_um ≡ some y
      → add_up_at_once tbb (0 ∷ 1 ∷ 0 ∷ 1 ∷ []) (s, starting key v ∷ starting other w ∷ []) ≡ none
  unfolding add_up_at_once take_turn run_part add
  race-faults key other v w x y s present present' =
      rw (find-some tbb key x s present)
        (rw (find-some tbb other y (record s { a = some key }) present') (rw present' refl))
