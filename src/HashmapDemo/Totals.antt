-- ===== src/HashmapDemo/Totals.antt =====
-- What the loop of src/tbb_concurrent_hashmap_demo.cpp adds up on one thread.
use native.Mathlib.Decide.{ℕ_discrete}
use ompt_dependency_tracker.Base.{
  true, false, sym, ap, Returns->>=, ℕ, ◌+◌, ◌==◌, if◌then◌else◌, ◌≡◌, refl, ◌∙◌, inl, inr, Option,
  none, some, List, [], ◌∷◌, arith, Returns, Returns-map, Option-cases,
}
use ompt_dependency_tracker.HashmapDemo.{
  ConcurrentMap, Demo, empty_demo, find, add, insert_pair, one_round, run_part, add_up,
}

-- The sum of the values under the key, if there is one.
abbrev pub plus : Option ℕ → Option ℕ → Option ℕ
plus none y = y
plus (some v) none = some v
plus (some v) (some w) = some (v + w)

abbrev pub total_of : ℕ → List (ℕ × ℕ) → Option ℕ
total_of k [] = none
total_of k ((key, value) ∷ vec) = plus (if key == k then some value else none) (total_of k vec)

plus_assoc : (x y z : Option ℕ) → plus (plus x y) z ≡ plus x (plus y z)
plus_assoc x y z = ground arith

module _ (tbb : ConcurrentMap) where
  open tbb use {value_of, value_of-empty, value_of-insert, value_of-write}

  pub find-none :
      (key : ℕ) (s : Demo tbb)
      → value_of key s.tbb_um ≡ none
      → find tbb key s ≡ (false, record s { a = none })
  unfolding find
  find-none key s absent = rw (absent, find) refl

  pub find-some :
      (key v : ℕ) (s : Demo tbb)
      → value_of key s.tbb_um ≡ some v
      → find tbb key s ≡ (true, record s { a = some key })
  unfolding find
  find-some key v s present = rw (present, find) refl

  round :
      (key value : ℕ) (s : Demo tbb)
      → Returns (one_round tbb key value s) (λ s'.
        (k : ℕ)
        → value_of k s'.tbb_um ≡ plus (value_of k s.tbb_um) (if key == k then some value else none))
  unfolding one_round run_part add insert_pair
  round key value s = elim (Option-cases (value_of key s.tbb_um)) [
    | inl absent ↦ rw (find-none key s absent) (λ k. elim (ℕ_discrete key k) [
      | yes same ↦
          let here : value_of k s.tbb_um ≡ none =
            ap (λ i. value_of i s.tbb_um) (sym same) ∙ absent in
          ground (arith, value_of-insert key value k s.tbb_um)
      | no other ↦ ground (arith, value_of-insert key value k s.tbb_um)
    ])
    | inr (old, present) ↦ rw (find-some key old s present) (
        rw present (λ k. elim (ℕ_discrete key k) [
          | yes same ↦
              let here : value_of k s.tbb_um ≡ some old =
                ap (λ i. value_of i s.tbb_um) (sym same) ∙ present in
              ground (arith, value_of-write key (old + value) k s.tbb_um)
          | no other ↦ ground (arith, value_of-write key (old + value) k s.tbb_um)
        ]))
  ]

  add_up_from :
      (vec : List (ℕ × ℕ)) (s : Demo tbb)
      → Returns
          (add_up tbb vec s)
          (λ s'. (k : ℕ) → value_of k s'.tbb_um ≡ plus (value_of k s.tbb_um) (total_of k vec))
  unfolding add_up
  add_up_from [] s = λ k. ground arith
  add_up_from ((key, value) ∷ vec) s =
      Returns->>= _ _ (one_round tbb key value s) _
        (λ s1 h.
          Returns-map _ _ (add_up tbb vec s1)
            (λ s' rest k.
              rest k
              ∙ ap (λ x. plus x (total_of k vec)) (h k)
              ∙ plus_assoc (value_of k s.tbb_um) (if key == k then some value else none)
                  (total_of k vec))
            (add_up_from vec s1))
        (round key value s)

  -- On one thread, from the empty map, the loop never follows an empty accessor, and afterwards the
  -- map has a value under exactly the keys of the list, which is the sum of the values of the key.
  pub add_up-total_of :
      (vec : List (ℕ × ℕ))
      → Returns
          (add_up tbb vec (empty_demo tbb))
          (λ s. (k : ℕ) → value_of k s.tbb_um ≡ total_of k vec)
  add_up-total_of vec =
      Returns-map _ _ (add_up tbb vec (empty_demo tbb))
        (λ s h k. h k ∙ ap (λ x. plus x (total_of k vec)) (value_of-empty k))
        (add_up_from vec (empty_demo tbb))
