-- ===== src/DagBuilder/Built.antt =====
-- Building from any state whose index is right: first the vertices, then the edges.
use Prim.Native.String.{String}
use mathlib.Core.List.Permᴰ
use ompt_dependency_tracker.Base.{
  ℕ, ◌≡◌, ◌≢◌, refl, none, some, List, [], ◌∷◌, ◌++◌, All, All-map, All-append_right, Returns,
  Returns-map, Returns->>=, Permᴰ-map, Permᴰ-All,
}
use ompt_dependency_tracker.Table.{find}
use ompt_dependency_tracker.Table.Laws.{All-find}
use ompt_dependency_tracker.ToolData.{ToolData}
use ompt_dependency_tracker.ToolData.Registry.{IsValid, NamesTask, NamesRegion, Known}
use ompt_dependency_tracker.Dependences.Closed.{IsClosed}
use ompt_dependency_tracker.DependencyDag.{GraphLibrary, Iteration}
use ompt_dependency_tracker.DagBuilder.{
  DagState, add_vertices, add_edges, build_dag, add_region_vertices, add_task_vertices,
}
use ompt_dependency_tracker.DagBuilder.Vertices.{
  keys, labels, IsIndex, Grows, Grows-trans, add_region_vertices-Grows, add_task_vertices-Grows,
}
use ompt_dependency_tracker.DagBuilder.Edges.{pairs, Links, add_edges-Links}

-- What holds of every key of a table holds of a key that is found.
All-keys :
    (Q : ℕ → Type 0) (m : List (ℕ × ℕ)) → All Q (keys m) → (k p : ℕ) → find k m ≡ some p → Q k
All-keys Q m h k p e = All-find (λ x. Q x.0) k p m (entries m h) e
  where
    entries : (xs : List (ℕ × ℕ)) → All Q (keys xs) → All (λ x. Q x.0) xs
    entries [] q = tt
    entries (x ∷ xs) q = (q.0, entries xs q.1)

module _ (boost : GraphLibrary) (show : ℕ → String) (order : Iteration) where
  open boost use {Dag}
  open order use {visit, visit-perm}

  -- The keys that get a vertex, in the order of the loops.
  abbrev pub built_keys : ToolData → List ℕ
  built_keys td = keys (visit ℕ td.id_to_parallel_region) ++ keys (visit ℕ td.id_to_task)

  add_vertices-Grows :
      (td : ToolData) (st : DagState Dag)
      → IsIndex boost show st
      → IsValid td
      → Returns (add_vertices boost show order td st) (Grows boost show (built_keys td) st)
  unfolding add_vertices
  add_vertices-Grows td st index v =
      let regions = visit ℕ td.id_to_parallel_region in
      let tasks = visit ℕ td.id_to_task in
      Returns->>= (Grows boost show (keys regions) st) _
        (add_region_vertices boost show td.regions regions st)
        (add_task_vertices boost show td.tasks tasks)
        (λ st1 g.
          Returns-map _ _ (add_task_vertices boost show td.tasks tasks st1)
            (λ st2 h. Grows-trans boost show (keys regions) (keys tasks) st st1 st2 g h)
            (add_task_vertices-Grows boost show td.tasks tasks st1
              (Permᴰ-All (NamesTask td.tasks) (Permᴰ.symm (visit-perm ℕ td.id_to_task)) v.named)
              g.index))
        (add_region_vertices-Grows boost show td.regions regions st
          (Permᴰ-All (NamesRegion td.regions) (Permᴰ.symm (visit-perm ℕ td.id_to_parallel_region))
            v.regions_named)
          index)

  -- After the vertices every registered task has one.
  Known-has :
      (td : ToolData) (st0 st : DagState Dag)
      → Grows boost show (built_keys td) st0 st
      → (k : ℕ) → Known td.id_to_task k
      → find k st.id_to_vertex ≢ none
  Known-has td st0 st g k (p, e) =
      All-keys (λ j. find j st.id_to_vertex ≢ none) td.id_to_task
        (Permᴰ-All _ (Permᴰ-map (λ x. x.0) (visit-perm ℕ td.id_to_task))
          (All-append_right _ (keys (visit ℕ td.id_to_parallel_region)) _ g.has))
        k p e

  -- The vertices of the registered keys were added, then the edges of the dependences.
  pub record Builds (td : ToolData) (st0 st : DagState Dag) : Type 0 where
    pub middle : DagState Dag
    pub grown : Grows boost show (built_keys td) st0 middle
    pub linked :
        Links boost show
          (labels boost show middle.dag)
          (pairs (visit (List ℕ) td.dependences))
          middle
          st

  pub build_dag-Builds :
      (td : ToolData) (st0 : DagState Dag)
      → IsIndex boost show st0
      → IsValid td
      → IsClosed td
      → Returns (build_dag boost show order td st0) (Builds td st0)
  unfolding build_dag
  build_dag-Builds td st0 index v c =
      let deps = visit (List ℕ) td.dependences in
      Returns->>= _ _ (add_vertices boost show order td st0) (add_edges boost show deps)
        (λ st1 g.
          Returns-map _ _ (add_edges boost show deps st1)
            (λ st l. record { middle = st1; grown = g; linked = l })
            (add_edges-Links boost show (labels boost show st1.dag) deps st1
              (record { labelled = refl; index = g.index })
              (All-map _ _ deps
                (λ e known. (
                  Known-has td st0 st1 g e.0 known.0,
                  All-map _ _ e.1 (Known-has td st0 st1 g) known.1,
                ))
                (Permᴰ-All _ (Permᴰ.symm (visit-perm (List ℕ) td.dependences)) c.edges))))
        (add_vertices-Grows td st0 index v)
