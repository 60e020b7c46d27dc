-- ===== src/DagBuilder/Vertices.antt =====
-- add_vertices of src/DAGBuilder.hpp: the vertices that a table gives, labelled by its keys, and the
-- index from keys to vertices.
use Prim.Native.String.{String}
use mathlib.Core.List.{append-nil, append_assoc, map-append}
use ompt_dependency_tracker.Base.{
  ℕ, ◌≡◌, ◌≢◌, refl, sym, subst, ap, ◌∙◌, inl, inr, none, some, List, [], ◌∷◌, ◌++◌, map, All,
  All-append, All-map, arith, length, get_elem?, get_elem?-append, get_elem?-append_last, Returns,
  Returns-map, Option-cases, length-map,
}
use ompt_dependency_tracker.Table.{find}
use ompt_dependency_tracker.Table.Laws.{find-insert}
use ompt_dependency_tracker.Task.{Task}
use ompt_dependency_tracker.ParallelRegion.{ParallelRegion}
use ompt_dependency_tracker.ToolData.Registry.{NamesTask, NamesRegion}
use ompt_dependency_tracker.DependencyDag.{
  VertexType, VertexProperties, construct_vprops, GraphLibrary, parallel_region,
}
use ompt_dependency_tracker.DagBuilder.{
  DagState, vertex_type_of, add_entity_vertex, add_parallel_region_vertex, add_task_vertex,
  add_region_vertices, add_task_vertices,
}

abbrev pub keys {ℓ} : {V : Type ℓ} → List (ℕ × V) → List ℕ
keys = map (λ e. e.0)

module _ (boost : GraphLibrary) (show : ℕ → String) where
  open boost use {
    Dag, add_vertex, vertices, edges, descriptor, vertices-add_vertex, edges-add_vertex,
  }

  -- The labels of the vertices, in the order of their descriptors.
  abbrev pub labels : Dag → List ℕ
  labels g = map (λ (vp : VertexProperties). vp.vertex_id) (vertices g)

  -- The index leads to vertices with the label that was looked up.
  abbrev pub IsIndex : DagState Dag → Type 0
  IsIndex st = (k i : ℕ) → find k st.id_to_vertex ≡ some i → get_elem? (labels st.dag) i ≡ some k

  -- Vertices with these labels were added.
  pub record Grows (new : List ℕ) (st st' : DagState Dag) : Type 0 where
    pub labelled : labels st'.dag ≡ labels st.dag ++ new
    pub same_edges : edges st'.dag ≡ edges st.dag
    pub index : IsIndex st'
    pub keeps : (k : ℕ) → find k st.id_to_vertex ≢ none → find k st'.id_to_vertex ≢ none
    pub has : All (λ k. find k st'.id_to_vertex ≢ none) new

  Grows-nil : (st : DagState Dag) → IsIndex st → Grows [] st st
  Grows-nil st h = record {
    labelled = sym (append-nil _);
    same_edges = refl;
    index = h;
    keeps = λ k n. n;
    has = tt;
  }

  pub Grows-trans :
      (xs ys : List ℕ) (s t u : DagState Dag) → Grows xs s t → Grows ys t u → Grows (xs ++ ys) s u
  Grows-trans xs ys s t u g h = record {
    labelled = h.labelled ∙ ap (λ l. l ++ ys) g.labelled ∙ append_assoc (labels s.dag) xs ys;
    same_edges = h.same_edges ∙ g.same_edges;
    index = h.index;
    keeps = λ k n. h.keeps k (g.keeps k n);
    has = All-append _ xs ys (All-map _ _ xs (λ k n. h.keeps k n) g.has) h.has;
  }

  add_entity-Grows :
      (vt : VertexType) (id codeptr : ℕ) (st : DagState Dag)
      → IsIndex st
      → Grows (id ∷ []) st (add_entity_vertex boost show vt id codeptr st).1
  unfolding construct_vprops
  add_entity-Grows vt id codeptr st index = record {
    labelled = labelled;
    same_edges = edges-add_vertex vp st.dag;
    index = λ k i e. elim (Option-cases (find k st.id_to_vertex)) [
      | inl absent ↦ rw labelled (
          ground (
            arith,
            find-insert id k v st.id_to_vertex,
            last,
            get_elem?-append_last (labels st.dag) id,
          ))
      | inr (j, old) ↦ rw labelled (
          ground (
            arith,
            find-insert id k v st.id_to_vertex,
            get_elem?-append (labels st.dag) (id ∷ []) j k (index k j old),
          ))
    ];
    keeps = λ k n. ground (arith, find-insert id k v st.id_to_vertex);
    has = ((λ e. ground (arith, find-insert id id v st.id_to_vertex)), tt);
  }
    where
      vp : VertexProperties
      vp = construct_vprops show vt id codeptr

      v : ℕ
      v = (add_vertex vp st.dag).0

      labelled : labels (add_vertex vp st.dag).1 ≡ labels st.dag ++ id ∷ []
      labelled =
          ap (map (λ (w : VertexProperties). w.vertex_id)) (vertices-add_vertex vp st.dag)
          ∙ map-append _ (vertices st.dag) (vp ∷ [])

      last : v ≡ length (labels st.dag)
      last = descriptor vp st.dag ∙ sym (length-map (vertices st.dag) _)

  pub add_region_vertices-Grows :
      (regions : List ParallelRegion) (entries : List (ℕ × ℕ)) (st : DagState Dag)
      → All (NamesRegion regions) entries
      → IsIndex st
      → Returns (add_region_vertices boost show regions entries st) (Grows (keys entries) st)
  unfolding add_region_vertices add_parallel_region_vertex
  add_region_vertices-Grows regions [] st named index = Grows-nil st index
  add_region_vertices-Grows regions (e ∷ rest) st named index =
      let (pr, at, id) = named.0 in
      let st1 = add_parallel_region_vertex boost show pr st in
      let grown : Grows (e.0 ∷ []) st st1 =
        subst (λ k. Grows (k ∷ []) st st1) id
          (add_entity-Grows parallel_region pr.id pr.codeptr_ra st index) in
      rw at (
        Returns-map _ _ (add_region_vertices boost show regions rest st1)
          (λ u g. Grows-trans (e.0 ∷ []) (keys rest) st st1 u grown g)
          (add_region_vertices-Grows regions rest st1 named.1 grown.index))

  pub add_task_vertices-Grows :
      (tasks : List Task) (entries : List (ℕ × ℕ)) (st : DagState Dag)
      → All (NamesTask tasks) entries
      → IsIndex st
      → Returns (add_task_vertices boost show tasks entries st) (Grows (keys entries) st)
  unfolding add_task_vertices add_task_vertex
  add_task_vertices-Grows tasks [] st named index = Grows-nil st index
  add_task_vertices-Grows tasks (e ∷ rest) st named index =
      let (t, at, id) = named.0 in
      let st1 = (add_task_vertex boost show t st).1 in
      let grown : Grows (e.0 ∷ []) st st1 =
        subst (λ k. Grows (k ∷ []) st st1) id
          (add_entity-Grows (vertex_type_of t.type) t.id t.codeptr_ra st index) in
      rw at (
        Returns-map _ _ (add_task_vertices boost show tasks rest st1)
          (λ u g. Grows-trans (e.0 ∷ []) (keys rest) st st1 u grown g)
          (add_task_vertices-Grows tasks rest st1 named.1 grown.index))
