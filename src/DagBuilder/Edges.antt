-- ===== src/DagBuilder/Edges.antt =====
-- add_edges of src/DAGBuilder.hpp: the edges that `dependences` gives, read through the labels of
-- their ends.
use Prim.Native.String.{String}
use mathlib.Core.List.Permᴰ
use mathlib.Core.List.{map-append}
use ompt_dependency_tracker.Base.{
  ℕ, ◌<◌, ◌≡◌, ◌≢◌, refl, subst, ◌∙◌, inl, inr, Option, none, some, List, [], ◌∷◌, ◌++◌, map, All,
  arith, length, get_elem?, Returns, Returns-map, Returns->>=, Option-cases, length-map,
  lt-length_of_get_elem?, Permᴰ, Permᴰ-map, Permᴰ-blocks,
}
use ompt_dependency_tracker.Table.{find}
use ompt_dependency_tracker.DependencyDag.{VertexProperties, GraphLibrary}
use ompt_dependency_tracker.DagBuilder.{DagState, add_edges_from, add_edges}
use ompt_dependency_tracker.DagBuilder.Vertices.{labels, IsIndex}

-- The pairs of a table, from a key to each item under it.
abbrev pub pairs_from : ℕ → List ℕ → List (ℕ × ℕ)
pairs_from k = map (λ v. (k, v))

abbrev pub pairs : List (ℕ × List ℕ) → List (ℕ × ℕ)
pairs [] = []
pairs (e ∷ rest) = pairs_from e.0 e.1 ++ pairs rest

-- An edge, read through the labels of its ends.
abbrev pub read_edge : List ℕ → ℕ × ℕ → Option ℕ × Option ℕ
read_edge ls e = (get_elem? ls e.0, get_elem? ls e.1)

abbrev pub of_labels : ℕ × ℕ → Option ℕ × Option ℕ
of_labels p = (some p.0, some p.1)

module _ (boost : GraphLibrary) (show : ℕ → String) where
  open boost use {Dag, add_edge, vertices, edges, vertices-add_edge, edges-add_edge}

  -- Edges that read as these pairs, under the labels `ls`, were added, and nothing else.
  pub record Links (ls : List ℕ) (new : List (ℕ × ℕ)) (st st' : DagState Dag) : Type 0 where
    pub same_vertices : vertices st'.dag ≡ vertices st.dag
    pub same_index : st'.id_to_vertex ≡ st.id_to_vertex
    pub linked :
        Permᴰ
          (map (read_edge ls) (edges st'.dag))
          (map of_labels new ++ map (read_edge ls) (edges st.dag))

  Links-nil : (ls : List ℕ) (st : DagState Dag) → Links ls [] st st
  Links-nil ls st = record { same_vertices = refl; same_index = refl; linked = Permᴰ.refl _ }

  Links-trans :
      (ls : List ℕ) (xs ys : List (ℕ × ℕ)) (s t u : DagState Dag)
      → Links ls xs s t
      → Links ls ys t u
      → Links ls (xs ++ ys) s u
  Links-trans ls xs ys s t u g h = record {
    same_vertices = h.same_vertices ∙ g.same_vertices;
    same_index = h.same_index ∙ g.same_index;
    linked = rw (map-append of_labels xs ys) (
        Permᴰ.trans h.linked (
          Permᴰ.trans (Permᴰ.append_left (map of_labels ys) g.linked)
            (Permᴰ-blocks (map of_labels xs) (map of_labels ys) _)));
  }

  -- The labels and the index of a state, as the loops keep them.
  pub record IsLabelled (ls : List ℕ) (st : DagState Dag) : Type 0 where
    pub labelled : labels boost show st.dag ≡ ls
    pub index : IsIndex boost show st

  Links-IsLabelled :
      (ls : List ℕ) (new : List (ℕ × ℕ)) (st st' : DagState Dag)
      → Links ls new st st'
      → IsLabelled ls st
      → IsLabelled ls st'
  Links-IsLabelled ls new st st' l h = record {
    labelled = rw l.same_vertices h.labelled;
    index = rw (l.same_index, l.same_vertices) h.index;
  }

  link-Links :
      (ls : List ℕ) (k v src dst : ℕ) (st : DagState Dag)
      → IsLabelled ls st
      → find k st.id_to_vertex ≡ some src
      → find v st.id_to_vertex ≡ some dst
      → Links ls ((k, v) ∷ []) st (record st { dag = add_edge src dst st.dag })
  link-Links ls k v src dst st h e f = record {
    same_vertices = vertices-add_edge src dst st.dag (below k src at_src) (below v dst at_dst);
    same_index = refl;
    linked =
        subst
          (λ (p : Option ℕ × Option ℕ).
            Permᴰ (map (read_edge ls) (edges (add_edge src dst st.dag)))
              (p ∷ map (read_edge ls) (edges st.dag)))
          (rw (← h.labelled, at_src, at_dst) refl)
          (Permᴰ-map (read_edge ls)
            (edges-add_edge src dst st.dag (below k src at_src) (below v dst at_dst)));
  }
    where
      at_src : get_elem? (labels boost show st.dag) src ≡ some k
      at_src = h.index k src e

      at_dst : get_elem? (labels boost show st.dag) dst ≡ some v
      at_dst = h.index v dst f

      below :
          (x i : ℕ) → get_elem? (labels boost show st.dag) i ≡ some x → i < length (vertices st.dag)
      below x i at = omega (
        arith,
        lt-length_of_get_elem? (labels boost show st.dag) i x at,
        length-map (vertices st.dag) (λ (vp : VertexProperties). vp.vertex_id),
      )

  abbrev HasVertex : DagState Dag → ℕ → Type 0
  HasVertex st k = find k st.id_to_vertex ≢ none

  add_edges_from-Links :
      (ls : List ℕ) (k src : ℕ) (vs : List ℕ) (st : DagState Dag)
      → IsLabelled ls st
      → find k st.id_to_vertex ≡ some src
      → All (HasVertex st) vs
      → Returns (add_edges_from boost show src vs st) (Links ls (pairs_from k vs) st)
  unfolding add_edges_from
  add_edges_from-Links ls k src [] st h e all = Links-nil ls st
  add_edges_from-Links ls k src (v ∷ vs) st h e all = elim (Option-cases (find v st.id_to_vertex)) [
    | inl absent ↦ absurd (all.0 absent)
    | inr (dst, f) ↦
        let st1 = record st { dag = add_edge src dst st.dag } in
        let first = link-Links ls k v src dst st h e f in
        rw f (
          Returns-map _ _ (add_edges_from boost show src vs st1)
            (λ u rest. Links-trans ls ((k, v) ∷ []) (pairs_from k vs) st st1 u first rest)
            (add_edges_from-Links ls k src vs st1 (Links-IsLabelled ls _ st st1 first h) e all.1))
  ]

  -- Where every id of the table has a vertex, the loops never fault and add an edge for each pair.
  pub add_edges-Links :
      (ls : List ℕ) (entries : List (ℕ × List ℕ)) (st : DagState Dag)
      → IsLabelled ls st
      → All
          (λ e. (find e.0 st.id_to_vertex ≢ none) × All (λ k. find k st.id_to_vertex ≢ none) e.1)
          entries
      → Returns (add_edges boost show entries st) (Links ls (pairs entries) st)
  unfolding add_edges
  add_edges-Links ls [] st h all = Links-nil ls st
  add_edges-Links ls (e ∷ rest) st h all = elim (Option-cases (find e.0 st.id_to_vertex)) [
    | inl absent ↦ absurd (all.0.0 absent)
    | inr (src, f) ↦ rw f (
        Returns->>= _ _ (add_edges_from boost show src e.1 st) _
          (λ st1 first.
            Returns-map _ _ (add_edges boost show rest st1)
              (λ u others. Links-trans ls (pairs_from e.0 e.1) (pairs rest) st st1 u first others)
              (add_edges-Links ls rest st1 (Links-IsLabelled ls _ st st1 first h)
                (rw first.same_index all.1)))
          (add_edges_from-Links ls e.0 src e.1 st h f all.0.1))
  ]
