-- ===== src/DagBuilder/Faithful.antt =====
-- The graph that src/DAGBuilder.hpp builds, against the tool data.
use Prim.Native.String.{String}
use mathlib.Core.List.Permᴰ
use mathlib.Core.List.{append-nil, append_assoc}
use ompt_dependency_tracker.Base.{
  ℕ, ◌≡◌, sym, subst, ap, ◌∙◌, List, [], ◌∷◌, ◌++◌, map, Returns, Returns-map, Permᴰ, Permᴰ-map,
  Permᴰ-blocks,
}
use ompt_dependency_tracker.Table.{find}
use ompt_dependency_tracker.ToolData.{ToolData}
use ompt_dependency_tracker.ToolData.Registry.{IsValid}
use ompt_dependency_tracker.Dependences.Closed.{IsClosed}
use ompt_dependency_tracker.DependencyDag.{GraphLibrary, Iteration, VertexProperties}
use ompt_dependency_tracker.DagBuilder.{DagState, build_dag}
use ompt_dependency_tracker.DagBuilder.Built.{build_dag-Builds}
use ompt_dependency_tracker.DagBuilder.Vertices.{keys, labels, IsIndex, Grows}
use ompt_dependency_tracker.DagBuilder.Edges.{pairs, pairs_from, read_edge, of_labels, Links}

pairs_swap :
    (a b : ℕ × List ℕ) (l : List (ℕ × List ℕ)) → Permᴰ (pairs (a ∷ b ∷ l)) (pairs (b ∷ a ∷ l))
pairs_swap a b l =
    subst (Permᴰ (pairs (a ∷ b ∷ l)))
      (append_assoc (pairs_from b.0 b.1) (pairs_from a.0 a.1) (pairs l))
      (Permᴰ-blocks (pairs_from b.0 b.1) (pairs_from a.0 a.1) (pairs l))

-- Rearranging the entries of a table rearranges its pairs.
pub Permᴰ-pairs : {m n : List (ℕ × List ℕ)} → Permᴰ m n → Permᴰ (pairs m) (pairs n)
Permᴰ-pairs Permᴰ.nil = Permᴰ.nil
Permᴰ-pairs (Permᴰ.cons {a} {b} {l₁} {l₂} e p) =
    subst (λ x. Permᴰ (pairs (a ∷ l₁)) (pairs (x ∷ l₂))) e
      (Permᴰ.append_left (pairs_from a.0 a.1) (Permᴰ-pairs p))
Permᴰ-pairs (Permᴰ.swap {a} {b} {a'} {b'} {l} e f) =
    subst (λ x. Permᴰ (pairs (a ∷ b ∷ l)) (pairs (a' ∷ x ∷ l))) e
      (subst (λ x. Permᴰ (pairs (a ∷ b ∷ l)) (pairs (x ∷ a ∷ l))) f (pairs_swap a b l))
Permᴰ-pairs (Permᴰ.trans p q) = Permᴰ.trans (Permᴰ-pairs p) (Permᴰ-pairs q)

module _ (boost : GraphLibrary) (show : ℕ → String) (order : Iteration) where
  open boost use {Dag, empty, vertices, edges, vertices-empty, edges-empty}
  open order use {visit, visit-perm}

  -- A vertex for each registered region and task, with its id for a label, and an edge for each
  -- recorded dependence, between vertices with the two labels; nothing else.
  pub record IsFaithful (td : ToolData) (st : DagState Dag) : Type 0 where
    pub all_vertices :
        Permᴰ (labels boost show st.dag) (keys td.id_to_parallel_region ++ keys td.id_to_task)
    pub all_edges :
        Permᴰ
          (map (read_edge (labels boost show st.dag)) (edges st.dag))
          (map of_labels (pairs td.dependences))
    pub index : IsIndex boost show st

  -- The state before the graph is built.
  abbrev pub unbuilt : DagState Dag
  unbuilt = record { dag = empty; id_to_vertex = [] }

  pub unbuilt-IsIndex : IsIndex boost show unbuilt
  unfolding find
  unbuilt-IsIndex k i e = cc

  finished :
      (td : ToolData) (st1 st : DagState Dag)
      → Grows boost show
          (keys (visit ℕ td.id_to_parallel_region) ++ keys (visit ℕ td.id_to_task))
          unbuilt
          st1
      → Links boost show (labels boost show st1.dag) (pairs (visit (List ℕ) td.dependences)) st1 st
      → IsFaithful td st
  finished td st1 st g l = record {
    all_vertices =
        subst (λ ls. Permᴰ ls (keys td.id_to_parallel_region ++ keys td.id_to_task))
          (sym (same_labels ∙ visited))
          (Permᴰ.trans
            (Permᴰ.append_right _ (Permᴰ-map (λ x. x.0) (visit-perm ℕ td.id_to_parallel_region)))
            (Permᴰ.append_left (keys td.id_to_parallel_region)
              (Permᴰ-map (λ x. x.0) (visit-perm ℕ td.id_to_task))));
    all_edges =
        subst
          (λ ls. Permᴰ (map (read_edge ls) (edges st.dag)) (map of_labels (pairs td.dependences)))
          (sym same_labels)
          (Permᴰ.trans linked
            (Permᴰ-map of_labels (Permᴰ-pairs (visit-perm (List ℕ) td.dependences))));
    index = rw (l.same_index, l.same_vertices) g.index;
  }
    where
      ls1 : List ℕ
      ls1 = labels boost show st1.dag

      same_labels : labels boost show st.dag ≡ ls1
      same_labels = ap (map (λ (vp : VertexProperties). vp.vertex_id)) l.same_vertices

      visited : ls1 ≡ keys (visit ℕ td.id_to_parallel_region) ++ keys (visit ℕ td.id_to_task)
      visited =
          g.labelled
          ∙ ap
              (λ (vs : List VertexProperties).
                map (λ (vp : VertexProperties). vp.vertex_id) vs
                ++ (keys (visit ℕ td.id_to_parallel_region) ++ keys (visit ℕ td.id_to_task)))
              vertices-empty

      linked :
          Permᴰ
            (map (read_edge ls1) (edges st.dag))
            (map of_labels (pairs (visit (List ℕ) td.dependences)))
      linked = subst (Permᴰ (map (read_edge ls1) (edges st.dag))) (append-nil _) (
          subst
            (λ es.
              Permᴰ (map (read_edge ls1) (edges st.dag))
                (map of_labels (pairs (visit (List ℕ) td.dependences)) ++ map (read_edge ls1) es))
            (g.same_edges ∙ edges-empty) l.linked)

  -- On a valid registry and closed tables, in whatever order the loops run, building the graph
  -- never faults, and the graph is faithful to the tool data.
  pub build_dag-IsFaithful :
      (td : ToolData)
      → IsValid td
      → IsClosed td
      → Returns (build_dag boost show order td unbuilt) (IsFaithful td)
  build_dag-IsFaithful td v c =
      Returns-map _ _ (build_dag boost show order td unbuilt)
        (λ st b. finished td b.middle st b.grown b.linked)
        (build_dag-Builds boost show order td unbuilt unbuilt-IsIndex v c)
