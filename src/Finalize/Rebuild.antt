-- ===== src/Finalize/Rebuild.antt =====
-- The signal handlers of src/SignalHandler.hpp, before and after ompt_finalize has built the graph.
use Prim.Native.String.{String}
use ompt_dependency_tracker.Base.{
  ℕ, ◌+◌, ◌≡◌, ◌∙◌, refl, sym, ap, ◌*◌, List, [], ◌∷◌, ◌++◌, map, arith, length, length-map,
  length-append, Permᴰ-length, Returns, Returns-map, Returns->>=,
}
use ompt_dependency_tracker.Output.{Output, text, number}
use ompt_dependency_tracker.ToolData.{ToolData}
use ompt_dependency_tracker.ToolData.Registry.{IsValid}
use ompt_dependency_tracker.Dependences.Closed.{IsClosed}
use ompt_dependency_tracker.DependencyDag.{GraphLibrary, Iteration}
use ompt_dependency_tracker.DagBuilder.{DagState, build_dag}
use ompt_dependency_tracker.DagBuilder.Vertices.{labels, keys, IsIndex}
use ompt_dependency_tracker.DagBuilder.Edges.{pairs, read_edge, of_labels}
use ompt_dependency_tracker.DagBuilder.Built.{Builds, build_dag-Builds, built_keys}
use ompt_dependency_tracker.DagBuilder.Faithful.{unbuilt, unbuilt-IsIndex, Permᴰ-pairs}
use ompt_dependency_tracker.Finalize.{signal_handler, signal_handler_prologue}

-- What a handler prints.
abbrev pub signal_text : ℕ → ℕ → ℕ → Output
signal_text signum n_vertices n_edges =
    text "\n\nBug Localizer Tool caught signal: "
    ∷ number signum
    ∷ text "\n"
    ∷ text "\t- Started building dependency DAG...\n"
    ∷ text "\t- Finished building dependency DAG\n"
    ∷ text "\t- Number of vertices in base dependency DAG: "
    ∷ number n_vertices
    ∷ text "\t- Number of edges in base dependency DAG: "
    ∷ number n_edges
    ∷ text "Signal handler exiting\n"
    ∷ []

signal_text-eq :
    (signum : ℕ) {v v' e e' : ℕ}
    → v ≡ v'
    → e ≡ e'
    → signal_text signum v e ≡ signal_text signum v' e'
signal_text-eq signum p q = rw (p, q) refl

-- The registered regions and tasks, and the recorded dependences.
abbrev pub n_entities : ToolData → ℕ
n_entities td = length td.id_to_parallel_region + length td.id_to_task

abbrev pub n_dependences : ToolData → ℕ
n_dependences td = length (pairs td.dependences)

module _ (boost : GraphLibrary) (show : ℕ → String) (order : Iteration) where
  open boost use {Dag, vertices, edges}
  open order use {visit, visit-perm}

  -- The sizes of the graph grow by what is registered.
  record Adds (td : ToolData) (st0 st : DagState Dag) : Type 0 where
    n_vertices : length (vertices st.dag) ≡ length (vertices st0.dag) + n_entities td
    n_edges : length (edges st.dag) ≡ length (edges st0.dag) + n_dependences td
    index : IsIndex boost show st

  Builds-Adds :
      (td : ToolData) (st0 st : DagState Dag) → Builds boost show order td st0 st → Adds td st0 st
  Builds-Adds td st0 st b = record {
    n_vertices = omega (
      arith,
      ap length b.linked.same_vertices,
      sym (n_labels b.middle.dag),
      ap length b.grown.labelled,
      length-append (labels boost show st0.dag) (built_keys boost show order td),
      n_labels st0.dag,
      added,
    );
    n_edges = omega (
      arith,
      n_read,
      ap length b.grown.same_edges,
      Permᴰ-length (Permᴰ-pairs (visit-perm (List ℕ) td.dependences)),
    );
    index = rw (b.linked.same_index, b.linked.same_vertices) b.grown.index;
  }
    where
      added : length (built_keys boost show order td) ≡ n_entities td
      added =
          length-append (keys (visit ℕ td.id_to_parallel_region)) (keys (visit ℕ td.id_to_task))
          ∙ omega (
            arith,
            length-map (visit ℕ td.id_to_parallel_region) (λ (x : ℕ × ℕ). x.0),
            length-map (visit ℕ td.id_to_task) (λ (x : ℕ × ℕ). x.0),
            Permᴰ-length (visit-perm ℕ td.id_to_parallel_region),
            Permᴰ-length (visit-perm ℕ td.id_to_task),
          )

      n_labels : (g : Dag) → length (labels boost show g) ≡ length (vertices g)
      n_labels g = length-map (vertices g) _

      ls : List ℕ
      ls = labels boost show b.middle.dag

      deps : List (ℕ × ℕ)
      deps = pairs (visit (List ℕ) td.dependences)

      n_read : length (edges st.dag) ≡ length deps + length (edges b.middle.dag)
      n_read =
          sym (length-map (edges st.dag) (read_edge ls))
          ∙ Permᴰ-length b.linked.linked
          ∙ length-append (map of_labels deps) (map (read_edge ls) (edges b.middle.dag))
          ∙ omega (arith, length-map deps of_labels, length-map (edges b.middle.dag) (read_edge ls))

  prologue-text :
      (signum : ℕ) (td : ToolData) (st0 : DagState Dag)
      → IsIndex boost show st0
      → IsValid td
      → IsClosed td
      → Returns (signal_handler_prologue boost show order signum td st0) (λ p.
        p.0 ++ text "Signal handler exiting\n" ∷ []
        ≡ signal_text signum
            (length (vertices st0.dag) + n_entities td)
            (length (edges st0.dag) + n_dependences td))
  unfolding signal_handler_prologue
  prologue-text signum td st0 index v c =
      Returns->>= (Builds boost show order td st0) _ (build_dag boost show order td st0) _
        (λ st b. let a = Builds-Adds td st0 st b in rw (a.n_vertices, a.n_edges) refl)
        (build_dag-Builds boost show order td st0 index v c)

  doubled_vertices :
      {td : ToolData} {st : DagState Dag}
      → Adds td (unbuilt boost show order) st
      → length (vertices st.dag) + n_entities td ≡ 2 * n_entities td
  doubled_vertices a = omega (arith, a.n_vertices, ap length boost.vertices-empty)

  doubled_edges :
      {td : ToolData} {st : DagState Dag}
      → Adds td (unbuilt boost show order) st
      → length (edges st.dag) + n_dependences td ≡ 2 * n_dependences td
  doubled_edges a = omega (arith, a.n_edges, ap length boost.edges-empty)

  -- On a valid registry with closed tables, and whatever graph with a right index is there already, a
  -- signal handler never faults: it exits with the signal's number, and the sizes that it prints are
  -- those of that graph plus the numbers of registered regions and tasks and of dependences.
  pub signal_handler-text :
      (signum : ℕ) (td : ToolData) (st0 : DagState Dag)
      → IsIndex boost show st0
      → IsValid td
      → IsClosed td
      → Returns (signal_handler boost show order signum td st0) (λ r.
        (r.0
          ≡ signal_text signum
              (length (vertices st0.dag) + n_entities td)
              (length (edges st0.dag) + n_dependences td))
        × (r.1 ≡ signum))
  unfolding signal_handler
  signal_handler-text signum td st0 index v c =
      Returns->>= _ _ (signal_handler_prologue boost show order signum td st0) _ (λ p e. (e, refl))
        (prologue-text signum td st0 index v c)

  -- After ompt_finalize has built the graph, as while it reports, the same handler builds it once more
  -- on top: every region, task and dependence is counted twice.
  pub build_dag-signal_handler :
      (signum : ℕ) (td : ToolData)
      → IsValid td
      → IsClosed td
      → Returns (build_dag boost show order td (unbuilt boost show order)) (λ st.
        Returns
          (signal_handler boost show order signum td st)
          (λ r. r.0 ≡ signal_text signum (2 * n_entities td) (2 * n_dependences td)))
  build_dag-signal_handler signum td v c =
      Returns-map _ _ (build_dag boost show order td (unbuilt boost show order))
        (λ st b.
          let a = Builds-Adds td (unbuilt boost show order) st b in
          Returns-map _ _ (signal_handler boost show order signum td st)
            (λ r h. h.0 ∙ signal_text-eq signum (doubled_vertices a) (doubled_edges a))
            (signal_handler-text signum td st a.index v c))
        (build_dag-Builds boost show order td (unbuilt boost show order)
          (unbuilt-IsIndex boost show order) v c)
