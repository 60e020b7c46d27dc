-- ===== src/Finalize/Whole.antt =====
-- ompt_finalize of src/dependency_tracker.cpp after a run of callbacks.
use Prim.Native.String.{String}
use mathlib.Core.List.{append_assoc}
use ompt_dependency_tracker.Base.{
  ℕ, suc, ◌≡◌, ◌∙◌, refl, sym, ap, subst, Option, some, List, [], ◌∷◌, ◌++◌, map, Permᴰ, Permᴰ-All,
  Permᴰ-length, All, arith, get_elem?, length, nil_of_length, length-map, length-append,
  get_elem?-append_length, Returns, Returns-map, Returns->>=,
}
use mathlib.Core.List.Permᴰ
use ompt_dependency_tracker.Output.{Output, text, number}
use ompt_dependency_tracker.Task.{Task}
use ompt_dependency_tracker.ToolData.{ToolData}
use ompt_dependency_tracker.ToolData.Registry.{NamesTask, IsValid}
use ompt_dependency_tracker.ToolData.Untouched.{IsUntouched}
use ompt_dependency_tracker.DependencyDag.{GraphLibrary, Iteration, VertexProperties}
use ompt_dependency_tracker.DagBuilder.{DagState, build_dag}
use ompt_dependency_tracker.DagBuilder.Vertices.{labels, keys}
use ompt_dependency_tracker.DagBuilder.Edges.{pairs, read_edge, of_labels}
use ompt_dependency_tracker.DagBuilder.Faithful.{IsFaithful, unbuilt, build_dag-IsFaithful}
use ompt_dependency_tracker.Symbols.{Libraries}
use ompt_dependency_tracker.Symbols.Backtrace.{IsLocated}
use ompt_dependency_tracker.Report.{flagged_tasks, localize_bugs}
use ompt_dependency_tracker.Report.Rows.{AreRows, localize_bugs-AreRows}
use ompt_dependency_tracker.Printing.Fresh.{fresh_text, print-IsFresh}
use ompt_dependency_tracker.Finalize.{
  print_tasks, print_regions, node_lines, edge_lines, Graphviz, Finalized, write_vertex, write_dag,
  ompt_finalize,
}
use ompt_dependency_tracker.Callbacks.State.{loaded}
use ompt_dependency_tracker.Callbacks.Events.{Event, run}
use ompt_dependency_tracker.Dependences.Closed.{IsClosed}
use ompt_dependency_tracker.Callbacks.Invariant.{AllPromised, run-Inv}

-- The lines of the nodes with these ids.
abbrev pub id_lines : ℕ → List ℕ → Output
id_lines v [] = []
id_lines v (id ∷ ids) =
    number v ∷ text "[label=\"" ∷ number id ∷ text "\"]" ∷ text ";\n" ∷ id_lines (suc v) ids

abbrev pub dot_text : List ℕ → List (ℕ × ℕ) → Output
dot_text ids es = text "digraph G {\n" ∷ (id_lines 0 ids ++ (edge_lines es ++ text "}\n" ∷ []))

-- Each entry's task, as it was created.
abbrev pub AreSummaries : ToolData → List (ℕ × ℕ) → List Output → Type 0
AreSummaries td [] [] = Unit {0}
AreSummaries td [] (out ∷ outs) = ⊥
AreSummaries td (e ∷ entries) [] = ⊥
AreSummaries td (e ∷ entries) (out ∷ outs) =
    ((t : Task) × (thread : ℕ) × (get_elem? td.tasks e.1 ≡ some t)
      × (t.id ≡ e.0)
      × (out ≡ fresh_text t thread ++ text "\n" ∷ []))
    × AreSummaries td entries outs

print_tasks-AreSummaries :
    (td : ToolData) (entries : List (ℕ × ℕ))
    → IsUntouched td
    → All (NamesTask td.tasks) entries
    → Returns (print_tasks td.tasks entries) (AreSummaries td entries)
unfolding print_tasks
print_tasks-AreSummaries td [] u named = tt
print_tasks-AreSummaries td (e ∷ entries) u named =
    let (t, at, id) = named.0 in
    let f = u.fresh e.1 t at in
    rw (at, print-IsFresh e.1 td.tasks t f)
      (Returns->>= (AreSummaries td entries) _ (print_tasks td.tasks entries) _
        (λ outs rest. ((t, f.creation.0, at, id, refl), rest))
        (print_tasks-AreSummaries td entries u named.1))

module _ (boost : GraphLibrary) (show : ℕ → String) (order : Iteration) where
  open boost use {Dag, vertices, edges}
  open order use {visit, visit-perm}

  node_lines-ids :
      (g : Dag) (before after : List VertexProperties)
      → vertices g ≡ before ++ after
      → node_lines (write_vertex boost show order g) (length before) (length after)
        ≡ some (id_lines (length before) (map (λ (vp : VertexProperties). vp.vertex_id) after))
  unfolding write_vertex
  node_lines-ids g before [] e = refl
  node_lines-ids g before (vp ∷ after) e =
      let at : get_elem? (vertices g) (length before) ≡ some vp =
        ap (λ vs. get_elem? vs (length before)) e ∙ get_elem?-append_length before vp after in
      let longer : length (before ++ vp ∷ []) ≡ suc (length before) =
        omega (arith, length-append before (vp ∷ [])) in
      let rest =
        subst
          (λ n.
            node_lines (write_vertex boost show order g) n (length after)
            ≡ some (id_lines n (map (λ (w : VertexProperties). w.vertex_id) after)))
          longer
          (node_lines-ids g (before ++ vp ∷ []) after
            (e ∙ sym (append_assoc before (vp ∷ []) after))) in
      rw (at, rest) refl

  -- The file holds the graph: a node for each id in `ids`, and the edges.
  write_dag-text :
      (graphviz : Graphviz boost) (env_var : Option String) (g : Dag)
      → Returns
          (write_dag boost show order graphviz env_var g)
          (λ dot. dot.contents ≡ dot_text (labels boost show g) (edges g))
  unfolding write_dag
  write_dag-text graphviz env_var g =
      rw
        (
          graphviz.documented g (write_vertex boost show order g),
          node_lines-ids g [] (vertices g) refl,
        )
        refl

  -- What a run leaves behind, for the tool data at its end.
  pub record IsFinalized (lib : Libraries) (td : ToolData) (f : Finalized) : Type 0 where
    -- The summary shows every registered task, under its id, as it was created.
    pub tasks : AreSummaries td (visit ℕ td.id_to_task) f.task_summary
    -- No region is ever shown.
    pub regions : f.region_summary ≡ []
    pub counted : f.n_vertices ≡ length td.id_to_task
    -- The file's nodes are the registered tasks, and its edges the dependences.
    pub dot :
        (ids : List ℕ) × (es : List (ℕ × ℕ)) × (f.dot.contents ≡ dot_text ids es)
        × Permᴰ ids (keys td.id_to_task)
        × Permᴰ (map (read_edge ids) es) (map of_labels (pairs td.dependences))
    pub report : AreRows lib td 0 (flagged_tasks order td) f.report
    pub cleared : (f.id_to_parallel_region ≡ []) × (f.id_to_task ≡ []) × (f.id_to_vertex ≡ [])

  visit-nil : (m : List (ℕ × ℕ)) → m ≡ [] → visit ℕ m ≡ []
  visit-nil m e = nil_of_length (visit ℕ m) (Permᴰ-length (visit-perm ℕ m) ∙ ap length e)

  task_vertices :
      (td : ToolData) (st : DagState Dag)
      → td.id_to_parallel_region ≡ []
      → IsFaithful boost show order td st
      → Permᴰ (labels boost show st.dag) (keys td.id_to_task)
  task_vertices td st no_regions f =
      subst (λ rs. Permᴰ (labels boost show st.dag) (keys rs ++ keys td.id_to_task)) no_regions
        f.all_vertices

  n_vertices-length :
      (td : ToolData) (st : DagState Dag)
      → td.id_to_parallel_region ≡ []
      → IsFaithful boost show order td st
      → length (vertices st.dag) ≡ length td.id_to_task
  n_vertices-length td st no_regions f =
      sym (length-map (vertices st.dag) _)
      ∙ Permᴰ-length (task_vertices td st no_regions f)
      ∙ length-map td.id_to_task _

  pub ompt_finalize-IsFinalized :
      (graphviz : Graphviz boost) (lib : Libraries) (env_var : Option String) (name : ℕ → List ℕ)
      (td : ToolData)
      → ((address : ℕ) → IsLocated lib address (name address))
      → IsValid td
      → IsClosed td
      → IsUntouched td
      → Returns
          (ompt_finalize boost show order graphviz lib env_var td (unbuilt boost show order))
          (IsFinalized lib td)
  unfolding ompt_finalize print_regions
  ompt_finalize-IsFinalized graphviz lib env_var name td located v c u =
      rw (visit-nil td.id_to_parallel_region u.id_to_parallel_region) (
        Returns->>= (AreSummaries td (visit ℕ td.id_to_task)) _
          (print_tasks td.tasks (visit ℕ td.id_to_task)) _
          (λ summary h.
            Returns->>= (IsFaithful boost show order td) _
              (build_dag boost show order td (unbuilt boost show order)) _
              (λ st f.
                Returns->>= _ _ (write_dag boost show order graphviz env_var st.dag) _
                  (λ dot written.
                    Returns->>= _ _ (localize_bugs lib order td) _
                      (λ rows r. record {
                        tasks = h;
                        regions = refl;
                        counted = n_vertices-length td st u.id_to_parallel_region f;
                        dot = (
                          labels boost show st.dag,
                          edges st.dag,
                          written,
                          task_vertices td st u.id_to_parallel_region f,
                          f.all_edges,
                        );
                        report = r.0;
                        cleared = (refl, refl, refl);
                      })
                      (localize_bugs-AreRows lib name order td v (λ p t at. located t.codeptr_ra)))
                  (write_dag-text graphviz env_var st.dag))
              (build_dag-IsFaithful boost show order td v c))
          (print_tasks-AreSummaries td (visit ℕ td.id_to_task) u
            (Permᴰ-All (NamesTask td.tasks) (Permᴰ.symm (visit-perm ℕ td.id_to_task)) v.named)))

  -- From loading on, whatever callbacks come, if the runtime keeps its promises and libbfd can read
  -- the file of every address, then ompt_finalize runs through without a fault. Its summary shows
  -- every registered task as it was created (explicit, in the state Created) and no region; it counts one vertex for each task; the file that it writes has exactly
  -- a node for each registered task and an edge for each recorded dependence; the report has a row
  -- for each task; and the tables are empty afterwards.
  pub run-ompt_finalize :
      (graphviz : Graphviz boost) (lib : Libraries) (env_var : Option String) (name : ℕ → List ℕ)
      (events : List Event) (words : ℕ → ℕ)
      → ((address : ℕ) → IsLocated lib address (name address))
      → AllPromised events (loaded words)
      → Returns (run events (loaded words)) (λ s.
        Returns
          (ompt_finalize boost show order graphviz lib env_var s.tool_data
            (unbuilt boost show order))
          (IsFinalized lib s.tool_data))
  run-ompt_finalize graphviz lib env_var name events words located h =
      Returns-map _ _ (run events (loaded words))
        (λ s v.
          ompt_finalize-IsFinalized graphviz lib env_var name s.tool_data located v.consistent.valid
            v.consistent.closed v.consistent.untouched)
        (run-Inv events words h)
