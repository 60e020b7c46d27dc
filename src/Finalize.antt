-- ===== src/Finalize.antt =====
-- ompt_finalize of src/dependency_tracker.cpp, write_dag of src/DAGBuilder.hpp with the vertex writer
-- of src/DependencyDAG.hpp, and the signal handlers of src/SignalHandler.hpp.
pub mod Whole
pub mod Rebuild
pub mod Logged
pub mod Threads
pub mod Examples
use Prim.Native.String.{String}
use ompt_dependency_tracker.Base.{
  ℕ, suc, zero, ◌≡◌, Option, none, some, ◌>>=◌, List, [], ◌∷◌, ◌++◌, get_elem?, length,
}
use ompt_dependency_tracker.Output.{Output, text, number, pointer, c_string}
use ompt_dependency_tracker.Task.{Task}
use ompt_dependency_tracker.ParallelRegion.{ParallelRegion}
use ompt_dependency_tracker.ToolData.{ToolData}
use ompt_dependency_tracker.DependencyDag.{GraphLibrary, Iteration}
use ompt_dependency_tracker.DagBuilder.{DagState, build_dag}
use ompt_dependency_tracker.Symbols.{Libraries}
use ompt_dependency_tracker.Report.{Row, localize_bugs}
use ompt_dependency_tracker.Printing.{print, print_region}

-- The loop of the task summary: what is printed for each entry of the table.
unfoldable pub print_tasks : List Task → List (ℕ × ℕ) → Option (List Output)
print_tasks tasks [] = some []
print_tasks tasks (e ∷ entries) = do
  t ← get_elem? tasks e.1
  first ← print e.1 tasks t 2
  rest ← print_tasks tasks entries
  some ((first ++ text "\n" ∷ []) ∷ rest)

-- The loop of the region summary.
unfoldable pub print_regions : List Task → List ParallelRegion → List (ℕ × ℕ) → Option (List Output)
print_regions tasks regions [] = some []
print_regions tasks regions (e ∷ entries) = do
  r ← get_elem? regions e.1
  first ← print_region tasks r 2
  rest ← print_regions tasks regions entries
  some ((first ++ text "\n" ∷ []) ∷ rest)

-- The lines of boost::write_graphviz, as its documentation shows them: one for each vertex, with its
-- number and what the writer prints for it, and one for each edge.
abbrev pub node_lines : (ℕ → Option Output) → ℕ → ℕ → Option Output
node_lines vw v zero = some []
node_lines vw v (suc n) = do
  shown ← vw v
  rest ← node_lines vw (suc v) n
  some (number v ∷ (shown ++ text ";\n" ∷ rest))

abbrev pub edge_lines : List (ℕ × ℕ) → Output
edge_lines [] = []
edge_lines (e ∷ edges) = number e.0 ∷ text "->" ∷ number e.1 ∷ text " ;\n" ∷ edge_lines edges

pub record Graphviz (boost : GraphLibrary) : Type 0 where
  pub write_graphviz : boost.Dag → (ℕ → Option Output) → Option Output
  pub documented :
      (g : boost.Dag) (vw : ℕ → Option Output)
      → write_graphviz g vw ≡ (
          node_lines vw 0 (length (boost.vertices g)) >>= λ nodes.
          some (text "digraph G {\n" ∷ (nodes ++ (edge_lines (boost.edges g) ++ text "}\n" ∷ []))))

-- The file that is written.
pub record DotFile : Type 0 where
  pub name : String
  pub contents : Output

-- The report's lines.
unfoldable pub print_report : List Row → Output
print_report [] = []
print_report (row ∷ rows) =
    text "Task: "
    ∷ number row.task
    ∷ text ", codeptr_ra: "
    ∷ pointer row.codeptr_ra
    ∷ text ", file(line)/function: "
    ∷ c_string row.location
    ∷ text "\n"
    ∷ print_report rows

-- What a run leaves behind: the printed parts, the file, and the tables after they are cleared.
pub record Finalized : Type 0 where
  pub task_summary : List Output
  pub region_summary : List Output
  pub n_vertices : ℕ
  pub dot : DotFile
  pub report : List Row
  pub report_text : Output
  pub id_to_parallel_region : List (ℕ × ℕ)
  pub id_to_task : List (ℕ × ℕ)
  pub id_to_vertex : List (ℕ × ℕ)

module _ (boost : GraphLibrary) (show : ℕ → String) (order : Iteration) where
  open boost use {Dag, vertices, edges}
  open order use {visit}

  -- vertex_writer::operator(), for the map from vertices to ids that `boost::get` makes of a graph.
  unfoldable pub write_vertex : Dag → ℕ → Option Output
  write_vertex g v = do
    vp ← get_elem? (vertices g) v
    some (text "[label=\"" ∷ number vp.vertex_id ∷ text "\"]" ∷ [])

  -- `env_var` is what getenv("TASK_DAG_DOTFILE") answers.
  unfoldable pub dotfile_name : Option String → String
  dotfile_name none = "./dependency_dag.dot"
  dotfile_name (some env_var) = env_var

  unfoldable pub write_dag : Graphviz boost → Option String → Dag → Option DotFile
  write_dag graphviz env_var g = do
    contents ← graphviz.write_graphviz g (write_vertex g)
    some (record { name = dotfile_name env_var; contents = contents })

  unfoldable pub ompt_finalize :
      Graphviz boost → Libraries → Option String → ToolData → DagState Dag → Option Finalized
  ompt_finalize graphviz lib env_var td st0 = do
    task_summary ← print_tasks td.tasks (visit ℕ td.id_to_task)
    region_summary ← print_regions td.tasks td.regions (visit ℕ td.id_to_parallel_region)
    st ← build_dag boost show order td st0
    dot ← write_dag graphviz env_var st.dag
    report ← localize_bugs lib order td
    some (record {
      task_summary = task_summary;
      region_summary = region_summary;
      n_vertices = length (vertices st.dag);
      dot = dot;
      report = report;
      report_text = print_report report;
      id_to_parallel_region = [];
      id_to_task = [];
      id_to_vertex = [];
    })

  -- signal_handler_prologue: what it prints, and the graph that it leaves.
  unfoldable pub signal_handler_prologue :
      ℕ → ToolData → DagState Dag → Option (Output × DagState Dag)
  signal_handler_prologue signum td st0 = do
    st ← build_dag boost show order td st0
    some (
      text "\n\nBug Localizer Tool caught signal: "
          ∷ number signum
          ∷ text "\n"
          ∷ text "\t- Started building dependency DAG...\n"
          ∷ text "\t- Finished building dependency DAG\n"
          ∷ text "\t- Number of vertices in base dependency DAG: "
          ∷ number (length (vertices st.dag))
          ∷ text "\t- Number of edges in base dependency DAG: "
          ∷ number (length (edges st.dag))
          ∷ [],
      st,
    )

  -- Every handler: the prologue, and the epilogue, which prints and exits with this code.
  unfoldable pub signal_handler : ℕ → ToolData → DagState Dag → Option (Output × ℕ)
  signal_handler signum td st0 = do
    prologue ← signal_handler_prologue signum td st0
    some (prologue.0 ++ text "Signal handler exiting\n" ∷ [], signum)
