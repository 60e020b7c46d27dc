-- ===== src/DagBuilder.antt =====
-- src/DAGBuilder.hpp: the graph that is built from the tool data at the end of the run, or in a
-- signal handler.
pub mod Vertices
pub mod Edges
pub mod Built
pub mod Faithful
pub mod WholeRun
pub mod Examples
use Prim.Native.String.{String}
use ompt_dependency_tracker.Base.{ℕ, Option, none, some, ◌>>=◌, List, [], ◌∷◌, get_elem?}
use ompt_dependency_tracker.Table.{find, insert}
use ompt_dependency_tracker.Task.{Task, TaskType, explicit, implicit}
use ompt_dependency_tracker.ParallelRegion.{ParallelRegion}
use ompt_dependency_tracker.ToolData.{ToolData}
use ompt_dependency_tracker.DependencyDag.{
  VertexType, explicit_task, implicit_task, parallel_region, construct_vprops, GraphLibrary,
  Iteration,
}

-- The fields `dag` and `id_to_vertex` of the tool data.
pub record DagState (Dag : Type 0) : Type 0 where
  pub dag : Dag
  pub id_to_vertex : List (ℕ × ℕ)

unfoldable pub vertex_type_of : TaskType → VertexType
vertex_type_of explicit = explicit_task
vertex_type_of implicit = implicit_task

module _ (boost : GraphLibrary) (show : ℕ → String) where
  open boost use {Dag, add_vertex, add_edge}

  -- A vertex for an entity: the part that the two functions below share.
  abbrev pub add_entity_vertex : VertexType → ℕ → ℕ → DagState Dag → ℕ × DagState Dag
  add_entity_vertex vt id codeptr_ra st =
      let (v, dag) = add_vertex (construct_vprops show vt id codeptr_ra) st.dag in
      (v, record { dag = dag; id_to_vertex = insert id v st.id_to_vertex })

  unfoldable pub add_parallel_region_vertex : ParallelRegion → DagState Dag → DagState Dag
  add_parallel_region_vertex pr st = (add_entity_vertex parallel_region pr.id pr.codeptr_ra st).1

  unfoldable pub add_task_vertex : Task → DagState Dag → ℕ × DagState Dag
  add_task_vertex t st = add_entity_vertex (vertex_type_of t.type) t.id t.codeptr_ra st

  unfoldable pub add_region_vertices :
      List ParallelRegion → List (ℕ × ℕ) → DagState Dag → Option (DagState Dag)
  add_region_vertices regions [] st = some st
  add_region_vertices regions (e ∷ rest) st = do
    pr ← get_elem? regions e.1
    add_region_vertices regions rest (add_parallel_region_vertex pr st)

  unfoldable pub add_task_vertices : List Task → List (ℕ × ℕ) → DagState Dag → Option (DagState Dag)
  add_task_vertices tasks [] st = some st
  add_task_vertices tasks (e ∷ rest) st = do
    t ← get_elem? tasks e.1
    add_task_vertices tasks rest (add_task_vertex t st).1

  -- The inner loop: `find(...)->second` of an id without a vertex is a fault.
  unfoldable pub add_edges_from : ℕ → List ℕ → DagState Dag → Option (DagState Dag)
  add_edges_from src_v [] st = some st
  add_edges_from src_v (dependent_task ∷ rest) st = do
    dst_v ← find dependent_task st.id_to_vertex
    add_edges_from src_v rest (record st { dag = add_edge src_v dst_v st.dag })

  unfoldable pub add_edges : List (ℕ × List ℕ) → DagState Dag → Option (DagState Dag)
  add_edges [] st = some st
  add_edges (e ∷ rest) st = do
    src_v ← find e.0 st.id_to_vertex
    st' ← add_edges_from src_v e.1 st
    add_edges rest st'

  module _ (order : Iteration) where
    open order use {visit}

    unfoldable pub add_vertices : ToolData → DagState Dag → Option (DagState Dag)
    add_vertices td st = do
      st' ← add_region_vertices td.regions (visit ℕ td.id_to_parallel_region) st
      add_task_vertices td.tasks (visit ℕ td.id_to_task) st'

    unfoldable pub build_dag : ToolData → DagState Dag → Option (DagState Dag)
    unfolding add_vertices
    build_dag td st = do st' ← add_vertices td st; add_edges (visit (List ℕ) td.dependences) st'
