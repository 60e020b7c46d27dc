-- ===== src/DagBuilder/WholeRun.antt =====
-- build_dag of src/DAGBuilder.hpp at the end of a run of callbacks.
use Prim.Native.String.{String}
use ompt_dependency_tracker.Base.{ℕ, List, Returns, Returns-map}
use ompt_dependency_tracker.DependencyDag.{GraphLibrary, Iteration}
use ompt_dependency_tracker.DagBuilder.{build_dag}
use ompt_dependency_tracker.DagBuilder.Faithful.{IsFaithful, unbuilt, build_dag-IsFaithful}
use ompt_dependency_tracker.Callbacks.State.{loaded}
use ompt_dependency_tracker.Callbacks.Events.{Event, run}
use ompt_dependency_tracker.Callbacks.Invariant.{AllPromised, run-Inv}

-- From loading on, whatever callbacks come in whatever order, if the runtime keeps its promises
-- then no callback faults, the graph can be built afterwards without a fault, and it has exactly
-- the registered tasks and regions for vertices and the recorded dependences for edges.
pub run-build_dag :
    (boost : GraphLibrary) (show : ℕ → String) (order : Iteration) (events : List Event)
    (words : ℕ → ℕ)
    → AllPromised events (loaded words)
    → Returns (run events (loaded words)) (λ s.
      Returns
        (build_dag boost show order s.tool_data (unbuilt boost show order))
        (IsFaithful boost show order s.tool_data))
run-build_dag boost show order events words h =
    Returns-map _ _ (run events (loaded words))
      (λ s v.
        build_dag-IsFaithful boost show order s.tool_data v.consistent.valid v.consistent.closed)
      (run-Inv events words h)
