-- ===== src/Lifetime/Acyclic.antt =====
-- When the graph that the tool of src/dependency_tracker.cpp writes has no cycle.
use Prim.Native.String.{String}
use ompt_dependency_tracker.Base.{
  ℕ, ◌<◌, ◌≡◌, ◌≢◌, subst, Option, List, [], All, map, Returns, Returns-map,
}
use ompt_dependency_tracker.DependencyDag.{GraphLibrary, Iteration}
use ompt_dependency_tracker.DagBuilder.Edges.{read_edge}
use ompt_dependency_tracker.Symbols.{Libraries}
use ompt_dependency_tracker.Symbols.Backtrace.{IsLocated}
use ompt_dependency_tracker.Callbacks.State.{loaded}
use ompt_dependency_tracker.Callbacks.Events.{Event}
use ompt_dependency_tracker.Callbacks.Invariant.{AllPromised}
use ompt_dependency_tracker.Callbacks.Log.{log}
use ompt_dependency_tracker.Callbacks.Log.Order.{IsInOrder, demand-lt}
use ompt_dependency_tracker.Initialize.{OmptRuntime}
use ompt_dependency_tracker.Finalize.{Graphviz, Finalized}
use ompt_dependency_tracker.Finalize.Whole.{dot_text}
use ompt_dependency_tracker.Finalize.Logged.{IsJoined, edges_between}
use ompt_dependency_tracker.Lifetime.{ompt_start_tool, lifetime}
use ompt_dependency_tracker.Lifetime.WholeRun.{lifetime-Draws}

-- Every edge of the written text joins two nodes, and leads to the larger id.
pub record Ascends (f : Finalized) : Type 0 where
  pub ids : List ℕ
  pub es : List (ℕ × ℕ)
  pub contents : f.dot.contents ≡ dot_text ids es
  pub joined : All IsJoined (map (read_edge ids) es)
  pub upwards : (u v : ℕ) → 0 < edges_between u v (map (read_edge ids) es) → u < v

-- Where tasks announce their accesses in the order of their ids, no task has two accesses that
-- conflict, and no task waits that has a child, every edge of the file that the tool writes joins
-- two nodes and leads to the larger id, so that the graph has no cycle. As ever, the runtime has
-- an ompt_set_callback and keeps its promises, and libbfd can read the file of every address.
-- Accesses conflict that are to the same address, one under flag 3 and the other under flag 2 or
-- 3.
pub lifetime-Ascends :
    (boost : GraphLibrary) (show : ℕ → String) (order : Iteration) (graphviz : Graphviz boost)
    (lib : Libraries) (env_var : Option String) (name : ℕ → List ℕ) (rt : OmptRuntime)
    (events : List Event) (words : ℕ → ℕ)
    → rt.lookup "ompt_set_callback" ≢ 0
    → ((address : ℕ) → IsLocated lib address (name address))
    → AllPromised events (loaded words)
    → IsInOrder [] (log events (loaded words))
    → Returns
        (lifetime (ompt_start_tool boost show order graphviz lib env_var) rt events words)
        Ascends
lifetime-Ascends boost show order graphviz lib env_var name rt events words found located h
      ordered =
    Returns-map _ _
      (lifetime (ompt_start_tool boost show order graphviz lib env_var) rt events words)
      (λ f d. record {
        ids = d.ids;
        es = d.es;
        contents = d.contents;
        joined = d.joined;
        upwards = λ u v some_edge.
            demand-lt u v [] (log events (loaded words)) ordered
              (subst (λ n. 0 < n) (d.edges u v) some_edge);
      })
      (lifetime-Draws boost show order graphviz lib env_var name rt events words found located h)
