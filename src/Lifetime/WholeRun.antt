-- ===== src/Lifetime/WholeRun.antt =====
-- The whole life of the tool of src/dependency_tracker.cpp.
use Prim.Native.String.{String}
use ompt_dependency_tracker.Base.{ℕ, ◌≡◌, ◌≢◌, ap, Option, List, Returns, Returns->>=}
use ompt_dependency_tracker.ToolData.{ToolData}
use ompt_dependency_tracker.DependencyDag.{GraphLibrary, Iteration}
use ompt_dependency_tracker.Symbols.{Libraries}
use ompt_dependency_tracker.Symbols.Backtrace.{IsLocated}
use ompt_dependency_tracker.Callbacks.State.{loaded}
use ompt_dependency_tracker.Callbacks.Events.{Event, run}
use ompt_dependency_tracker.Callbacks.Invariant.{AllPromised}
use ompt_dependency_tracker.Callbacks.Log.{log}
use ompt_dependency_tracker.Initialize.{OmptRuntime, ompt_initialize}
use ompt_dependency_tracker.Initialize.Registered.{ompt_initialize-registers}
use ompt_dependency_tracker.Finalize.{Graphviz}
use ompt_dependency_tracker.Finalize.Logged.{Draws, run-Draws}
use ompt_dependency_tracker.Lifetime.{ompt_start_tool, lifetime}

-- Where the runtime has an ompt_set_callback and libbfd can read the file of every address, the
-- tool that ompt_start_tool hands over goes through its whole life without a fault, whatever
-- callbacks come between its initialization and its end, if the runtime keeps its promises; and
-- the file that it writes is what the log of the callbacks calls for: one node for the id of each
-- task that was created and no other node, edges between these nodes only, and from an id u to an
-- id v one edge for each pair of an access of v and an earlier access of u that it conflicts
-- with, and one for each taskwait of v with an earlier creation of u as a child of v, which
-- existed or was u itself. Accesses conflict that are to the same address, one under flag 3 and
-- the other under flag 2 or 3.
pub lifetime-Draws :
    (boost : GraphLibrary) (show : ℕ → String) (order : Iteration) (graphviz : Graphviz boost)
    (lib : Libraries) (env_var : Option String) (name : ℕ → List ℕ) (rt : OmptRuntime)
    (events : List Event) (words : ℕ → ℕ)
    → rt.lookup "ompt_set_callback" ≢ 0
    → ((address : ℕ) → IsLocated lib address (name address))
    → AllPromised events (loaded words)
    → Returns
        (lifetime (ompt_start_tool boost show order graphviz lib env_var) rt events words)
        (Draws (log events (loaded words)))
unfolding lifetime ompt_start_tool
lifetime-Draws boost show order graphviz lib env_var name rt events words found located h =
    Returns->>= _ _ (ompt_initialize rt) _
      (λ i registered.
        let fresh : record (loaded words) { tool_data = i.tool_data } ≡ loaded words =
          ap (λ (td : ToolData). record (loaded words) { tool_data = td }) registered.1 in
        rw fresh (
          Returns->>= _ _ (run events (loaded words)) _ (λ s drawn. drawn)
            (run-Draws boost show order graphviz lib env_var name events words located h)))
      (ompt_initialize-registers rt words found)
