-- ===== src/Lifetime.antt =====
-- ompt_start_tool of src/dependency_tracker.cpp, and the tool from its loading to its end, as the
-- runtime goes through it: the tool is initialized, callbacks come, and the tool is finalized.
pub mod WholeRun
pub mod Acyclic
mod Examples
use Prim.Native.String.{String}
use ompt_dependency_tracker.Base.{ℕ, Option, ◌>>=◌, List}
use ompt_dependency_tracker.ToolData.{ToolData}
use ompt_dependency_tracker.DependencyDag.{GraphLibrary, Iteration}
use ompt_dependency_tracker.DagBuilder.Faithful.{unbuilt}
use ompt_dependency_tracker.Symbols.{Libraries}
use ompt_dependency_tracker.Callbacks.State.{loaded}
use ompt_dependency_tracker.Callbacks.Events.{Event, run}
use ompt_dependency_tracker.Initialize.{OmptRuntime, Initialized, ompt_initialize}
use ompt_dependency_tracker.Finalize.{Graphviz, Finalized, ompt_finalize}

-- `ompt_start_tool_result_t`, without its word of data.
pub record OmptStartToolResult : Type 0 where
  pub initialize : OmptRuntime → Option Initialized
  pub finalize : ToolData → Option Finalized

unfoldable pub ompt_start_tool :
    (boost : GraphLibrary)
    → (ℕ → String)
    → Iteration
    → Graphviz boost
    → Libraries
    → Option String
    → OmptStartToolResult
ompt_start_tool boost show order graphviz lib env_var = record {
  initialize = ompt_initialize;
  finalize =
      λ td. ompt_finalize boost show order graphviz lib env_var td (unbuilt boost show order);
}

-- What the runtime does with the result.
unfoldable pub lifetime :
    OmptStartToolResult → OmptRuntime → List Event → (ℕ → ℕ) → Option Finalized
lifetime tool rt events words = do
  i ← tool.initialize rt
  s ← run events (record (loaded words) { tool_data = i.tool_data })
  tool.finalize s.tool_data
