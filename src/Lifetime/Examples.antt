-- ===== src/Lifetime/Examples.antt =====
-- The life of the tool in which one thread begins, creates a task and waits for its children, and one
-- in which it creates two tasks, of which the second reads what the first writes.
use ompt_dependency_tracker.Base.{some, [], arith, Returns, subst, sym}
use ompt_dependency_tracker.Callbacks.Log.Sequence.{
  in_sequence, in_sequence-AllPromised, in_sequence-log, facts-IsInOrder,
}
use ompt_dependency_tracker.DagBuilder.Examples.{lists, in_order, show_address}
use ompt_dependency_tracker.Symbols.{describe_address}
use ompt_dependency_tracker.Callbacks.State.{loaded}
use ompt_dependency_tracker.Callbacks.Examples.{memory, events, events-AllPromised}
use ompt_dependency_tracker.Callbacks.Log.{log}
use ompt_dependency_tracker.Initialize.Examples.{rt}
use ompt_dependency_tracker.Finalize.Examples.{graphviz, stripped, tools, stripped-IsLocated}
use ompt_dependency_tracker.Finalize.Logged.{Draws}
use ompt_dependency_tracker.Lifetime.{ompt_start_tool, lifetime}
use ompt_dependency_tracker.Lifetime.WholeRun.{lifetime-Draws}
use ompt_dependency_tracker.Lifetime.Acyclic.{Ascends, lifetime-Ascends}
use ompt_dependency_tracker.Callbacks.Log.Order.{IsInOrder}

lifetime-Draws_example :
    Returns
      (lifetime
        (ompt_start_tool lists show_address in_order graphviz tools (some "dag.dot"))
        rt
        events
        memory)
      (Draws (log events (loaded memory)))
lifetime-Draws_example =
    lifetime-Draws lists show_address in_order graphviz tools (some "dag.dot")
      (λ address. describe_address tools stripped address) rt events memory (omega arith)
      stripped-IsLocated events-AllPromised

lifetime-Ascends_example :
    Returns
      (lifetime
        (ompt_start_tool lists show_address in_order graphviz tools (some "dag.dot"))
        rt
        in_sequence
        memory)
      Ascends
lifetime-Ascends_example =
    lifetime-Ascends lists show_address in_order graphviz tools (some "dag.dot")
      (λ address. describe_address tools stripped address) rt in_sequence memory (omega arith)
      stripped-IsLocated in_sequence-AllPromised
      (subst (λ fs. IsInOrder [] fs) (sym in_sequence-log) facts-IsInOrder)
