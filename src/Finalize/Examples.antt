-- ===== src/Finalize/Examples.antt =====
-- ompt_finalize and the signal handlers on the lists of DagBuilder/Examples.antt, with the lines of
-- write_graphviz's documentation, and a libbfd for which no section of a file covers an address.

use ompt_dependency_tracker.Base.{
  ℕ, ◌+◌, ◌*◌, ◌≡◌, refl, none, some, ◌>>=◌, [], ◌∷◌, ◌++◌, true, false, arith, length, replicate,
  length-replicate, Returns,
}
use ompt_dependency_tracker.Output.{text}
use ompt_dependency_tracker.Symbols.{
  BfdFile, Libraries, describe_address, describe, map_over_sections, slurp_symtab,
}
use ompt_dependency_tracker.Symbols.Backtrace.{IsLocated}
use ompt_dependency_tracker.DagBuilder.{build_dag}
use ompt_dependency_tracker.DagBuilder.Faithful.{unbuilt, unbuilt-IsIndex}
use ompt_dependency_tracker.DagBuilder.Examples.{
  lists, in_order, show_address, small, small-IsValid, small-IsClosed,
}
use ompt_dependency_tracker.Callbacks.State.{loaded}
use ompt_dependency_tracker.Callbacks.Events.{run}
use ompt_dependency_tracker.Callbacks.Examples.{memory, events, events-AllPromised}
use ompt_dependency_tracker.Finalize.{
  Graphviz, node_lines, edge_lines, ompt_finalize, signal_handler,
}
use ompt_dependency_tracker.Finalize.Whole.{IsFinalized, run-ompt_finalize}
use ompt_dependency_tracker.Finalize.Logged.{Draws}
use ompt_dependency_tracker.Finalize.Threads.{interleave-Draws}
use ompt_dependency_tracker.Callbacks.Threads.{interleave}
use ompt_dependency_tracker.Callbacks.Threads.Log.{turns_log}
use ompt_dependency_tracker.Callbacks.Threads.Examples.{three}
use ompt_dependency_tracker.Finalize.Rebuild.{
  signal_text, n_entities, n_dependences, signal_handler-text, build_dag-signal_handler,
}

abbrev pub graphviz : Graphviz lists
graphviz = record {
  write_graphviz = λ g vw.
      (node_lines vw 0 (length (lists.vertices g)) >>= λ nodes.
      some (text "digraph G {\n" ∷ (nodes ++ (edge_lines (lists.edges g) ++ text "}\n" ∷ []))));
  documented = λ g vw. refl;
}

abbrev pub stripped : BfdFile
stripped = record {
  is_archive = false;
  is_object = true;
  has_syms = true;
  symbols = λ dynamic. some 4;
  sections = [];
  nearest_line = λ section offset. none;
}

-- A printf that shows every number as "1".
abbrev pub tools : Libraries
tools = record {
  objects = [];
  openr = λ file. some stripped;
  malloc = λ n. replicate n 255;
  dec = λ n. 49 ∷ [];
  hex = λ n. 49 ∷ [];
  length-malloc = λ n. length-replicate n 255;
}

pub stripped-IsLocated :
    (address : ℕ) → IsLocated tools address (describe_address tools stripped address)
unfolding slurp_symtab describe_address describe map_over_sections
stripped-IsLocated address = record {
  abfd = stripped;
  opened = refl;
  no_archive = refl;
  object = refl;
  symbols = refl;
  described = refl;
  text = ground arith;
}

run-ompt_finalize_example : Returns (run events (loaded memory)) (λ s.
    Returns
      (ompt_finalize lists show_address in_order graphviz tools
        (some "dag.dot")
        s.tool_data
        (unbuilt lists show_address in_order))
      (IsFinalized lists show_address in_order tools s.tool_data))
run-ompt_finalize_example =
    run-ompt_finalize lists show_address in_order graphviz tools (some "dag.dot")
      (λ address. describe_address tools stripped address) events memory stripped-IsLocated
      events-AllPromised

interleave-Draws_example :
    Returns (interleave (1 ∷ 0 ∷ 0 ∷ 1 ∷ 2 ∷ 1 ∷ 0 ∷ []) (loaded memory, three)) (λ st.
      Returns
        (ompt_finalize lists show_address in_order graphviz tools
          (some "dag.dot")
          st.0.tool_data
          (unbuilt lists show_address in_order))
        (Draws (turns_log (1 ∷ 0 ∷ 0 ∷ 1 ∷ 2 ∷ 1 ∷ 0 ∷ []) (loaded memory, three))))
interleave-Draws_example =
    interleave-Draws lists show_address in_order graphviz tools (some "dag.dot")
      (λ address. describe_address tools stripped address) (1 ∷ 0 ∷ 0 ∷ 1 ∷ 2 ∷ 1 ∷ 0 ∷ []) memory
      three stripped-IsLocated (tt, (tt, (tt, tt))) (omega arith)

-- SIGINT is 2.
signal_handler-text_example :
    Returns
      (signal_handler lists show_address in_order 2 small (unbuilt lists show_address in_order))
      (λ r. (r.0 ≡ signal_text 2 (0 + n_entities small) (0 + n_dependences small)) × (r.1 ≡ 2))
signal_handler-text_example =
    signal_handler-text lists show_address in_order 2 small (unbuilt lists show_address in_order)
      (unbuilt-IsIndex lists show_address in_order) small-IsValid small-IsClosed

build_dag-signal_handler_example :
    Returns
      (build_dag lists show_address in_order small (unbuilt lists show_address in_order))
      (λ st.
        Returns
          (signal_handler lists show_address in_order 2 small st)
          (λ r. r.0 ≡ signal_text 2 (2 * n_entities small) (2 * n_dependences small)))
build_dag-signal_handler_example =
    build_dag-signal_handler lists show_address in_order 2 small small-IsValid small-IsClosed
