-- ===== src/Finalize/Threads.antt =====
-- The file that ompt_finalize of src/dependency_tracker.cpp writes after several threads were in the
-- callbacks at once.
use Prim.Native.String.{String}
use ompt_dependency_tracker.Base.{ℕ, ◌<◌, Option, List, All, Returns, Returns-map}
use ompt_dependency_tracker.Base.Word.{word_mod}
use ompt_dependency_tracker.DependencyDag.{GraphLibrary, Iteration}
use ompt_dependency_tracker.DagBuilder.Faithful.{unbuilt}
use ompt_dependency_tracker.Symbols.{Libraries}
use ompt_dependency_tracker.Symbols.Backtrace.{IsLocated}
use ompt_dependency_tracker.Finalize.{Graphviz, ompt_finalize}
use ompt_dependency_tracker.Finalize.Whole.{ompt_finalize-IsFinalized}
use ompt_dependency_tracker.Finalize.Logged.{Draws, IsFinalized-Draws}
use ompt_dependency_tracker.Callbacks.State.{loaded}
use ompt_dependency_tracker.Callbacks.Threads.{Activity, interleave}
use ompt_dependency_tracker.Callbacks.Threads.Apart.{is_arriving, total}
use ompt_dependency_tracker.Callbacks.Threads.Log.{turns_log}
use ompt_dependency_tracker.Callbacks.Threads.Distinct.{IsStarting, interleave_loaded}

-- The callbacks of fewer than 2^64 tasks, and any taskwaits, run at once, from loading on, on any
-- number of threads. If libbfd can read the file of every address then, under every schedule,
-- none of them faults, ompt_finalize runs through afterwards, and the file that it writes is what
-- the log of the schedule calls for: one node for the id of each task that was registered and no
-- other node, edges between these nodes only, and from an id u to an id v one edge for each pair
-- of an access of v and an earlier access of u that it conflicts with, and one for each taskwait
-- of v with an earlier registration of u as a child of v, which was registered or was u itself.
-- Accesses conflict that are to the same address, one under flag 3 and the other under flag 2 or
-- 3.
pub interleave-Draws :
    (boost : GraphLibrary) (show : ℕ → String) (order : Iteration) (graphviz : Graphviz boost)
    (lib : Libraries) (env_var : Option String) (name : ℕ → List ℕ) (turns : List ℕ) (words : ℕ → ℕ)
    (activities : List Activity)
    → ((address : ℕ) → IsLocated lib address (name address))
    → All IsStarting activities
    → total is_arriving activities < word_mod
    → Returns (interleave turns (loaded words, activities)) (λ st.
      Returns
        (ompt_finalize boost show order graphviz lib env_var st.0.tool_data
          (unbuilt boost show order))
        (Draws (turns_log turns (loaded words, activities))))
interleave-Draws boost show order graphviz lib env_var name turns words activities located h small =
    Returns-map _ _ (interleave turns (loaded words, activities))
      (λ st (a, heeds).
        Returns-map _ _ (ompt_finalize boost show order graphviz lib env_var st.0.tool_data _)
          (λ f fin. IsFinalized-Draws boost show order lib _ st.0.tool_data f heeds fin)
          (ompt_finalize-IsFinalized boost show order graphviz lib env_var name st.0.tool_data
            located a.valid a.closed a.untouched))
      (interleave_loaded turns words activities h small)
