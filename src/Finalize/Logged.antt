-- ===== src/Finalize/Logged.antt =====
-- The file that ompt_finalize of src/dependency_tracker.cpp writes, against the log of the callbacks.
use Prim.Native.String.{String}
use mathlib.Core.List.Permᴰ
use ompt_dependency_tracker.Base.{
  ℕ, ◌+◌, ◌==◌, if◌then◌else◌, ◌≡◌, refl, ap, ◌∙◌, Bool, true, false, ◌&&◌, ◌||◌, Option, none,
  some, List, [], ◌∷◌, map, Permᴰ, Permᴰ-All, All, arith, Returns, Returns-map, Returns-and,
}
use ompt_dependency_tracker.ToolData.{ToolData, new_tool_data}
use ompt_dependency_tracker.Table.{find}
use ompt_dependency_tracker.Dependences.Effect.{count}
use ompt_dependency_tracker.Dependences.Pairs.{count_pair}
use ompt_dependency_tracker.DependencyDag.{GraphLibrary, Iteration}
use ompt_dependency_tracker.DagBuilder.Edges.{pairs, read_edge, of_labels}
use ompt_dependency_tracker.DagBuilder.Faithful.{unbuilt}
use ompt_dependency_tracker.Symbols.{Libraries}
use ompt_dependency_tracker.Symbols.Backtrace.{IsLocated}
use ompt_dependency_tracker.Finalize.{Graphviz, Finalized, ompt_finalize}
use ompt_dependency_tracker.Finalize.Whole.{dot_text, IsFinalized, run-ompt_finalize}
use ompt_dependency_tracker.Callbacks.State.{loaded}
use ompt_dependency_tracker.Callbacks.Events.{Event, run}
use ompt_dependency_tracker.Callbacks.Invariant.{AllPromised}
use ompt_dependency_tracker.Callbacks.Log.{Fact, log, is_made, demand}
use ompt_dependency_tracker.Callbacks.Log.Facts.{Heeds, is_made-later, count-expected}
use ompt_dependency_tracker.Callbacks.Log.WholeRun.{run-Heeds}

abbrev is_label : Option ℕ → ℕ → Bool
is_label none u = false
is_label (some x) u = x == u

-- The edges between nodes with the labels u and v.
abbrev pub edges_between : ℕ → ℕ → List (Option ℕ × Option ℕ) → ℕ
edges_between u v [] = 0
edges_between u v ((a, b) ∷ es) =
    (if is_label a u && is_label b v then 1 else 0) + edges_between u v es

edges_between-of_labels :
    (u v : ℕ) (ps : List (ℕ × ℕ)) → edges_between u v (map of_labels ps) ≡ count_pair u v ps
edges_between-of_labels u v [] = refl
edges_between-of_labels u v ((x, y) ∷ ps) = omega (arith, edges_between-of_labels u v ps)

abbrev weight : ℕ → ℕ → Option ℕ × Option ℕ → ℕ
weight u v e = if is_label e.0 u && is_label e.1 v then 1 else 0

Permᴰ-edges_between :
    (u v : ℕ) {es fs : List (Option ℕ × Option ℕ)}
    → Permᴰ es fs
    → edges_between u v es ≡ edges_between u v fs
Permᴰ-edges_between u v Permᴰ.nil = refl
Permᴰ-edges_between u v (Permᴰ.cons {a} {b} {l₁} {l₂} e p) =
    omega (arith, ap (weight u v) e, Permᴰ-edges_between u v p)
Permᴰ-edges_between u v (Permᴰ.swap {a} {b} {a'} {b'} {l} e f) =
    omega (arith, ap (weight u v) e, ap (weight u v) f)
Permᴰ-edges_between u v (Permᴰ.trans p q) = Permᴰ-edges_between u v p ∙ Permᴰ-edges_between u v q

Permᴰ-count : (k : ℕ) {xs ys : List ℕ} → Permᴰ xs ys → count k xs ≡ count k ys
Permᴰ-count k Permᴰ.nil = refl
Permᴰ-count k (Permᴰ.cons {a} {b} {l₁} {l₂} e p) = ground (arith, Permᴰ-count k p)
Permᴰ-count k (Permᴰ.swap {a} {b} {a'} {b'} {l} e f) = ground arith
Permᴰ-count k (Permᴰ.trans p q) = Permᴰ-count k p ∙ Permᴰ-count k q

or_false : (b : Bool) → b || false ≡ b
or_false true = refl
or_false false = refl

abbrev pub IsJoined : Option ℕ × Option ℕ → Type 0
IsJoined e = (a : ℕ) × (b : ℕ) × (e ≡ of_labels (a, b))

of_labels-IsJoined : (ps : List (ℕ × ℕ)) → All IsJoined (map of_labels ps)
of_labels-IsJoined [] = tt
of_labels-IsJoined (p ∷ ps) = ((p.0, p.1, refl), of_labels-IsJoined ps)

-- The written text draws these facts: a node for each task that was made, and an edge for each
-- dependence that they call for.
pub record Draws (facts : List Fact) (f : Finalized) : Type 0 where
  pub ids : List ℕ
  pub es : List (ℕ × ℕ)
  pub contents : f.dot.contents ≡ dot_text ids es
  pub nodes : (k : ℕ) → count k ids ≡ (if is_made k facts then 1 else 0)
  -- Every edge joins two of the nodes.
  pub joined : All IsJoined (map (read_edge ids) es)
  pub edges : (u v : ℕ) → edges_between u v (map (read_edge ids) es) ≡ demand u v [] facts

module _ (boost : GraphLibrary) (show : ℕ → String) (order : Iteration) where
  pub IsFinalized-Draws :
      (lib : Libraries) (facts : List Fact) (td : ToolData) (f : Finalized)
      → Heeds [] facts new_tool_data td
      → IsFinalized boost show order lib td f
      → Draws facts f
  unfolding find
  IsFinalized-Draws lib facts td f h fin =
      let (ids, es, contents, nodes, edges) = fin.dot in
      record {
        ids = ids;
        es = es;
        contents = contents;
        nodes = λ k.
            Permᴰ-count k nodes
            ∙ h.logged.once k
            ∙ ap (λ b. if b then 1 else 0) (is_made-later k [] facts ∙ or_false (is_made k facts));
        joined = Permᴰ-All IsJoined (Permᴰ.symm edges) (of_labels-IsJoined (pairs td.dependences));
        edges = λ u v.
            Permᴰ-edges_between u v edges
            ∙ edges_between-of_labels u v (pairs td.dependences)
            ∙ h.logged.agree u v
            ∙ ap (count v) (h.added u)
            ∙ count-expected u v [] facts;
      }

  -- From loading on, whatever callbacks come, if the runtime keeps its promises and libbfd can
  -- read the file of every address, then no callback faults, ompt_finalize runs through, and the
  -- file that it writes is what the log of the callbacks calls for: one node for the id of each
  -- task that was created and no other node, edges between these nodes only, and from an id u to
  -- an id v one edge for each pair of an access of v and an earlier access of u that it conflicts
  -- with, and one for each taskwait of v with an earlier creation of u as a child of v, which
  -- existed or was u itself. Accesses conflict that are to the same address, one under flag 3 and
  -- the other under flag 2 or 3.
  pub run-Draws :
      (graphviz : Graphviz boost) (lib : Libraries) (env_var : Option String) (name : ℕ → List ℕ)
      (events : List Event) (words : ℕ → ℕ)
      → ((address : ℕ) → IsLocated lib address (name address))
      → AllPromised events (loaded words)
      → Returns (run events (loaded words)) (λ s.
        Returns
          (ompt_finalize boost show order graphviz lib env_var s.tool_data
            (unbuilt boost show order))
          (Draws (log events (loaded words))))
  run-Draws graphviz lib env_var name events words located h =
      Returns-map _ _ (run events (loaded words))
        (λ s (finalized, heeds).
          Returns-map _ _ (ompt_finalize boost show order graphviz lib env_var s.tool_data _)
            (λ f fin. IsFinalized-Draws lib _ s.tool_data f heeds fin) finalized)
        (Returns-and _ _ (run events (loaded words))
          (run-ompt_finalize boost show order graphviz lib env_var name events words located h)
          (run-Heeds events words h))
