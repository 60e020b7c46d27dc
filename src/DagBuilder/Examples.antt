-- ===== src/DagBuilder/Examples.antt =====
-- The graph of a region, two tasks and a dependence, with a graph library on lists.
use Prim.Native.String.{String}
use mathlib.Core.List.Permᴰ
use ompt_dependency_tracker.Base.{
  ℕ, zero, suc, ◌≡◌, refl, some, get_elem?, List, [], ◌∷◌, ◌++◌, arith, length, Returns,
}
use ompt_dependency_tracker.Table.{find}
use ompt_dependency_tracker.Task.{Task, new_task, explicit}
use ompt_dependency_tracker.ParallelRegion.{new_region}
use ompt_dependency_tracker.ToolData.{ToolData, new_tool_data}
use ompt_dependency_tracker.ToolData.Registry.{IsValid}
use ompt_dependency_tracker.Dependences.Closed.{IsClosed}
use ompt_dependency_tracker.DependencyDag.{VertexProperties, GraphLibrary, Iteration}
use ompt_dependency_tracker.DagBuilder.{build_dag}
use ompt_dependency_tracker.DagBuilder.Faithful.{IsFaithful, unbuilt, build_dag-IsFaithful}

pub record ListDag : Type 0 where
  vertices : List VertexProperties
  edges : List (ℕ × ℕ)

abbrev pub lists : GraphLibrary
lists = record {
  Dag = ListDag;
  empty = record { vertices = []; edges = [] };
  add_vertex = λ vp g. (length g.vertices, record g { vertices = g.vertices ++ vp ∷ [] });
  add_edge = λ u v g. record g { edges = (u, v) ∷ g.edges };
  vertices = λ g. g.vertices;
  edges = λ g. g.edges;
  vertices-empty = refl;
  edges-empty = refl;
  descriptor = λ vp g. refl;
  vertices-add_vertex = λ vp g. refl;
  edges-add_vertex = λ vp g. refl;
  vertices-add_edge = λ u v g p q. refl;
  edges-add_edge = λ u v g p q. Permᴰ.refl _;
}

abbrev pub in_order : Iteration
in_order = record { visit = λ V m. m; visit-perm = λ V m. Permᴰ.refl m }

abbrev pub show_address : ℕ → String
show_address a = "0x400000"

-- Region 7, and task 1 which depends on task 0.
abbrev pub small : ToolData
small = record new_tool_data {
  tasks = new_task 0 0 5 explicit 100 0 ∷ new_task 1 0 5 explicit 200 0 ∷ [];
  regions = new_region 7 0 2 300 ∷ [];
  id_to_task = (0, 0) ∷ (1, 1) ∷ [];
  id_to_parallel_region = (7, 0) ∷ [];
  dependences = (0, 1 ∷ []) ∷ [];
}

childless : (p : ℕ) (t : Task) → get_elem? small.tasks p ≡ some t → t.ancestry_children ≡ []
unfolding new_task
childless zero t e = ground arith
childless (suc zero) t e = ground arith
childless (suc (suc p)) t e = cc

pub small-IsValid : IsValid small
unfolding new_task new_region
small-IsValid = record {
  named = ((_, refl, refl), ((_, refl, refl), tt));
  regions_named = ((_, refl, refl), tt);
  children = λ p t e. rw (childless p t e) tt;
}

pub small-IsClosed : IsClosed small
unfolding find
small-IsClosed = record {
  ins = tt;
  outs = tt;
  inouts = tt;
  edges = (((0, refl), ((1, refl), tt)), tt);
}

build_dag-IsFaithful_example :
    Returns
      (build_dag lists show_address in_order small (unbuilt lists show_address in_order))
      (IsFaithful lists show_address in_order small)
build_dag-IsFaithful_example =
    build_dag-IsFaithful lists show_address in_order small small-IsValid small-IsClosed
