-- ===== src/DependencyDag.antt =====
-- src/DependencyDAG.hpp: the properties of a vertex, and the Boost graph as an interface. Boost is
-- not part of the repository, so it is a parameter with its documented behaviour.
use Prim.Native.String.{String}
use mathlib.Core.List.{Permᴰ}
use ompt_dependency_tracker.Base.{ℕ, ◌<◌, ◌≡◌, List, [], ◌∷◌, ◌++◌, length}

pub data VertexType : Type 0 where
  explicit_task implicit_task parallel_region : VertexType

pub record VertexProperties : Type 0 where
  pub vertex_id : ℕ
  pub vertex_type : String
  pub color : String
  pub shape : String
  pub status : String
  pub codeptr_ra : String
  pub dependences : List String

unfoldable pub vtype_label : VertexType → String
vtype_label parallel_region = "Parallel Region"
vtype_label implicit_task = "Implicit Task"
vtype_label explicit_task = "Explicit Task"

unfoldable pub vtype_color : VertexType → String
vtype_color parallel_region = "deeppink"
vtype_color implicit_task = "gold"
vtype_color explicit_task = "gray"

unfoldable pub vtype_shape : VertexType → String
vtype_shape parallel_region = "box"
vtype_shape implicit_task = "trapezium"
vtype_shape explicit_task = "ellipse"

unfoldable pub vtype_status : VertexType → String
vtype_status parallel_region = "Running"
vtype_status implicit_task = "Running"
vtype_status explicit_task = "Created"

-- `show` is how the standard library prints a pointer.
unfoldable pub construct_vprops : (ℕ → String) → VertexType → ℕ → ℕ → VertexProperties
unfolding vtype_label vtype_color vtype_shape vtype_status
construct_vprops show vtype omp_entity_id codeptr_ra = record {
  vertex_id = omp_entity_id;
  vertex_type = vtype_label vtype;
  color = vtype_color vtype;
  shape = vtype_shape vtype;
  status = vtype_status vtype;
  codeptr_ra = show codeptr_ra;
  dependences = [];
}

-- boost::adjacency_list<vecS, vecS, directedS, ...>, as its documentation describes it: vertices are
-- numbered from 0 in the order in which they are added, and parallel edges are kept.
pub record GraphLibrary : Type 1 where
  pub Dag : Type 0
  pub empty : Dag
  pub add_vertex : VertexProperties → Dag → ℕ × Dag
  pub add_edge : ℕ → ℕ → Dag → Dag
  pub vertices : Dag → List VertexProperties
  pub edges : Dag → List (ℕ × ℕ)
  pub vertices-empty : vertices empty ≡ []
  pub edges-empty : edges empty ≡ []
  pub descriptor : (vp : VertexProperties) (g : Dag) → (add_vertex vp g).0 ≡ length (vertices g)
  pub vertices-add_vertex :
      (vp : VertexProperties) (g : Dag) → vertices (add_vertex vp g).1 ≡ vertices g ++ vp ∷ []
  pub edges-add_vertex : (vp : VertexProperties) (g : Dag) → edges (add_vertex vp g).1 ≡ edges g
  pub vertices-add_edge :
      (u v : ℕ) (g : Dag)
      → u < length (vertices g)
      → v < length (vertices g)
      → vertices (add_edge u v g) ≡ vertices g
  pub edges-add_edge :
      (u v : ℕ) (g : Dag)
      → u < length (vertices g)
      → v < length (vertices g)
      → Permᴰ (edges (add_edge u v g)) ((u, v) ∷ edges g)

-- A loop over an unordered_map meets each entry once, in an order that the library chooses.
pub record Iteration : Type 1 where
  pub visit : (V : Type 0) → List (ℕ × V) → List (ℕ × V)
  pub visit-perm : (V : Type 0) (m : List (ℕ × V)) → Permᴰ (visit V m) m
