-- ===== src/Dependences/Frame.antt =====
-- The handlers of depend clauses of src/callbacks.hpp, against the registry.
use ompt_dependency_tracker.Base.{ℕ, List, [], ◌∷◌, arith}
use ompt_dependency_tracker.ToolData.{ToolData}
use ompt_dependency_tracker.ToolData.Registry.{SameRegistry, SameRegistry-trans}
use ompt_dependency_tracker.Dependences.{
  TaskDependence, depend_on, handle_in_dependence, handle_out_dependence, handle_dependence,
  handle_dependences,
}
use ompt_dependency_tracker.Dependences.History.{handle_dependence_cases}

pub handle_in_dependence-SameRegistry :
    (t flag a : ℕ) (s : ToolData) → SameRegistry s (handle_in_dependence t flag a s)
unfolding handle_in_dependence depend_on
handle_in_dependence-SameRegistry t flag a s = ground arith

handle_out_dependence-SameRegistry :
    (t flag a : ℕ) (s : ToolData) → SameRegistry s (handle_out_dependence t flag a s)
unfolding handle_out_dependence depend_on
handle_out_dependence-SameRegistry t flag a s = ground arith

pub handle_dependence-SameRegistry :
    (t : ℕ) (d : TaskDependence) (s : ToolData) → SameRegistry s (handle_dependence t d s)
handle_dependence-SameRegistry t d s =
    handle_dependence_cases (SameRegistry s) t d s
      (λ _. handle_in_dependence-SameRegistry t d.dependence_flags d.variable_addr s)
      (λ _. handle_out_dependence-SameRegistry t d.dependence_flags d.variable_addr s)
      (λ _ _. ground arith)

pub handle_dependences-SameRegistry :
    (t : ℕ) (deps : List TaskDependence) (s : ToolData)
    → SameRegistry s (handle_dependences t deps s)
unfolding handle_dependences
handle_dependences-SameRegistry t [] s = ground arith
handle_dependences-SameRegistry t (d ∷ deps) s =
    SameRegistry-trans s (handle_dependence t d s) _ (handle_dependence-SameRegistry t d s)
      (handle_dependences-SameRegistry t deps (handle_dependence t d s))
