-- ===== src/Dependences/Examples.antt =====
-- Depend clauses and taskwaits on concrete inputs: a task that writes an address, two that read it
-- and one that writes it again; and a parent that waits for its child.
use ompt_dependency_tracker.Base.{
  ℕ, zero, suc, All, get_elem?, subst, ◌≡◌, ◌↔◌, refl, some, List, [], ◌∷◌, Memᴰ, arith, Returns,
}
use ompt_dependency_tracker.Table.{bucket, find}
use ompt_dependency_tracker.Task.{Task, new_task, explicit}
use ompt_dependency_tracker.ToolData.{ToolData, new_tool_data}
use ompt_dependency_tracker.Dependences.{
  TaskDependence, handle_in_dependence, handle_taskwait_dependences,
}
use ompt_dependency_tracker.Dependences.History.{
  Access, track, dependents, track-dependents, track-inouts,
}
use ompt_dependency_tracker.Dependences.Order.{Precedes, track-mem}
use ompt_dependency_tracker.ToolData.Registry.{IsValid, IsChild}
use ompt_dependency_tracker.Dependences.Closed.{IsClosed}
use ompt_dependency_tracker.Dependences.Waiting.{nested_cycle}

abbrev reads : ℕ → TaskDependence
reads a = record { variable_addr = a; dependence_flags = 2 }

abbrev writes : ℕ → TaskDependence
writes a = record { variable_addr = a; dependence_flags = 3 }

abbrev diamond : List Access
diamond = (0, writes 8) ∷ (1, reads 8) ∷ (2, reads 8) ∷ (3, writes 8) ∷ []

diamond_edges : bucket 0 (track diamond new_tool_data).dependences ≡ 1 ∷ 2 ∷ 3 ∷ []
diamond_edges = track-dependents 0 diamond

-- Flag 1 is one of those that are ignored.
abbrev outs : ℕ → TaskDependence
outs a = record { variable_addr = a; dependence_flags = 1 }

outs_make_no_edge :
    bucket 0 (track ((0, outs 8) ∷ (1, reads 8) ∷ []) new_tool_data).dependences ≡ []
outs_make_no_edge = track-dependents 0 ((0, outs 8) ∷ (1, reads 8) ∷ [])

track-dependents_example :
    bucket 1 (track diamond new_tool_data).dependences ≡ dependents 1 [] diamond
track-dependents_example = track-dependents 1 diamond

track-inouts_example : bucket 8 (track diamond new_tool_data).inout_dep_to_tasks ≡ []
track-inouts_example = track-inouts 8 diamond

track-mem_example :
    Memᴰ 3 (bucket 1 (track diamond new_tool_data).dependences) ↔ Precedes 1 3 diamond
track-mem_example = track-mem 1 3 diamond

-- Task 1 is a child of task 0, and task 0 wrote address 8.
abbrev parent_task : Task
parent_task = record (new_task 0 0 5 explicit 100 0) { ancestry_children = 1 ∷ [] }

abbrev child_task : Task
child_task = new_task 1 0 5 explicit 200 0

abbrev family : ToolData
family = record new_tool_data {
  tasks = parent_task ∷ child_task ∷ [];
  id_to_task = (0, 0) ∷ (1, 1) ∷ [];
  out_dep_to_tasks = (8, 0 ∷ []) ∷ [];
}

family_parent : find 0 family.id_to_task ≡ some 0
unfolding find
family_parent = refl

nested_cycle_example :
    Returns
      (handle_taskwait_dependences 0 (handle_in_dependence 1 2 8 family))
      (λ s'. Memᴰ 1 (bucket 0 s'.dependences) × Memᴰ 0 (bucket 1 s'.dependences))
unfolding new_task find
nested_cycle_example =
    nested_cycle 0 1 0 8 parent_task (1 ∷ []) family family_parent refl refl (Memᴰ.head refl)
      (Memᴰ.head refl)

family-children :
    (p : ℕ) (t : Task)
    → get_elem? family.tasks p ≡ some t
    → All (IsChild family.tasks family.id_to_task t.id) t.ancestry_children
unfolding new_task find
family-children zero t e =
    let same : parent_task ≡ t = ground arith in
    subst (λ (w : Task). All (IsChild family.tasks family.id_to_task w.id) w.ancestry_children) same
      ((child_task, refl, refl, (1, refl)), tt)
family-children (suc zero) t e =
    let same : child_task ≡ t = ground arith in
    subst (λ (w : Task). All (IsChild family.tasks family.id_to_task w.id) w.ancestry_children) same
      tt
family-children (suc (suc p)) t e = cc

family-IsValid : IsValid family
unfolding new_task
family-IsValid = record {
  named = ((_, refl, refl), ((_, refl, refl), tt));
  regions_named = tt;
  children = family-children;
}

family-IsClosed : IsClosed family
unfolding find
family-IsClosed = record { ins = tt; outs = ((tt, ((0, refl), tt)), tt); inouts = tt; edges = tt }

family_child : find 1 family.id_to_task ≡ some 1
unfolding find
family_child = refl
