-- ===== src/Callbacks/Threads/Examples.antt =====
-- Two threads whose callbacks overlap, and a taskwait: the second takes its id first, and registers
-- its task last.
use ompt_dependency_tracker.Dependences.Effect.{count}
use ompt_dependency_tracker.Callbacks.Threads.Finishing.{work_left, interleave-finished}
use ompt_dependency_tracker.Base.{
  ℕ, some, ◌>>=◌, zero, suc, ◌≤◌, All, get_elem?, ◌+◌, ◌≡◌, List, [], ◌∷◌, arith, length, Returns,
}
use ompt_dependency_tracker.Dependences.{TaskDependence}
use ompt_dependency_tracker.Dependences.Closed.{IsClosed}
use ompt_dependency_tracker.ToolData.Registry.{IsValid}
use ompt_dependency_tracker.Callbacks.State.{Tool, loaded}
use ompt_dependency_tracker.Callbacks.Examples.{
  memory, rt, begun, creating_first, begun-thread, begun-Inv,
}
use ompt_dependency_tracker.Callbacks.Handlers.{on_task_create, on_task_dependences}
use ompt_dependency_tracker.Callbacks.Threads.Agreement.{creation, task_callbacks-agree}
use ompt_dependency_tracker.Callbacks.Threads.{
  Activity, Creation, arriving, waiting, finished, interleave,
}
use ompt_dependency_tracker.Callbacks.Threads.Apart.{is_open, total, AllRegistered}
use ompt_dependency_tracker.Callbacks.Threads.Distinct.{interleave-AllRegistered}

abbrev written : TaskDependence
written = record { variable_addr = 64; dependence_flags = 3 }

abbrev first : Creation
first = record { parent = 0; thread = 0; codeptr = 100; now = 1000; deps = written ∷ [] }

abbrev second : Creation
second = record { parent = 0; thread = 1; codeptr = 200; now = 1001; deps = written ∷ [] }

abbrev pub three : List Activity
three = arriving first ∷ arriving second ∷ waiting 0 ∷ []

interleave-AllRegistered_example :
    Returns (interleave (1 ∷ 0 ∷ 0 ∷ 1 ∷ 2 ∷ 1 ∷ 0 ∷ []) (loaded memory, three)) (λ st.
      IsValid st.0.tool_data
      × IsClosed st.0.tool_data
      × AllRegistered st.0.tool_data
      × (length st.0.tool_data.tasks + total is_open st.1 ≡ 2))
interleave-AllRegistered_example =
    interleave-AllRegistered (1 ∷ 0 ∷ 0 ∷ 1 ∷ 2 ∷ 1 ∷ 0 ∷ []) memory three (tt, (tt, (tt, tt)))
      (omega arith)

-- Each has its turns.
abbrev schedule : List ℕ
schedule = 1 ∷ 0 ∷ 0 ∷ 1 ∷ 2 ∷ 1 ∷ 0 ∷ 0 ∷ 1 ∷ []

enough : (i : ℕ) → work_left (get_elem? three i) ≤ count i schedule
enough zero = omega arith
enough (suc zero) = omega arith
enough (suc (suc zero)) = omega arith
enough (suc (suc (suc i))) = omega arith

interleave-finished_example :
    Returns
      (interleave schedule (loaded memory, three))
      (λ st. All (λ b. b ≡ finished) st.1 × (length st.0.tool_data.tasks ≡ 2))
interleave-finished_example =
    interleave-finished schedule memory three (tt, (tt, (tt, tt))) (omega arith) enough

task_callbacks-agree_example :
    Returns
      (on_task_create rt 0 3 1 100 begun >>= λ s1. on_task_dependences 3 (written ∷ []) s1)
      (λ s2.
        (r : Tool) × (interleave
            (0 ∷ 0 ∷ 0 ∷ 0 ∷ [])
            (begun, arriving (creation rt 0 100 0 (written ∷ []) begun) ∷ [])
          ≡ some (r, finished ∷ []))
        × (r.tool_data ≡ s2.tool_data)
        × (r.next_task_id ≡ s2.next_task_id))
task_callbacks-agree_example =
    task_callbacks-agree rt 0 3 1 100 0 (written ∷ []) begun creating_first begun-thread begun-Inv
