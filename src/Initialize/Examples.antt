-- ===== src/Initialize/Examples.antt =====
-- A runtime that has every entry point, and never brings a task_dependence callback.
use ompt_dependency_tracker.Base.{ℕ, ◌≡◌, ◌≢◌, ◌↔◌, [], Memᴰ, All, length, arith, Returns}
use ompt_dependency_tracker.Callbacks.State.{loaded}
use ompt_dependency_tracker.Callbacks.Events.{Event}
use ompt_dependency_tracker.Callbacks.Examples.{memory}
use ompt_dependency_tracker.Initialize.{Callback, OmptRuntime, ompt_initialize, task_dependence}
use ompt_dependency_tracker.Initialize.Registered.{callback_of, ompt_initialize-registers}

-- 5 is ompt_set_always.
abbrev pub answer : Callback → ℕ
answer task_dependence = 1
answer _ = 5

abbrev pub rt : OmptRuntime
rt = record { lookup = λ name. 4096; set_callback = answer; ompt_set_never = 1 }

ompt_initialize-registers_example : Returns (ompt_initialize rt) (λ r.
    (r.result ≡ 1)
    × (r.tool_data ≡ (loaded memory).tool_data)
    × ((e : Event) → Memᴰ (callback_of e, callback_of e) r.set)
    × All (λ (p : Callback × Callback). p.0 ≡ p.1) r.set
    × (length r.set ≡ 11)
    × ((r.warnings ≡ []) ↔ ((name : Callback) → answer name ≢ 1)))
ompt_initialize-registers_example = ompt_initialize-registers rt memory (omega arith)
