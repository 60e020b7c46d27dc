-- ===== src/Callbacks/Log/WholeRun.antt =====
-- Whole runs of the callbacks of src/callbacks.hpp, against the log.
use ompt_dependency_tracker.Base.{
  ℕ, ◌≡◌, refl, sym, subst, some, List, [], ◌∷◌, ◌++◌, Returns, Returns-eq, Returns->>=,
  Returns-map, Returns-and,
}
use ompt_dependency_tracker.Table.{bucket, find}
use ompt_dependency_tracker.ToolData.{new_tool_data}
use ompt_dependency_tracker.Callbacks.State.{Tool, loaded}
use ompt_dependency_tracker.Callbacks.Events.{Event, step, run}
use ompt_dependency_tracker.Callbacks.Consistent.{Inv, loaded-Inv}
use ompt_dependency_tracker.Callbacks.Invariant.{AllPromised, step-Inv}
use ompt_dependency_tracker.Callbacks.Log.{Fact, observe, log, expected, later}
use ompt_dependency_tracker.Callbacks.Log.Facts.{
  Logged, new_tool_data-Logged, Heeds, Heeds-nil, Heeds-append,
}
use ompt_dependency_tracker.Callbacks.Log.Steps.{Follows, step-Follows}

log-step :
    (e : Event) (events : List Event) (s s' : Tool)
    → step e s ≡ some s'
    → log (e ∷ events) s ≡ observe e s ++ log events s'
log-step e events s s' stepped = rw stepped refl

-- A run of which the runtime keeps its promises does what its log calls for.
run_from-Heeds :
    (past : List Fact) (events : List Event) (s : Tool)
    → AllPromised events s
    → Inv s
    → Logged past s.tool_data
    → Returns (run events s) (λ s'. Heeds past (log events s) s.tool_data s'.tool_data)
unfolding run
run_from-Heeds past [] s h v l = Heeds-nil past s.tool_data l
run_from-Heeds past (e ∷ events) s h v l =
    Returns->>= (λ s'. (Inv s' × Follows past e s s') × (step e s ≡ some s')) _ (step e s)
      (run events)
      (λ s' ((v', k), stepped).
        Returns-map _ _ (run events s')
          (λ s'' rest.
            subst (λ facts. Heeds past facts s.tool_data s''.tool_data)
              (sym (log-step e events s s' stepped))
              (Heeds-append past (observe e s) (log events s') s.tool_data s'.tool_data
                s''.tool_data k rest))
          (run_from-Heeds (later past (observe e s)) events s' (h.1 s' stepped) v' k.logged))
      (Returns-eq _ (step e s) (
        Returns-and Inv (Follows past e s) (step e s) (step-Inv e s h.0 v)
          (step-Follows past e s h.0 v l)))

pub run-Heeds :
    (events : List Event) (words : ℕ → ℕ)
    → AllPromised events (loaded words)
    → Returns
        (run events (loaded words))
        (λ s. Heeds [] (log events (loaded words)) new_tool_data s.tool_data)
run-Heeds events words h =
    run_from-Heeds [] events (loaded words) h (loaded-Inv words) new_tool_data-Logged

-- From loading on, whatever callbacks come in whatever order, if the runtime keeps its promises
-- then none of them faults, and afterwards the entry of `dependences` under any id u is exactly
-- the list that the log of the run calls for: in the order of the log, the id of each access once
-- for each earlier access of u that it conflicts with, and the id of each taskwait once for each
-- earlier creation of u as a child of the waiting task. Accesses conflict that are to the same
-- address, one under flag 3 and the other under flag 2 or 3.
pub run-expected :
    (u : ℕ) (events : List Event) (words : ℕ → ℕ)
    → AllPromised events (loaded words)
    → Returns
        (run events (loaded words))
        (λ s. bucket u s.tool_data.dependences ≡ expected u [] (log events (loaded words)))
unfolding find
run-expected u events words h =
    Returns-map _ _ (run events (loaded words)) (λ s k. k.added u) (run-Heeds events words h)
