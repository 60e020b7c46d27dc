-- ===== src/Callbacks/Counts.antt =====
-- What the callbacks with several steps leave in the counters.
use Prim.Native.Nat.{bit_and}
use ompt_dependency_tracker.Base.{ℕ, zero, suc, ◌==◌, ◌≡◌, refl, ◌∙◌, inl, inr, Bool-cases}
use ompt_dependency_tracker.Base.Word.{bump}
use ompt_dependency_tracker.Counters.{Counters}
use ompt_dependency_tracker.ToolData.{register_task}
use ompt_dependency_tracker.Dependences.{handle_taskwait_dependences}
use ompt_dependency_tracker.Callbacks.State.{
  Runtime, Tool, store, load, get_own_data, alloc_and_init_own_data, my_next_task_id,
}
use ompt_dependency_tracker.Callbacks.Handlers.{
  SyncRegionKind, ScopeEndpoint, taskwait, scope_begin, scope_end, other_endpoint, on_thread_begin,
  on_task_create, name_parallel_region, create_and_register, parent_of, act_sync_region,
  enter_taskwait, leave_taskwait,
}
use ompt_dependency_tracker.Base.{IfReturns, IfReturns->>=, IfReturns-read}

-- The counters are those of s.
abbrev pub Counts : Counters → Tool → Type 0
Counts c s = s.counters ≡ c

store-Counts : (a v : ℕ) (s : Tool) → IfReturns (store a v s) (Counts s.counters)
unfolding store
store-Counts zero v s = tt
store-Counts (suc a) v s = refl

name_parallel_region-Counts :
    (rt : Runtime) (type : ℕ) (s : Tool)
    → IfReturns (name_parallel_region rt type s) (Counts s.counters)
unfolding name_parallel_region
name_parallel_region-Counts rt type s = elim (Bool-cases (bit_and type rt.task_initial == 0)) [
  | inl other ↦ rw other refl
  | inr initial ↦ rw initial (store-Counts rt.parallel_data rt.unique_id s)
]

pub on_thread_begin-Counts :
    (a : ℕ) (s : Tool)
    → IfReturns
        (on_thread_begin a s)
        (Counts (record s.counters { n_thread_begin = bump s.counters.n_thread_begin }))
unfolding on_thread_begin alloc_and_init_own_data
on_thread_begin-Counts a s =
    IfReturns->>= (Counts (record s.counters { n_thread_begin = bump s.counters.n_thread_begin })) _
      _ _ (store-Counts a _ _) (λ s' e. e)

pub on_task_create-Counts :
    (rt : Runtime) (encountering new_data type codeptr : ℕ) (s : Tool)
    → IfReturns
        (on_task_create rt encountering new_data type codeptr s)
        (Counts (record s.counters { n_explicit_task = bump s.counters.n_explicit_task }))
unfolding on_task_create create_and_register my_next_task_id
on_task_create-Counts rt encountering new_data type codeptr s =
    IfReturns->>= (Counts c) (Counts c) _ _ (store-Counts new_data _ _) (λ s3 e3.
      IfReturns->>= (Counts s3.counters) (Counts c) _ _ (name_parallel_region-Counts rt type s3)
        (λ s4 e4. IfReturns-read (Counts c) (get_own_data rt.thread_data s4) _ (λ thread.
          IfReturns-read (Counts c) (parent_of encountering s4) _ (λ parent.
            IfReturns-read (Counts c) (load new_data s4) _
              (λ id. IfReturns-read (Counts c) (register_task _ _) _ (λ td. e4 ∙ e3))))))
  where
    c : Counters
    c = record s.counters { n_explicit_task = bump s.counters.n_explicit_task }

pub act_sync_region-Counts :
    (rt : Runtime) (kind : SyncRegionKind) (endpoint : ScopeEndpoint) (task_data : ℕ) (s : Tool)
    → IfReturns (act_sync_region rt kind endpoint task_data s) (Counts s.counters)
unfolding act_sync_region enter_taskwait leave_taskwait
act_sync_region-Counts rt taskwait scope_begin task_data s =
    IfReturns-read (Counts s.counters) (load task_data s) _ (λ id.
      IfReturns-read (Counts s.counters) (get_own_data rt.thread_data s) _ (λ own.
        IfReturns-read (Counts s.counters) (handle_taskwait_dependences id s.tool_data) _
          (λ td. refl)))
act_sync_region-Counts rt taskwait scope_end task_data s =
    IfReturns-read (Counts s.counters) (load task_data s) _
      (λ id. IfReturns-read (Counts s.counters) (get_own_data rt.thread_data s) _ (λ own. refl))
act_sync_region-Counts rt taskwait other_endpoint task_data s = refl
act_sync_region-Counts rt _ endpoint task_data s = refl
