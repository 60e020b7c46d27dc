-- ===== src/Initialize/Registered.antt =====
-- What ompt_initialize of src/dependency_tracker.cpp has registered when it returns.
use mathlib.Core.List.{append_assoc, append-nil}
use mathlib.Core.List.Memᴰ
use ompt_dependency_tracker.Base.{
  ℕ, ◌≡◌, ◌≢◌, ◌∙◌, refl, sym, false, ◌==◌, List, [], ◌∷◌, ◌++◌, map, Memᴰ, All, All-Memᴰ,
  All-every, length, ◌↔◌, arith, Returns,
}
use ompt_dependency_tracker.Output.{Output}
use ompt_dependency_tracker.Callbacks.State.{loaded}
use ompt_dependency_tracker.Callbacks.Events.{Event}
use ompt_dependency_tracker.Initialize.{
  Callback, callbacks, OmptRuntime, register_callback, register_callbacks, ompt_initialize,
  thread_begin, thread_end, parallel_begin, parallel_end, implicit_task, task_create,
  task_dependences, task_dependence, task_schedule, sync_region, sync_region_wait,
}

-- The callback that brings an event.
abbrev pub callback_of : Event → Callback
callback_of (Event.thread_begin thread_data) = thread_begin
callback_of (Event.thread_end rt) = thread_end
callback_of (Event.parallel_begin parallel_data) = parallel_begin
callback_of Event.parallel_end = parallel_end
callback_of (Event.task_create rt encountering new_data type codeptr) = task_create
callback_of (Event.implicit_task endpoint) = implicit_task
callback_of (Event.task_dependences task_data deps) = task_dependences
callback_of Event.task_dependence = task_dependence
callback_of (Event.task_schedule rt first status second) = task_schedule
callback_of (Event.sync_region rt kind endpoint task_data) = sync_region
callback_of (Event.sync_region_wait kind endpoint) = sync_region_wait

complete : (name : Callback) → Memᴰ name callbacks
complete thread_begin = search (Memᴰ.head, Memᴰ.tail) depth 12
complete thread_end = search (Memᴰ.head, Memᴰ.tail) depth 12
complete parallel_begin = search (Memᴰ.head, Memᴰ.tail) depth 12
complete parallel_end = search (Memᴰ.head, Memᴰ.tail) depth 12
complete implicit_task = search (Memᴰ.head, Memᴰ.tail) depth 12
complete task_create = search (Memᴰ.head, Memᴰ.tail) depth 12
complete task_dependences = search (Memᴰ.head, Memᴰ.tail) depth 12
complete task_dependence = search (Memᴰ.head, Memᴰ.tail) depth 12
complete task_schedule = search (Memᴰ.head, Memᴰ.tail) depth 12
complete sync_region = search (Memᴰ.head, Memᴰ.tail) depth 12
complete sync_region_wait = search (Memᴰ.head, Memᴰ.tail) depth 12

module _ (rt : OmptRuntime) where
  open rt use {lookup, set_callback, ompt_set_never}

  register_callbacks-set :
      (names : List Callback) (done : List (Callback × Callback) × Output)
      → (register_callbacks rt names done).0 ≡ done.0 ++ map (λ name. (name, name)) names
  unfolding register_callbacks register_callback
  register_callbacks-set [] done = sym (append-nil done.0)
  register_callbacks-set (name ∷ names) done =
      register_callbacks-set names (register_callback rt name done)
      ∙ append_assoc done.0 ((name, name) ∷ []) (map (λ n. (n, n)) names)

  warned_once :
      (name : Callback) (done : List (Callback × Callback) × Output)
      → ((register_callback rt name done).1 ≡ [])
        ↔ ((done.1 ≡ []) × (set_callback name ≢ ompt_set_never))
  unfolding register_callback
  warned_once name (set, []) = ground arith
  warned_once name (set, o ∷ out) = ground arith

  warned :
      (names : List Callback) (done : List (Callback × Callback) × Output)
      → ((register_callbacks rt names done).1 ≡ [])
        ↔ ((done.1 ≡ []) × All (λ name. set_callback name ≢ ompt_set_never) names)
  unfolding register_callbacks register_callback
  warned [] done = (λ e. (e, tt), λ h. h.0)
  warned (name ∷ names) done =
      ground (arith, warned names (register_callback rt name done), warned_once name done)

  -- Where the runtime has an ompt_set_callback, ompt_initialize returns 1, with the tool data that the
  -- first callback finds; it makes eleven registrations, each of a callback with its own handler, and
  -- for every event the callback that brings it is among them; a warning is printed exactly if the
  -- runtime refuses a callback with ompt_set_never.
  pub ompt_initialize-registers :
      (words : ℕ → ℕ)
      → lookup "ompt_set_callback" ≢ 0
      → Returns (ompt_initialize rt) (λ r.
        (r.result ≡ 1)
        × (r.tool_data ≡ (loaded words).tool_data)
        × ((e : Event) → Memᴰ (callback_of e, callback_of e) r.set)
        × All (λ (p : Callback × Callback). p.0 ≡ p.1) r.set
        × (length r.set ≡ 11)
        × ((r.warnings ≡ []) ↔ ((name : Callback) → set_callback name ≢ ompt_set_never)))
  unfolding ompt_initialize
  ompt_initialize-registers words found =
      let made : (register_callbacks rt callbacks ([], [])).0 ≡ map own callbacks =
        register_callbacks-set callbacks ([], []) in
      rw (not_null) (
        refl,
        refl,
        λ e. rw made (Memᴰ.map own (complete (callback_of e))),
        rw made (
          refl,
          (refl, (refl, (refl, (refl, (refl, (refl, (refl, (refl, (refl, (refl, tt)))))))))),
        ),
        rw made refl,
        (
          λ quiet name.
              All-Memᴰ accepts callbacks ((warned callbacks ([], [])).0 quiet).1 (complete name),
          λ accepted. (warned callbacks ([], [])).1 (refl, All-every accepts callbacks accepted),
        ),
      )
    where
      accepts : Callback → Type 0
      accepts name = set_callback name ≢ ompt_set_never

      own : Callback → Callback × Callback
      own name = (name, name)

      not_null : (lookup "ompt_set_callback" == 0) ≡ false
      not_null = ground arith
