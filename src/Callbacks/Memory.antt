-- ===== src/Callbacks/Memory.antt =====
-- Reads and writes of the runtime's ompt_data_t objects.
use Prim.Native.Nat.{bit_and}
use ompt_dependency_tracker.Base.{
  ℕ, zero, suc, ◌==◌, if◌then◌else◌, ◌≡◌, ◌≢◌, refl, inl, inr, some, arith, Returns, Bool-cases,
}
use ompt_dependency_tracker.Callbacks.State.{Runtime, Tool, load, store, get_own_data}
use ompt_dependency_tracker.Callbacks.Handlers.{name_parallel_region, parent_of}

-- The calling thread has announced itself: its data leads to a `my_ompt_data_t`.
abbrev pub HasThread : Runtime → Tool → Type 0
HasThread rt s = (own : ℕ) × (get_own_data rt.thread_data s ≡ some own)

pub load-some : (a : ℕ) (s : Tool) → a ≢ 0 → load a s ≡ some (s.words a)
unfolding load
load-some zero s n = absurd (n refl)
load-some (suc a) s n = refl

pub store-some :
    (a v : ℕ) (s : Tool)
    → a ≢ 0
    → store a v s ≡ some (record s { words = λ b. if a == b then v else s.words b })
unfolding store
store-some zero v s n = absurd (n refl)
store-some (suc a) v s n = refl

-- The thread's own data hangs on its word and on the heap alone.
pub get_own_data-same :
    (a : ℕ) (s t : Tool)
    → t.words a ≡ s.words a
    → t.own_data ≡ s.own_data
    → get_own_data a t ≡ get_own_data a s
unfolding get_own_data
get_own_data-same zero s t w o = refl
get_own_data-same (suc a) s t w o = rw (w, o) refl

-- Only words differ, and those at some addresses do not.
pub record OnlyWords (keep : ℕ → Type 0) (s t : Tool) : Type 0 where
  pub counters : t.counters ≡ s.counters
  pub next_id : t.next_id ≡ s.next_id
  pub next_task_id : t.next_task_id ≡ s.next_task_id
  pub own_data : t.own_data ≡ s.own_data
  pub tool_data : t.tool_data ≡ s.tool_data
  pub kept : (a : ℕ) → keep a → t.words a ≡ s.words a

pub name_parallel_region-OnlyWords :
    (rt : Runtime) (type : ℕ) (s : Tool)
    → rt.parallel_data ≢ 0
    → Returns (name_parallel_region rt type s) (OnlyWords (λ a. rt.parallel_data ≢ a) s)
unfolding name_parallel_region
name_parallel_region-OnlyWords rt type s n = elim (Bool-cases (bit_and type rt.task_initial == 0)) [
  | inl other ↦ rw other (record {
    counters = refl;
    next_id = refl;
    next_task_id = refl;
    own_data = refl;
    tool_data = refl;
    kept = λ a k. refl;
  })
  | inr initial ↦
      rw (initial, store-some rt.parallel_data rt.unique_id s n)
        (record {
          counters = refl;
          next_id = refl;
          next_task_id = refl;
          own_data = refl;
          tool_data = refl;
          kept = λ a k. ground arith;
        })
]

-- The parent's id: that of the encountering task, or 0 where there is none.
abbrev pub parent_id_of : ℕ → (ℕ → ℕ) → ℕ
parent_id_of encountering_task_data words =
    if encountering_task_data == 0 then 0 else words encountering_task_data

pub parent_of-some : (a : ℕ) (s : Tool) → parent_of a s ≡ some (parent_id_of a s.words)
unfolding parent_of load
parent_of-some zero s = refl
parent_of-some (suc a) s = ground arith
