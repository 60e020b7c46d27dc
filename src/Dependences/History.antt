-- ===== src/Dependences/History.antt =====
-- The whole history of depend clauses: what `dependences` holds after any sequence of them, from
-- any threads, against a specification that speaks of the sequence alone.
use mathlib.Core.List.{append-nil, append_assoc}
use ompt_dependency_tracker.Base.{
  ℕ, ◌+◌, ◌==◌, if◌then◌else◌, ◌≡◌, refl, sym, ap, ◌∙◌, Bool, true, false, ◌&&◌, ◌||◌, List, [],
  ◌∷◌, ◌++◌, arith, inl, inr, Bool-cases, replicate,
}
use ompt_dependency_tracker.Table.{bucket, find}
use ompt_dependency_tracker.Table.Laws.{bucket-append_to}
use ompt_dependency_tracker.ToolData.{ToolData, new_tool_data}
use ompt_dependency_tracker.Dependences.{
  TaskDependence, handle_dependence, handle_in_dependence, handle_out_dependence,
}
use ompt_dependency_tracker.Dependences.Effect.{
  count, count-concat, handle_in_dependence-bucket, handle_out_dependence-bucket,
  handle_in_dependence-tables, handle_out_dependence-tables,
}

-- A task and one entry of its depend clauses.
abbrev pub Access : Type 0
Access = ℕ × TaskDependence

-- The handlers, one for each access, in the order in which they took the locks.
unfoldable pub track : List Access → ToolData → ToolData
track [] s = s
track ((t, d) ∷ h) s = track h (handle_dependence t d s)

abbrev pub is_in : TaskDependence → Bool
is_in d = d.dependence_flags == 2

abbrev pub is_inout : TaskDependence → Bool
is_inout d = d.dependence_flags == 3

-- A later access conflicts with an earlier one of the same address if one of the two is under flag 3
-- and the other under flag 2 or 3. Accesses under flag 1, or an unknown one, conflict with none.
abbrev pub conflicts : TaskDependence → TaskDependence → Bool
conflicts earlier later =
    earlier.variable_addr == later.variable_addr
    && (is_in earlier && is_inout later || is_inout earlier && (is_in later || is_inout later))

-- The accesses of the task u in the past that a later access conflicts with.
abbrev pub clashes : ℕ → List Access → TaskDependence → ℕ
clashes u [] later = 0
clashes u ((t, d) ∷ past) later =
    (if t == u && conflicts d later then 1 else 0) + clashes u past later

-- The tasks that depend on u: each access enters its task once for each clash with u's past.
abbrev pub dependents : ℕ → List Access → List Access → List ℕ
dependents u past [] = []
dependents u past ((t, d) ∷ h) =
    replicate (clashes u past d) t ++ dependents u (past ++ (t, d) ∷ []) h

-- The accesses of address a under a flag by the task u.
abbrev pub uses : (TaskDependence → Bool) → ℕ → ℕ → List Access → ℕ
uses p u a [] = 0
uses p u a ((t, d) ∷ past) =
    (if t == u && (d.variable_addr == a && p d) then 1 else 0) + uses p u a past

pub uses-concat :
    (p : TaskDependence → Bool) (u a t : ℕ) (d : TaskDependence) (past : List Access)
    → uses p u a (past ++ (t, d) ∷ [])
      ≡ uses p u a past + (if t == u && (d.variable_addr == a && p d) then 1 else 0)
uses-concat p u a t d [] = ground arith
uses-concat p u a t d (x ∷ past) = ground (arith, uses-concat p u a t d past)

clashes-uses :
    (u : ℕ) (past : List Access) (d : TaskDependence)
    → clashes u past d ≡ (
        if is_in d
        then uses is_inout u d.variable_addr past
        else if is_inout d
        then uses is_in u d.variable_addr past + uses is_inout u d.variable_addr past
        else 0)
clashes-uses u [] d = ground arith
clashes-uses u (x ∷ past) d = ground (arith, clashes-uses u past d)

-- The tables hold the past.
pub record Records (past : List Access) (s : ToolData) : Type 0 where
  pub ins : (u a : ℕ) → count u (bucket a s.in_dep_to_tasks) ≡ uses is_in u a past
  pub outs : (u a : ℕ) → count u (bucket a s.out_dep_to_tasks) ≡ uses is_inout u a past
  pub inouts : (a : ℕ) → bucket a s.inout_dep_to_tasks ≡ []

pub new_tool_data-Records : Records [] new_tool_data
unfolding find
new_tool_data-Records = record { ins = λ u a. refl; outs = λ u a. refl; inouts = λ a. refl }

handle_in-Records :
    (t : ℕ) (d : TaskDependence) (past : List Access) (s : ToolData)
    → is_in d ≡ true
    → Records past s
    → Records (past ++ (t, d) ∷ []) (handle_in_dependence t d.dependence_flags d.variable_addr s)
handle_in-Records t d past s flag r =
    let same = handle_in_dependence-tables t d.dependence_flags d.variable_addr s in
    record {
      ins = λ u a. rw same.ins (
          ground (
            arith,
            bucket-append_to d.variable_addr t a s.in_dep_to_tasks,
            count-concat u t (bucket a s.in_dep_to_tasks),
            uses-concat is_in u a t d past,
            r.ins u a,
          ));
      outs = λ u a. rw same.outs (ground (arith, uses-concat is_inout u a t d past, r.outs u a));
      inouts = λ a. rw same.inouts (r.inouts a);
    }

handle_out-Records :
    (t : ℕ) (d : TaskDependence) (past : List Access) (s : ToolData)
    → is_inout d ≡ true
    → Records past s
    → Records (past ++ (t, d) ∷ []) (handle_out_dependence t d.dependence_flags d.variable_addr s)
handle_out-Records t d past s flag r =
    let same = handle_out_dependence-tables t d.dependence_flags d.variable_addr s in
    record {
      ins = λ u a. rw same.ins (ground (arith, uses-concat is_in u a t d past, r.ins u a));
      outs = λ u a. rw same.outs (
          ground (
            arith,
            bucket-append_to d.variable_addr t a s.out_dep_to_tasks,
            count-concat u t (bucket a s.out_dep_to_tasks),
            uses-concat is_inout u a t d past,
            r.outs u a,
          ));
      inouts = λ a. rw same.inouts (r.inouts a);
    }

skip-Records :
    (t : ℕ) (d : TaskDependence) (past : List Access) (s : ToolData)
    → is_in d ≡ false
    → is_inout d ≡ false
    → Records past s
    → Records (past ++ (t, d) ∷ []) s
skip-Records t d past s p q r = record {
  ins = λ u a. ground (arith, uses-concat is_in u a t d past, r.ins u a);
  outs = λ u a. ground (arith, uses-concat is_inout u a t d past, r.outs u a);
  inouts = r.inouts;
}

-- What a round of the callback's loop does, by the flag.
pub handle_dependence_cases {ℓ} :
    (P : ToolData → Type ℓ) (t : ℕ) (d : TaskDependence) (s : ToolData)
    → (is_in d ≡ true → P (handle_in_dependence t d.dependence_flags d.variable_addr s))
    → (is_inout d ≡ true → P (handle_out_dependence t d.dependence_flags d.variable_addr s))
    → (is_in d ≡ false → is_inout d ≡ false → P s)
    → P (handle_dependence t d s)
unfolding handle_dependence
handle_dependence_cases P t d s reads writes skips = elim (Bool-cases (d.dependence_flags == 1)) [
  | inl one ↦ rw one (skips (ground arith) (ground arith))
  | inr not_one ↦ elim (Bool-cases (d.dependence_flags == 2)) [
    | inl two ↦ rw (not_one, two) (reads two)
    | inr not_two ↦ elim (Bool-cases (d.dependence_flags == 3)) [
      | inl three ↦ rw (not_one, not_two, three) (writes three)
      | inr not_three ↦ rw (not_one, not_two, not_three) (skips not_two not_three)
    ]
  ]
]

pub handle_dependence-Records :
    (t : ℕ) (d : TaskDependence) (past : List Access) (s : ToolData)
    → Records past s
    → Records (past ++ (t, d) ∷ []) (handle_dependence t d s)
handle_dependence-Records t d past s r =
    handle_dependence_cases (Records (past ++ (t, d) ∷ [])) t d s
      (λ e. handle_in-Records t d past s e r) (λ e. handle_out-Records t d past s e r)
      (λ e f. skip-Records t d past s e f r)

-- One access adds its task once for each clash.
pub handle_dependence-bucket :
    (u t : ℕ) (d : TaskDependence) (past : List Access) (s : ToolData)
    → Records past s
    → bucket u (handle_dependence t d s).dependences
      ≡ bucket u s.dependences ++ replicate (clashes u past d) t
handle_dependence-bucket u t d past s r =
    handle_dependence_cases (λ s'. bucket u s'.dependences ≡ added (clashes u past d)) t d s
      (λ e.
        handle_in_dependence-bucket u t d.dependence_flags d.variable_addr s
        ∙ ap added (ground (arith, ins, outs, inouts, clash)))
      (λ e.
        handle_out_dependence-bucket u t d.dependence_flags d.variable_addr s
        ∙ ap added (ground (arith, ins, outs, inouts, clash)))
      (λ e f. sym (ap added {y = 0} (ground (arith, clash)) ∙ append-nil _))
  where
    added : ℕ → List ℕ
    added n = bucket u s.dependences ++ replicate n t

    ins : count u (bucket d.variable_addr s.in_dep_to_tasks) ≡ uses is_in u d.variable_addr past
    ins = r.ins u d.variable_addr

    outs :
        count u (bucket d.variable_addr s.out_dep_to_tasks) ≡ uses is_inout u d.variable_addr past
    outs = r.outs u d.variable_addr

    inouts : bucket d.variable_addr s.inout_dep_to_tasks ≡ []
    inouts = r.inouts d.variable_addr

    clash : clashes u past d ≡ (
        if is_in d
        then uses is_inout u d.variable_addr past
        else if is_inout d
        then uses is_in u d.variable_addr past + uses is_inout u d.variable_addr past
        else 0)
    clash = clashes-uses u past d

track-bucket :
    (u : ℕ) (past h : List Access) (s : ToolData)
    → Records past s
    → bucket u (track h s).dependences ≡ bucket u s.dependences ++ dependents u past h
unfolding track
track-bucket u past [] s r = sym (append-nil _)
track-bucket u past ((t, d) ∷ h) s r =
    track-bucket u (past ++ (t, d) ∷ []) h (handle_dependence t d s)
      (handle_dependence-Records t d past s r)
    ∙ ap (λ l. l ++ dependents u (past ++ (t, d) ∷ []) h) (handle_dependence-bucket u t d past s r)
    ∙ append_assoc (bucket u s.dependences) _ _

-- From the start of the tool, after any sequence of depend clauses of any tasks, the entry of
-- `dependences` under u is exactly the list that the sequence alone defines: each access enters
-- its task once for each earlier access of u that it conflicts with, in the order of the
-- accesses. Accesses conflict that are to the same address, one under flag 3 and the other under
-- flag 2 or 3.
pub track-dependents :
    (u : ℕ) (h : List Access) → bucket u (track h new_tool_data).dependences ≡ dependents u [] h
unfolding find
track-dependents u h = track-bucket u [] h new_tool_data new_tool_data-Records

track-Records :
    (past h : List Access) (s : ToolData) → Records past s → Records (past ++ h) (track h s)
unfolding track
track-Records past [] s r = rw (append-nil past) r
track-Records past ((t, d) ∷ h) s r = rw (← append_assoc past ((t, d) ∷ []) h) (
    track-Records (past ++ (t, d) ∷ []) h (handle_dependence t d s)
      (handle_dependence-Records t d past s r))

-- Whatever sequence of depend clauses is handled from the start of the tool, no task is ever
-- entered in `inout_dep_to_tasks`: the loops over that table do nothing.
pub track-inouts :
    (a : ℕ) (h : List Access) → bucket a (track h new_tool_data).inout_dep_to_tasks ≡ []
track-inouts a h = (track-Records [] h new_tool_data new_tool_data-Records).inouts a
