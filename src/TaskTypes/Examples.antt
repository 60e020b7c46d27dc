-- ===== src/TaskTypes/Examples.antt =====
-- The type of an explicit, untied task.
use ompt_dependency_tracker.Base.{
  ℕ, ◌≡◌, ◌⊎◌, some, [], List, length, replicate, length-replicate, Returns,
}
use ompt_dependency_tracker.CStrings.{read}
use ompt_dependency_tracker.TaskTypes.{TypeBits, tests, format_task_type}
use ompt_dependency_tracker.TaskTypes.PrintIds.{TaskInfo}
use ompt_dependency_tracker.TaskTypes.Formatting.{type_text, format_task_type-reads}

abbrev ompt_bits : TypeBits
ompt_bits = record {
  ompt_task_initial = 1;
  ompt_task_implicit = 2;
  ompt_task_explicit = 4;
  ompt_task_target = 8;
  ompt_task_undeferred = 134217728;
  ompt_task_untied = 268435456;
  ompt_task_final = 536870912;
  ompt_task_mergeable = 1073741824;
  ompt_task_merged = 2147483648;
}

abbrev fresh : List ℕ
fresh = replicate 2048 255

format_task_type-reads_example : Returns (format_task_type ompt_bits 268435460 fresh) (λ mem.
    (length mem ≡ 2048)
    × (((type_text 268435460 (tests ompt_bits) ≡ []) × (mem ≡ fresh))
        ⊎ (read mem ≡ some (type_text 268435460 (tests ompt_bits)))))
format_task_type-reads_example =
    format_task_type-reads ompt_bits 268435460 fresh (length-replicate {A = ℕ} 2048 255)

abbrev info : TaskInfo
info = record {
  exists_task = 1;
  task_type = 268435460;
  frame = some (record { exit_frame = 4096; enter_frame = 8192 });
  task_parallel_value = 77;
  task_value = 3;
  thread_num = 0;
  thread_value = 1;
}
