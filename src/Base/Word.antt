-- ===== src/Base/Word.antt =====
-- uint64_t counters: an increment wraps at 2^64.
use ompt_dependency_tracker.Base.{ℕ, ◌+◌, ◌%◌, ◌^◌}

abbrev pub word_mod : ℕ
word_mod = 2 ^ 64

-- `n++` on a uint64_t.
abbrev pub bump : ℕ → ℕ
bump n = (n + 1) % word_mod
