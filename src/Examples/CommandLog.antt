-- ===== src/Examples/CommandLog.antt =====
-- Runs of src/replication/command_log.cpp: three entries, of which the first is dropped.
use sententia.Prelude.{ℕ, ◌≤◌, ◌≡◌, ◌≢◌, refl, [], ◌∷◌, arith}
use sententia.Types.{Command, cancel_order}
use sententia.CommandLog.{
  LogEntry, CommandLog, new_log, append, first_seq, truncate_through, pop_front,
}
use sententia.CommandLog.Contiguous.{IsContiguous, truncated_through, operate, operate-IsContiguous}

abbrev command : Command
command = cancel_order (record { id = 3 })

abbrev entry : ℕ → LogEntry
entry n = record { seq = n; term = 1; command = command }

-- Entries 2 and 3, with entry 1 dropped.
abbrev kept : CommandLog
kept = record new_log { entries = entry 2 ∷ entry 3 ∷ []; last_seq = 3; truncated_through = 1 }

kept_run :
    truncate_through 1 (append command 1 (append command 1 (append command 1 new_log).1).1).1 ≡ kept
unfolding truncate_through append pop_front
kept_run = refl

kept-IsContiguous : IsContiguous kept
kept-IsContiguous = (1, (refl, (refl, refl)))

kept_some : kept.entries ≢ []
kept_some h = ground (arith, h)

first_le : first_seq kept ≤ 2
unfolding first_seq
first_le = omega arith

operate-IsContiguous_example : IsContiguous (operate (truncated_through 2) kept)
operate-IsContiguous_example =
    operate-IsContiguous (truncated_through 2) kept (omega arith) tt kept-IsContiguous
