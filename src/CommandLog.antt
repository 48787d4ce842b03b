-- ===== src/CommandLog.antt =====
-- include/sententia/replication/command_log.hpp and src/replication/command_log.cpp: the replicated
-- log of commands, the oldest entry first.
pub mod Chain
pub mod Contiguous
pub mod Whole
use sententia.Prelude.{
  ℕ, zero, suc, ◌+◌, ◌-◌, min, max, Bool, true, false, not, ◌&&◌, ◌||◌, Option, none, some, List,
  [], ◌∷◌, ◌++◌, ◌==◌, ltb, leb, if◌then◌else◌, inc64, length, get_elem?, take, drop,
}
use sententia.Types.{Command}

pub record LogEntry : Type 0 where
  pub seq : ℕ
  pub term : ℕ
  pub command : Command

pub record CommandLog : Type 0 where
  pub entries : List LogEntry
  pub last_seq : ℕ
  pub snapshot_seq : ℕ
  pub snapshot_term : ℕ
  pub truncated_through : ℕ

abbrev pub new_log : CommandLog
new_log = record {
  entries = [];
  last_seq = 0;
  snapshot_seq = 0;
  snapshot_term = 0;
  truncated_through = 0;
}

abbrev pub is_empty : List LogEntry → Bool
is_empty [] = true
is_empty (x ∷ xs) = false

-- `push_back` and the new `lastSeq_`.
abbrev pub push : ℕ → ℕ → Command → CommandLog → CommandLog
push seq term cmd log = record log {
  entries = log.entries ++ record { seq = seq; term = term; command = cmd } ∷ [];
  last_seq = seq;
}

unfoldable pub append : Command → ℕ → CommandLog → ℕ × CommandLog
append cmd term log = (inc64 log.last_seq, push (inc64 log.last_seq) term cmd log)

unfoldable pub append_at : ℕ → ℕ → Command → CommandLog → Bool × CommandLog
append_at seq term cmd log =
    if not (seq == inc64 log.last_seq) then (false, log) else (true, push seq term cmd log)

abbrev pub front_seq : ℕ → List LogEntry → ℕ
front_seq default [] = default
front_seq default (x ∷ xs) = x.seq

unfoldable pub first_seq : CommandLog → ℕ
first_seq log = front_seq (inc64 log.truncated_through) log.entries

-- The entry at a sequence number; `none` is `nullptr`.
unfoldable pub at : ℕ → CommandLog → Option LogEntry
at seq log =
    if is_empty log.entries || ltb seq (first_seq log) || ltb log.last_seq seq
    then none
    else get_elem? log.entries (seq - first_seq log)

abbrev pub entry_term : Option LogEntry → Option ℕ
entry_term none = none
entry_term (some x) = some x.term

unfoldable pub term_at : ℕ → CommandLog → Option ℕ
term_at seq log =
    if seq == 0
    then some 0
    else if seq == log.snapshot_seq && not (log.snapshot_seq == 0)
    then some log.snapshot_term
    else entry_term (at seq log)

-- `pop_back` while the last entry is at `seq` or later.
unfoldable pub pop_back : ℕ → List LogEntry → List LogEntry
pop_back seq [] = []
pop_back seq (x ∷ xs) =
    let rest = pop_back seq xs in if is_empty rest && leb seq x.seq then [] else x ∷ rest

abbrev pub back_seq : ℕ → List LogEntry → ℕ
back_seq default [] = default
back_seq default (x ∷ xs) = back_seq x.seq xs

unfoldable pub truncate_from : ℕ → CommandLog → CommandLog
truncate_from seq log =
    let rest = pop_back seq log.entries in
    record log {
      entries = rest;
      last_seq = back_seq (max log.snapshot_seq log.truncated_through) rest;
    }

unfoldable pub set_snapshot_boundary : ℕ → ℕ → CommandLog → CommandLog
set_snapshot_boundary seq term log = record log {
  snapshot_seq = seq;
  snapshot_term = term;
  last_seq = if ltb log.last_seq seq then seq else log.last_seq;
  truncated_through = if ltb log.truncated_through seq then seq else log.truncated_through;
}

unfoldable pub range : ℕ → ℕ → CommandLog → List LogEntry
range from max_count log =
    if is_empty log.entries || ltb log.last_seq from || max_count == 0
    then []
    else if ltb from (first_seq log)
    then []
    else let start = from - first_seq log in
      take (min (length log.entries - start) max_count) (drop start log.entries)

unfoldable pub can_serve_from : ℕ → CommandLog → Bool
can_serve_from from log =
    if from == inc64 log.last_seq then true else leb (first_seq log) from && leb from log.last_seq

-- `pop_front` while the first entry is at `seq` or before, with the last number dropped.
unfoldable pub pop_front : ℕ → ℕ → List LogEntry → ℕ × List LogEntry
pop_front seq through [] = (through, [])
pop_front seq through (x ∷ xs) =
    let rest = pop_front seq x.seq xs in if leb x.seq seq then rest else (through, x ∷ xs)

unfoldable pub truncate_through : ℕ → CommandLog → CommandLog
truncate_through seq log =
    let (through, rest) = pop_front seq log.truncated_through log.entries in
    record log { entries = rest; truncated_through = through }

unfoldable pub clear : CommandLog → CommandLog
clear log = record log { entries = []; last_seq = 0; truncated_through = 0 }
