-- ===== src/Replicator.antt =====
-- include/sententia/replication/replicator.hpp and src/replication/replicator.cpp: the state of a
-- replicator, and what it does with its log and engine alone. A text for the operator is left out.
pub mod Replay
pub mod Applying
pub mod Follower
pub mod Appending
pub mod Placing
pub mod Matching
pub mod Following
pub mod Majority
pub mod Holders
pub mod Commit
pub mod Backups
pub mod Sending
pub mod Leader
pub mod Sent
pub mod Submitting
pub mod Stepping
pub mod Operations
pub mod Calls
pub mod Agreement
pub mod Window
pub mod Compaction
pub mod Lost
pub mod Success
use sententia.Prelude.{
  ℕ, zero, suc, ◌+◌, ◌-◌, ◌/◌, min, Bool, true, false, Option, none, some, List, [], ◌∷◌, ◌++◌, ltb,
  leb, if◌then◌else◌, inc64, length, get_elem?,
}
use sententia.Types.{Command}
use sententia.CommandLog.{CommandLog, LogEntry, at, term_at}
use sententia.Engine.{MatchingEngine, new_engine, apply}
use sententia.Engine.Snapshot.{EngineSnapshot, restore}

pub data Role : Type 0 where
  primary backup : Role

pub data ReplicationMode : Type 0 where
  synchronous asynchronous : ReplicationMode

pub data SubmitStatus : Type 0 where
  accepted busy not_primary no_backup : SubmitStatus

pub record SubmitResult : Type 0 where
  pub status : SubmitStatus
  pub seq : ℕ

pub record ReplicationStats : Type 0 where
  pub submitted : ℕ
  pub submit_rejected_busy : ℕ
  pub applied : ℕ
  pub entries_sent : ℕ
  pub entries_received : ℕ
  pub gaps_detected : ℕ
  pub catch_up_batches : ℕ
  pub probes_sent : ℕ
  pub checksum_mismatches : ℕ
  pub log_truncations : ℕ
  pub role_changes : ℕ
  pub stale_term_rejections : ℕ
  pub log_match_rejections : ℕ
  pub conflicting_entries_truncated : ℕ
  pub snapshots_installed : ℕ
  pub snapshots_taken : ℕ
  pub recovered_from_log : ℕ
  pub commit_advances : ℕ

pub record BackupState : Type 0 where
  pub id : ℕ
  pub match_seq : ℕ
  pub last_commit_sent : ℕ
  pub last_applied : ℕ
  pub last_sent : ℕ
  pub last_checksum : ℕ
  pub probing : Bool

-- `backups` lists the map's values in the order of their ids.
pub record Replicator : Type 0 where
  pub self : ℕ
  pub role : Role
  pub mode : ReplicationMode
  pub engine : MatchingEngine
  pub log : CommandLog
  pub last_applied : ℕ
  pub commit_index : ℕ
  pub term : ℕ
  pub cluster_size : ℕ
  pub snapshot_base : Option EngineSnapshot
  pub sync_window : ℕ
  pub backups : List BackupState
  pub stats : ReplicationStats

abbrev no_stats : ReplicationStats
no_stats = record {
  submitted = 0;
  submit_rejected_busy = 0;
  applied = 0;
  entries_sent = 0;
  entries_received = 0;
  gaps_detected = 0;
  catch_up_batches = 0;
  probes_sent = 0;
  checksum_mismatches = 0;
  log_truncations = 0;
  role_changes = 0;
  stale_term_rejections = 0;
  log_match_rejections = 0;
  conflicting_entries_truncated = 0;
  snapshots_installed = 0;
  snapshots_taken = 0;
  recovered_from_log = 0;
  commit_advances = 0;
}

abbrev pub new_replicator : ℕ → Role → ReplicationMode → MatchingEngine → CommandLog → Replicator
new_replicator self role mode engine log = record {
  self = self;
  role = role;
  mode = mode;
  engine = engine;
  log = log;
  last_applied = 0;
  commit_index = 0;
  term = 0;
  cluster_size = 2;
  snapshot_base = none;
  sync_window = 1;
  backups = [];
  stats = no_stats;
}

abbrev pub is_primary : Role → Bool
is_primary primary = true
is_primary backup = false

abbrev pub is_synchronous : ReplicationMode → Bool
is_synchronous synchronous = true
is_synchronous asynchronous = false

abbrev pub set_term : ℕ → Replicator → Replicator
set_term term s = record s { term = term }

abbrev pub set_sync_window : ℕ → Replicator → Replicator
set_sync_window n s = record s { sync_window = n }

abbrev pub set_cluster_size : ℕ → Replicator → Replicator
set_cluster_size n s = record s { cluster_size = if ltb n 1 then 1 else n }

abbrev pub majority : Replicator → ℕ
majority s = s.cluster_size / 2 + 1

abbrev pub value_or : ℕ → Option ℕ → ℕ
value_or default none = default
value_or default (some n) = n

-- `engine_.apply` with the events thrown away.
unfoldable pub run_command : Command → MatchingEngine → MatchingEngine
run_command cmd e = (apply cmd (e, [])).0

unfoldable pub apply_entry : LogEntry → Replicator → Replicator
apply_entry entry s = record s {
  engine = run_command entry.command s.engine;
  last_applied = entry.seq;
  stats = record s.stats { applied = inc64 s.stats.applied };
}

unfoldable pub apply_loop : ℕ → Replicator → Replicator
apply_loop zero s = s
apply_loop (suc fuel) s = elim (ltb s.last_applied s.commit_index) [
  | false ↦ s
  | true ↦ elim (at (inc64 s.last_applied) s.log) [
    | none ↦ s
    | some entry ↦ apply_loop fuel (apply_entry entry s)
  ]
]

-- The fuel is one round for each number to apply.
unfoldable pub apply_committed : Replicator → Replicator
apply_committed s = apply_loop (s.commit_index - s.last_applied) s

unfoldable pub replay_loop : ℕ → ℕ → Replicator → Replicator
replay_loop zero seq s = s
replay_loop (suc fuel) seq s = elim (leb seq s.log.last_seq) [
  | false ↦ s
  | true ↦ elim (at seq s.log) [
    | none ↦ s
    | some entry ↦
        replay_loop fuel (inc64 seq)
          (record s { engine = run_command entry.command s.engine; last_applied = seq })
  ]
]

abbrev pub restored : Option EngineSnapshot → MatchingEngine → MatchingEngine
restored none e = e
restored (some snap) e = (restore snap e).1

-- `if (commitIndex_ > lastApplied_)`
abbrev pub clamp_commit : Replicator → Replicator
clamp_commit s = record s { commit_index = min s.commit_index s.last_applied }

-- The fuel is one round for each number after the snapshot.
unfoldable pub rebuild_from_log : Replicator → Replicator
rebuild_from_log s = clamp_commit (
    replay_loop (s.log.last_seq - s.log.snapshot_seq) (inc64 s.log.snapshot_seq) (record s {
      engine = restored s.snapshot_base (new_engine s.engine.instrument);
      last_applied = s.log.snapshot_seq;
    }))
