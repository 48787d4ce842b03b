-- ===== src/Storage/DurableState.antt =====
-- include/sententia/storage/durable_state.hpp and src/storage/durable_state.cpp: the three files of a
-- node, over files and a disk for the log whose calls may fail.
use sententia.Prelude.{
  ℕ, ◌%◌, ◌^◌, Bool, true, false, not, ◌||◌, Option, none, some, List, [], ◌∷◌, ◌==◌, leb,
  if◌then◌else◌, length, inc64,
}
use sententia.Engine.{MatchingEngine}
use sententia.Engine.Snapshot.{restore, state_checksum}
use sententia.CommandLog.{LogEntry, CommandLog, append_at, set_snapshot_boundary, clear}
use sententia.Replicator.{run_command}
use sententia.Wire.{put_u64, new_reader, get_u64}
use sententia.Wire.Decode.{Decode, ◌>>=◌}
use sententia.Message.{◌▷◌, encode_command, decode_command}
use sententia.Wal.{SyncPolicy, WalRecord, WriteAheadLog}
use sententia.Wal.Operations
use sententia.Wal.Operations.{Disk, closed_log, open_file, truncate_through}
use sententia.Storage.{Files, join}
use sententia.Storage.StableStore.{StableStore, fresh_store, open_store, save}
use sententia.Storage.SnapshotFile.{
  SnapshotRecord, snapshot_of, Loaded, nothing, refused, loaded, write_snapshot_file,
  read_snapshot_file,
}

unfoldable pub encode_log_entry : LogEntry → List ℕ → List ℕ
encode_log_entry x w = w ▷ put_u64 x.seq ▷ put_u64 x.term ▷ encode_command x.command

-- `!r.ok() || !r.exhausted()`
unfoldable pub finish_entry : LogEntry → Decode LogEntry
finish_entry x r =
    if r.failed || not (r.position == length r.data_bytes) then (none, r) else (some x, r)

unfoldable pub entry_decoder : Decode LogEntry
entry_decoder = do
  seq ← get_u64
  term ← get_u64
  command ← decode_command
  finish_entry (record { seq = seq; term = term; command = command })

unfoldable pub decode_log_entry : List ℕ → Option LogEntry
decode_log_entry bytes = (entry_decoder (new_reader bytes)).0

pub record RecoveryReport : Type 0 where
  pub had_snapshot : Bool
  pub snapshot_seq : ℕ
  pub entries_replayed : ℕ
  pub last_log_seq : ℕ
  pub current_term : ℕ
  pub voted_for : ℕ
  pub torn_tail_discarded : Bool
  pub torn_tail_bytes : ℕ

pub record DurableState : Type 0 where
  pub dir : List ℕ
  pub wal : WriteAheadLog
  pub stable : StableStore
  pub snapshot : Option SnapshotRecord

abbrev pub new_state : DurableState
new_state = record { dir = []; wal = closed_log; stable = fresh_store []; snapshot = none }

abbrev pub state_path : List ℕ → List ℕ
state_path dir = join dir (b's' ∷ b't' ∷ b'a' ∷ b't' ∷ b'e' ∷ [])

abbrev pub snapshot_path : List ℕ → List ℕ
snapshot_path dir = join dir (b's' ∷ b'n' ∷ b'a' ∷ b'p' ∷ b's' ∷ b'h' ∷ b'o' ∷ b't' ∷ [])

-- What `open` keeps of a snapshot file; an error leaves none.
abbrev pub kept : Loaded → Option SnapshotRecord
kept nothing = none
kept refused = none
kept (loaded snap) = some snap

-- The engine, the log and the count of entries of the loop of `recover`.
abbrev pub Progress : Type 0
Progress = MatchingEngine × CommandLog × ℕ

-- The loop of `recover`, on the records that are left.
unfoldable pub recover_records : ℕ → List WalRecord → Progress → Progress
recover_records start [] p = p
recover_records start (r ∷ rs) (e, log, n) = elim (decode_log_entry r.payload) [
  | none ↦ (e, log, n)
  | some x ↦ elim (leb x.seq start) [
    | true ↦ recover_records start rs (e, log, n)
    | false ↦ elim (append_at x.seq x.term x.command log).0 [
      | false ↦ (e, log, n)
      | true ↦
          recover_records start rs
            (run_command x.command e, (append_at x.seq x.term x.command log).1, inc64 n)
    ]
  ]
]

abbrev pub first_report : DurableState → RecoveryReport
first_report s = record {
  had_snapshot = false;
  snapshot_seq = 0;
  entries_replayed = 0;
  last_log_seq = 0;
  current_term = s.stable.state.current_term;
  voted_for = s.stable.state.voted_for;
  torn_tail_discarded = s.wal.stats.tail_was_torn;
  torn_tail_bytes = s.wal.stats.truncated_tail_bytes;
}

-- What a method on an engine and a log leaves, with whether it succeeded.
abbrev pub Recovery : Type 0
Recovery = Bool × MatchingEngine × CommandLog × RecoveryReport

abbrev pub recovered : RecoveryReport → Progress → Recovery
recovered report (e, log, n) =
    (true, e, log, record report { entries_replayed = n; last_log_seq = log.last_seq })

abbrev pub recover_after :
    DurableState → SnapshotRecord → Bool × MatchingEngine → CommandLog → Recovery
recover_after s snap (false, e) log = (false, e, log, first_report s)
recover_after s snap (true, e) log =
    recovered
      (record (first_report s) { had_snapshot = true; snapshot_seq = snap.last_included_seq })
      (recover_records snap.last_included_seq s.wal.records
        (e, set_snapshot_boundary snap.last_included_seq snap.last_included_term log, 0))

abbrev pub recover_with :
    Option SnapshotRecord → DurableState → MatchingEngine → CommandLog → Recovery
recover_with none s e log = recovered (first_report s) (recover_records 0 s.wal.records (e, log, 0))
recover_with (some snap) s e log = recover_after s snap (restore snap.engine e) log

unfoldable pub recover : DurableState → MatchingEngine → CommandLog → Recovery
recover s e log = recover_with s.snapshot s e log

-- The log's record of an entry.
abbrev pub record_of : LogEntry → WalRecord
record_of x = record { seq = x.seq % 2 ^ 32; payload = encode_log_entry x [] }

module _ (files : Files) (disk : Disk) where
  abbrev pub Session : Type 0
  Session = DurableState × files.State × disk.State

  abbrev pub with_wal :
      DurableState → files.State → Bool × WriteAheadLog × disk.State → Bool × Session
  with_wal s f (ok, wal, d) = (ok, (record s { wal = wal }, f, d))

  -- `open` after the log was opened.
  abbrev pub open_snapshot : Bool × Session → Bool × Session
  open_snapshot (false, s) = (false, s)
  open_snapshot (true, (s, f, d)) = (
    true,
    (record s { snapshot = kept (read_snapshot_file files (snapshot_path s.dir) f) }, f, d),
  )

  abbrev pub flat : Bool × Operations.Session disk → Bool × WriteAheadLog × disk.State
  flat (ok, (wal, d)) = (ok, wal, d)

  abbrev pub open_wal : SyncPolicy → Bool → Bool × StableStore → Session → Bool × Session
  open_wal policy opens (false, store) (s, f, d) = (false, (record s { stable = store }, f, d))
  open_wal policy opens (true, store) (s, f, d) =
      open_snapshot
        (with_wal (record s { stable = store }) f (flat (open_file disk policy opens (s.wal, d))))

  abbrev pub open_state :
      List ℕ → SyncPolicy → Bool → DurableState → disk.State → Bool × files.State → Bool × Session
  open_state dir policy opens s d (false, f) = (false, (record s { dir = dir }, f, d))
  open_state dir policy opens s d (true, f) =
      open_wal policy opens (open_store files (state_path dir) f) (record s { dir = dir }, f, d)

  -- `opens` is whether the system's `open` of the log succeeds.
  unfoldable pub open_durable : List ℕ → SyncPolicy → Bool → Session → Bool × Session
  open_durable dir policy opens (s, f, d) = open_state dir policy opens s d (files.make_dir dir f)

  unfoldable pub append_entry : LogEntry → Session → Bool × Session
  append_entry x (s, f, d) = with_wal s f (flat (Operations.append disk (record_of x) (s.wal, d)))

  abbrev pub saved : DurableState → disk.State → Bool × StableStore × files.State → Bool × Session
  saved s d (ok, store, f) = (ok, (record s { stable = store }, f, d))

  unfoldable pub save_vote : ℕ → ℕ → Session → Bool × Session
  save_vote term voted_for (s, f, d) =
      saved s d (save files (record { current_term = term; voted_for = voted_for }) s.stable f)

  -- `takeSnapshot` after the snapshot was written.
  abbrev pub truncate_wal :
      SnapshotRecord → DurableState → disk.State → Bool × files.State → Bool × Session
  truncate_wal snap s d (false, f) = (false, (s, f, d))
  truncate_wal snap s d (true, f) =
      with_wal (record s { snapshot = some snap }) f
        (flat (truncate_through disk (snap.last_included_seq % 2 ^ 32) (s.wal, d)))

  unfoldable pub take_snapshot : MatchingEngine → ℕ → ℕ → Session → Bool × Session
  take_snapshot e seq term (s, f, d) =
      truncate_wal (snapshot_of e seq term) s d
        (write_snapshot_file files (snapshot_path s.dir) (snapshot_of e seq term) f)

  -- What `installSnapshot` leaves.
  abbrev pub Installed : Type 0
  Installed = Bool × MatchingEngine × CommandLog × Session

  abbrev pub with_engine : MatchingEngine → CommandLog → Bool × Session → Installed
  with_engine e log (ok, s) = (ok, e, log, s)

  -- `installSnapshot` after the snapshot was written.
  abbrev pub reset_wal :
      SnapshotRecord
      → MatchingEngine
      → CommandLog
      → DurableState
      → disk.State
      → Bool × files.State
      → Installed
  reset_wal snap e log s d (false, f) = (false, e, log, (s, f, d))
  reset_wal snap e log s d (true, f) =
      with_engine e
        (set_snapshot_boundary snap.last_included_seq snap.last_included_term (clear log))
        (with_wal (record s { snapshot = some snap }) f (flat (Operations.reset disk (s.wal, d))))

  abbrev pub write_installed :
      SnapshotRecord → Bool × MatchingEngine → CommandLog → Session → Installed
  write_installed snap (false, e) log (s, f, d) = (false, e, log, (s, f, d))
  write_installed snap (true, e) log (s, f, d) =
      if not (state_checksum e == snap.state_sum)
      then (false, e, log, (s, f, d))
      else reset_wal snap e log s d (write_snapshot_file files (snapshot_path s.dir) snap f)

  unfoldable pub install_snapshot :
      SnapshotRecord → MatchingEngine → CommandLog → Session → Installed
  install_snapshot snap e log s = write_installed snap (restore snap.engine e) log s

  unfoldable pub sync_durable : Session → Bool × Session
  sync_durable (s, f, d) = with_wal s f (flat (Operations.sync disk (s.wal, d)))
