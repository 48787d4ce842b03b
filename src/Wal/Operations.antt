-- ===== src/Wal/Operations.antt =====
-- The methods of `WriteAheadLog` in src/storage/wal.cpp, over any disk. A method returns whether it
-- succeeded, and the log with the disk's state. An early return leaves what was done before it.
use sententia.Prelude.{
  ℕ, suc, ◌-◌, Bool, true, false, not, Option, none, some, List, [], ◌∷◌, ◌++◌, ltb, leb,
  if◌then◌else◌, length, inc64, add64,
}
use sententia.Wal.{
  SyncPolicy, every_write, batched, never, WalRecord, WalStats, WriteAheadLog, max_record_size,
  frame, scan,
}

-- The system's calls on the file of the log: all its bytes from the start, or `none` for an error; a
-- write of bytes at the position, whole; `ftruncate` with the position moved to the new end; and
-- `fdatasync`.
pub record Disk : Type 1 where
  pub State : Type 0
  pub read_all : State → Option (List ℕ)
  pub write_all : List ℕ → State → Bool × State
  pub truncate : ℕ → State → Bool × State
  pub flush : State → Bool × State

abbrev pub no_stats : WalStats
no_stats = record {
  appends = 0;
  fsyncs = 0;
  bytes_written = 0;
  records_replayed = 0;
  truncated_tail_bytes = 0;
  tail_was_torn = false;
}

abbrev pub closed_log : WriteAheadLog
closed_log = record {
  is_open = false;
  policy = every_write;
  batch_size = 64;
  since_sync = 0;
  bytes_on_disk = 0;
  records = [];
  stats = no_stats;
}

abbrev pub is_never : SyncPolicy → Bool
is_never never = true
is_never _ = false

-- Whether `append` ends with a flush.
abbrev pub flushes : SyncPolicy → ℕ → ℕ → Bool
flushes every_write since batch = true
flushes batched since batch = leb batch since
flushes never since batch = false

abbrev pub find_torn : ℕ → WalStats → WalStats
find_torn bytes s =
    if ltb 0 bytes then record s { truncated_tail_bytes = bytes; tail_was_torn = true } else s

abbrev pub kept_after : ℕ → List WalRecord → List WalRecord
kept_after seq [] = []
kept_after seq (r ∷ rs) = if ltb seq r.seq then r ∷ kept_after seq rs else kept_after seq rs

-- What the loop of `replay` leaves in the fields.
abbrev pub found : List WalRecord × ℕ → ℕ → WriteAheadLog → WriteAheadLog
found (records, end) size l = record l {
  records = records;
  stats = find_torn (size - end) (record l.stats { records_replayed = length records });
}

abbrev pub close : WriteAheadLog → WriteAheadLog
close l = record l { is_open = false }

abbrev pub fresh : SyncPolicy → WriteAheadLog → WriteAheadLog
fresh policy l = record l {
  is_open = true;
  policy = policy;
  records = [];
  stats = no_stats;
  since_sync = 0;
}

module _ (disk : Disk) where
  abbrev pub Session : Type 0
  Session = WriteAheadLog × disk.State

  abbrev pub flushed : WriteAheadLog → Bool × disk.State → Bool × Session
  flushed l (false, d) = (false, (l, d))
  flushed l (true, d) = (
    true,
    (record l { since_sync = 0; stats = record l.stats { fsyncs = inc64 l.stats.fsyncs } }, d),
  )

  unfoldable pub sync : Session → Bool × Session
  sync (l, d) =
      if not l.is_open
      then (true, (l, d))
      else if is_never l.policy
      then (true, (record l { since_sync = 0 }, d))
      else flushed l (disk.flush d)

  abbrev pub written : WalRecord → WriteAheadLog → WriteAheadLog
  written r l = record l {
    bytes_on_disk = add64 l.bytes_on_disk (length (frame r));
    records = l.records ++ r ∷ [];
    since_sync = inc64 l.since_sync;
    stats = record l.stats {
      bytes_written = add64 l.stats.bytes_written (length (frame r));
      appends = inc64 l.stats.appends;
    };
  }

  -- `append` after the write.
  abbrev pub after_write : WalRecord → WriteAheadLog → Bool × disk.State → Bool × Session
  after_write r l (false, d) = (false, (l, d))
  after_write r l (true, d) =
      if flushes l.policy (inc64 l.since_sync) l.batch_size
      then sync (written r l, d)
      else (true, (written r l, d))

  unfoldable pub append : WalRecord → Session → Bool × Session
  append r (l, d) =
      if not l.is_open
      then (false, (l, d))
      else if ltb max_record_size (length r.payload)
      then (false, (l, d))
      else after_write r l (disk.write_all (frame r) d)

  abbrev pub after_truncate : WriteAheadLog → Bool × disk.State → Bool × Session
  after_truncate l (false, d) = (false, (l, d))
  after_truncate l (true, d) =
      sync (record l { records = []; bytes_on_disk = 0; since_sync = 0 }, d)

  unfoldable pub reset : Session → Bool × Session
  reset (l, d) = if not l.is_open then (false, (l, d)) else after_truncate l (disk.truncate 0 d)

  -- The loop that appends the records that are kept, and the last `sync`.
  unfoldable pub append_all : List WalRecord → Session → Bool × Session
  append_all [] s = sync s
  append_all (r ∷ rs) s =
      let (done, s') = append r s in elim done [ true ↦ append_all rs s' | false ↦ (false, s') ]

  abbrev pub after_reset : List WalRecord → Bool × Session → Bool × Session
  after_reset keep (false, s) = (false, s)
  after_reset keep (true, s) = append_all keep s

  unfoldable pub truncate_through : ℕ → Session → Bool × Session
  truncate_through seq (l, d) =
      if not l.is_open
      then (false, (l, d))
      else after_reset (kept_after seq l.records) (reset (l, d))

  abbrev pub tail_cut : ℕ → WriteAheadLog → Bool × disk.State → Bool × Session
  tail_cut end l (false, d) = (false, (l, d))
  tail_cut end l (true, d) = (true, (record l { bytes_on_disk = end }, d))

  -- `replay` on the bytes of the file: those behind the last record are cut off.
  unfoldable pub cut_tail : List ℕ → Session → Bool × Session
  cut_tail file (l, d) =
      let (records, end) = scan (suc (length file)) 0 file in
      let l' = found (records, end) (length file) l in
      if ltb end (length file)
      then tail_cut end l' (disk.truncate end d)
      else (true, (record l' { bytes_on_disk = end }, d))

  abbrev pub replayed : Option (List ℕ) → Session → Bool × Session
  replayed none s = (false, s)
  replayed (some file) s = cut_tail file s

  -- `opened` is whether the system's `open` succeeds.
  unfoldable pub open_file : SyncPolicy → Bool → Session → Bool × Session
  open_file policy opened (l, d) =
      if opened
      then replayed (disk.read_all d) (fresh policy l, d)
      else (false, (close (fresh policy l), d))
