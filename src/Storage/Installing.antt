-- ===== src/Storage/Installing.antt =====
-- `DurableState::installSnapshot` of src/storage/durable_state.cpp, and a recovery that has lost its
-- snapshot.
use sententia.Prelude.{
  ℕ, ◌<◌, ◌≡◌, refl, ap, ◌∙◌, subst, Bool, true, false, not, none, some, Option, ◌⊎◌, inl, inr,
  List, [], ◌∷◌, ◌==◌, ==→≡, if-elim, leb, arith,
}
use sententia.Engine.{MatchingEngine}
use sententia.Engine.Snapshot.{restore, state_checksum}
use sententia.CommandLog.{LogEntry, CommandLog, new_log, append_at, clear, set_snapshot_boundary}
use sententia.Wal.{WalRecord, WriteAheadLog}
use sententia.Wal.Operations
use sententia.Wal.Operations.{Disk}
use sententia.Wal.Recovery.{IsFile, Mirrors, reset-Mirrors}
use sententia.Storage.{Files}
use sententia.Storage.Promises.{IsFiles, Replaces}
use sententia.Storage.SnapshotLoading.{write_snapshot_file-Replaces}
use sententia.Storage.SnapshotFile.{SnapshotRecord, snapshot_bytes, write_snapshot_file}
use sententia.Storage.DurableState.{
  DurableState, Session, Installed, snapshot_path, flat, with_wal, with_engine, reset_wal,
  write_installed, install_snapshot, record_of, recover_records, recovered, first_report, recover,
  recover_with,
}
use sententia.Storage.Entries.{FitsEntry, decode_log_entry-encode_log_entry}

module _ (files : Files) (disk : Disk) (file : IsFile disk) (f : IsFiles files) where
  -- The log that goes on behind a snapshot.
  abbrev pub behind : SnapshotRecord → CommandLog → CommandLog
  behind snap log = set_snapshot_boundary snap.last_included_seq snap.last_included_term (clear log)

  abbrev pub snapshot_file : DurableState → files.State → Option (List ℕ)
  snapshot_file s fs = f.contents (snapshot_path s.dir) fs

  -- A failure in front of the new log: the log, the state and the disk are as they were, and the
  -- snapshot's file has what it had, or the new snapshot where only the end of its write failed.
  abbrev pub Unchanged :
      SnapshotRecord → CommandLog → Session files disk → Installed files disk → Type 0
  Unchanged snap log (s, fs, d) r =
      (r.2 ≡ log)
      × (r.3.0 ≡ s)
      × (r.3.2 ≡ d)
      × ((snapshot_file s r.3.1 ≡ snapshot_file s fs)
          ⊎ (snapshot_file s r.3.1 ≡ some (snapshot_bytes snap)))

  -- The log goes on behind the snapshot, which is kept, in memory and in its file.
  abbrev pub Replaced :
      SnapshotRecord → CommandLog → Session files disk → Installed files disk → Type 0
  Replaced snap log (s, fs, d) r =
      (r.2 ≡ behind snap log)
      × (r.3.0.snapshot ≡ some snap)
      × (snapshot_file s r.3.1 ≡ some (snapshot_bytes snap))

  -- The engine is what `restore` leaves, whatever the result; a success has the checksum of the
  -- snapshot, keeps it, in memory and in its file, and leaves an empty log that goes on behind it, in
  -- memory and on disk. A failure comes before all of this, or is one of emptying the log on disk.
  pub record Installs (snap : SnapshotRecord) (e : MatchingEngine) (log : CommandLog)
      (s : Session files disk) (r : Installed files disk) : Type 0 where
    pub engine : r.1 ≡ (restore snap.engine e).1
    pub restored : r.0 ≡ true → (restore snap.engine e).0 ≡ true
    pub same_sum : r.0 ≡ true → state_checksum r.1 ≡ snap.state_sum
    pub entries : r.0 ≡ true → r.2.entries ≡ []
    pub last_seq : r.0 ≡ true → r.2.last_seq ≡ snap.last_included_seq
    pub boundary :
        r.0 ≡ true
        → (r.2.snapshot_seq ≡ snap.last_included_seq)
          × (r.2.snapshot_term ≡ snap.last_included_term)
    pub emptied : r.0 ≡ true → Mirrors disk file [] (r.3.0.wal, r.3.2)
    pub replaced : r.0 ≡ true → Replaced snap log s r
    pub failed : r.0 ≡ false → Unchanged snap log s r ⊎ Replaced snap log s r

  module _ (snap : SnapshotRecord) (e : MatchingEngine) where
    refused-Installs :
        (log : CommandLog) (s : Session files disk) (fs : files.State)
        → Unchanged snap log s (false, (restore snap.engine e).1, log, (s.0, fs, s.2))
        → Installs snap e log s (false, (restore snap.engine e).1, log, (s.0, fs, s.2))
    refused-Installs log s fs same = record {
      engine = refl;
      restored = λ ok. ground (arith, ok);
      same_sum = λ ok. ground (arith, ok);
      entries = λ ok. ground (arith, ok);
      last_seq = λ ok. ground (arith, ok);
      boundary = λ ok. ground (arith, ok);
      emptied = λ ok. ground (arith, ok);
      replaced = λ ok. ground (arith, ok);
      failed = λ no. inl same;
    }

  cleared-last_seq :
      (seq term : ℕ) (log : CommandLog)
      → (set_snapshot_boundary seq term (clear log)).last_seq ≡ seq
  unfolding set_snapshot_boundary clear
  cleared-last_seq seq term log = ground arith

  -- An installation leaves the engine as `restore` does, also where it then fails. A success has the
  -- checksum of the snapshot; the snapshot is kept, its file has its bytes, and the log is empty and
  -- goes on behind it, in memory and on disk. A failure leaves the log, the state and the disk as they
  -- were, and the file as it was or with the new bytes; or only the log on disk could not be emptied,
  -- and the rest is as after a success. The log's records were those of its file, and the files and
  -- the disk keep the promises of the system.
  pub install_snapshot-Installs :
      (snap : SnapshotRecord) (e : MatchingEngine) (log : CommandLog) (rs : List WalRecord)
      (s : DurableState) (fs : files.State) (d : disk.State)
      → Mirrors disk file rs (s.wal, d)
      → Installs snap e log (s, fs, d) (install_snapshot files disk snap e log (s, fs, d))
  unfolding install_snapshot
  install_snapshot-Installs snap e log rs s fs d m = checked (restore snap.engine e) refl
    where
      untouched : Installs snap e log (s, fs, d) (false, (restore snap.engine e).1, log, (s, fs, d))
      untouched = refused-Installs snap e log (s, fs, d) fs (refl, refl, refl, inl refl)

      wiped :
          (w : Bool × WriteAheadLog × disk.State) (fs' : files.State)
          → (w.0 ≡ true → Mirrors disk file [] (w.1, w.2))
          → snapshot_file s fs' ≡ some (snapshot_bytes snap)
          → (restore snap.engine e).0 ≡ true
          → state_checksum (restore snap.engine e).1 ≡ snap.state_sum
          → Installs snap e log
              (s, fs, d)
              (with_engine files disk
                (restore snap.engine e).1
                (behind snap log)
                (with_wal files disk (record s { snapshot = some snap }) fs' w))
      wiped w fs' h new done sum = record {
        engine = refl;
        restored = λ ok. done;
        same_sum = λ ok. sum;
        entries = λ ok. unfold set_snapshot_boundary clear in refl;
        last_seq = λ ok. cleared-last_seq snap.last_included_seq snap.last_included_term log;
        boundary = λ ok. unfold set_snapshot_boundary clear in (refl, refl);
        emptied = h;
        replaced = λ ok. (refl, refl, new);
        failed = λ no. inr (refl, refl, new);
      }

      written :
          (w : Bool × files.State)
          → Replaces files f (snapshot_path s.dir) (snapshot_bytes snap) fs w
          → (restore snap.engine e).0 ≡ true
          → state_checksum (restore snap.engine e).1 ≡ snap.state_sum
          → Installs snap e log
              (s, fs, d)
              (reset_wal files disk snap (restore snap.engine e).1 log s d w)
      written (false, fs') now done sum =
          refused-Installs snap e log (s, fs, d) fs' (refl, refl, refl, now.either)
      written (true, fs') now done sum =
          wiped (flat files disk (Operations.reset disk (s.wal, d))) fs'
            (reset-Mirrors disk file rs (s.wal, d) m) (now.done refl) done sum

      checked :
          (r : Bool × MatchingEngine)
          → restore snap.engine e ≡ r
          → Installs snap e log (s, fs, d) (write_installed files disk snap r log (s, fs, d))
      checked (false, e') at =
          subst (λ (g : MatchingEngine). Installs snap e log (s, fs, d) (false, g, log, (s, fs, d)))
            (ap (λ r. r.1) at) untouched
      checked (true, e') at =
          subst
            (λ (g : MatchingEngine).
              Installs snap e log (s, fs, d)
                (write_installed files disk snap (true, g) log (s, fs, d)))
            (ap (λ r. r.1) at)
            (if-elim (Installs snap e log (s, fs, d))
              (not (state_checksum (restore snap.engine e).1 == snap.state_sum))
              (λ other. untouched)
              (λ same.
                written (write_snapshot_file files (snapshot_path s.dir) snap fs)
                  (write_snapshot_file-Replaces files f snap (snapshot_path s.dir) fs)
                  (ap (λ r. r.0) at) (==→≡ _ _ (ground (arith, same)))))

gap_at : (x : LogEntry) → 1 < x.seq → (append_at x.seq x.term x.command new_log).0 ≡ false
unfolding append_at
gap_at x late = ground arith

-- Without its snapshot a node whose log on disk begins behind entry 1 recovers nothing, and says that
-- it has succeeded: the engine and the log stay as they were. The first entry fits its fields.
pub recover-nothing :
    (s : DurableState) (x : LogEntry) (rs : List WalRecord) (e : MatchingEngine)
    → s.snapshot ≡ none
    → s.wal.records ≡ record_of x ∷ rs
    → FitsEntry x
    → 1 < x.seq
    → recover s e new_log ≡ recovered (first_report s) (e, new_log, 0)
unfolding recover recover_records
recover-nothing s x rs e lost records fits late =
    let new : leb x.seq 0 ≡ false = ground (arith, late) in
    let gap : (append_at x.seq x.term x.command new_log).0 ≡ false = gap_at x late in
    ap (λ base. recover_with base s e new_log) lost
    ∙ ap (λ l. recovered (first_report s) (recover_records 0 l (e, new_log, 0))) records
    ∙ ap (recovered (first_report s))
        (ground (arith, decode_log_entry-encode_log_entry x fits, new, gap))
