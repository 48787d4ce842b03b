-- ===== src/Storage/Recovering.antt =====
-- `DurableState::recover` of src/storage/durable_state.cpp resumes from the snapshot and the log.
use sententia.Prelude.{
  ℕ, suc, ◌+◌, ◌^◌, ◌≤◌, ◌<◌, ◌≡◌, refl, sym, ap, ◌∙◌, Bool, true, false, none, some, Option, List,
  [], ◌∷◌, ◌++◌, length, All, append-nil, append_assoc, arith, inc64,
}
use sententia.Engine.{MatchingEngine}
use sententia.Engine.Snapshot.{restore}
use sententia.CommandLog.{LogEntry, CommandLog, new_log, set_snapshot_boundary, push}
use sententia.CommandLog.Chain.{Chain, Chain-length}
use sententia.Replicator.{run_command}
use sententia.Replicator.Replay.{replay}
use sententia.Wal.{WalRecord}
use sententia.Storage.SnapshotFile.{SnapshotRecord}
use sententia.Storage.DurableState.{
  DurableState, Progress, Recovery, record_of, recover_records, recover_with, recover_after,
  recover,
}
use sententia.Storage.Entries.{FitsEntry, skip_old, run_next}

abbrev pub records_of : List LogEntry → List WalRecord
records_of [] = []
records_of (x ∷ xs) = record_of x ∷ records_of xs

skip_all :
    (start : ℕ) (old : List LogEntry) (rs : List WalRecord) (p : Progress)
    → All FitsEntry old
    → All (λ x. x.seq ≤ start) old
    → recover_records start (records_of old ++ rs) p ≡ recover_records start rs p
skip_all start [] rs p fits h = refl
skip_all start (x ∷ old) rs p fits h =
    skip_old start x fits.0 (records_of old ++ rs) p h.0 ∙ skip_all start old rs p fits.1 h.1

-- The log with some entries more.
abbrev pub extended : List LogEntry → ℕ → CommandLog → CommandLog
extended xs last log = record log { entries = log.entries ++ xs; last_seq = last }

run_all :
    (start b : ℕ) (xs : List LogEntry) (last : ℕ) (e : MatchingEngine) (log : CommandLog) (n : ℕ)
    → All FitsEntry xs
    → Chain b xs last
    → start ≤ b
    → log.last_seq ≡ b
    → n + length xs < 2 ^ 64
    → recover_records start (records_of xs) (e, log, n)
      ≡ (replay xs e, extended xs last log, n + length xs)
unfolding recover_records replay
run_all start b [] last e log n fits chain le at_b room =
    let same : extended [] last log ≡ log =
      ap (λ xs. record log { entries = xs; last_seq = last }) (append-nil log.entries)
      ∙ ap (λ k. record log { last_seq = k }) (chain ∙ sym at_b) in
    rw same (ap (λ k. (e, log, k)) (omega arith))
run_all start b (x ∷ xs) last e log n fits chain le at_b room =
    let next = run_command x.command e in
    let pushed = push x.seq x.term x.command log in
    let count : inc64 n ≡ suc n = omega (arith, room) in
    run_next start x fits.0 (records_of xs) (e, log, n) (omega (arith, le, chain.0))
      (omega (arith, chain.0, at_b))
    ∙ run_all start (b + 1) xs last next pushed (inc64 n) fits.1 chain.1 (omega (arith, le)) chain.0
        (omega (arith, room, count))
    ∙ ap
        (λ (es : List LogEntry).
          (replay xs next, record log { entries = es; last_seq = last }, inc64 n + length xs))
        (append_assoc log.entries (x ∷ []) xs)
    ∙ ap (λ (k : ℕ). (replay xs next, extended (x ∷ xs) last log, k)) (omega (arith, count))

abbrev pub base_seq : Option SnapshotRecord → ℕ
base_seq none = 0
base_seq (some snap) = snap.last_included_seq

-- Where a recovery begins: the engine that it is given, or the snapshot restored into it.
abbrev pub base_engine : Option SnapshotRecord → MatchingEngine → Bool × MatchingEngine
base_engine none e = (true, e)
base_engine (some snap) e = restore snap.engine e

-- The engine is `e` with the later entries run; the log has just these, and goes on from the end of
-- the snapshot.
pub record Resumed (s : DurableState) (base : Option SnapshotRecord) (later : List LogEntry)
    (last : ℕ) (e : MatchingEngine) (r : Recovery) : Type 0 where
  pub done : r.0 ≡ true
  pub engine : r.1 ≡ replay later e
  pub entries : r.2.entries ≡ later
  pub last_seq : r.2.last_seq ≡ last
  pub boundary : r.2.snapshot_seq ≡ base_seq base
  pub replayed : r.3.entries_replayed ≡ length later
  pub reported : r.3.last_log_seq ≡ last
  pub term : r.3.current_term ≡ s.stable.state.current_term
  pub vote : r.3.voted_for ≡ s.stable.state.voted_for

abbrev pub Resumes :
    DurableState → Option SnapshotRecord → List LogEntry → ℕ → MatchingEngine → Recovery → Type 0
Resumes s base later last e r = Resumed s base later last (base_engine base e).1 r

-- What is on disk: entries that the snapshot has, and later ones without a gap.
pub record OnDisk (s : DurableState) (base : Option SnapshotRecord) (old later : List LogEntry)
    (last : ℕ) : Type 0 where
  pub records : s.wal.records ≡ records_of old ++ records_of later
  pub fits : All FitsEntry old × All FitsEntry later
  pub covered : All (λ x. x.seq ≤ base_seq base) old
  pub chain : Chain (base_seq base) later last
  pub room : last < 2 ^ 64

resumed :
    (s : DurableState) (start : ℕ) (old later : List LogEntry) (last : ℕ) (e : MatchingEngine)
    (log : CommandLog)
    → s.wal.records ≡ records_of old ++ records_of later
    → All FitsEntry old × All FitsEntry later
    → All (λ x. x.seq ≤ start) old
    → Chain start later last
    → last < 2 ^ 64
    → log.last_seq ≡ start
    → recover_records start s.wal.records (e, log, 0)
      ≡ (replay later e, extended later last log, length later)
resumed s start old later last e log records fits covered chain room at =
    ap (λ rs. recover_records start rs (e, log, 0)) records
    ∙ skip_all start old (records_of later) (e, log, 0) fits.0 covered
    ∙ run_all start start later last e log 0 fits.1 chain (omega arith) at
        (omega (arith, room, Chain-length start later last chain))
    ∙ ap (λ (k : ℕ). (replay later e, extended later last log, k)) (omega arith)

bounded-last_seq : (seq term : ℕ) → (set_snapshot_boundary seq term new_log).last_seq ≡ seq
unfolding set_snapshot_boundary
bounded-last_seq seq term = ground arith

recovered-Resumes :
    (s : DurableState) (base : Option SnapshotRecord) (old later : List LogEntry) (last : ℕ)
    (e : MatchingEngine)
    → OnDisk s base old later last
    → (base_engine base e).0 ≡ true
    → Resumes s base later last e (recover_with base s e new_log)
recovered-Resumes s none old later last e h ok =
    let run = resumed s 0 old later last e new_log h.records h.fits h.covered h.chain h.room refl in
    rw run (record {
      done = refl;
      engine = refl;
      entries = refl;
      last_seq = refl;
      boundary = refl;
      replayed = refl;
      reported = refl;
      term = refl;
      vote = refl;
    })
recovered-Resumes s (some snap) old later last e h ok = restored (restore snap.engine e) ok
  where
    restored :
        (r : Bool × MatchingEngine)
        → r.0 ≡ true
        → Resumed s (some snap) later last r.1 (recover_after s snap r new_log)
    restored (false, e') done = ground (arith, done)
    restored (true, e') done =
        let log = set_snapshot_boundary snap.last_included_seq snap.last_included_term new_log in
        let at : log.last_seq ≡ snap.last_included_seq =
          bounded-last_seq snap.last_included_seq snap.last_included_term in
        let run =
          resumed s snap.last_included_seq old later last e' log h.records h.fits h.covered h.chain
            h.room at in
        rw run (record {
          done = refl;
          engine = refl;
          entries = unfold set_snapshot_boundary in refl;
          last_seq = refl;
          boundary = unfold set_snapshot_boundary in refl;
          replayed = refl;
          reported = refl;
          term = refl;
          vote = refl;
        })

-- A recovery into a new log resumes: no entry that the snapshot has is run again, all later ones are,
-- and the term and the vote are those of the store. The snapshot restores, the log on disk has no gap
-- behind it, and its numbers fit their fields.
pub recover-Resumes :
    (s : DurableState) (old later : List LogEntry) (last : ℕ) (e : MatchingEngine)
    → OnDisk s s.snapshot old later last
    → (base_engine s.snapshot e).0 ≡ true
    → Resumes s s.snapshot later last e (recover s e new_log)
unfolding recover
recover-Resumes s old later last e h ok = recovered-Resumes s s.snapshot old later last e h ok
