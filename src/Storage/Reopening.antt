-- ===== src/Storage/Reopening.antt =====
-- `DurableState::open` of src/storage/durable_state.cpp finds what is in the files, and a node that
-- took a snapshot resumes from it after a restart.
use sententia.Prelude.{
  ℕ, ◌+◌, ◌%◌, ◌^◌, ◌≤◌, ◌<◌, ◌≡◌, refl, sym, ap, ◌∙◌, subst, ◌⊎◌, inl, inr, Bool, true, false,
  none, some, List, [], ◌∷◌, ltb, if◌then◌else◌, if-elim, Bool-cases, All, append-nil, arith,
}
use sententia.Book.Spread.{IsSound}
use sententia.Engine.{MatchingEngine}
use sententia.Engine.Snapshot.{snapshot, restore}
use sententia.Engine.Restoring.{SameState, restore-snapshot}
use sententia.CommandLog.{LogEntry, new_log}
use sententia.CommandLog.Chain.{Chain}
use sententia.Wal.{SyncPolicy, WalRecord, WriteAheadLog, frame}
use sententia.Wal.Scanning.{Fits, frames}
use sententia.Wal.Operations.{Disk, kept_after, truncate_through, open_file}
use sententia.Wal.Recovery.{IsFile, Mirrors, truncate_through-Mirrors, open_file-recovers}
use sententia.Storage.{Files, Reading, unreadable}
use sententia.Storage.Promises.{IsFiles, reading_of}
use sententia.Storage.StableStore.{StableStore, open_store}
use sententia.Storage.SnapshotFile.{
  SnapshotRecord, snapshot_of, loaded, check_reading, write_snapshot_file, read_snapshot_file,
}
use sententia.Storage.SnapshotBytes.{FitsSnapshot}
use sententia.Storage.SnapshotLoading.{held_snapshot, write_snapshot_file-KeepsSnapshot}
use sententia.Storage.DurableState.{
  DurableState, Session, new_state, kept, snapshot_path, state_path, flat, with_wal, open_snapshot,
  open_wal, open_state, open_durable, truncate_wal, take_snapshot, recover,
}
use sententia.Storage.Entries.{FitsEntry}
use sententia.Storage.Recovering.{records_of, Resumed, OnDisk, base_engine, recover-Resumes}

abbrev pub later_than : ℕ → List LogEntry → List LogEntry
later_than n [] = []
later_than n (x ∷ xs) = if ltb n x.seq then x ∷ later_than n xs else later_than n xs

abbrev Narrow : LogEntry → Type 0
Narrow x = x.seq < 2 ^ 32

kept_after-records_of :
    (n : ℕ) (xs : List LogEntry)
    → All Narrow xs
    → kept_after n (records_of xs) ≡ records_of (later_than n xs)
kept_after-records_of n [] h = refl
kept_after-records_of n (x ∷ xs) h =
    let exact : x.seq % 2 ^ 32 ≡ x.seq = omega (arith, h.0) in
    let rest = kept_after-records_of n xs h.1 in ground (arith, exact, rest)

all_later :
    (n : ℕ) (xs : List LogEntry) (last : ℕ)
    → Chain n xs last
    → (k : ℕ) → k ≤ n
    → later_than k xs ≡ xs
all_later n [] last c k h = refl
all_later n (x ∷ xs) last c k h =
    let new : ltb k x.seq ≡ true = ground (arith, h, c.0) in
    rw (new, all_later (n + 1) xs last c.1 k (omega (arith, h))) refl

later_than-Chain :
    (n b : ℕ) (xs : List LogEntry) (last : ℕ)
    → Chain b xs last
    → b ≤ n
    → n ≤ last
    → Chain n (later_than n xs) last
later_than-Chain n b [] last c below above = omega (arith, c, below, above)
later_than-Chain n b (x ∷ xs) last c below above = elim (Bool-cases (ltb n x.seq)) [
  | inl new ↦
      let same : b ≡ n = ground (arith, new, c.0, below) in
      subst (λ k. Chain k (later_than n (x ∷ xs)) last) same
        (subst (λ ys. Chain b ys last) (sym (all_later b (x ∷ xs) last c n (omega (arith, same))))
          c)
  | inr old ↦
      let more : b + 1 ≤ n = ground (arith, old, c.0) in
      rw old (later_than-Chain n (b + 1) xs last c.1 more above)
]

later_than-All :
    (P : LogEntry → Type 0) (n : ℕ) (xs : List LogEntry) → All P xs → All P (later_than n xs)
later_than-All P n [] h = tt
later_than-All P n (x ∷ xs) h =
    if-elim (All P) (ltb n x.seq) (λ new. (h.0, later_than-All P n xs h.1))
      (λ old. later_than-All P n xs h.1)

Chain-Narrow :
    (b : ℕ) (xs : List LogEntry) (last : ℕ)
    → Chain b xs last
    → last < 2 ^ 32
    → (b ≤ last) × All Narrow xs
Chain-Narrow b [] last c h = (omega (arith, c), tt)
Chain-Narrow b (x ∷ xs) last c h =
    let rest = Chain-Narrow (b + 1) xs last c.1 h in
    (omega (arith, rest.0), (omega (arith, c.0, rest.0, h), rest.1))

restored-Resumed :
    (snap : SnapshotRecord) (s : DurableState) (later : List LogEntry) (last : ℕ)
    (e : MatchingEngine)
    → s.snapshot ≡ some snap
    → s.wal.records ≡ records_of later
    → All FitsEntry later
    → Chain snap.last_included_seq later last
    → last < 2 ^ 64
    → (restore snap.engine e).0 ≡ true
    → Resumed s (some snap) later last (restore snap.engine e).1 (recover s e new_log)
restored-Resumed snap s later last e at records fits chain room ok =
    subst
      (λ base.
        OnDisk s base [] later last
        → (base_engine base e).0 ≡ true
        → Resumed s base later last (base_engine base e).1 (recover s e new_log))
      at (recover-Resumes s [] later last e)
      (record { records = records; fits = (tt, fits); covered = tt; chain = chain; room = room }) ok

abbrev blank : WalRecord
blank = record { seq = 0; payload = [] }

blank-Fits : Fits blank
blank-Fits = record { seq = omega arith; size = omega arith }

module _ (files : Files) (f : IsFiles files) (disk : Disk) (file : IsFile disk) where
  -- The call that reads the snapshot's file fails, and there is no snapshot.
  abbrev pub Unread : List ℕ → Session files disk → Type 0
  Unread dir (s, fs, d) =
      (files.read_file (snapshot_path dir) fs ≡ unreadable) × (s.snapshot ≡ none)

  -- The log's records are those of the file, and the snapshot is the one in its file, or none where
  -- the call that reads it failed.
  pub record Opened (dir : List ℕ) (rs : List WalRecord) (fs : files.State) (r : Session files disk)
      : Type 0 where
    pub records : r.0.wal.records ≡ rs
    pub snapshot :
        Unread dir r ⊎ (r.0.snapshot ≡ kept (held_snapshot files f (snapshot_path dir) fs))

  open_durable-Opened :
      (dir : List ℕ) (policy : SyncPolicy) (rs : List WalRecord) (s : DurableState)
      (fs : files.State) (d : disk.State)
      → All Fits rs
      → file.contents d ≡ frames rs
      → (open_durable files disk dir policy true (s, fs, d)).0 ≡ true
      → Opened dir rs fs (open_durable files disk dir policy true (s, fs, d)).1
  unfolding open_durable
  open_durable-Opened dir policy rs s fs d fits e =
      made (files.make_dir dir fs) (f.make_dir dir (snapshot_path dir) fs)
    where
      log_found :
          (open_file disk policy true (s.wal, d)).0 ≡ true
          → (open_file disk policy true (s.wal, d)).1.0.records ≡ rs
      log_found ok =
          (open_file-recovers disk file policy rs blank 0 (s.wal, d) fits blank-Fits
            (unfold frame in omega arith) (e ∙ sym (append-nil (frames rs))) ok).records

      reading_lem :
          {what : Reading} (fs' : files.State)
          → files.read_file (snapshot_path dir) fs' ≡ what
          → read_snapshot_file files (snapshot_path dir) fs' ≡ check_reading what
      reading_lem fs' at = unfold read_snapshot_file in ap check_reading at

      logged :
          (store : StableStore) (fs' : files.State) (r : Bool × WriteAheadLog × disk.State)
          → f.contents (snapshot_path dir) fs' ≡ f.contents (snapshot_path dir) fs
          → (r.0 ≡ true → r.1.records ≡ rs)
          → let t = record s { dir = dir; stable = store } in
            (open_snapshot files disk (with_wal files disk t fs' r)).0 ≡ true
            → Opened dir rs fs (open_snapshot files disk (with_wal files disk t fs' r)).1
      logged store fs' (false, wal, d') same h ok = ground (arith, ok)
      logged store fs' (true, wal, d') same h ok = record {
        records = h refl;
        snapshot = elim (f.read (snapshot_path dir) fs') [
          | inl bad ↦ inl (bad, ap kept (reading_lem fs' bad))
          | inr good ↦
              inr (
                ap kept (reading_lem fs' good) ∙ ap (λ c. kept (check_reading (reading_of c))) same)
        ];
      }

      stored :
          (r : Bool × StableStore) (fs' : files.State)
          → f.contents (snapshot_path dir) fs' ≡ f.contents (snapshot_path dir) fs
          → (open_wal files disk policy true r (record s { dir = dir }, fs', d)).0 ≡ true
          → Opened dir rs fs (open_wal files disk policy true r (record s { dir = dir }, fs', d)).1
      stored (false, store) fs' same ok = ground (arith, ok)
      stored (true, store) fs' same ok =
          logged store fs' (flat files disk (open_file disk policy true (s.wal, d))) same log_found
            ok

      made :
          (r : Bool × files.State)
          → f.contents (snapshot_path dir) r.1 ≡ f.contents (snapshot_path dir) fs
          → (open_state files disk dir policy true s d r).0 ≡ true
          → Opened dir rs fs (open_state files disk dir policy true s d r).1
      made (false, fs') same ok = ground (arith, ok)
      made (true, fs') same ok = stored (open_store files (state_path dir) fs') fs' same ok

  -- What a snapshot that was taken leaves in the files.
  taken :
      (e : MatchingEngine) (n term b last : ℕ) (xs : List LogEntry) (s : DurableState)
      (fs : files.State) (d : disk.State)
      → Mirrors disk file (records_of xs) (s.wal, d)
      → Chain b xs last
      → last < 2 ^ 32
      → n ≤ last
      → IsSound e.book
      → FitsSnapshot (snapshot_of e n term)
      → (take_snapshot files disk e n term (s, fs, d)).0 ≡ true
      → let (s', fs', d') = (take_snapshot files disk e n term (s, fs, d)).1 in
        (held_snapshot files f (snapshot_path s.dir) fs' ≡ loaded (snapshot_of e n term))
        × Mirrors disk file (records_of (later_than n xs)) (s'.wal, d')
  unfolding take_snapshot
  taken e n term b last xs s fs d m chain small le sound fits =
      written (write_snapshot_file files (snapshot_path s.dir) (snapshot_of e n term) fs)
        (write_snapshot_file-KeepsSnapshot files f e n term (snapshot_path s.dir) fs sound
          fits).done
    where
      written :
          (r : Bool × files.State)
          → (r.0 ≡ true
              → held_snapshot files f (snapshot_path s.dir) r.1 ≡ loaded (snapshot_of e n term))
          → (truncate_wal files disk (snapshot_of e n term) s d r).0 ≡ true
          → let (s', fs', d') = (truncate_wal files disk (snapshot_of e n term) s d r).1 in
            (held_snapshot files f (snapshot_path s.dir) fs' ≡ loaded (snapshot_of e n term))
            × Mirrors disk file (records_of (later_than n xs)) (s'.wal, d')
      written (false, fs') h ok = ground (arith, ok)
      written (true, fs') h ok =
          let exact : n % 2 ^ 32 ≡ n = omega (arith, small, le) in
          (
            h refl,
            subst (λ rs. Mirrors disk file rs (truncate_through disk (n % 2 ^ 32) (s.wal, d)).1)
                (ap (λ k. kept_after k (records_of xs)) exact
                  ∙ kept_after-records_of n xs (Chain-Narrow b xs last chain small).1)
                (truncate_through-Mirrors disk file (n % 2 ^ 32) (records_of xs) (s.wal, d) m ok),
          )

  -- A node that has taken a snapshot and starts again, if the start succeeds, finds the engine of
  -- the snapshot with the later entries run, and just these entries in its log; or the call that reads
  -- the snapshot's file fails, and it has no snapshot. The log had no gap and held the end of the
  -- snapshot, its numbers are below 2^32, the engine's book is sound and its numbers fit their fields,
  -- and the system's calls keep their promises.
  pub take_snapshot-Resumed :
      (e e0 : MatchingEngine) (n term b last : ℕ) (xs : List LogEntry) (policy : SyncPolicy)
      (s : DurableState) (fs : files.State) (d : disk.State)
      → Mirrors disk file (records_of xs) (s.wal, d)
      → All FitsEntry xs
      → Chain b xs last
      → last < 2 ^ 32
      → b ≤ n
      → n ≤ last
      → IsSound e.book
      → FitsSnapshot (snapshot_of e n term)
      → e0.instrument ≡ e.instrument
      → (take_snapshot files disk e n term (s, fs, d)).0 ≡ true
      → let (s', fs', d') = (take_snapshot files disk e n term (s, fs, d)).1 in
        let (ok, started) = open_durable files disk s.dir policy true (new_state, fs', d') in
        let probe = (restore (snapshot e) e0).1 in
        ok ≡ true
        → Unread s.dir started
          ⊎ (SameState probe e
              × Resumed started.0
                  (some (snapshot_of e n term))
                  (later_than n xs)
                  last
                  probe
                  (recover started.0 e0 new_log))
  take_snapshot-Resumed e e0 n term b last xs policy s fs d m fits chain small lo hi sound numbers
        same done ok =
      let now = (take_snapshot files disk e n term (s, fs, d)).1 in
      let (held, mirrors) = taken e n term b last xs s fs d m chain small hi sound numbers done in
      let rs = records_of (later_than n xs) in
      let o =
        open_durable-Opened s.dir policy rs new_state now.1 now.2 mirrors.fits mirrors.contents
          ok in
      let started = (open_durable files disk s.dir policy true (new_state, now.1, now.2)).1.0 in
      let (restores, state) = restore-snapshot e e0 sound same in
      elim o.snapshot [
        | inl lost ↦ inl lost
        | inr good ↦ inr (
          state,
          restored-Resumed (snapshot_of e n term) started (later_than n xs) last e0
              (good ∙ ap kept held) o.records (later_than-All FitsEntry n xs fits)
              (later_than-Chain n b xs last chain lo hi) (omega (arith, small)) restores,
        )
      ]
