-- ===== src/Storage/SnapshotLoading.antt =====
-- Snapshots of src/storage/snapshot.cpp are loaded from their file, and no others.
use sententia.Prelude.{
  ◌^◌, ℕ, suc, ◌+◌, ◌-◌, ◌<◌, ◌≡◌, refl, ap, ◌∙◌, ◌⊎◌, inl, inr, Bool, true, false, not, Option,
  some, none, List, [], ◌∷◌, ◌++◌, ◌==◌, ==-refl, ==→≡, if-elim, ltb, length, length-append, take,
  arith,
}
use sententia.Wire.{byte_at}
use sententia.Book.Spread.{IsSound}
use sententia.Engine.{MatchingEngine, new_engine}
use sententia.Engine.Snapshot.{snapshot, restore, state_checksum}
use sententia.Engine.Restoring.{restore-snapshot, state_checksum-SameState}
use sententia.Wal.{crc32, word, get_word}
use sententia.Wal.Scanning.{word_back, crc32_fits, take_front}
use sententia.Storage.{Reading, absent, unreadable, bytes_read, Files}
use sententia.Storage.Promises.{IsFiles, reading_of, Replaces, replace, replace-Replaces}
use sententia.Storage.SnapshotFile.{
  SnapshotRecord, snapshot_of, Loaded, refused, loaded, encode_snapshot, decode_snapshot,
  snapshot_bytes, try_snapshot, try_decoded, check_file, check_reading, write_snapshot_file,
  read_snapshot_file,
}
use sententia.Storage.SnapshotBytes.{FitsSnapshot, decode_snapshot-encode_snapshot}

byte_at-append : (xs ys : List ℕ) (k : ℕ) → byte_at (xs ++ ys) (length xs + k) ≡ byte_at ys k
unfolding byte_at
byte_at-append [] ys k = ap (byte_at ys) (omega arith)
byte_at-append (x ∷ xs) ys k =
    ap (byte_at (x ∷ xs ++ ys)) {x = suc (length xs) + k} {y = suc (length xs + k)} (omega arith)
    ∙ byte_at-append xs ys k

get_word-append : (xs : List ℕ) (v : ℕ) → v < 2 ^ 32 → get_word (xs ++ word v) (length xs) ≡ v
unfolding get_word
get_word-append xs v h =
    rw
      (
        byte_at-append xs (word v) 1,
        byte_at-append xs (word v) 2,
        byte_at-append xs (word v) 3,
        ap (byte_at (xs ++ word v)) {x = length xs} {y = length xs + 0} (omega arith)
            ∙ byte_at-append xs (word v) 0,
      )
      (unfold byte_at in word_back v h)

-- The file of a snapshot that fits passes every check up to the trial.
bytes-check_file :
    (snap : SnapshotRecord)
    → FitsSnapshot snap
    → check_file (snapshot_bytes snap) ≡ try_snapshot snap
unfolding check_file snapshot_bytes
bytes-check_file snap f =
    let body = encode_snapshot snap [] in
    let sum = word (crc32 body) in
    let size : length (body ++ sum) - 4 ≡ length body = omega (arith, length-append body sum) in
    let long : ltb (length (body ++ sum)) 4 ≡ false = ground (arith, length-append body sum) in
    rw
      (
        long,
        size,
        take_front body sum,
        get_word-append body (crc32 body) (crc32_fits body),
        ==-refl (crc32 body),
        decode_snapshot-encode_snapshot snap f,
      )
      refl

pub sound-try_snapshot :
    (e : MatchingEngine) (seq term : ℕ)
    → IsSound e.book
    → try_snapshot (snapshot_of e seq term) ≡ loaded (snapshot_of e seq term)
unfolding try_snapshot
sound-try_snapshot e seq term h =
    let probe = restore (snapshot e) (new_engine (snapshot e).instrument) in
    let (done, same) =
      restore-snapshot e (new_engine (snapshot e).instrument) h
        (unfold snapshot new_engine in refl) in
    rw (done, state_checksum-SameState probe.1 e same, ==-refl (state_checksum e)) refl

-- On a new engine a snapshot restores to the state whose checksum it carries.
abbrev pub Restores : SnapshotRecord → Type 0
Restores snap =
    ((restore snap.engine (new_engine snap.engine.instrument)).0 ≡ true)
    × (state_checksum (restore snap.engine (new_engine snap.engine.instrument)).1 ≡ snap.state_sum)

try_snapshot-Restores :
    (snap other : SnapshotRecord) → try_snapshot snap ≡ loaded other → Restores other
unfolding try_snapshot
try_snapshot-Restores snap other h =
    let (done, probe) = restore snap.engine (new_engine snap.engine.instrument) in
    ground (arith, ==→≡ (state_checksum probe) snap.state_sum)

decoded-Restores :
    (o : Option SnapshotRecord) (snap : SnapshotRecord)
    → try_decoded o ≡ loaded snap
    → Restores snap
decoded-Restores none snap h = ground (arith, h)
decoded-Restores (some other) snap h = try_snapshot-Restores other snap h

file-Restores :
    (file : List ℕ) (snap : SnapshotRecord) → check_file file ≡ loaded snap → Restores snap
unfolding check_file
file-Restores file snap =
    let n = length file - 4 in
    if-elim (λ l. l ≡ loaded snap → Restores snap) (ltb (length file) 4)
      (λ short h. ground (arith, h))
      λ long.
        if-elim (λ l. l ≡ loaded snap → Restores snap)
          (not (crc32 (take n file) == get_word file n)) (λ torn h. ground (arith, h))
          (λ whole. decoded-Restores (decode_snapshot (take n file)) snap)

pub reading-Restores :
    (r : Reading) (snap : SnapshotRecord) → check_reading r ≡ loaded snap → Restores snap
reading-Restores absent snap h = ground (arith, h)
reading-Restores unreadable snap h = ground (arith, h)
reading-Restores (bytes_read file) snap h = file-Restores file snap h

module _ (files : Files) (f : IsFiles files) where
  -- What `readSnapshotFile` makes of a file, if its calls succeed.
  abbrev pub held_snapshot : List ℕ → files.State → Loaded
  held_snapshot path d = check_reading (reading_of (f.contents path d))

  pub record KeepsSnapshot (snap : SnapshotRecord) (path : List ℕ) (d : files.State)
      (r : Bool × files.State) : Type 0 where
    pub done : r.0 ≡ true → held_snapshot path r.1 ≡ loaded snap
    pub either :
        (held_snapshot path r.1 ≡ held_snapshot path d) ⊎ (held_snapshot path r.1 ≡ loaded snap)
    pub reread :
        (read_snapshot_file files path r.1 ≡ refused)
        ⊎ (read_snapshot_file files path r.1 ≡ held_snapshot path r.1)

  pub reread_lem :
      (path : List ℕ) (d : files.State)
      → (read_snapshot_file files path d ≡ refused)
        ⊎ (read_snapshot_file files path d ≡ held_snapshot path d)
  unfolding read_snapshot_file
  reread_lem path d = elim (f.read path d) [
    | inl bad ↦ inl (ap check_reading bad)
    | inr good ↦ inr (ap check_reading good)
  ]

  -- After a write of a snapshot that was taken from an engine with a sound book, its file holds it, or
  -- what it held before, never a part, also if a call failed or a crash came between; after a write
  -- that succeeds it holds the new one. A read finds what the file holds, or fails. The numbers fit
  -- their fields, and the files keep the promises of the system.
  pub write_snapshot_file-KeepsSnapshot :
      (e : MatchingEngine) (seq term : ℕ) (path : List ℕ) (d : files.State)
      → IsSound e.book
      → FitsSnapshot (snapshot_of e seq term)
      → KeepsSnapshot
          (snapshot_of e seq term)
          path
          d
          (write_snapshot_file files path (snapshot_of e seq term) d)
  unfolding write_snapshot_file
  write_snapshot_file-KeepsSnapshot e seq term path d h fits =
      let snap = snapshot_of e seq term in
      let now = replace-Replaces files f path (snapshot_bytes snap) d in
      let good : check_file (snapshot_bytes snap) ≡ loaded snap =
        bytes-check_file snap fits ∙ sound-try_snapshot e seq term h in
      let holds = λ (c : Option (List ℕ)). check_reading (reading_of c) in
      record {
        done = λ ok. ap holds (now.done ok) ∙ good;
        either = elim now.either [
          | inl same ↦ inl (ap holds same)
          | inr new ↦ inr (ap holds new ∙ good)
        ];
        reread = reread_lem path (replace files f path (snapshot_bytes snap) d).1;
      }

  -- After a write of any snapshot, its file has its bytes or what it had before.
  pub write_snapshot_file-Replaces :
      (snap : SnapshotRecord) (path : List ℕ) (d : files.State)
      → Replaces files f path (snapshot_bytes snap) d (write_snapshot_file files path snap d)
  unfolding write_snapshot_file
  write_snapshot_file-Replaces snap path d = replace-Replaces files f path (snapshot_bytes snap) d

-- Whatever is in a file, a snapshot that is loaded from it restores, on a new engine of its
-- instrument, to a state with the checksum that it carries.
pub read_snapshot_file-Restores :
    (files : Files) (path : List ℕ) (d : files.State) (snap : SnapshotRecord)
    → read_snapshot_file files path d ≡ loaded snap
    → Restores snap
unfolding read_snapshot_file
read_snapshot_file-Restores files path d snap h = reading-Restores (files.read_file path d) snap h
