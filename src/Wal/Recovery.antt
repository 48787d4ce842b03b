-- ===== src/Wal/Recovery.antt =====
-- The records in memory are those in the file, for src/storage/wal.cpp over a disk that does what the
-- system's calls promise.
use sententia.Prelude.{
  if-elim, ℕ, suc, ◌^◌, ◌≤◌, ◌<◌, ◌≡◌, refl, sym, ap, ◌∙◌, subst, ◌⊎◌, inl, inr, Bool, true, false,
  not, none, some, List, [], ◌∷◌, ◌++◌, ltb, Bool-cases, length, length-append, take, arith, All,
  All-append, append_assoc, append-nil, inc64,
}
use sententia.Wal.{WalRecord, WriteAheadLog, SyncPolicy, max_record_size, frame, scan}
use sententia.Wal.Scanning.{Fits, frames, scan-frames, torn-is_whole, take_front}
use sententia.Wal.Operations.{
  Disk, Session, sync, flushed, is_never, written, flushes, after_write, append, after_truncate,
  reset, kept_after, append_all, after_reset, truncate_through, found, tail_cut, cut_tail, replayed,
  fresh, open_file,
}

-- What the system's calls promise when they succeed, of the bytes of the file.
pub record IsFile (disk : Disk) : Type 0 where
  pub contents : disk.State → List ℕ
  pub read : (d : disk.State) → (disk.read_all d ≡ none) ⊎ (disk.read_all d ≡ some (contents d))
  pub write :
      (bytes : List ℕ) (d : disk.State)
      → (disk.write_all bytes d).0 ≡ true
      → contents (disk.write_all bytes d).1 ≡ contents d ++ bytes
  pub truncate :
      (n : ℕ) (d : disk.State)
      → (disk.truncate n d).0 ≡ true
      → contents (disk.truncate n d).1 ≡ take n (contents d)
  pub flush : (d : disk.State) → contents (disk.flush d).1 ≡ contents d

no_bytes : (t : List ℕ) → length t ≡ 0 → t ≡ []
no_bytes [] h = refl
no_bytes (x ∷ t) h = ground (arith, h)

frames-append : (rs : List WalRecord) (r : WalRecord) → frames (rs ++ r ∷ []) ≡ frames rs ++ frame r
frames-append [] r = append-nil (frame r)
frames-append (x ∷ rs) r =
    ap (λ l. frame x ++ l) (frames-append rs r) ∙ sym (append_assoc (frame x) (frames rs) (frame r))

module _ (disk : Disk) (file : IsFile disk) where
  -- The records are those of the file, and each fits its frame.
  pub record Mirrors (rs : List WalRecord) (s : Session disk) : Type 0 where
    pub records : s.0.records ≡ rs
    pub contents : file.contents s.1 ≡ frames rs
    pub fits : All Fits rs

  abbrev Now : List WalRecord → Bool × Session disk → Type 0
  Now rs (done, s) = Mirrors rs s

  abbrev Done : List WalRecord → Bool × Session disk → Type 0
  Done rs (done, s) = done ≡ true → Mirrors rs s

  flushed-Mirrors :
      (rs : List WalRecord) (l : WriteAheadLog) (d : disk.State) (result : Bool × disk.State)
      → Mirrors rs (l, d)
      → file.contents result.1 ≡ file.contents d
      → Mirrors rs (flushed disk l result).1
  flushed-Mirrors rs l d (false, d') m e = record {
    records = m.records;
    contents = e ∙ m.contents;
    fits = m.fits;
  }
  flushed-Mirrors rs l d (true, d') m e = record {
    records = m.records;
    contents = e ∙ m.contents;
    fits = m.fits;
  }

  pub sync-Mirrors :
      (rs : List WalRecord) (l : WriteAheadLog) (d : disk.State)
      → Mirrors rs (l, d)
      → Mirrors rs (sync disk (l, d)).1
  unfolding sync
  sync-Mirrors rs l d m =
      if-elim (Now rs) (not l.is_open) (λ closed. m)
        λ opened.
          if-elim (Now rs) (is_never l.policy)
            (λ none_needed. record { records = m.records; contents = m.contents; fits = m.fits })
            (λ needed. flushed-Mirrors rs l d (disk.flush d) m (file.flush d))

  written-Mirrors :
      (rs : List WalRecord) (r : WalRecord) (l : WriteAheadLog) (d : disk.State)
      (result : Bool × disk.State)
      → Mirrors rs (l, d)
      → Fits r
      → (result.0 ≡ true → file.contents result.1 ≡ file.contents d ++ frame r)
      → (after_write disk r l result).0 ≡ true
      → Mirrors (rs ++ r ∷ []) (after_write disk r l result).1
  written-Mirrors rs r l d (false, d') m f e ok = ground (arith, ok)
  written-Mirrors rs r l d (true, d') m f e ok =
      let now : Mirrors (rs ++ r ∷ []) (written disk r l, d') = record {
        records = ap (λ xs. xs ++ r ∷ []) m.records;
        contents = e refl ∙ ap (λ xs. xs ++ frame r) m.contents ∙ sym (frames-append rs r);
        fits = All-append Fits rs (r ∷ []) m.fits (f, tt);
      } in
      if-elim (Now (rs ++ r ∷ [])) (flushes l.policy (inc64 l.since_sync) l.batch_size)
        (λ due. sync-Mirrors (rs ++ r ∷ []) (written disk r l) d' now) (λ later. now)

  -- A successful append of a record whose number is a 32-bit number adds the record to the file and
  -- to the records in memory, if these were the same before. The disk keeps the promises of the system.
  pub append-Mirrors :
      (rs : List WalRecord) (r : WalRecord) (s : Session disk)
      → Mirrors rs s
      → r.seq < 2 ^ 32
      → (append disk r s).0 ≡ true
      → Mirrors (rs ++ r ∷ []) (append disk r s).1
  unfolding append
  append-Mirrors rs r (l, d) m h =
      if-elim (Done (rs ++ r ∷ [])) (not l.is_open) (λ closed ok. ground (arith, ok))
        λ opened.
          if-elim (Done (rs ++ r ∷ [])) (ltb max_record_size (length r.payload))
            (λ large ok. ground (arith, ok))
            λ small.
              written-Mirrors rs r l d (disk.write_all (frame r) d) m
                (record { seq = h; size = ground (arith, small) }) (file.write (frame r) d)

  append_all-next :
      (r : WalRecord) (keep : List WalRecord) (s : Session disk)
      → (append disk r s).0 ≡ true
      → append_all disk (r ∷ keep) s ≡ append_all disk keep (append disk r s).1
  unfolding append_all
  append_all-next r keep s h = ground arith

  append_all-failed :
      (r : WalRecord) (keep : List WalRecord) (s : Session disk)
      → (append disk r s).0 ≡ false
      → (append_all disk (r ∷ keep) s).0 ≡ false
  unfolding append_all
  append_all-failed r keep s h = ground arith

  append_all-Mirrors :
      (rs keep : List WalRecord) (s : Session disk)
      → Mirrors rs s
      → All Fits keep
      → (append_all disk keep s).0 ≡ true
      → Mirrors (rs ++ keep) (append_all disk keep s).1
  unfolding append_all
  append_all-Mirrors rs [] s m f ok = rw (append-nil rs) (sync-Mirrors rs s.0 s.1 m)
  append_all-Mirrors rs (r ∷ keep) s m f ok = elim (Bool-cases (append disk r s).0) [
    | inl done ↦
        let now = append-Mirrors rs r s m f.0.seq done in
        let next = append_all-next r keep s done in
        let rest =
          append_all-Mirrors (rs ++ r ∷ []) keep (append disk r s).1 now f.1
            (ap (λ t. t.0) (sym next) ∙ ok) in
        subst (λ xs. Mirrors xs (append_all disk (r ∷ keep) s).1) (append_assoc rs (r ∷ []) keep)
          (subst (Now ((rs ++ r ∷ []) ++ keep)) (sym next) rest)
    | inr failed ↦ ground (arith, sym ok ∙ append_all-failed r keep s failed)
  ]

  kept_after-Fits : (seq : ℕ) (rs : List WalRecord) → All Fits rs → All Fits (kept_after seq rs)
  kept_after-Fits seq [] f = tt
  kept_after-Fits seq (r ∷ rs) f =
      if-elim (All Fits) (ltb seq r.seq) (λ later. (f.0, kept_after-Fits seq rs f.1))
        (λ earlier. kept_after-Fits seq rs f.1)

  pub reset-Mirrors :
      (rs : List WalRecord) (s : Session disk)
      → Mirrors rs s
      → (reset disk s).0 ≡ true
      → Mirrors [] (reset disk s).1
  unfolding reset
  reset-Mirrors rs (l, d) m =
      if-elim (Done []) (not l.is_open) (λ closed ok. ground (arith, ok))
        λ opened. emptied l (disk.truncate 0 d) (file.truncate 0 d)
    where
      emptied :
          (l : WriteAheadLog) (result : Bool × disk.State)
          → (result.0 ≡ true → file.contents result.1 ≡ [])
          → (after_truncate disk l result).0 ≡ true
          → Mirrors [] (after_truncate disk l result).1
      emptied l (false, d') e ok = ground (arith, ok)
      emptied l (true, d') e ok =
          sync-Mirrors [] (record l { records = []; bytes_on_disk = 0; since_sync = 0 }) d'
            (record { records = refl; contents = e refl; fits = tt })

  -- A successful truncation leaves the records after its number, in the file as in memory, if these
  -- were the same before. The disk keeps the promises of the system.
  pub truncate_through-Mirrors :
      (seq : ℕ) (rs : List WalRecord) (s : Session disk)
      → Mirrors rs s
      → (truncate_through disk seq s).0 ≡ true
      → Mirrors (kept_after seq rs) (truncate_through disk seq s).1
  unfolding truncate_through
  truncate_through-Mirrors seq rs (l, d) m =
      if-elim (Done (kept_after seq rs)) (not l.is_open) (λ closed ok. ground (arith, ok))
        λ opened.
          subst
            (λ xs.
              Done (kept_after seq rs) (after_reset disk (kept_after seq xs) (reset disk (l, d))))
            (sym m.records) (kept-Mirrors (reset disk (l, d)) (reset-Mirrors rs (l, d) m))
    where
      kept-Mirrors :
          (result : Bool × Session disk)
          → Done [] result
          → Done (kept_after seq rs) (after_reset disk (kept_after seq rs) result)
      kept-Mirrors (false, s) h ok = ground (arith, ok)
      kept-Mirrors (true, s) h ok =
          append_all-Mirrors [] (kept_after seq rs) s (h refl) (kept_after-Fits seq rs m.fits) ok

  found-Mirrors :
      (rs : List WalRecord) (bytes : List ℕ) (l : WriteAheadLog) (d : disk.State)
      → file.contents d ≡ bytes
      → take (length (frames rs)) bytes ≡ frames rs
      → (length bytes ≤ length (frames rs) → bytes ≡ frames rs)
      → All Fits rs
      → scan (suc (length bytes)) 0 bytes ≡ (rs, length (frames rs))
      → (cut_tail disk bytes (l, d)).0 ≡ true
      → Mirrors rs (cut_tail disk bytes (l, d)).1
  unfolding cut_tail
  found-Mirrors rs bytes l d e front same fits scanned = rw scanned (
      if-elim (Done rs) (ltb (length (frames rs)) (length bytes))
        (λ torn. cut-Mirrors (disk.truncate (length (frames rs)) d) (file.truncate _ d))
        (λ whole ok. record {
          records = refl;
          contents = e ∙ same (ground (arith, whole));
          fits = fits;
        }))
    where
      cut-Mirrors :
          (result : Bool × disk.State)
          → (result.0 ≡ true → file.contents result.1 ≡ take (length (frames rs)) (file.contents d))
          → Done rs (
              tail_cut disk
                (length (frames rs))
                (found (rs, length (frames rs)) (length bytes) l)
                result)
      cut-Mirrors (false, d') c ok = ground (arith, ok)
      cut-Mirrors (true, d') c ok = record {
        records = refl;
        contents = c refl ∙ ap (take (length (frames rs))) e ∙ front;
        fits = fits;
      }

  -- A file that holds the frames of records and the beginning of one more, as a crash during an append
  -- leaves it, is opened with just these records, and without the torn frame, if the system's calls
  -- succeed. Numbers and sizes of the records fit, and the disk keeps the promises of the system.
  pub open_file-recovers :
      (policy : SyncPolicy) (rs : List WalRecord) (r : WalRecord) (k : ℕ) (s : Session disk)
      → All Fits rs
      → Fits r
      → k < length (frame r)
      → file.contents s.1 ≡ frames rs ++ take k (frame r)
      → (open_file disk policy true s).0 ≡ true
      → Mirrors rs (open_file disk policy true s).1
  unfolding open_file
  open_file-recovers policy rs r k (l, d) fs f h e = elim (file.read d) [
    | inl unreadable ↦ rw unreadable (λ ok. ground (arith, ok))
    | inr bytes ↦
        subst (λ o. Done rs (replayed disk o (fresh policy l, d))) (sym bytes)
          (found-Mirrors rs (file.contents d) (fresh policy l) d refl
            (rw e (take_front (frames rs) (take k (frame r))))
            (λ le.
              e
              ∙ ap (λ t. frames rs ++ t)
                  (no_bytes (take k (frame r))
                    (omega (arith, le, ap length e, length-append (frames rs) (take k (frame r)))))
              ∙ append-nil (frames rs))
            fs
            (rw e (
              scan-frames (suc (length (frames rs ++ take k (frame r)))) 0 rs (take k (frame r)) fs
                (torn-is_whole k r f h) (omega arith)
              ∙ ap (λ n. (rs, n)) (omega arith))))
  ]
