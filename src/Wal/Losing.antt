-- ===== src/Wal/Losing.antt =====
-- A crash in the middle of `truncateThrough` of src/storage/wal.cpp.
use sententia.Prelude.{
  ◌≡◌, refl, sym, ap, ◌∙◌, subst, Bool, true, false, not, ℕ, List, [], ◌∷◌, ltb, if-elim, length,
  arith,
}
use sententia.Wal.{WalRecord, WriteAheadLog, max_record_size, frame}
use sententia.Wal.Operations.{
  Disk, Session, append, after_write, after_truncate, reset, kept_after, append_all, after_reset,
  truncate_through,
}
use sententia.Wal.Recovery.{IsFile, sync-Mirrors}

module _ (disk : Disk) (file : IsFile disk) where
  -- Every write fails and leaves the file alone, as after a crash.
  abbrev pub IsStopped : Type 0
  IsStopped = (bytes : List ℕ) (d : disk.State) → disk.write_all bytes d ≡ (false, d)

  -- The call failed, and the file is empty.
  abbrev pub Lost : Bool × Session disk → Type 0
  Lost (ok, (l, d)) = (ok ≡ false) × (file.contents d ≡ [])

  append-Lost :
      (r : WalRecord) (l : WriteAheadLog) (d : disk.State)
      → IsStopped
      → file.contents d ≡ []
      → Lost (append disk r (l, d))
  unfolding append
  append-Lost r l d stopped e =
      if-elim Lost (not l.is_open) (λ closed. (refl, e))
        λ opened.
          if-elim Lost (ltb max_record_size (length r.payload)) (λ large. (refl, e))
            (λ small.
              subst (λ w. Lost (after_write disk r l w)) (sym (stopped (frame r) d)) (refl, e))

  append_all-Lost :
      (r : WalRecord) (keep : List WalRecord) (s : Session disk)
      → IsStopped
      → file.contents s.1 ≡ []
      → Lost (append_all disk (r ∷ keep) s)
  unfolding append_all
  append_all-Lost r keep s stopped e = next (append disk r s) (append-Lost r s.0 s.1 stopped e)
    where
      next :
          (w : Bool × Session disk)
          → Lost w
          → Lost (elim w.0 [ true ↦ append_all disk keep w.1 | false ↦ (false, w.1) ])
      next (true, s') h = ground (arith, h.0)
      next (false, s') h = h

  truncate_through-opened :
      (seq : ℕ) (l : WriteAheadLog) (d : disk.State)
      → l.is_open ≡ true
      → truncate_through disk seq (l, d)
        ≡ after_reset disk (kept_after seq l.records) (after_truncate disk l (disk.truncate 0 d))
  unfolding truncate_through reset
  truncate_through-opened seq l d opened = ground arith

  -- A truncation that has emptied the file, and is stopped before it writes the first of the records
  -- that it keeps, fails and leaves an empty file: the records that were to be kept are not on disk
  -- any more. The log is open, and the disk keeps the promises of the system.
  pub truncate_through-Lost :
      (seq : ℕ) (r : WalRecord) (keep : List WalRecord) (l : WriteAheadLog) (d : disk.State)
      → IsStopped
      → l.is_open ≡ true
      → kept_after seq l.records ≡ r ∷ keep
      → (disk.truncate 0 d).0 ≡ true
      → Lost (truncate_through disk seq (l, d))
  truncate_through-Lost seq r keep l d stopped opened kept cut =
      subst Lost
        (sym (
          truncate_through-opened seq l d opened
          ∙ ap (λ rs. after_reset disk rs (after_truncate disk l (disk.truncate 0 d))) kept))
        (emptied (disk.truncate 0 d) cut (file.truncate 0 d cut))
    where
      after :
          (w : Bool × Session disk)
          → file.contents w.1.1 ≡ []
          → Lost (after_reset disk (r ∷ keep) w)
      after (false, s) e = (refl, e)
      after (true, s) e = append_all-Lost r keep s stopped e

      emptied :
          (w : Bool × disk.State)
          → w.0 ≡ true
          → file.contents w.1 ≡ []
          → Lost (after_reset disk (r ∷ keep) (after_truncate disk l w))
      emptied (false, d') ok e = ground (arith, ok)
      emptied (true, d') ok e =
          after (after_truncate disk l (true, d'))
            (sync-Mirrors disk file []
              (record l { records = []; bytes_on_disk = 0; since_sync = 0 }) d'
              (record { records = refl; contents = e; fits = tt })).contents
