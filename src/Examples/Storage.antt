-- ===== src/Examples/Storage.antt =====
-- Runs of src/storage/ on files that are kept in memory, and never fail.
use sententia.Prelude.{
  ◌==◌, ==→≡, ==-refl, Bool-cases, ℕ, ◌^◌, ◌<◌, ◌≡◌, ◌≢◌, refl, sym, ap, ◌∙◌, ◌⊎◌, inl, inr, Bool,
  true, false, Option, none, some, List, [], ◌∷◌, ◌++◌, ◌&&◌, if◌then◌else◌, All, arith,
}
use sententia.Types.{cancel_order}
use sententia.Engine.{new_engine}
use sententia.Engine.Snapshot.{snapshot, restore}
use sententia.Engine.Restoring.{SameState, state_checksum-lt}
use sententia.Book.{orders}
use sententia.CommandLog.{LogEntry, new_log}
use sententia.Wal.{every_write, frame}
use sententia.Wal.Scanning.{Fits, frames}
use sententia.Wal.Operations.{
  closed_log, fresh, truncate_through, reset, append_all, append, sync, open_file,
}
use sententia.Wal.Recovery.{Mirrors}
use sententia.Examples.Wal.{memory, memory_file}
use sententia.Examples.Engine.{quoted, quoted-IsSound}
use sententia.Storage.{Files}
use sententia.Storage.Promises.{IsFiles, reading_of}
use sententia.Storage.StableStore.{StableState, fresh_store, save}
use sententia.Storage.Voting.{Persists, save-Persists}
use sententia.Storage.SnapshotFile.{snapshot_of, write_snapshot_file}
use sententia.Storage.SnapshotBytes.{FitsSnapshot}
use sententia.Storage.SnapshotLoading.{KeepsSnapshot, write_snapshot_file-KeepsSnapshot}
use sententia.Wire.{put_u8, put_u64, byte_at}
use sententia.Message.{encode_command}
use sententia.Wal.{is_whole, scan, get_word, crc32}
use sententia.Wal.Operations.{cut_tail}
use sententia.Storage.{write_tmp, put_in_place, join, is_dir_path}
use sententia.Storage.StableStore.{open_store}
use sententia.Storage.Recovering.{records_of, Resumed}
use sententia.Storage.Reopening.{Unread, later_than, take_snapshot-Resumed}
use sententia.Storage.Recovering.{Resumes, recover-Resumes}
use sententia.Storage.Installing.{Installs, install_snapshot-Installs, recover-nothing}
use sententia.Storage.SnapshotLoading.{Restores, read_snapshot_file-Restores}
use sententia.Storage.SnapshotBytes.{decode_snapshot-encode_snapshot}
use sententia.Storage.SnapshotFile.{loaded, read_snapshot_file, encode_snapshot, decode_snapshot}
use sententia.Storage.DurableState.{
  Session, DurableState, new_state, encode_log_entry, take_snapshot, open_durable, recover,
  install_snapshot, recovered, first_report,
}

same_path : List ℕ → List ℕ → Bool
same_path [] [] = true
same_path (a ∷ p) (b ∷ q) = (a == b) && same_path p q
same_path _ _ = false

same_path_refl : (p : List ℕ) → same_path p p ≡ true
unfolding same_path
same_path_refl [] = refl
same_path_refl (a ∷ p) = ground (arith, ==-refl a, same_path_refl p)

same_path→≡ : (p q : List ℕ) → same_path p q ≡ true → p ≡ q
unfolding same_path
same_path→≡ [] [] h = refl
same_path→≡ (a ∷ p) [] h = ground (arith, h)
same_path→≡ [] (b ∷ q) h = ground (arith, h)
same_path→≡ (a ∷ p) (b ∷ q) h = ground (arith, ==→≡ a b, same_path→≡ p q)

different : (p q : List ℕ) → q ≢ p → same_path p q ≡ false
different p q ne = elim (Bool-cases (same_path p q)) [
  | inl same ↦ absurd (ne (sym (same_path→≡ p q same)))
  | inr other ↦ other
]

-- What each path holds.
abbrev Drive : Type 0
Drive = List ℕ → Option (List ℕ)

abbrev put : List ℕ → Option (List ℕ) → Drive → Drive
put p bytes d q = if same_path p q then bytes else d q

abbrev bytes_of : Option (List ℕ) → List ℕ
bytes_of none = []
bytes_of (some bytes) = bytes

abbrev drive : Files
drive = record {
  State = Drive;
  make_dir = λ p d. (true, d);
  read_file = λ p d. reading_of (d p);
  create = λ p d. (true, put p (some []) d);
  write_all = λ p bytes d. (true, put p (some (bytes_of (d p) ++ bytes)) d);
  sync_file = λ p d. (true, d);
  rename = λ p q d. (true, put q (d p) (put p none d));
  sync_dir = λ p d. (true, d);
}

put_same : (p : List ℕ) (b : Option (List ℕ)) (d : Drive) → put p b d p ≡ b
put_same p b d = rw (same_path_refl p) refl

put_other : (p q : List ℕ) (b : Option (List ℕ)) (d : Drive) → q ≢ p → put p b d q ≡ d q
put_other p q b d ne = rw (different p q ne) refl

never_fails {ℓ} : {A : Type ℓ} → true ≡ false → A
never_fails h = ground (arith, h)

abbrev drive_files : IsFiles drive
drive_files = record {
  contents = λ p d. d p;
  read = λ p d. inr refl;
  make_dir = λ p q d. refl;
  create = λ p d ok. put_same p (some []) d;
  create_other = λ p q d ne. put_other p q (some []) d ne;
  write = λ p bytes old d at ok.
      put_same p (some (bytes_of (d p) ++ bytes)) d ∙ ap (λ o. some (bytes_of o ++ bytes)) at;
  write_other = λ p q bytes d ne. put_other p q (some (bytes_of (d p) ++ bytes)) d ne;
  sync_file = λ p q d. refl;
  sync_dir = λ p q d. refl;
  rename = λ p q d ok. put_same q (d p) (put p none d);
  rename_other = λ p q r d ne ne'. put_other q r (d p) (put p none d) ne' ∙ put_other p r none d ne;
  rename_failed = λ p q r d ok. never_fails ok;
}

abbrev empty_drive : Drive
empty_drive p = none

abbrev voted : StableState
voted = record { current_term = 5; voted_for = 2 }

save-Persists_example :
    Persists drive drive_files voted
      (fresh_store (b's' ∷ []))
      empty_drive
      (save drive voted (fresh_store (b's' ∷ [])) empty_drive)
save-Persists_example =
    save-Persists drive drive_files voted (fresh_store (b's' ∷ [])) empty_drive
      (record { term = omega arith; vote = omega arith })

quoted-FitsSnapshot : (n : ℕ) → n < 2 ^ 64 → FitsSnapshot (snapshot_of quoted n 1)
unfolding quoted snapshot orders
quoted-FitsSnapshot n h = record {
  seq = h;
  term = omega arith;
  sum = state_checksum-lt quoted;
  instrument = omega arith;
  command_seq = omega arith;
  event_seq = omega arith;
  arrival_counter = omega arith;
  top = omega arith;
  orders = omega arith;
  few = omega arith;
}

write_snapshot_file-KeepsSnapshot_example :
    KeepsSnapshot drive drive_files
      (snapshot_of quoted 1 1)
      (b's' ∷ [])
      empty_drive
      (write_snapshot_file drive (b's' ∷ []) (snapshot_of quoted 1 1) empty_drive)
write_snapshot_file-KeepsSnapshot_example =
    write_snapshot_file-KeepsSnapshot drive drive_files quoted 1 1 (b's' ∷ []) empty_drive
      quoted-IsSound (quoted-FitsSnapshot 1 (omega arith))

same_instrument : (new_engine 7).instrument ≡ quoted.instrument
unfolding new_engine quoted
same_instrument = refl

abbrev first : LogEntry
first = record { seq = 1; term = 1; command = cancel_order (record { id = 9 }) }

abbrev second : LogEntry
second = record { seq = 2; term = 1; command = cancel_order (record { id = 8 }) }

abbrev entries : List LogEntry
entries = first ∷ second ∷ []

entries-Fits : All Fits (records_of entries)
unfolding encode_log_entry encode_command put_u64 put_u8
entries-Fits = (
  record { seq = omega arith; size = omega arith },
  (record { seq = omega arith; size = omega arith }, tt),
)

-- A node whose log has the two entries.
abbrev node : DurableState
node = record new_state {
  dir = b'd' ∷ [];
  wal = record (fresh every_write closed_log) { records = records_of entries };
}

abbrev log_file : List ℕ
log_file = frames (records_of entries)

node-Mirrors : Mirrors memory memory_file (records_of entries) (node.wal, log_file)
node-Mirrors = record { records = refl; contents = refl; fits = entries-Fits }

snapshot_taken : (take_snapshot drive memory quoted 1 1 (node, empty_drive, log_file)).0 ≡ true
unfolding take_snapshot write_snapshot_file write_tmp put_in_place truncate_through reset append_all
    append sync encode_log_entry encode_command put_u64 put_u8
snapshot_taken = refl

-- The node after its snapshot, with its files.
abbrev after : Session drive memory
after = (take_snapshot drive memory quoted 1 1 (node, empty_drive, log_file)).1

started_again :
    (open_durable drive memory (b'd' ∷ []) every_write true (new_state, after.1, after.2)).0 ≡ true
unfolding open_durable open_store open_file cut_tail scan is_whole frame get_word byte_at crc32
    take_snapshot write_snapshot_file write_tmp put_in_place truncate_through reset append_all
    append sync encode_log_entry encode_command put_u64 put_u8 same_path join is_dir_path
started_again = refl

take_snapshot-Resumed_example :
    let started =
      (open_durable drive memory (b'd' ∷ []) every_write true (new_state, after.1, after.2)).1 in
    let probe = (restore (snapshot quoted) (new_engine 7)).1 in
    Unread drive drive_files memory memory_file (b'd' ∷ []) started
    ⊎ (SameState probe quoted
        × Resumed started.0
            (some (snapshot_of quoted 1 1))
            (later_than 1 entries)
            2
            probe
            (recover started.0 (new_engine 7) new_log))
take_snapshot-Resumed_example =
    take_snapshot-Resumed drive drive_files memory memory_file quoted (new_engine 7) 1 1 0 2 entries
      every_write node empty_drive log_file node-Mirrors (omega arith) (omega arith) (omega arith)
      (omega arith) (omega arith) quoted-IsSound (quoted-FitsSnapshot 1 (omega arith))
      same_instrument snapshot_taken started_again

recover-Resumes_example :
    Resumes node none entries 2 (new_engine 7) (recover node (new_engine 7) new_log)
recover-Resumes_example =
    recover-Resumes node [] entries 2 (new_engine 7)
      (record {
        records = refl;
        fits = (tt, omega arith);
        covered = tt;
        chain = omega arith;
        room = omega arith;
      })
      refl

read_done :
    read_snapshot_file drive
      (b's' ∷ [])
      (write_snapshot_file drive (b's' ∷ []) (snapshot_of quoted 1 1) empty_drive).1
    ≡ loaded (snapshot_of quoted 1 1)
unfolding read_snapshot_file
read_done =
    (write_snapshot_file-KeepsSnapshot drive drive_files quoted 1 1 (b's' ∷ []) empty_drive
        quoted-IsSound (quoted-FitsSnapshot 1 (omega arith))).done
      (unfold write_snapshot_file write_tmp put_in_place in refl)

read_snapshot_file-Restores_example : Restores (snapshot_of quoted 1 1)
read_snapshot_file-Restores_example =
    read_snapshot_file-Restores drive (b's' ∷ [])
      (write_snapshot_file drive (b's' ∷ []) (snapshot_of quoted 1 1) empty_drive).1
      (snapshot_of quoted 1 1) read_done

decode_snapshot-encode_snapshot_example :
    decode_snapshot (encode_snapshot (snapshot_of quoted 1 1) []) ≡ some (snapshot_of quoted 1 1)
decode_snapshot-encode_snapshot_example =
    decode_snapshot-encode_snapshot (snapshot_of quoted 1 1) (quoted-FitsSnapshot 1 (omega arith))

install_snapshot-Installs_example :
    Installs drive memory memory_file drive_files
      (snapshot_of quoted 9 1)
      (new_engine 7)
      new_log
      (node, empty_drive, log_file)
      (install_snapshot drive memory
        (snapshot_of quoted 9 1)
        (new_engine 7)
        new_log
        (node, empty_drive, log_file))
install_snapshot-Installs_example =
    install_snapshot-Installs drive memory memory_file drive_files (snapshot_of quoted 9 1)
      (new_engine 7) new_log (records_of entries) node empty_drive log_file node-Mirrors

-- The node without its snapshot, after the first entry was cut off its log.
abbrev damaged : DurableState
damaged = record node { wal = record node.wal { records = records_of (second ∷ []) } }

recover-nothing_example :
    recover damaged quoted new_log ≡ recovered (first_report damaged) (quoted, new_log, 0)
recover-nothing_example =
    recover-nothing damaged second [] quoted refl refl (omega arith) (omega arith)
