-- ===== src/Examples/Wal.antt =====
-- Runs of src/storage/wal.cpp on a disk that never fails.
use sententia.Prelude.{
  false, ℕ, ◌<◌, ◌≡◌, refl, inr, true, List, [], ◌∷◌, ◌++◌, some, take, length, arith,
}
use sententia.Wire.{byte_at}
use sententia.Wal.{WalRecord, every_write, crc32, frame, scan, is_whole, get_word}
use sententia.Wal.Scanning.{Fits, frames}
use sententia.Wal.Operations.{
  Disk, Session, closed_log, fresh, append, sync, reset, append_all, truncate_through, open_file,
  cut_tail,
}
use sententia.Wal.Losing.{Lost, truncate_through-Lost}
use sententia.Wal.Recovery.{
  IsFile, Mirrors, append-Mirrors, truncate_through-Mirrors, open_file-recovers,
}

-- A disk whose state is the bytes of the file.
abbrev pub memory : Disk
memory = record {
  State = List ℕ;
  read_all = λ d. some d;
  write_all = λ bytes d. (true, d ++ bytes);
  truncate = λ n d. (true, take n d);
  flush = λ d. (true, d);
}

abbrev pub memory_file : IsFile memory
memory_file = record {
  contents = λ d. d;
  read = λ d. inr refl;
  write = λ bytes d e. refl;
  truncate = λ n d e. refl;
  flush = λ d. refl;
}

never_writes {ℓ} : {A : Type ℓ} → false ≡ true → A
never_writes h = ground (arith, h)

abbrev first : WalRecord
first = record { seq = 1; payload = 5 ∷ 6 ∷ [] }

abbrev second : WalRecord
second = record { seq = 2; payload = 7 ∷ [] }

first-Fits : Fits first
first-Fits = record { seq = omega arith; size = omega arith }

second-Fits : Fits second
second-Fits = record { seq = omega arith; size = omega arith }

-- The standard check value of the checksum, of "123456789".
crc32_run : crc32 (49 ∷ 50 ∷ 51 ∷ 52 ∷ 53 ∷ 54 ∷ 55 ∷ 56 ∷ 57 ∷ []) ≡ 0xCBF43926
unfolding crc32
crc32_run = refl

-- A log with the two records.
abbrev full : Session memory
full = (
  record (fresh every_write closed_log) { records = first ∷ second ∷ [] },
  frames (first ∷ second ∷ []),
)

full-Mirrors : Mirrors memory memory_file (first ∷ second ∷ []) full
full-Mirrors = record { records = refl; contents = refl; fits = (first-Fits, (second-Fits, tt)) }

append_done : (append memory first full).0 ≡ true
unfolding append sync
append_done = refl

append-Mirrors_example :
    Mirrors memory memory_file (first ∷ second ∷ first ∷ []) (append memory first full).1
append-Mirrors_example =
    append-Mirrors memory memory_file (first ∷ second ∷ []) first full full-Mirrors (omega arith)
      append_done

truncate_done : (truncate_through memory 1 full).0 ≡ true
unfolding truncate_through reset append_all append sync
truncate_done = refl

truncate_through-Mirrors_example :
    Mirrors memory memory_file (second ∷ []) (truncate_through memory 1 full).1
truncate_through-Mirrors_example =
    truncate_through-Mirrors memory memory_file 1 (first ∷ second ∷ []) full full-Mirrors
      truncate_done

-- The second append was cut after its header.
abbrev crashed : Session memory
crashed = (closed_log, frames (first ∷ []) ++ take 16 (frame second))

cut : 16 < length (frame second)
unfolding frame
cut = omega arith

open_done : (open_file memory every_write true crashed).0 ≡ true
unfolding open_file cut_tail scan is_whole frame get_word byte_at crc32
open_done = refl

open_file-recovers_example :
    Mirrors memory memory_file (first ∷ []) (open_file memory every_write true crashed).1
open_file-recovers_example =
    open_file-recovers memory memory_file every_write (first ∷ []) second 16 crashed
      (first-Fits, tt) second-Fits cut refl open_done

-- A disk on which no write succeeds any more.
abbrev stopped : Disk
stopped = record memory { write_all = λ bytes d. (false, d) }

abbrev stopped_file : IsFile stopped
stopped_file = record {
  contents = λ d. d;
  read = λ d. inr refl;
  write = λ bytes d ok. never_writes ok;
  truncate = λ n d e. refl;
  flush = λ d. refl;
}

truncate_through-Lost_example : Lost stopped stopped_file (
    truncate_through stopped 1
      (record (fresh every_write closed_log) { records = first ∷ second ∷ [] }, full.1))
truncate_through-Lost_example =
    truncate_through-Lost stopped stopped_file 1 second []
      (record (fresh every_write closed_log) { records = first ∷ second ∷ [] }) full.1
      (λ bytes d. refl) refl refl refl
