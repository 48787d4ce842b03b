-- ===== src/Wal.antt =====
-- include/sententia/storage/wal.hpp and src/storage/wal.cpp: the write-ahead log, over a disk whose
-- calls may fail. The texts of errors are left out.
pub mod Scanning
pub mod Operations
pub mod Recovery
pub mod Losing
use Prim.Native.Nat.{bit_xor}
use sententia.Prelude.{
  ℕ, zero, suc, ◌+◌, ◌-◌, ◌*◌, ◌/◌, ◌%◌, ◌^◌, Bool, true, false, not, ◌&&◌, Option, none, some,
  List, [], ◌∷◌, ◌++◌, ltb, leb, ◌==◌, if◌then◌else◌, length, take, drop, inc64, add64,
}
use sententia.Wire.{byte, byte_at}

abbrev pub wal_magic : ℕ
wal_magic = 0x4C41575F

abbrev pub wal_header_size : ℕ
wal_header_size = 16

abbrev pub max_record_size : ℕ
max_record_size = 8 * 2 ^ 20

pub data SyncPolicy : Type 0 where
  every_write batched never : SyncPolicy

pub record WalRecord : Type 0 where
  pub seq : ℕ
  pub payload : List ℕ

pub record WalStats : Type 0 where
  pub appends : ℕ
  pub fsyncs : ℕ
  pub bytes_written : ℕ
  pub records_replayed : ℕ
  pub truncated_tail_bytes : ℕ
  pub tail_was_torn : Bool

pub record WriteAheadLog : Type 0 where
  pub is_open : Bool
  pub policy : SyncPolicy
  pub batch_size : ℕ
  pub since_sync : ℕ
  pub bytes_on_disk : ℕ
  pub records : List WalRecord
  pub stats : WalStats

-- An entry of the table, after `k` more rounds.
unfoldable crc_entry : ℕ → ℕ → ℕ
crc_entry zero c = c
crc_entry (suc k) c = crc_entry k (if c % 2 == 1 then bit_xor 0xEDB88320 (c / 2) else c / 2)

unfoldable crc_bytes : ℕ → List ℕ → ℕ
crc_bytes c [] = c
crc_bytes c (b ∷ bs) = crc_bytes (bit_xor (crc_entry 8 (bit_xor c b % 256)) (c / 256)) bs

unfoldable pub crc32 : List ℕ → ℕ
unfolding crc_entry crc_bytes
crc32 bytes = bit_xor (crc_bytes 0xFFFFFFFF bytes) 0xFFFFFFFF % 2 ^ 32

-- `putU32`
abbrev pub word : ℕ → List ℕ
word v = byte 0 v ∷ byte 1 v ∷ byte 2 v ∷ byte 3 v ∷ []

-- `getU32` at an offset.
unfoldable pub get_word : List ℕ → ℕ → ℕ
get_word bytes k =
    byte_at bytes k
    + byte_at bytes (k + 1) * 2 ^ 8
    + byte_at bytes (k + 2) * 2 ^ 16
    + byte_at bytes (k + 3) * 2 ^ 24

-- The frame of `append`.
unfoldable pub frame : WalRecord → List ℕ
frame r =
    word wal_magic
    ++ (word r.seq ++ (word (length r.payload % 2 ^ 32) ++ (word (crc32 r.payload) ++ r.payload)))

abbrev pub payload_at : List ℕ → List ℕ
payload_at rest = take (get_word rest 8) (drop wal_header_size rest)

-- None of the breaks of the loop of `replay`, on the bytes from its offset on.
unfoldable pub is_whole : List ℕ → Bool
is_whole rest =
    not (ltb (length rest) wal_header_size)
    && get_word rest 0 == wal_magic
    && not (ltb max_record_size (get_word rest 8))
    && not (ltb (length rest) (wal_header_size + get_word rest 8))
    && crc32 (payload_at rest) == get_word rest 12

-- The records and the offset behind the last of them.
unfoldable pub scan : ℕ → ℕ → List ℕ → List WalRecord × ℕ
scan zero offset rest = ([], offset)
scan (suc fuel) offset rest = elim (is_whole rest) [
  | false ↦ ([], offset)
  | true ↦
      let size = wal_header_size + get_word rest 8 in
      let (records, end) = scan fuel (offset + size) (drop size rest) in
      (record { seq = get_word rest 4; payload = payload_at rest } ∷ records, end)
]
