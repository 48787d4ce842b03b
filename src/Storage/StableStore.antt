-- ===== src/Storage/StableStore.antt =====
-- include/sententia/storage/stable_store.hpp and src/storage/stable_store.cpp: the term and the vote
-- on disk.
use sententia.Prelude.{
  ℕ, ◌+◌, ◌*◌, ◌^◌, Bool, true, false, not, ◌||◌, List, [], ◌++◌, ◌∷◌, ◌==◌, if◌then◌else◌, length,
  take, inc64,
}
use sententia.Wire.{byte, byte_at}
use sententia.Wal.{crc32, word, get_word}
use sententia.Storage.{
  Reading, absent, unreadable, bytes_read, Files, tmp_path, write_tmp, put_in_place,
}

pub record StableState : Type 0 where
  pub current_term : ℕ
  pub voted_for : ℕ

pub record StableStoreStats : Type 0 where
  pub writes : ℕ
  pub fsyncs : ℕ
  pub loaded_existing : Bool
  pub recovered_from_corruption : Bool

pub record StableStore : Type 0 where
  pub path : List ℕ
  pub state : StableState
  pub stats : StableStoreStats

abbrev pub stable_magic : ℕ
stable_magic = 0x42545353

abbrev pub stable_file_size : ℕ
stable_file_size = 20

-- `putU64`
abbrev pub long : ℕ → List ℕ
long v = byte 0 v ∷ byte 1 v ∷ byte 2 v ∷ byte 3 v ∷ byte 4 v ∷ byte 5 v ∷ byte 6 v ∷ byte 7 v ∷ []

-- `getU64` at an offset.
unfoldable pub get_long : List ℕ → ℕ → ℕ
get_long bytes k =
    byte_at bytes k
    + byte_at bytes (k + 1) * 2 ^ 8
    + byte_at bytes (k + 2) * 2 ^ 16
    + byte_at bytes (k + 3) * 2 ^ 24
    + byte_at bytes (k + 4) * 2 ^ 32
    + byte_at bytes (k + 5) * 2 ^ 40
    + byte_at bytes (k + 6) * 2 ^ 48
    + byte_at bytes (k + 7) * 2 ^ 56

abbrev pub fresh_state : StableState
fresh_state = record { current_term = 0; voted_for = 0 }

abbrev pub fresh_store : List ℕ → StableStore
fresh_store path = record {
  path = path;
  state = fresh_state;
  stats = record {
    writes = 0;
    fsyncs = 0;
    loaded_existing = false;
    recovered_from_corruption = false;
  };
}

unfoldable pub is_intact : List ℕ → Bool
is_intact buf = not (
    not (length buf == stable_file_size)
    || (not (get_word buf 0 == stable_magic) || not (crc32 (take 16 buf) == get_word buf 16)))

-- What `open` does with the bytes that it has read, twenty at most.
unfoldable pub load_state : List ℕ → StableStore → StableStore
load_state buf s =
    if not (is_intact buf)
    then record s {
      stats = record s.stats { recovered_from_corruption = true };
      state = fresh_state;
    }
    else record s {
      state = record { current_term = get_long buf 4; voted_for = get_word buf 12 };
      stats = record s.stats { loaded_existing = true };
    }

abbrev pub opened : Reading → StableStore → Bool × StableStore
opened absent s = (true, s)
opened unreadable s = (false, s)
opened (bytes_read file) s = (true, load_state (take stable_file_size file) s)

-- The bytes in front of the checksum.
abbrev pub state_body : StableState → List ℕ
state_body st = word stable_magic ++ (long st.current_term ++ word st.voted_for)

-- The bytes that `save` writes.
unfoldable pub state_bytes : StableState → List ℕ
state_bytes st = state_body st ++ word (crc32 (state_body st))

module _ (files : Files) where
  unfoldable pub open_store : List ℕ → files.State → Bool × StableStore
  open_store path d = opened (files.read_file path d) (fresh_store path)

  abbrev pub count_flush : StableStore → StableStore
  count_flush s = record s { stats = record s.stats { fsyncs = inc64 s.stats.fsyncs } }

  abbrev pub remember : StableState → StableStore → StableStore
  remember st s = record s {
    stats = record s.stats { fsyncs = inc64 s.stats.fsyncs; writes = inc64 s.stats.writes };
    state = st;
  }

  abbrev pub after_rename :
      StableState → StableStore → Bool × files.State → Bool × StableStore × files.State
  after_rename st s (false, d) = (false, s, d)
  after_rename st s (true, d) = (true, remember st s, d)

  abbrev pub after_flush :
      StableState → StableStore → Bool × files.State → Bool × StableStore × files.State
  after_flush st s (false, d) = (false, s, d)
  after_flush st s (true, d) = after_rename st (count_flush s) (put_in_place files s.path d)

  unfoldable pub save : StableState → StableStore → files.State → Bool × StableStore × files.State
  save st s d = after_flush st s (write_tmp files (tmp_path s.path) (state_bytes st) d)
