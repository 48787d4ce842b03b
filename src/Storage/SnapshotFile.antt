-- ===== src/Storage/SnapshotFile.antt =====
-- include/sententia/storage/snapshot.hpp and src/storage/snapshot.cpp: a snapshot of the engine as
-- bytes, and in a file.
use sententia.Prelude.{
  ℕ, zero, suc, ◌-◌, ◌*◌, ◌%◌, ◌^◌, Bool, not, ◌||◌, Option, none, some, List, [], ◌∷◌, ◌++◌, ◌==◌,
  ltb, if◌then◌else◌, length, take,
}
use sententia.Book.{RestingOrder, TopOfBook}
use sententia.Engine.{new_engine}
use sententia.Engine.Snapshot.{EngineSnapshot, snapshot, restore, state_checksum}
use sententia.Engine.{MatchingEngine}
use sententia.Wire.{
  put_u8, put_u16, put_u32, put_u64, put_i64, new_reader, get_u8, get_u16, get_u32, get_u64,
  get_i64,
}
use sententia.Wire.Decode.{Decode, ◌>>=◌, pure, fail}
use sententia.Message.{◌▷◌, bool_byte, side_byte, side_of}
use sententia.Wal.{crc32, word, get_word}
use sententia.Storage.{
  Reading, absent, unreadable, bytes_read, Files, tmp_path, then_try, write_tmp, put_in_place,
}

pub record SnapshotRecord : Type 0 where
  pub last_included_seq : ℕ
  pub last_included_term : ℕ
  pub state_sum : ℕ
  pub engine : EngineSnapshot

-- The snapshot that `takeSnapshot` makes.
abbrev pub snapshot_of : MatchingEngine → ℕ → ℕ → SnapshotRecord
snapshot_of e seq term = record {
  last_included_seq = seq;
  last_included_term = term;
  state_sum = state_checksum e;
  engine = snapshot e;
}

abbrev pub snapshot_magic : ℕ
snapshot_magic = 0x50414E53

abbrev pub snapshot_version : ℕ
snapshot_version = 1

abbrev pub max_orders : ℕ
max_orders = 50 * 2 ^ 20

unfoldable pub put_top : TopOfBook → List ℕ → List ℕ
put_top t w =
    w
    ▷ put_u8 (bool_byte t.has_bid)
    ▷ put_i64 t.bid_price
    ▷ put_u64 t.bid_quantity
    ▷ put_u8 (bool_byte t.has_ask)
    ▷ put_i64 t.ask_price
    ▷ put_u64 t.ask_quantity

unfoldable pub put_order : RestingOrder → List ℕ → List ℕ
put_order o w =
    w
    ▷ put_u64 o.id
    ▷ put_u8 (side_byte o.side)
    ▷ put_i64 o.price
    ▷ put_u64 o.quantity
    ▷ put_u64 o.arrival

unfoldable pub put_orders : List RestingOrder → List ℕ → List ℕ
put_orders [] w = w
put_orders (o ∷ os) w = w ▷ put_order o ▷ put_orders os

unfoldable pub encode_snapshot : SnapshotRecord → List ℕ → List ℕ
encode_snapshot snap w =
    w
    ▷ put_u32 snapshot_magic
    ▷ put_u16 snapshot_version
    ▷ put_u64 snap.last_included_seq
    ▷ put_u64 snap.last_included_term
    ▷ put_u64 snap.state_sum
    ▷ put_u32 snap.engine.instrument
    ▷ put_u64 snap.engine.command_seq
    ▷ put_u64 snap.engine.event_seq
    ▷ put_u64 snap.engine.arrival_counter
    ▷ put_top snap.engine.last_top
    ▷ put_u32 (length snap.engine.orders % 2 ^ 32)
    ▷ put_orders snap.engine.orders

unfoldable pub get_top : Decode TopOfBook
get_top = do
  has_bid ← get_u8
  bid_price ← get_i64
  bid_quantity ← get_u64
  has_ask ← get_u8
  ask_price ← get_i64
  ask_quantity ← get_u64
  if ltb 1 has_bid || ltb 1 has_ask
      then fail
      else pure (record {
        has_bid = has_bid == 1;
        bid_price = bid_price;
        bid_quantity = bid_quantity;
        has_ask = has_ask == 1;
        ask_price = ask_price;
        ask_quantity = ask_quantity;
      })

unfoldable pub get_order : Decode RestingOrder
get_order = do
  id ← get_u64
  side ← get_u8
  price ← get_i64
  quantity ← get_u64
  arrival ← get_u64
  if ltb 1 side
      then fail
      else pure (record {
        id = id;
        side = side_of side;
        price = price;
        quantity = quantity;
        arrival = arrival;
      })

unfoldable pub get_orders : ℕ → Decode (List RestingOrder)
get_orders zero = pure []
get_orders (suc count) = do o ← get_order; os ← get_orders count; pure (o ∷ os)

-- The check of the first two fields.
unfoldable pub check_version : ℕ → ℕ → Decode (Unit {0})
check_version magic version =
    if not (magic == snapshot_magic) || not (version == snapshot_version) then fail else pure tt

-- `!r.ok() || !r.exhausted()`
unfoldable pub finish_snapshot : SnapshotRecord → Decode SnapshotRecord
finish_snapshot snap r =
    if r.failed || not (r.position == length r.data_bytes) then (none, r) else (some snap, r)

unfoldable pub snapshot_decoder : Decode SnapshotRecord
snapshot_decoder = do
  magic ← get_u32
  version ← get_u16
  _ ← check_version magic version
  seq ← get_u64
  term ← get_u64
  sum ← get_u64
  instrument ← get_u32
  command_seq ← get_u64
  event_seq ← get_u64
  arrival_counter ← get_u64
  top ← get_top
  count ← get_u32
  orders ← (if ltb max_orders count then fail else get_orders count)
  finish_snapshot (record {
    last_included_seq = seq;
    last_included_term = term;
    state_sum = sum;
    engine = record {
      instrument = instrument;
      command_seq = command_seq;
      event_seq = event_seq;
      arrival_counter = arrival_counter;
      last_top = top;
      orders = orders;
    };
  })

unfoldable pub decode_snapshot : List ℕ → Option SnapshotRecord
decode_snapshot bytes = (snapshot_decoder (new_reader bytes)).0

-- The bytes of a file: the snapshot, and its checksum.
unfoldable pub snapshot_bytes : SnapshotRecord → List ℕ
snapshot_bytes snap = let body = encode_snapshot snap [] in body ++ word (crc32 body)

-- A snapshot, nothing and no error, or an error.
pub data Loaded : Type 0 where
  nothing : Loaded
  refused : Loaded
  loaded : SnapshotRecord → Loaded

-- The trial of a decoded snapshot on an engine.
unfoldable pub try_snapshot : SnapshotRecord → Loaded
try_snapshot snap =
    let (done, probe) = restore snap.engine (new_engine snap.engine.instrument) in
    if not done
    then refused
    else if not (state_checksum probe == snap.state_sum)
    then refused
    else loaded snap

abbrev pub try_decoded : Option SnapshotRecord → Loaded
try_decoded none = refused
try_decoded (some snap) = try_snapshot snap

unfoldable pub check_file : List ℕ → Loaded
check_file file =
    let body_size = length file - 4 in
    if ltb (length file) 4
    then refused
    else if not (crc32 (take body_size file) == get_word file body_size)
    then refused
    else try_decoded (decode_snapshot (take body_size file))

abbrev pub check_reading : Reading → Loaded
check_reading absent = nothing
check_reading unreadable = refused
check_reading (bytes_read file) = check_file file

module _ (files : Files) where
  unfoldable pub write_snapshot_file : List ℕ → SnapshotRecord → files.State → Bool × files.State
  write_snapshot_file path snap d =
      then_try files (put_in_place files path)
        (write_tmp files (tmp_path path) (snapshot_bytes snap) d)

  unfoldable pub read_snapshot_file : List ℕ → files.State → Loaded
  read_snapshot_file path d = check_reading (files.read_file path d)
