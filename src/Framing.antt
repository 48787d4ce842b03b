-- ===== src/Framing.antt =====
-- include/sententia/net/framing.hpp and src/net/framing.cpp: the reader that cuts a stream of bytes
-- into frames.
pub mod Parsing
pub mod Writer
pub mod Stream
pub mod Pulling
pub mod Receiving
use sententia.Prelude.{
  ℕ, zero, ◌+◌, ◌-◌, ◌*◌, ◌≤◌, Bool, true, false, not, ◌||◌, Option, none, some, List, [], ◌∷◌,
  ◌++◌, ◌==◌, ltb, leb, if◌then◌else◌, length, take, drop,
}
use sententia.Wire.{WireReader, new_reader, get_u16, get_u32}

pub data ReaderStatus : Type 0 where
  good bad_magic bad_version payload_too_large : ReaderStatus

abbrev expected_magic : ℕ
expected_magic = 0x544E4553

abbrev expected_version : ℕ
expected_version = 1

abbrev pub header_size : ℕ
header_size = 12

abbrev pub max_payload : ℕ
max_payload = 1024 * 1024

abbrev pub compact_threshold : ℕ
compact_threshold = 64 * 1024

pub record Frame : Type 0 where
  pub kind : ℕ
  pub payload : List ℕ

pub record FrameReader : Type 0 where
  pub buf : List ℕ
  pub read_pos : ℕ
  pub status : ReaderStatus

abbrev pub has_failed : ReaderStatus → Bool
has_failed good = false
has_failed _ = true

abbrev pub buffered : FrameReader → ℕ
buffered r = length r.buf - r.read_pos

unfoldable pub append_bytes : List ℕ → FrameReader → FrameReader
append_bytes bytes r =
    if has_failed r.status || length bytes == 0 then r else record r { buf = r.buf ++ bytes }

unfoldable pub compact : FrameReader → FrameReader
compact r = if r.read_pos == 0 then r else record r { buf = drop r.read_pos r.buf; read_pos = 0 }

pub record Header : Type 0 where
  pub magic : ℕ
  pub version : ℕ
  pub raw_type : ℕ
  pub size : ℕ

-- The value that a read leaves in its variable, which starts at 0.
abbrev value : Option ℕ → ℕ
value none = 0
value (some v) = v

unfoldable pub read_header : List ℕ → Header
read_header bytes =
    let (magic, r1) = get_u32 (new_reader bytes) in
    let (version, r2) = get_u16 r1 in
    let (raw_type, r3) = get_u16 r2 in
    let (size, r4) = get_u32 r3 in
    record {
      magic = value magic;
      version = value version;
      raw_type = value raw_type;
      size = value size;
    }

-- The checks of the header, in their order.
unfoldable pub check_header : Header → ReaderStatus
check_header h =
    if not (h.magic == expected_magic)
    then bad_magic
    else if not (h.version == expected_version)
    then bad_version
    else if ltb max_payload h.size
    then payload_too_large
    else good

-- The frame behind a header that is in order.
unfoldable pub take_frame : Header → FrameReader → Option Frame × FrameReader
take_frame h r =
    if ltb (buffered r) (header_size + h.size)
    then (none, r)
    else let r' = record r { read_pos = r.read_pos + (header_size + h.size) } in
      (
        some (record {
          kind = h.raw_type;
          payload = take h.size (drop (r.read_pos + header_size) r.buf);
        }),
        (if leb compact_threshold r'.read_pos then compact r' else r'),
      )

unfoldable pub next : FrameReader → Option Frame × FrameReader
next r =
    if has_failed r.status
    then (none, r)
    else if ltb (buffered r) header_size
    then (none, r)
    else let h = read_header (drop r.read_pos r.buf) in
      let checked = check_header h in
      if has_failed checked then (none, record r { status = checked }) else take_frame h r

unfoldable pub reset : FrameReader → FrameReader
reset r = record { buf = []; read_pos = 0; status = good }
