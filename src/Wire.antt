-- ===== src/Wire.antt =====
-- include/sententia/net/wire.hpp: integers and strings as little-endian bytes, and a reader that
-- checks its bounds. A byte is a number below 256; the or of shifted bytes is their sum, since they
-- share no bit. A read gives the value, or `none` for false, and the reader after it.
pub mod Reading
pub mod Strings
pub mod Decode
pub mod Sizes
use sententia.Prelude.{
  ℕ, zero, suc, ◌+◌, ◌-◌, ◌*◌, ◌/◌, ◌%◌, ◌^◌, Bool, true, false, not, ◌||◌, Option, none, some,
  List, [], ◌∷◌, ◌++◌, ltb, if◌then◌else◌, length, take, drop,
}
use sententia.Prelude.Int.{ℤ, pos, negsuc}

-- The byte of a value that a loop takes in round `i`.
abbrev pub byte : ℕ → ℕ → ℕ
byte i v = v / 2 ^ (i * 8) % 256

unfoldable pub put_u8 : ℕ → List ℕ → List ℕ
put_u8 v out = out ++ v ∷ []

unfoldable pub put_u16 : ℕ → List ℕ → List ℕ
put_u16 v out = out ++ byte 0 v ∷ byte 1 v ∷ []

unfoldable pub put_u32 : ℕ → List ℕ → List ℕ
put_u32 v out = out ++ byte 0 v ∷ byte 1 v ∷ byte 2 v ∷ byte 3 v ∷ []

unfoldable pub put_u64 : ℕ → List ℕ → List ℕ
put_u64 v out =
    out
    ++ byte 0 v ∷ byte 1 v ∷ byte 2 v ∷ byte 3 v ∷ byte 4 v ∷ byte 5 v ∷ byte 6 v ∷ byte 7 v ∷ []

-- The cast to `std::uint64_t`, which takes a negative value modulo 2^64.
abbrev pub to_unsigned : ℤ → ℕ
to_unsigned (pos n) = n
to_unsigned (negsuc n) = 2 ^ 64 - 1 - n

abbrev pub to_signed : ℕ → ℤ
to_signed n = if ltb n (2 ^ 63) then pos n else negsuc (2 ^ 64 - 1 - n)

unfoldable pub put_i64 : ℤ → List ℕ → List ℕ
put_i64 v out = put_u64 (to_unsigned v) out

unfoldable pub put_str : List ℕ → List ℕ → List ℕ
put_str s out = put_u32 (length s % 2 ^ 32) out ++ s

pub record WireReader : Type 0 where
  pub data_bytes : List ℕ
  pub position : ℕ
  pub failed : Bool

abbrev pub Read : Type 0
Read = Option ℕ × WireReader

abbrev pub new_reader : List ℕ → WireReader
new_reader bytes = record { data_bytes = bytes; position = 0; failed = false }

abbrev pub remaining : WireReader → ℕ
remaining r = length r.data_bytes - r.position

abbrev pub need : ℕ → WireReader → Bool × WireReader
need n r =
    if r.failed || ltb (remaining r) n then (false, record r { failed = true }) else (true, r)

-- `data_[k]`, which the callers of `need` ask for inside the bounds only.
unfoldable pub byte_at : List ℕ → ℕ → ℕ
byte_at [] k = 0
byte_at (x ∷ xs) zero = x
byte_at (x ∷ xs) (suc k) = byte_at xs k

-- A read of `n` bytes that makes `value` of them.
abbrev pub read_bytes : ℕ → (WireReader → ℕ) → WireReader → Read
read_bytes n value r =
    let (enough, r') = need n r in
    if not enough then (none, r') else (some (value r'), record r' { position = r'.position + n })

-- The byte of the reader's data that a loop takes in round `i`, shifted.
abbrev pub shifted : ℕ → WireReader → ℕ
shifted i r = byte_at r.data_bytes (r.position + i) * 2 ^ (i * 8)

unfoldable pub get_u8 : WireReader → Read
get_u8 = read_bytes 1 (λ r. shifted 0 r)

unfoldable pub get_u16 : WireReader → Read
get_u16 = read_bytes 2 (λ r. shifted 0 r + shifted 1 r)

unfoldable pub get_u32 : WireReader → Read
get_u32 = read_bytes 4 (λ r. shifted 0 r + shifted 1 r + shifted 2 r + shifted 3 r)

unfoldable pub get_u64 : WireReader → Read
get_u64 = read_bytes 8 (λ r.
    shifted 0 r
    + shifted 1 r
    + shifted 2 r
    + shifted 3 r
    + shifted 4 r
    + shifted 5 r
    + shifted 6 r
    + shifted 7 r)

abbrev pub signed : Read → Option ℤ × WireReader
signed (none, r) = (none, r)
signed (some raw, r) = (some (to_signed raw), r)

unfoldable pub get_i64 : WireReader → Option ℤ × WireReader
get_i64 r = signed (get_u64 r)

-- What `str` does once it has the length.
abbrev pub get_body : ℕ → Read → Option (List ℕ) × WireReader
get_body max_len (none, r) = (none, r)
get_body max_len (some len, r) =
    if ltb max_len len || not (need len r).0
    then (none, record r { failed = true })
    else (some (take len (drop r.position r.data_bytes)), record r { position = r.position + len })

unfoldable pub get_str : ℕ → WireReader → Option (List ℕ) × WireReader
get_str max_len r = get_body max_len (get_u32 r)
