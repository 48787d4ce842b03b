-- ===== src/Wire/Reading.antt =====
-- What include/sententia/net/wire.hpp writes is read back.
use sententia.Prelude.{
  ℕ, suc, ◌+◌, ◌-◌, ◌^◌, ◌≤◌, ◌<◌, ◌≡◌, refl, ap, ◌∙◌, true, false, Option, none, some, List, [],
  ◌∷◌, ◌++◌, ltb, length, length-append, inl, inr, arith, Bool-cases, inl, inr,
}
use sententia.Prelude.Int.{ℤ, pos, negsuc}
use sententia.Wire.{
  put_u16, put_u32, put_u64, put_i64, WireReader, read_bytes, to_signed, to_unsigned, signed,
  byte_at, shifted, get_u8, get_u16, get_u32, get_u64, get_i64,
}

byte_at-append : (xs ys : List ℕ) (k : ℕ) → byte_at (xs ++ ys) (length xs + k) ≡ byte_at ys k
unfolding byte_at
byte_at-append [] ys k = ap (byte_at ys) (omega arith)
byte_at-append (x ∷ xs) ys k =
    ap (byte_at (x ∷ xs ++ ys)) {x = suc (length xs) + k} {y = suc (length xs + k)} (omega arith)
    ∙ byte_at-append xs ys k

-- A reader that is at `rest` after `before`.
abbrev pub reading : List ℕ → List ℕ → WireReader
reading before rest = record {
  data_bytes = before ++ rest;
  position = length before;
  failed = false;
}

room :
    (before rest : List ℕ) (n : ℕ)
    → n ≤ length rest
    → ltb (length (before ++ rest) - length before) n ≡ false
room before rest n h = ground (arith, h, length-append before rest)

long_64 : (v : ℕ) (after : List ℕ) → 8 ≤ length (put_u64 v [] ++ after)
unfolding put_u64
long_64 v after = omega arith

value_64 :
    (v : ℕ) (before after : List ℕ)
    → v < 2 ^ 64
    → let r = reading before (put_u64 v [] ++ after) in
      shifted 0 r
        + shifted 1 r
        + shifted 2 r
        + shifted 3 r
        + shifted 4 r
        + shifted 5 r
        + shifted 6 r
        + shifted 7 r
      ≡ v
unfolding put_u64 byte_at
value_64 v before after fits =
    let rest = put_u64 v [] ++ after in
    omega (
      arith,
      fits,
      byte_at-append before rest 0,
      byte_at-append before rest 1,
      byte_at-append before rest 2,
      byte_at-append before rest 3,
      byte_at-append before rest 4,
      byte_at-append before rest 5,
      byte_at-append before rest 6,
      byte_at-append before rest 7,
    )

-- A number below 2^64 that was written is read back, and the reader is behind its eight bytes.
pub get_u64-put_u64 :
    (v : ℕ) (before after : List ℕ)
    → v < 2 ^ 64
    → get_u64 (reading before (put_u64 v [] ++ after))
      ≡ (some v, record (reading before (put_u64 v [] ++ after)) { position = length before + 8 })
unfolding get_u64
get_u64-put_u64 v before after fits =
    let rest = put_u64 v [] ++ after in
    rw (room before rest 8 (long_64 v after)) (
      ap (λ w. (some w, record (reading before rest) { position = length before + 8 }))
        (value_64 v before after fits))

value_32 :
    (v : ℕ) (before after : List ℕ)
    → v < 2 ^ 32
    → let r = reading before (put_u32 v [] ++ after) in
      shifted 0 r + shifted 1 r + shifted 2 r + shifted 3 r ≡ v
unfolding put_u32 byte_at
value_32 v before after fits =
    let rest = put_u32 v [] ++ after in
    omega (
      arith,
      fits,
      byte_at-append before rest 0,
      byte_at-append before rest 1,
      byte_at-append before rest 2,
      byte_at-append before rest 3,
    )

long_32 : (v : ℕ) (after : List ℕ) → 4 ≤ length (put_u32 v [] ++ after)
unfolding put_u32
long_32 v after = omega arith

-- A number below 2^32 that was written is read back, and the reader is behind its four bytes.
pub get_u32-put_u32 :
    (v : ℕ) (before after : List ℕ)
    → v < 2 ^ 32
    → get_u32 (reading before (put_u32 v [] ++ after))
      ≡ (some v, record (reading before (put_u32 v [] ++ after)) { position = length before + 4 })
unfolding get_u32
get_u32-put_u32 v before after fits =
    let rest = put_u32 v [] ++ after in
    rw (room before rest 4 (long_32 v after)) (
      ap (λ w. (some w, record (reading before rest) { position = length before + 4 }))
        (value_32 v before after fits))

value_16 :
    (v : ℕ) (before after : List ℕ)
    → v < 2 ^ 16
    → let r = reading before (put_u16 v [] ++ after) in shifted 0 r + shifted 1 r ≡ v
unfolding put_u16 byte_at
value_16 v before after fits =
    let rest = put_u16 v [] ++ after in
    omega (arith, fits, byte_at-append before rest 0, byte_at-append before rest 1)

long_16 : (v : ℕ) (after : List ℕ) → 2 ≤ length (put_u16 v [] ++ after)
unfolding put_u16
long_16 v after = omega arith

pub get_u16-put_u16 :
    (v : ℕ) (before after : List ℕ)
    → v < 2 ^ 16
    → get_u16 (reading before (put_u16 v [] ++ after))
      ≡ (some v, record (reading before (put_u16 v [] ++ after)) { position = length before + 2 })
unfolding get_u16
get_u16-put_u16 v before after fits =
    let rest = put_u16 v [] ++ after in
    rw (room before rest 2 (long_16 v after)) (
      ap (λ w. (some w, record (reading before rest) { position = length before + 2 }))
        (value_16 v before after fits))

value_8 : (v : ℕ) (before after : List ℕ) → shifted 0 (reading before (v ∷ after)) ≡ v
unfolding byte_at
value_8 v before after = omega (arith, byte_at-append before (v ∷ after) 0)

pub get_u8-put_u8 :
    (v : ℕ) (before after : List ℕ)
    → get_u8 (reading before (v ∷ after))
      ≡ (some v, record (reading before (v ∷ after)) { position = length before + 1 })
unfolding get_u8
get_u8-put_u8 v before after = rw (room before (v ∷ after) 1 (omega arith)) (
    ap (λ w. (some w, record (reading before (v ∷ after)) { position = length before + 1 }))
      (value_8 v before after))

-- A signed 64-bit number.
abbrev pub IsInt64 : ℤ → Type 0
IsInt64 (pos n) = n < 2 ^ 63
IsInt64 (negsuc n) = n < 2 ^ 63

signed_back : (v : ℤ) → IsInt64 v → to_signed (to_unsigned v) ≡ v
signed_back (pos n) h = ground (arith, h)
signed_back (negsuc n) h =
    let big : ltb (2 ^ 64 - 1 - n) (2 ^ 63) ≡ false = ground (arith, h) in
    rw big (ap negsuc (omega (arith, h)))

unsigned_fits : (v : ℤ) → IsInt64 v → to_unsigned v < 2 ^ 64
unsigned_fits (pos n) h = omega (arith, h)
unsigned_fits (negsuc n) h = omega arith

-- A signed 64-bit number that was written is read back, negative numbers included.
pub get_i64-put_i64 :
    (v : ℤ) (before after : List ℕ)
    → IsInt64 v
    → get_i64 (reading before (put_i64 v [] ++ after))
      ≡ (some v, record (reading before (put_i64 v [] ++ after)) { position = length before + 8 })
unfolding get_i64 put_i64
get_i64-put_i64 v before after h =
    let rest = put_u64 (to_unsigned v) [] ++ after in
    ap signed (get_u64-put_u64 (to_unsigned v) before after (unsigned_fits v h))
    ∙ ap (λ w. (some w, record (reading before rest) { position = length before + 8 }))
        (signed_back v h)

-- The reader stays inside its bytes.
abbrev pub IsInside : WireReader → Type 0
IsInside r = r.position ≤ length r.data_bytes

-- A read that fails marks the reader, one that succeeds had no failed read before it, and both stay
-- inside.
abbrev pub Bounded {ℓ} : {A : Type ℓ} → WireReader → Option A × WireReader → Type 0
Bounded r (none, r') = (r'.failed ≡ true) × IsInside r'
Bounded r (some a, r') = (r.failed ≡ false) × (r'.failed ≡ false) × IsInside r'

pub read-Bounded :
    (n : ℕ) (value : WireReader → ℕ) (r : WireReader)
    → IsInside r
    → Bounded r (read_bytes n value r)
read-Bounded n value r h = elim (Bool-cases r.failed) [
  | inl bad ↦ rw bad (refl, h)
  | inr good ↦ rw good (elim (Bool-cases (ltb (length r.data_bytes - r.position) n)) [
    | inl short ↦ rw short (refl, h)
    | inr enough ↦ rw enough (refl, refl, ground (arith, enough, h))
  ])
]
