-- ===== src/Wire/Strings.antt =====
-- Strings of include/sententia/net/wire.hpp are read back, and no read leaves the bytes.
use sententia.Prelude.{
  ℕ, suc, ◌+◌, ◌-◌, ◌%◌, ◌^◌, ◌≤◌, ◌<◌, ◌≡◌, refl, ap, ◌∙◌, inl, inr, true, false, none, some, List,
  [], ◌∷◌, ◌++◌, ltb, length, length-append, take, drop, arith, Bool-cases,
}
use sententia.Wire.{
  put_u32, put_str, WireReader, Read, need, shifted, get_u8, get_u16, get_u32, get_u64, get_i64,
  signed, get_body, get_str,
}
use sententia.Wire.Reading.{reading, get_u32-put_u32, IsInside, Bounded, read-Bounded}

need_inside :
    (n : ℕ) (r : WireReader)
    → IsInside r
    → (need n r).0 ≡ true
    → r.position + n ≤ length r.data_bytes
need_inside n r h e = ground (arith, h, e)

body-Bounded :
    (max_len : ℕ) (r : WireReader) (d : Read) → Bounded r d → Bounded r (get_body max_len d)
body-Bounded max_len r (none, r') h = h
body-Bounded max_len r (some len, r') (fresh, good, inside) = elim (Bool-cases (ltb max_len len)) [
  | inl long ↦ rw long (refl, inside)
  | inr short ↦ rw short (elim (Bool-cases (need len r').0) [
    | inl enough ↦ rw enough (fresh, good, need_inside len r' inside enough)
    | inr missing ↦ rw missing (refl, inside)
  ])
]

u32-Bounded : (r : WireReader) → IsInside r → Bounded r (get_u32 r)
unfolding get_u32
u32-Bounded = read-Bounded 4 (λ r. shifted 0 r + shifted 1 r + shifted 2 r + shifted 3 r)

u64-Bounded : (r : WireReader) → IsInside r → Bounded r (get_u64 r)
unfolding get_u64
u64-Bounded = read-Bounded 8 (λ r.
    shifted 0 r
    + shifted 1 r
    + shifted 2 r
    + shifted 3 r
    + shifted 4 r
    + shifted 5 r
    + shifted 6 r
    + shifted 7 r)

signed-Bounded : (r : WireReader) (d : Read) → Bounded r d → Bounded r (signed d)
signed-Bounded r (none, r') h = h
signed-Bounded r (some raw, r') h = h

-- Every read of a reader inside its bytes leaves it inside: a failed read marks the reader, and a
-- read succeeds only on a reader that has not failed before.
pub reads-Bounded :
    (max_len : ℕ) (r : WireReader)
    → IsInside r
    → Bounded r (get_u8 r)
      × Bounded r (get_u16 r)
      × Bounded r (get_u32 r)
      × Bounded r (get_u64 r)
      × Bounded r (get_i64 r)
      × Bounded r (get_str max_len r)
unfolding get_u8 get_u16 get_i64 get_str
reads-Bounded max_len r h = (
  read-Bounded 1 (λ r. shifted 0 r) r h,
  read-Bounded 2 (λ r. shifted 0 r + shifted 1 r) r h,
  u32-Bounded r h,
  u64-Bounded r h,
  signed-Bounded r (get_u64 r) (u64-Bounded r h),
  body-Bounded max_len r (get_u32 r) (u32-Bounded r h),
)

drop-append : (xs ys : List ℕ) (k : ℕ) → drop (length xs + k) (xs ++ ys) ≡ drop k ys
drop-append [] ys k = ap (λ n. drop n ys) (omega arith)
drop-append (x ∷ xs) ys k =
    ap (λ n. drop n (x ∷ xs ++ ys)) {x = suc (length xs) + k} {y = suc (length xs + k)}
      (omega arith)
    ∙ drop-append xs ys k

take-append : (xs ys : List ℕ) → take (length xs) (xs ++ ys) ≡ xs
take-append [] ys = refl
take-append (x ∷ xs) ys = ap (λ l. x ∷ l) (take-append xs ys)

-- The body of a string behind its four bytes of length.
body-put :
    (s : List ℕ) (max_len : ℕ) (before size after : List ℕ)
    → length size ≡ 4
    → length s ≤ max_len
    → get_body max_len (
      some (length s),
      record (reading before (size ++ (s ++ after))) { position = length before + 4 },
    )
      ≡ (
        some s,
        record (reading before (size ++ (s ++ after))) { position = length before + 4 + length s },
      )
body-put s max_len before size after four fits =
    let short : ltb max_len (length s) ≡ false = ground (arith, fits) in
    let enough : ltb (length (before ++ (size ++ (s ++ after))) - (length before + 4)) (length s)
        ≡ false =
      ground (
        arith,
        four,
        length-append before (size ++ (s ++ after)),
        length-append size (s ++ after),
        length-append s after,
      ) in
    let body : take (length s) (drop (length before + 4) (before ++ (size ++ (s ++ after)))) ≡ s =
      ap (take (length s)) (
        drop-append before (size ++ (s ++ after)) 4
        ∙ (ap (λ n. drop n (size ++ (s ++ after))) {x = 4} {y = length size + 0}
              (omega (arith, four))
            ∙ drop-append size (s ++ after) 0))
      ∙ take-append s after in
    rw (short, enough, body) refl

-- A string that was written is read back if it is no longer than the reader allows, where that limit is
-- below 2^32, and the reader is behind it.
pub get_str-put_str :
    (s : List ℕ) (max_len : ℕ) (before after : List ℕ)
    → length s ≤ max_len
    → max_len < 2 ^ 32
    → get_str max_len (reading before (put_str s [] ++ after)) ≡ (
      some s,
      record (reading before (put_str s [] ++ after)) { position = length before + 4 + length s },
    )
unfolding get_str put_str put_u32
get_str-put_str s max_len before after fits small =
    let size : length s % 2 ^ 32 ≡ length s = omega (arith, fits, small) in
    rw size (
      ap (get_body max_len)
        (get_u32-put_u32 (length s) before (s ++ after) (omega (arith, fits, small)))
      ∙ body-put s max_len before (put_u32 (length s) []) after refl fits)
