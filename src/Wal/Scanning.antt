-- ===== src/Wal/Scanning.antt =====
-- The loop of `replay` in src/storage/wal.cpp reads back the frames of `append`, up to a torn one.
use sententia.Prelude.{
  ℕ, zero, suc, ◌+◌, ◌*◌, ◌%◌, ◌^◌, ◌≤◌, ◌<◌, ◌≡◌, refl, sym, ap, ◌∙◌, inl, inr, true, false, not,
  ◌&&◌, List, [], ◌∷◌, ◌++◌, ltb, ◌==◌, length, length-append, length-take, length-drop, append-nil,
  take, drop, arith, All, append_assoc, Bool-cases, ==-refl,
}
use sententia.Wire.{byte, byte_at}
use sententia.Wal.{
  WalRecord, wal_magic, wal_header_size, max_record_size, crc32, get_word, frame, payload_at,
  is_whole, scan,
}

-- The number and the length of a record fit their fields.
pub record Fits (r : WalRecord) : Type 0 where
  pub seq : r.seq < 2 ^ 32
  pub size : length r.payload ≤ max_record_size

abbrev pub frames : List WalRecord → List ℕ
frames [] = []
frames (r ∷ rs) = frame r ++ frames rs

pub word_back :
    (v : ℕ) → v < 2 ^ 32 → byte 0 v + byte 1 v * 2 ^ 8 + byte 2 v * 2 ^ 16 + byte 3 v * 2 ^ 24 ≡ v
word_back v h = omega (arith, h)

pub crc32_fits : (bytes : List ℕ) → crc32 bytes < 2 ^ 32
unfolding crc32
crc32_fits bytes = omega arith

-- The four words of a frame, whatever comes after it.
module _ (r : WalRecord) (fits : Fits r) (after : List ℕ) where
  get_magic : get_word (frame r ++ after) 0 ≡ wal_magic
  unfolding get_word frame byte_at
  get_magic = refl

  get_seq : get_word (frame r ++ after) 4 ≡ r.seq
  unfolding get_word frame byte_at
  get_seq = word_back r.seq fits.seq

  get_size : get_word (frame r ++ after) 8 ≡ length r.payload
  unfolding get_word frame byte_at
  get_size = word_back (length r.payload % 2 ^ 32) (omega arith) ∙ omega (arith, fits.size)

  get_crc : get_word (frame r ++ after) 12 ≡ crc32 r.payload
  unfolding get_word frame byte_at
  get_crc = word_back (crc32 r.payload) (crc32_fits r.payload)

  length-frame : length (frame r ++ after) ≡ 16 + length r.payload + length after
  unfolding frame
  length-frame = omega (arith, length-append r.payload after)

  body : drop 16 (frame r ++ after) ≡ r.payload ++ after
  unfolding frame
  body = refl

pub take_front {ℓ} : {A : Type ℓ} (xs ys : List A) → take (length xs) (xs ++ ys) ≡ xs
take_front [] ys = refl
take_front (x ∷ xs) ys = rw (take_front xs ys) refl

drop_front {ℓ} : {A : Type ℓ} (xs ys : List A) → drop (length xs) (xs ++ ys) ≡ ys
drop_front [] ys = refl
drop_front (x ∷ xs) ys = drop_front xs ys

drop-nil {ℓ} : {A : Type ℓ} (n : ℕ) → drop {A = A} n [] ≡ []
drop-nil zero = refl
drop-nil (suc n) = refl

drop_add {ℓ} : {A : Type ℓ} (n m : ℕ) (xs : List A) → drop (n + m) xs ≡ drop m (drop n xs)
drop_add zero m xs = ap (λ k. drop k xs) (omega arith)
drop_add (suc n) m [] = drop-nil (suc n + m) ∙ sym (drop-nil m)
drop_add (suc n) m (x ∷ xs) =
    let next : suc n + m ≡ suc (n + m) = omega arith in rw next (drop_add n m xs)

byte_at-take : (k n : ℕ) (xs : List ℕ) → k < n → byte_at (take n xs) k ≡ byte_at xs k
unfolding byte_at
byte_at-take k zero xs h = ground (arith, h)
byte_at-take k (suc n) [] h = refl
byte_at-take zero (suc n) (x ∷ xs) h = refl
byte_at-take (suc k) (suc n) (x ∷ xs) h = byte_at-take k n xs (omega (arith, h))

get_word-take : (k n : ℕ) (xs : List ℕ) → k + 3 < n → get_word (take n xs) k ≡ get_word xs k
unfolding get_word
get_word-take k n xs h =
    rw
      (
        byte_at-take k n xs (omega (arith, h)),
        byte_at-take (k + 1) n xs (omega (arith, h)),
        byte_at-take (k + 2) n xs (omega (arith, h)),
        byte_at-take (k + 3) n xs (omega (arith, h)),
      )
      refl

module _ (r : WalRecord) (fits : Fits r) (after : List ℕ) where
  payload_back : payload_at (frame r ++ after) ≡ r.payload
  payload_back = rw (get_size r fits after, body r fits after) (take_front r.payload after)

  frame-is_whole : is_whole (frame r ++ after) ≡ true
  unfolding is_whole
  frame-is_whole =
      let size = get_size r fits after in
      let long : ltb (length (frame r ++ after)) 16 ≡ false =
        ground (arith, length-frame r fits after) in
      let small : ltb max_record_size (length r.payload) ≡ false = ground (arith, fits.size) in
      let enough : ltb (length (frame r ++ after)) (16 + length r.payload) ≡ false =
        ground (arith, length-frame r fits after) in
      rw
        (
          payload_back,
          get_crc r fits after,
          get_magic r fits after,
          size,
          long,
          small,
          enough,
          ==-refl,
        )
        refl

  rest_back : drop (16 + length r.payload) (frame r ++ after) ≡ after
  rest_back =
      drop_add 16 (length r.payload) (frame r ++ after)
      ∙ ap (drop (length r.payload)) (body r fits after)
      ∙ drop_front r.payload after

few_bytes : (t : List ℕ) → ltb (length t) wal_header_size ≡ true → is_whole t ≡ false
unfolding is_whole
few_bytes t h = rw h refl

cut_short :
    (t : List ℕ) → ltb (length t) (wal_header_size + get_word t 8) ≡ true → is_whole t ≡ false
unfolding is_whole
cut_short t h =
    elim (Bool-cases (
      not (ltb (length t) wal_header_size)
      && get_word t 0 == wal_magic
      && not (ltb max_record_size (get_word t 8)))) [
        | inl before ↦ rw (before, h) refl
        | inr stopped ↦ rw stopped refl
      ]

-- A frame of which a part is missing at the end is not read.
pub torn-is_whole :
    (k : ℕ) (r : WalRecord) → Fits r → k < length (frame r) → is_whole (take k (frame r)) ≡ false
torn-is_whole k r fits h =
    let len = length-take k (frame r) in
    elim (Bool-cases (ltb k wal_header_size)) [
      | inl short ↦
          let few : ltb (length (take k (frame r))) wal_header_size ≡ true =
            ground (arith, short, len, h) in
          few_bytes (take k (frame r)) few
      | inr long ↦
          let size : get_word (take k (frame r)) 8 ≡ length r.payload =
            get_word-take 8 k (frame r) (ground (arith, long))
            ∙ ap (λ xs. get_word xs 8) (sym (append-nil (frame r)))
            ∙ get_size r fits [] in
          let total : length (frame r) ≡ 16 + length r.payload =
            ap length (sym (append-nil (frame r))) ∙ length-frame r fits [] ∙ omega arith in
          let missing : ltb (length (take k (frame r)))
                (wal_header_size + get_word (take k (frame r)) 8)
              ≡ true =
            ground (arith, size, total, len, h) in
          cut_short (take k (frame r)) missing
    ]

scan-next :
    (fuel offset : ℕ) (rest : List ℕ)
    → is_whole rest ≡ true
    → let (records, end) =
        scan fuel
          (offset + (wal_header_size + get_word rest 8))
          (drop (wal_header_size + get_word rest 8) rest) in
      scan (suc fuel) offset rest
      ≡ (record { seq = get_word rest 4; payload = payload_at rest } ∷ records, end)
unfolding scan
scan-next fuel offset rest h = ground arith

scan-stops :
    (fuel offset : ℕ) (rest : List ℕ)
    → is_whole rest ≡ false
    → scan (suc fuel) offset rest ≡ ([], offset)
unfolding scan
scan-stops fuel offset rest h = ground arith

-- The loop reads back the records whose frames stand in front of bytes that are no whole frame.
pub scan-frames :
    (fuel offset : ℕ) (rs : List WalRecord) (tail : List ℕ)
    → All Fits rs
    → is_whole tail ≡ false
    → length (frames rs ++ tail) < fuel
    → scan fuel offset (frames rs ++ tail) ≡ (rs, offset + length (frames rs))
unfolding scan
scan-frames zero offset rs tail fits torn h = ground (arith, h)
scan-frames (suc fuel) offset [] tail fits torn h =
    rw (scan-stops fuel offset tail torn) (ap (λ n. ([], n)) (omega arith))
scan-frames (suc fuel) offset (r ∷ rs) tail fits torn h =
    let after = frames rs ++ tail in
    let next = scan-next fuel offset (frame r ++ after) (frame-is_whole r fits.0 after) in
    let size = get_size r fits.0 after in
    let len = length-frame r fits.0 after in
    rw (append_assoc (frame r) (frames rs) tail) (
      next
      ∙ rw
          (
            payload_back r fits.0 after,
            size,
            rest_back r fits.0 after,
            get_seq r fits.0 after,
            scan-frames fuel (offset + (16 + length r.payload)) rs tail fits.1 torn (
                omega (
                  arith,
                  h,
                  length-append (frame r ++ frames rs) tail,
                  length-append (frame r) (frames rs),
                  length-append (frames rs) tail,
                  length-frame r fits.0 (frames rs),
                )),
          )
          (ap (λ n. (r ∷ rs, n)) (omega (arith, length-frame r fits.0 (frames rs)))))

whole_long : (rest : List ℕ) → is_whole rest ≡ true → wal_header_size ≤ length rest
unfolding is_whole
whole_long rest h = elim (Bool-cases (ltb (length rest) wal_header_size)) [
  | inl few ↦ ground (arith, sym h ∙ few_bytes rest few)
  | inr many ↦ ground (arith, many)
]

-- On any bytes the loop stops by its own tests: behind what it has read there is no whole frame. The
-- fuel is more than the number of bytes.
pub scan-ends :
    (fuel offset : ℕ) (rest : List ℕ)
    → length rest < fuel
    → (k : ℕ) × ((scan fuel offset rest).1 ≡ offset + k) × (is_whole (drop k rest) ≡ false)
scan-ends zero offset rest h = ground (arith, h)
scan-ends (suc fuel) offset rest h = elim (Bool-cases (is_whole rest)) [
  | inl whole ↦
      let size = wal_header_size + get_word rest 8 in
      let (k, end, stops) =
        scan-ends fuel (offset + size) (drop size rest)
          (omega (arith, h, whole_long rest whole, length-drop size rest)) in
      (
        size + k,
        ap (λ t. t.1) (scan-next fuel offset rest whole) ∙ end ∙ omega arith,
        ap is_whole (drop_add size k rest) ∙ stops,
      )
  | inr stops ↦ (0, ap (λ t. t.1) (scan-stops fuel offset rest stops) ∙ omega arith, stops)
]
