-- ===== src/Framing/Parsing.antt =====
-- What src/net/framing.cpp yields, told from the unread bytes alone.
use sententia.Prelude.{
  ℕ, zero, suc, ◌+◌, ◌-◌, ◌≤◌, ◌≡◌, refl, ap, ◌∙◌, inl, inr, Bool, true, false, Bool-cases, Option,
  none, some, List, [], ◌∷◌, ◌==◌, ltb, leb, if◌then◌else◌, length, length-drop, take, drop, arith,
}
use sententia.Framing.{
  ReaderStatus, Frame, FrameReader, Header, has_failed, compact, read_header, check_header,
  take_frame, next, header_size, compact_threshold,
}

abbrev pub unread : FrameReader → List ℕ
unread r = drop r.read_pos r.buf

-- What some bytes are the start of.
pub data Parsed : Type 0 where
  waiting : Parsed
  broken : ReaderStatus → Parsed
  complete : Frame → List ℕ → Parsed

abbrev pub parse_body : Header → List ℕ → Parsed
parse_body h bytes =
    if ltb (length bytes) (header_size + h.size)
    then waiting
    else complete (record { kind = h.raw_type; payload = take h.size (drop header_size bytes) })
        (drop (header_size + h.size) bytes)

-- One frame off the front of some bytes.
unfoldable pub parse : List ℕ → Parsed
parse bytes =
    if ltb (length bytes) header_size
    then waiting
    else let h = read_header bytes in
      if has_failed (check_header h) then broken (check_header h) else parse_body h bytes

-- The reader gives the frame and goes on with the bytes behind it, keeps waiting, or fails.
abbrev pub Agrees : FrameReader → Parsed → Option Frame × FrameReader → Type 0
Agrees r waiting (o, r') = (o ≡ none) × (r' ≡ r)
Agrees r (broken s) (o, r') = (o ≡ none) × (r' ≡ record r { status = s })
Agrees r (complete f rest) (o, r') =
    (o ≡ some f) × (unread r' ≡ rest) × (r'.status ≡ r.status) × (r'.read_pos ≤ length r'.buf)

pub drop-drop : (k n : ℕ) (xs : List ℕ) → drop (n + k) xs ≡ drop k (drop n xs)
drop-drop k zero xs = ap (λ m. drop m xs) (omega arith)
drop-drop zero (suc n) [] = ap (λ m. drop m []) {x = suc n + 0} {y = suc n} (omega arith)
drop-drop (suc k) (suc n) [] =
    ap (λ m. drop m []) {x = suc n + suc k} {y = suc (n + suc k)} (omega arith)
drop-drop k (suc n) (x ∷ xs) =
    ap (λ m. drop m (x ∷ xs)) {x = suc n + k} {y = suc (n + k)} (omega arith) ∙ drop-drop k n xs

-- Moving the unread bytes to the front loses none.
compact_lem :
    (r : FrameReader)
    → r.read_pos ≤ length r.buf
    → (unread (compact r) ≡ unread r)
      × ((compact r).status ≡ r.status)
      × ((compact r).read_pos ≤ length (compact r).buf)
unfolding compact
compact_lem r h = elim (Bool-cases (r.read_pos == 0)) [
  | inl front ↦ rw front (refl, refl, h)
  | inr moved ↦ rw moved (refl, refl, omega arith)
]

maybe_compact_lem :
    (b : Bool) (r : FrameReader)
    → r.read_pos ≤ length r.buf
    → (unread (if b then compact r else r) ≡ unread r)
      × ((if b then compact r else r).status ≡ r.status)
      × ((if b then compact r else r).read_pos ≤ length (if b then compact r else r).buf)
maybe_compact_lem true r h = compact_lem r h
maybe_compact_lem false r h = (refl, refl, h)

body-Agrees :
    (h : Header) (r : FrameReader)
    → r.read_pos ≤ length r.buf
    → Agrees r (parse_body h (unread r)) (take_frame h r)
unfolding take_frame
body-Agrees h r le = elim (Bool-cases (ltb (length r.buf - r.read_pos) (header_size + h.size))) [
  | inl short ↦
      let short2 : ltb (length (unread r)) (header_size + h.size) ≡ true =
        ground (arith, short, length-drop r.read_pos r.buf) in
      rw (short, short2) (refl, refl)
  | inr whole ↦
      let whole2 : ltb (length (unread r)) (header_size + h.size) ≡ false =
        ground (arith, whole, length-drop r.read_pos r.buf) in
      let end = r.read_pos + (header_size + h.size) in
      let kept =
        maybe_compact_lem (leb compact_threshold end) (record r { read_pos = end })
          (ground (arith, whole, le)) in
      rw (whole, whole2)
        (
          ap (λ bytes. some (record { kind = h.raw_type; payload = take h.size bytes }))
              (drop-drop header_size r.read_pos r.buf),
          kept.0 ∙ drop-drop (header_size + h.size) r.read_pos r.buf,
          kept.1,
          kept.2,
        )
]

-- A reader that has not failed, and whose position is in its buffer, yields the frame that its unread
-- bytes start with and keeps the bytes behind it, waits for more, or fails with the reason, whether
-- or not it moves its bytes to the front.
pub next-parse :
    (r : FrameReader)
    → has_failed r.status ≡ false
    → r.read_pos ≤ length r.buf
    → Agrees r (parse (unread r)) (next r)
unfolding parse next
next-parse r ok le = rw ok (elim (Bool-cases (ltb (length r.buf - r.read_pos) header_size)) [
  | inl short ↦
      let short2 : ltb (length (unread r)) header_size ≡ true =
        ground (arith, short, length-drop r.read_pos r.buf) in
      rw (short, short2) (refl, refl)
  | inr enough ↦
      let enough2 : ltb (length (unread r)) header_size ≡ false =
        ground (arith, enough, length-drop r.read_pos r.buf) in
      rw (enough, enough2)
        (elim (Bool-cases (has_failed (check_header (read_header (unread r))))) [
          | inl bad ↦ rw bad (refl, refl)
          | inr sound ↦ rw sound (body-Agrees (read_header (unread r)) r le)
        ])
])
