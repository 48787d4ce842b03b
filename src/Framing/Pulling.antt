-- ===== src/Framing/Pulling.antt =====
-- The loop of `Transport::drainFrames` of src/net/transport.cpp over `next` of src/net/framing.cpp:
-- calls until one gives no frame.
use sententia.Prelude.{
  ℕ, zero, suc, ◌+◌, ◌≤◌, ◌<◌, ◌≡◌, refl, sym, ap, ◌∙◌, subst, inl, inr, true, false, Bool-cases,
  Option, none, some, List, [], ◌∷◌, ltb, length, length-drop, drop, arith,
}
use sententia.Framing.{
  Header, ReaderStatus, good, bad_magic, bad_version, payload_too_large, Frame, FrameReader,
  has_failed, next, header_size, check_header, read_header,
}
use sententia.Framing.Parsing.{
  unread, Parsed, waiting, broken, complete, parse, parse_body, Agrees, next-parse,
}
use sententia.Framing.Stream.{Frames, stop, fail, more}

-- A frame is followed by what the loop does then.
abbrev pub after_next :
    (FrameReader → List Frame × FrameReader) → Option Frame × FrameReader → List Frame × FrameReader
after_next loop (none, r) = ([], r)
after_next loop (some f, r) = let (fs, r') = loop r in (f ∷ fs, r')

unfoldable pub pull : ℕ → FrameReader → List Frame × FrameReader
pull zero r = ([], r)
pull (suc fuel) r = after_next (pull fuel) (next r)

body-shorter :
    (h : Header) (b rest : List ℕ) (f : Frame)
    → 12 ≤ length b
    → parse_body h b ≡ complete f rest
    → length rest < length b
body-shorter h b rest f long e = elim (Bool-cases (ltb (length b) (header_size + h.size))) [
  | inl short ↦ ground (arith, short, e)
  | inr whole ↦
      let cut : drop (header_size + h.size) b ≡ rest = ground (arith, whole, e) in
      omega (arith, ap length cut, length-drop (header_size + h.size) b, long)
]

-- A frame takes bytes off, and a failure is one.
parse-shorter : (b rest : List ℕ) (f : Frame) → parse b ≡ complete f rest → length rest < length b
unfolding parse
parse-shorter b rest f e = elim (Bool-cases (ltb (length b) header_size)) [
  | inl short ↦ ground (arith, short, e)
  | inr enough ↦ elim (Bool-cases (has_failed (check_header (read_header b)))) [
    | inl bad ↦ ground (arith, enough, bad, e)
    | inr fine ↦
        body-shorter (read_header b) b rest f (ground (arith, enough))
          (ground (arith, enough, fine, e))
  ]
]

body-broken :
    (h : Header) (b : List ℕ) (s : ReaderStatus) → parse_body h b ≡ broken s → has_failed s ≡ true
body-broken h b s e = ground (arith, e)

parse-broken : (b : List ℕ) (s : ReaderStatus) → parse b ≡ broken s → has_failed s ≡ true
unfolding parse
parse-broken b s e = elim (Bool-cases (ltb (length b) header_size)) [
  | inl short ↦ ground (arith, short, e)
  | inr enough ↦ elim (Bool-cases (has_failed (check_header (read_header b)))) [
    | inl bad ↦
        let same : check_header (read_header b) ≡ s = ground (arith, enough, bad, e) in
        ap has_failed (sym same) ∙ bad
    | inr fine ↦ body-broken (read_header b) b s (ground (arith, enough, fine, e))
  ]
]

-- A reader whose position is in its buffer.
abbrev pub IsIn : FrameReader → Type 0
IsIn r = r.read_pos ≤ length r.buf

-- What a loop over `next` leaves, for the bytes that it began with.
abbrev pub Pulled : List ℕ → List Frame × FrameReader → Type 0
Pulled b (fs, r) = Frames b fs r.status (unread r) × IsIn r

pub is_good : (s : ReaderStatus) → has_failed s ≡ false → s ≡ good
is_good good h = refl
is_good bad_magic h = ground (arith, h)
is_good bad_version h = ground (arith, h)
is_good payload_too_large h = ground (arith, h)

after_next-Pulled :
    (loop : FrameReader → List Frame × FrameReader) (r : FrameReader) (p : Parsed)
    (n : Option Frame × FrameReader)
    → parse (unread r) ≡ p
    → Agrees r p n
    → r.status ≡ good
    → IsIn r
    → ((r' : FrameReader)
        → r'.status ≡ good
        → IsIn r'
        → length (unread r') < length (unread r)
        → Pulled (unread r') (loop r'))
    → Pulled (unread r) (after_next loop n)
after_next-Pulled loop r waiting (none, r') e a ok inside ih =
    subst (λ x. Pulled (unread r) ([], x)) (sym a.1)
      (subst (λ s. Frames (unread r) [] s (unread r)) (sym ok) (stop e), inside)
after_next-Pulled loop r waiting (some g, r') e a ok inside ih = ground (arith, a.0)
after_next-Pulled loop r (broken s) (none, r') e a ok inside ih =
    subst (λ x. Pulled (unread r) ([], x)) (sym a.1) (fail (parse-broken (unread r) s e) e, inside)
after_next-Pulled loop r (broken s) (some g, r') e a ok inside ih = ground (arith, a.0)
after_next-Pulled loop r (complete f rest) (none, r') e a ok inside ih = ground (arith, a.0)
after_next-Pulled loop r (complete f rest) (some g, r') e (same, left, status, in') ok inside ih =
    let shorter : length (unread r') < length (unread r) =
      omega (arith, ap length left, parse-shorter (unread r) rest f e) in
    let (frames, last) = ih r' (status ∙ ok) in' shorter in
    let e' : parse (unread r) ≡ complete g (unread r') = e ∙ ground (arith, same, left) in
    (more e' frames, last)

pub pull-Pulled :
    (fuel : ℕ) (r : FrameReader)
    → length (unread r) < fuel
    → r.status ≡ good
    → IsIn r
    → Pulled (unread r) (pull fuel r)
unfolding pull
pull-Pulled zero r h ok inside = ground (arith, h)
pull-Pulled (suc fuel) r h ok inside =
    after_next-Pulled (pull fuel) r (parse (unread r)) (next r) refl
      (next-parse r (ap has_failed ok) inside) ok inside
      (λ r' ok' in' less. pull-Pulled fuel r' (omega (arith, h, less)) ok' in')
