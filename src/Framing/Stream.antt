-- ===== src/Framing/Stream.antt =====
-- Frames of src/net/framing.cpp come out of a stream however its bytes arrive.
use sententia.Prelude.{
  ℕ, zero, suc, ◌+◌, ◌*◌, ◌^◌, ◌≤◌, ◌<◌, ◌≡◌, refl, sym, ap, ◌∙◌, subst, inl, inr, true, false,
  Bool-cases, List, [], ◌∷◌, ◌++◌, ltb, length, length-append, length-drop, take-append, drop,
  drop-append, arith,
}
use sententia.Wire.{byte_at, get_u16, get_u32}
use sententia.Framing.{
  ReaderStatus, good, Frame, Header, has_failed, read_header, check_header, header_size,
}
use sententia.Framing.Parsing.{Parsed, waiting, broken, complete, parse, parse_body}

byte_at-left :
    (bytes more : List ℕ) (k : ℕ) → k < length bytes → byte_at (bytes ++ more) k ≡ byte_at bytes k
unfolding byte_at
byte_at-left [] more k h = ground (arith, h)
byte_at-left (x ∷ xs) more zero h = refl
byte_at-left (x ∷ xs) more (suc k) h = byte_at-left xs more k (omega (arith, h))

abbrev half_at : List ℕ → ℕ → ℕ
half_at bytes k = byte_at bytes k * 2 ^ 0 + byte_at bytes (k + 1) * 2 ^ 8

abbrev word_at : List ℕ → ℕ → ℕ
word_at bytes k = half_at bytes k + byte_at bytes (k + 2) * 2 ^ 16 + byte_at bytes (k + 3) * 2 ^ 24

abbrev header_at : List ℕ → Header
header_at bytes = record {
  magic = word_at bytes 0;
  version = half_at bytes 4;
  raw_type = half_at bytes 6;
  size = word_at bytes 8;
}

read_header_lem : (bytes : List ℕ) → 12 ≤ length bytes → read_header bytes ≡ header_at bytes
unfolding read_header get_u32 get_u16
read_header_lem bytes h = ground (arith, h)

header-append :
    (bytes more : List ℕ) → 12 ≤ length bytes → read_header (bytes ++ more) ≡ read_header bytes
header-append bytes more h =
    let same = λ (k : ℕ) (less : k < 12). byte_at-left bytes more k (omega (arith, h, less)) in
    read_header_lem (bytes ++ more) (omega (arith, h, length-append bytes more))
    ∙ rw
        (
          same 0 (omega arith),
          same 1 (omega arith),
          same 2 (omega arith),
          same 3 (omega arith),
          same 4 (omega arith),
          same 5 (omega arith),
          same 6 (omega arith),
          same 7 (omega arith),
          same 8 (omega arith),
          same 9 (omega arith),
          same 10 (omega arith),
          same 11 (omega arith),
        )
        (sym (read_header_lem bytes h))

-- What more bytes make of what was parsed.
abbrev Extended : List ℕ → Parsed → Parsed → Type 0
Extended more waiting q = Unit
Extended more (broken s) q = q ≡ broken s
Extended more (complete f rest) q = q ≡ complete f (rest ++ more)

body-Extended :
    (h : Header) (bytes more : List ℕ)
    → 12 ≤ length bytes
    → Extended more (parse_body h bytes) (parse_body h (bytes ++ more))
body-Extended h bytes more long = elim (Bool-cases (ltb (length bytes) (header_size + h.size))) [
  | inl short ↦ rw short tt
  | inr whole ↦
      let enough : 12 + h.size ≤ length bytes = ground (arith, whole) in
      let whole2 : ltb (length (bytes ++ more)) (header_size + h.size) ≡ false =
        ground (arith, enough, length-append bytes more) in
      rw
        (
          whole,
          whole2,
          drop-append 12 bytes more long,
          drop-append (12 + h.size) bytes more enough,
          take-append h.size (drop 12 bytes) more (omega (arith, enough, length-drop 12 bytes)),
        )
        refl
]

parse-Extended : (bytes more : List ℕ) → Extended more (parse bytes) (parse (bytes ++ more))
unfolding parse
parse-Extended bytes more = elim (Bool-cases (ltb (length bytes) header_size)) [
  | inl short ↦ rw short tt
  | inr enough ↦
      let long : 12 ≤ length bytes = ground (arith, enough) in
      let long2 : ltb (length (bytes ++ more)) header_size ≡ false =
        ground (arith, long, length-append bytes more) in
      rw (enough, long2, header-append bytes more long)
        (elim (Bool-cases (has_failed (check_header (read_header bytes)))) [
          | inl bad ↦ rw bad refl
          | inr fine ↦ rw fine (body-Extended (read_header bytes) bytes more long)
        ])
]

-- The frames at the front of some bytes, up to bytes that wait for more or are broken.
pub data Frames : List ℕ → List Frame → ReaderStatus → List ℕ → Type 0 where
  stop : {b : List ℕ} → parse b ≡ waiting → Frames b [] good b
  fail :
      {b : List ℕ} {s : ReaderStatus} → has_failed s ≡ true → parse b ≡ broken s → Frames b [] s b
  more :
      {b rest left : List ℕ} {f : Frame} {fs : List Frame} {s : ReaderStatus}
      → parse b ≡ complete f rest
      → Frames rest fs s left
      → Frames b (f ∷ fs) s left

more-append :
    (a b rest : List ℕ) (f : Frame)
    → parse a ≡ complete f rest
    → parse (a ++ b) ≡ complete f (rest ++ b)
more-append a b rest f e = subst (λ p. Extended b p (parse (a ++ b))) e (parse-Extended a b)

broken-append : (a b : List ℕ) (s : ReaderStatus) → parse a ≡ broken s → parse (a ++ b) ≡ broken s
broken-append a b s e = subst (λ p. Extended b p (parse (a ++ b))) e (parse-Extended a b)

-- More bytes behind a stream that is not broken.
pub Frames-append :
    {a : List ℕ} {fs : List Frame} {s : ReaderStatus} {left : List ℕ} (b : List ℕ) {gs : List Frame}
    {t : ReaderStatus} {end : List ℕ}
    → Frames a fs s left
    → has_failed s ≡ false
    → Frames (left ++ b) gs t end
    → Frames (a ++ b) (fs ++ gs) t end
Frames-append b (stop w) ok rest = rest
Frames-append b (fail bad w) ok rest = ground (arith, bad, ok)
Frames-append b (more {b = a} {rest = r} {f = f} e h) ok rest =
    more (more-append a b r f e) (Frames-append b h ok rest)

-- Bytes behind a broken stream are not looked at.
pub Frames-broken :
    {a : List ℕ} {fs : List Frame} {s : ReaderStatus} {left : List ℕ} (b : List ℕ)
    → Frames a fs s left
    → has_failed s ≡ true
    → Frames (a ++ b) fs s (left ++ b)
Frames-broken b (stop w) bad = ground (arith, bad)
Frames-broken b (fail {b = a} {s = s} bad' w) bad = fail bad (broken-append a b s w)
Frames-broken b (more {b = a} {rest = r} {f = f} e h) bad =
    more (more-append a b r f e) (Frames-broken b h bad)

pub Frames-end :
    {a : List ℕ} {fs : List Frame} {s : ReaderStatus} {left : List ℕ}
    → Frames a fs s left
    → has_failed s ≡ false
    → parse left ≡ waiting
Frames-end (stop w) ok = w
Frames-end (fail bad w) ok = ground (arith, bad, ok)
Frames-end (more e h) ok = Frames-end h ok

complete_injective :
    (f g : Frame) (r r' : List ℕ) → complete f r ≡ complete g r' → (f ≡ g) × (r ≡ r')
complete_injective f g r r' e = (cc e, cc e)

-- The frames of some bytes are determined.
pub Frames-unique :
    {a b : List ℕ} {fs gs : List Frame} {s t : ReaderStatus} {left end : List ℕ}
    → Frames a fs s left
    → a ≡ b
    → Frames b gs t end
    → (fs ≡ gs) × (s ≡ t)
Frames-unique (stop w) p (stop w') = (refl, refl)
Frames-unique (stop w) p (fail bad w') = ground (arith, sym w ∙ ap parse p ∙ w')
Frames-unique (stop w) p (more e h) = ground (arith, sym w ∙ ap parse p ∙ e)
Frames-unique (fail bad w) p (stop w') = ground (arith, sym w ∙ ap parse p ∙ w')
Frames-unique (fail bad w) p (fail bad' w') = ground (arith, sym w ∙ ap parse p ∙ w')
Frames-unique (fail bad w) p (more e h) = ground (arith, sym w ∙ ap parse p ∙ e)
Frames-unique (more e h) p (stop w') = ground (arith, sym e ∙ ap parse p ∙ w')
Frames-unique (more e h) p (fail bad' w') = ground (arith, sym e ∙ ap parse p ∙ w')
Frames-unique (more {rest = r} {f = f} {fs = xs} e h) p (more {rest = r'} {f = f'} e' h') =
    let (same_f, same_r) = complete_injective f f' r r' (sym e ∙ ap parse p ∙ e') in
    let (same_fs, same_s) = Frames-unique h same_r h' in
    (ap (λ x. x ∷ xs) same_f ∙ ap (λ ys. f' ∷ ys) same_fs, same_s)
