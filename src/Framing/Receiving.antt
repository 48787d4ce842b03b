-- ===== src/Framing/Receiving.antt =====
-- The reader of src/net/framing.cpp fed as `Transport::handleReadable` and `drainFrames` of
-- src/net/transport.cpp feed it: some bytes, then calls of `next` until one gives no frame.
use sententia.Prelude.{
  ℕ, suc, ◌≡◌, refl, sym, ap, ◌∙◌, subst, inl, inr, true, Bool-cases, none, List, [], ◌∷◌, ◌++◌,
  length-drop, length-append, drop-append, append_assoc, append-nil, arith,
}
use sententia.Framing.{good, Frame, FrameReader, has_failed, append_bytes, next, buffered}
use sententia.Framing.Parsing.{unread, waiting, parse}
use sententia.Framing.Stream.{Frames, stop, Frames-append, Frames-broken, Frames-end, Frames-unique}
use sententia.Framing.Pulling.{after_next, pull, IsIn, pull-Pulled, is_good}

-- The frames that come out while chunks of bytes arrive.
unfoldable pub receive : List (List ℕ) → FrameReader → List Frame × FrameReader
receive [] r = ([], r)
receive (chunk ∷ chunks) r =
    let r1 = append_bytes chunk r in
    let (fs, r2) = pull (suc (buffered r1)) r1 in let (gs, r3) = receive chunks r2 in (fs ++ gs, r3)

abbrev pub joined : List (List ℕ) → List ℕ
joined [] = []
joined (c ∷ cs) = c ++ joined cs

append_bytes-good :
    (x : ℕ) (xs : List ℕ) (r : FrameReader)
    → r.status ≡ good
    → append_bytes (x ∷ xs) r ≡ record r { buf = r.buf ++ x ∷ xs }
unfolding append_bytes
append_bytes-good x xs r ok = ground (arith, ok)

append_bytes-nil : (r : FrameReader) → append_bytes [] r ≡ r
unfolding append_bytes
append_bytes-nil r = ground arith

-- A reader after some bytes.
abbrev Holds : List ℕ → FrameReader → Type 0
Holds b r = (unread r ≡ b) × (r.status ≡ good) × IsIn r

append_bytes-Holds :
    (chunk : List ℕ) (r : FrameReader)
    → r.status ≡ good
    → IsIn r
    → Holds (unread r ++ chunk) (append_bytes chunk r)
append_bytes-Holds [] r ok inside =
    subst (Holds (unread r ++ [])) (sym (append_bytes-nil r))
      (sym (append-nil (unread r)), ok, inside)
append_bytes-Holds (x ∷ xs) r ok inside =
    subst (Holds (unread r ++ x ∷ xs)) (sym (append_bytes-good x xs r ok)) (
      drop-append r.read_pos r.buf (x ∷ xs) inside,
      ok,
      omega (arith, inside, length-append r.buf (x ∷ xs)),
    )

append_bytes_failed :
    (chunk : List ℕ) (r : FrameReader) → has_failed r.status ≡ true → append_bytes chunk r ≡ r
unfolding append_bytes
append_bytes_failed chunk r bad = ground (arith, bad)

next_failed : (r : FrameReader) → has_failed r.status ≡ true → next r ≡ (none, r)
unfolding next
next_failed r bad = ground (arith, bad)

-- The chunks that come after the frames of one.
abbrev then_receive : List (List ℕ) → List Frame × FrameReader → List Frame × FrameReader
then_receive cs (fs, r) = (fs ++ (receive cs r).0, (receive cs r).1)

-- A reader that has failed gives nothing any more.
receive_failed :
    (chunks : List (List ℕ)) (r : FrameReader)
    → has_failed r.status ≡ true
    → receive chunks r ≡ ([], r)
unfolding receive pull
receive_failed [] r bad = refl
receive_failed (c ∷ cs) r bad =
    ap (λ x. then_receive cs (pull (suc (buffered x)) x)) (append_bytes_failed c r bad)
    ∙ ap (λ n. then_receive cs (after_next (pull (buffered r)) n)) (next_failed r bad)
    ∙ receive_failed cs r bad

-- The bytes that came, in front of those that had been waiting, are cut into frames.
abbrev Received : List ℕ → List Frame × FrameReader → Type 0
Received b (fs, r) = (left : List ℕ) × Frames b fs r.status left

pub receive-Received :
    (chunks : List (List ℕ)) (r : FrameReader)
    → r.status ≡ good
    → IsIn r
    → parse (unread r) ≡ waiting
    → Received (unread r ++ joined chunks) (receive chunks r)
unfolding receive
receive-Received [] r ok inside w = (
  unread r,
  rw (append-nil (unread r)) (subst (λ s. Frames (unread r) [] s (unread r)) (sym ok) (stop w)),
)
receive-Received (c ∷ cs) r ok inside w =
    let r1 = append_bytes c r in
    let (bytes, ok1, in1) = append_bytes-Holds c r ok inside in
    let (fs, r2) = pull (suc (buffered r1)) r1 in
    let (frames, in2) =
      pull-Pulled (suc (buffered r1)) r1 (omega (arith, length-drop r1.read_pos r1.buf)) ok1 in1 in
    let whole : unread r1 ++ joined cs ≡ unread r ++ joined (c ∷ cs) =
      ap (λ b. b ++ joined cs) bytes ∙ append_assoc (unread r) c (joined cs) in
    elim (Bool-cases (has_failed r2.status)) [
      | inl bad ↦
          let none_left = receive_failed cs r2 bad in
          (
            unread r2 ++ joined cs,
            subst
                (λ b.
                  Frames b (fs ++ (receive cs r2).0) (receive cs r2).1.status
                    (unread r2 ++ joined cs))
                whole
                (subst
                  (λ n.
                    Frames (unread r1 ++ joined cs) (fs ++ n.0) n.1.status (unread r2 ++ joined cs))
                  (sym none_left)
                  (subst
                    (λ gs. Frames (unread r1 ++ joined cs) gs r2.status (unread r2 ++ joined cs))
                    (sym (append-nil fs)) (Frames-broken (joined cs) frames bad))),
          )
      | inr fine ↦
          let (left, rest) =
            receive-Received cs r2 (is_good r2.status fine) in2 (Frames-end frames fine) in
          (
            left,
            subst (λ b. Frames b (fs ++ (receive cs r2).0) (receive cs r2).1.status left) whole
                (Frames-append (joined cs) frames fine rest),
          )
    ]

pub parse-nil : parse [] ≡ waiting
unfolding parse
parse-nil = refl

abbrev pub empty_reader : FrameReader
empty_reader = record { buf = []; read_pos = 0; status = good }

-- However the same bytes are cut into chunks, a new reader gives the same frames, in the same order,
-- and ends with the same status.
pub receive-joined :
    (chunks others : List (List ℕ))
    → joined chunks ≡ joined others
    → ((receive chunks empty_reader).0 ≡ (receive others empty_reader).0)
      × ((receive chunks empty_reader).1.status ≡ (receive others empty_reader).1.status)
receive-joined chunks others same =
    Frames-unique (receive-Received chunks empty_reader refl (omega arith) parse-nil).1 same
      (receive-Received others empty_reader refl (omega arith) parse-nil).1
