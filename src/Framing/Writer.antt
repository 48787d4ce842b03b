-- ===== src/Framing/Writer.antt =====
-- `FrameWriter` of include/sententia/net/framing.hpp and src/net/framing.cpp: bytes that wait to be
-- written, and that they leave in order.
use sententia.Prelude.{
  drop-append, ℕ, zero, suc, ◌+◌, ◌-◌, ◌≤◌, ◌≡◌, refl, sym, ap, ◌∙◌, min, List, [], ◌∷◌, ◌++◌, ◌==◌,
  leb, Bool, if◌then◌else◌, if-elim, length, length-append, length-drop, take, drop, All,
  append_assoc, append-nil, arith,
}
use sententia.Framing.{compact_threshold}
use sententia.Framing.Parsing.{drop-drop}
use sententia.Message.{Message, encode}
use sententia.Message.RoundTrip.{Fits}
use sententia.Message.Framed.{encode_lem}

pub record FrameWriter : Type 0 where
  pub buf : List ℕ
  pub write_pos : ℕ
  pub high_water_mark : ℕ

abbrev pub new_writer : ℕ → FrameWriter
new_writer mark = record { buf = []; write_pos = 0; high_water_mark = mark }

-- The bytes from `data()` on, `size()` of them.
abbrev pub pending : FrameWriter → List ℕ
pending w = drop w.write_pos w.buf

abbrev pub over_high_water_mark : FrameWriter → Bool
over_high_water_mark w = leb w.high_water_mark (length w.buf - w.write_pos)

abbrev pub set_high_water_mark : ℕ → FrameWriter → FrameWriter
set_high_water_mark bytes w = record w { high_water_mark = bytes }

unfoldable pub enqueue : Message → FrameWriter → FrameWriter
enqueue m w = record w { buf = encode m w.buf }

unfoldable pub enqueue_raw : List ℕ → FrameWriter → FrameWriter
enqueue_raw bytes w = record w { buf = w.buf ++ bytes }

abbrev pub compact_writer : FrameWriter → FrameWriter
compact_writer w =
    if w.write_pos == 0 then w else record w { buf = drop w.write_pos w.buf; write_pos = 0 }

unfoldable pub consume : ℕ → FrameWriter → FrameWriter
consume n w =
    let moved = record w { write_pos = w.write_pos + min n (length w.buf - w.write_pos) } in
    if moved.write_pos == length w.buf
    then record w { buf = []; write_pos = 0 }
    else if leb compact_threshold moved.write_pos
    then compact_writer moved
    else moved

unfoldable pub reset_writer : FrameWriter → FrameWriter
reset_writer w = record w { buf = []; write_pos = 0 }

drop-all : (n : ℕ) (xs : List ℕ) → length xs ≤ n → drop n xs ≡ []
drop-all zero [] h = refl
drop-all zero (x ∷ xs) h = ground (arith, h)
drop-all (suc n) [] h = refl
drop-all (suc n) (x ∷ xs) h = drop-all n xs (omega (arith, h))

take-append-drop : (n : ℕ) (xs : List ℕ) → take n xs ++ drop n xs ≡ xs
take-append-drop zero xs = refl
take-append-drop (suc n) [] = refl
take-append-drop (suc n) (x ∷ xs) = ap (λ l. x ∷ l) (take-append-drop n xs)

-- Bytes that are put at the end of the buffer.
extended :
    (bytes : List ℕ) (w : FrameWriter) (buf : List ℕ)
    → w.write_pos ≤ length w.buf
    → buf ≡ w.buf ++ bytes
    → (drop w.write_pos buf ≡ pending w ++ bytes) × (w.write_pos ≤ length buf)
extended bytes w buf h e = (
  rw e (drop-append w.write_pos w.buf bytes h),
  omega (arith, h, ap length e, length-append w.buf bytes),
)

-- What is left after a consumption, and that the position stays in the buffer.
abbrev Leaves : List ℕ → FrameWriter → Type 0
Leaves left w = (pending w ≡ left) × (w.write_pos ≤ length w.buf)

consume-pending :
    (n : ℕ) (w : FrameWriter)
    → w.write_pos ≤ length w.buf
    → (pending (consume n w) ≡ drop n (pending w))
      × ((consume n w).write_pos ≤ length (consume n w).buf)
unfolding consume
consume-pending n w h =
    let p = w.write_pos + min n (length w.buf - w.write_pos) in
    if-elim (Leaves (drop n (pending w))) (p == length w.buf)
      (λ drained. (
        sym (drop-all n (pending w) (ground (arith, drained, length-drop w.write_pos w.buf))),
        omega arith,
      ))
      λ left.
        let exact : p ≡ w.write_pos + n = ground (arith, left, h) in
        let moved : drop p w.buf ≡ drop n (pending w) =
          ap (λ k. drop k w.buf) exact ∙ drop-drop n w.write_pos w.buf in
        let inside : p ≤ length w.buf = omega (arith, h) in
        if-elim (Leaves (drop n (pending w))) (leb compact_threshold p)
          (λ far.
            if-elim (Leaves (drop n (pending w))) (p == 0) (λ none_yet. (moved, inside))
              (λ some_done. (moved, omega arith)))
          (λ near. (moved, inside))

-- What happens to a writer: a message, bytes, or a write of some of its bytes to the connection.
pub data Step : Type 0 where
  enqueued : Message → Step
  enqueued_raw : List ℕ → Step
  wrote : ℕ → Step

abbrev pub StepFits : Step → Type 0
StepFits (enqueued m) = Fits m
StepFits _ = Unit

-- What a step hands to the writer: a message is its own frame.
abbrev pub offered : List Step → List ℕ
offered [] = []
offered (enqueued m ∷ steps) = encode m [] ++ offered steps
offered (enqueued_raw bytes ∷ steps) = bytes ++ offered steps
offered (wrote n ∷ steps) = offered steps

-- The bytes that have left, and the writer.
unfoldable pub run : List Step → List ℕ × FrameWriter → List ℕ × FrameWriter
run [] r = r
run (enqueued m ∷ steps) (sent, w) = run steps (sent, enqueue m w)
run (enqueued_raw bytes ∷ steps) (sent, w) = run steps (sent, enqueue_raw bytes w)
run (wrote n ∷ steps) (sent, w) = run steps (sent ++ take n (pending w), consume n w)

encode-append : (m : Message) (out : List ℕ) → Fits m → encode m out ≡ out ++ encode m []
encode-append m out fits = encode_lem m out fits ∙ ap (λ l. out ++ l) (sym (encode_lem m [] fits))

abbrev Delivers : List ℕ → List Step → List ℕ × FrameWriter → Type 0
Delivers before steps (sent, w) = sent ++ pending w ≡ before ++ offered steps

regroup : (a b c d : List ℕ) → (a ++ (b ++ c)) ++ d ≡ (a ++ b) ++ (c ++ d)
regroup a b c d = simp append_assoc

run-Delivers :
    (steps : List Step) (sent : List ℕ) (w : FrameWriter)
    → w.write_pos ≤ length w.buf
    → All StepFits steps
    → Delivers (sent ++ pending w) steps (run steps (sent, w))
unfolding run enqueue enqueue_raw
run-Delivers [] sent w h f = sym (append-nil (sent ++ pending w))
run-Delivers (enqueued m ∷ steps) sent w h f =
    let (now, inside) = extended (encode m []) w (encode m w.buf) h (encode-append m w.buf f.0) in
    run-Delivers steps sent (record w { buf = encode m w.buf }) inside f.1
    ∙ ap (λ l. (sent ++ l) ++ offered steps) now
    ∙ regroup sent (pending w) (encode m []) (offered steps)
run-Delivers (enqueued_raw bytes ∷ steps) sent w h f =
    let (now, inside) = extended bytes w (w.buf ++ bytes) h refl in
    run-Delivers steps sent (record w { buf = w.buf ++ bytes }) inside f.1
    ∙ ap (λ l. (sent ++ l) ++ offered steps) now
    ∙ regroup sent (pending w) bytes (offered steps)
run-Delivers (wrote n ∷ steps) sent w h f =
    let (now, inside) = consume-pending n w h in
    run-Delivers steps (sent ++ take n (pending w)) (consume n w) inside f.1
    ∙ ap (λ l. ((sent ++ take n (pending w)) ++ l) ++ offered steps) now
    ∙ ap (λ l. l ++ offered steps)
        (append_assoc sent (take n (pending w)) (drop n (pending w))
          ∙ ap (λ l. sent ++ l) (take-append-drop n (pending w)))

-- Whatever is handed to a new writer and however it is written out, the bytes that have left and those
-- that wait are the frames of the messages, and the other bytes, in the order in which they were
-- handed over. Messages have numbers that fit their fields.
pub run_in_order :
    (mark : ℕ) (steps : List Step)
    → All StepFits steps
    → (run steps ([], new_writer mark)).0 ++ pending (run steps ([], new_writer mark)).1
      ≡ offered steps
run_in_order mark steps f = run-Delivers steps [] (new_writer mark) (omega arith) f
