-- ===== src/Message/Delivered.antt =====
-- From `FrameWriter::enqueue` of src/net/framing.cpp on one side of a connection to `decodeBody` of
-- src/net/message.cpp on the other.
use sententia.Prelude.{
  ℕ, ◌≡◌, refl, sym, ap, ◌∙◌, Option, some, List, [], ◌∷◌, ◌++◌, map, append-nil, All, arith,
}
use sententia.Message.{Message, decode_body}
use sententia.Message.RoundTrip.{Fits}
use sententia.Message.Framed.{frame_of, parse-encode}
use sententia.Framing.{Frame, good}
use sententia.Framing.Stream.{Frames, stop, more, Frames-unique}
use sententia.Framing.Receiving.{receive, joined, empty_reader, receive-Received, parse-nil}
use sententia.Framing.Writer.{
  Step, enqueued, enqueued_raw, wrote, run, pending, new_writer, offered, StepFits, run_in_order,
}

-- The messages of a writer's history in which no other bytes are handed over.
abbrev pub OnlyMessages : Step → Type 0
OnlyMessages (enqueued m) = Fits m
OnlyMessages (enqueued_raw bytes) = ⊥
OnlyMessages (wrote n) = Unit

abbrev pub messages_of : List Step → List Message
messages_of [] = []
messages_of (enqueued m ∷ steps) = m ∷ messages_of steps
messages_of (enqueued_raw bytes ∷ steps) = messages_of steps
messages_of (wrote n ∷ steps) = messages_of steps

abbrev pub decode_frame : Frame → Option Message
decode_frame f = decode_body f.kind f.payload

offered-Frames :
    (steps : List Step)
    → All OnlyMessages steps
    → Frames (offered steps) (map frame_of (messages_of steps)) good []
offered-Frames [] h = stop parse-nil
offered-Frames (enqueued m ∷ steps) h =
    more (parse-encode m (offered steps) h.0).0 (offered-Frames steps h.1)
offered-Frames (enqueued_raw bytes ∷ steps) h = absurd h.0
offered-Frames (wrote n ∷ steps) h = offered-Frames steps h.1

decoded :
    (steps : List Step)
    → All OnlyMessages steps
    → map decode_frame (map frame_of (messages_of steps)) ≡ map some (messages_of steps)
decoded [] h = refl
decoded (enqueued m ∷ steps) h =
    ap (λ o. o ∷ map decode_frame (map frame_of (messages_of steps))) (parse-encode m [] h.0).1
    ∙ ap (λ l. some m ∷ l) (decoded steps h.1)
decoded (enqueued_raw bytes ∷ steps) h = absurd h.0
decoded (wrote n ∷ steps) h = decoded steps h.1

fitting : (steps : List Step) → All OnlyMessages steps → All StepFits steps
fitting [] h = tt
fitting (enqueued m ∷ steps) h = (h.0, fitting steps h.1)
fitting (enqueued_raw bytes ∷ steps) h = absurd h.0
fitting (wrote n ∷ steps) h = (tt, fitting steps h.1)

-- Messages that are handed to a new writer come out of a new reader, decoded, all and in their order,
-- once all bytes have left, however the writer's bytes are written and cut into chunks on the way.
-- No other bytes are handed to the writer, and the messages' numbers fit their fields.
pub receive-run :
    (mark : ℕ) (steps : List Step) (chunks : List (List ℕ))
    → All OnlyMessages steps
    → pending (run steps ([], new_writer mark)).1 ≡ []
    → joined chunks ≡ (run steps ([], new_writer mark)).0
    → (map decode_frame (receive chunks empty_reader).0 ≡ map some (messages_of steps))
      × ((receive chunks empty_reader).1.status ≡ good)
receive-run mark steps chunks h empty arrived =
    let (sent, w) = run steps ([], new_writer mark) in
    let all : sent ≡ offered steps =
      sym (append-nil sent)
      ∙ ap (λ l. sent ++ l) (sym empty)
      ∙ run_in_order mark steps (fitting steps h) in
    let (frames, status) =
      Frames-unique (receive-Received chunks empty_reader refl (omega arith) parse-nil).1
        (arrived ∙ all) (offered-Frames steps h) in
    (ap (map decode_frame) frames ∙ decoded steps h, status)
