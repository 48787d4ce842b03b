-- ===== src/Examples/Framing.antt =====
-- Runs of src/net/framing.cpp: a reader with two bytes already read, then a frame with a payload of one
-- byte; a writer with a heartbeat that leaves in two parts.
use sententia.Prelude.{ℕ, ◌≡◌, refl, some, map, take, drop, append-nil, List, [], ◌∷◌, ◌++◌, arith}
use sententia.Wire.{get_u16, get_u32, byte_at}
use sententia.Framing.{FrameReader, good, next, read_header, check_header, take_frame}
use sententia.Message.{heartbeat, encode, encode_body, patch}
use sententia.Message.Delivered.{decode_frame, messages_of, receive-run}
use sententia.Framing.Receiving.{receive, empty_reader, receive-joined}
use sententia.Wire.{put_u16, put_u32, put_u64}
use sententia.Framing.Writer.{
  enqueue, consume, Step, enqueued, enqueued_raw, wrote, run, pending, new_writer,
}
use sententia.Framing.Parsing.{unread, parse, Agrees, next-parse}

abbrev reader : FrameReader
reader = record {
  buf = 9 ∷ 9 ∷ 0x53 ∷ 0x45 ∷ 0x4E ∷ 0x54 ∷ 1 ∷ 0 ∷ 2 ∷ 0 ∷ 1 ∷ 0 ∷ 0 ∷ 0 ∷ 7 ∷ [];
  read_pos = 2;
  status = good;
}

yields : (next reader).0 ≡ some (record { kind = 2; payload = 7 ∷ [] })
unfolding next read_header check_header take_frame get_u16 get_u32 byte_at
yields = refl

next-parse_example : Agrees reader (parse (unread reader)) (next reader)
next-parse_example = next-parse reader refl (omega arith)

abbrev steps : List Step
steps =
    wrote 3
    ∷ enqueued (heartbeat (record { node_id = 1; counter = 2 }))
    ∷ wrote 5
    ∷ enqueued_raw (7 ∷ 8 ∷ [])
    ∷ wrote 200
    ∷ []

-- The frame of the heartbeat, cut in three, and whole.
abbrev one_frame : List ℕ
one_frame = encode (heartbeat (record { node_id = 1; counter = 2 })) []

receive-joined_example :
    ((receive (take 5 one_frame ∷ [] ∷ drop 5 one_frame ∷ []) empty_reader).0
      ≡ (receive (one_frame ∷ []) empty_reader).0)
    × ((receive (take 5 one_frame ∷ [] ∷ drop 5 one_frame ∷ []) empty_reader).1.status
        ≡ (receive (one_frame ∷ []) empty_reader).1.status)
receive-joined_example =
    receive-joined (take 5 one_frame ∷ [] ∷ drop 5 one_frame ∷ []) (one_frame ∷ []) pieces
  where
    pieces : take 5 one_frame ++ (drop 5 one_frame ++ []) ≡ one_frame ++ []
    pieces = unfold encode encode_body patch put_u16 put_u32 put_u64 in refl

abbrev messages_only : List Step
messages_only =
    enqueued (heartbeat (record { node_id = 1; counter = 2 })) ∷ wrote 9 ∷ wrote 200 ∷ []

all_left : pending (run messages_only ([], new_writer 100)).1 ≡ []
unfolding run enqueue consume encode encode_body patch put_u16 put_u32 put_u64
all_left = refl

receive-run_example :
    (map decode_frame (receive ((run messages_only ([], new_writer 100)).0 ∷ []) empty_reader).0
      ≡ map some (messages_of messages_only))
    × ((receive ((run messages_only ([], new_writer 100)).0 ∷ []) empty_reader).1.status ≡ good)
receive-run_example =
    receive-run 100 messages_only ((run messages_only ([], new_writer 100)).0 ∷ [])
      ((omega arith, omega arith), (tt, (tt, tt))) all_left
      (append-nil (run messages_only ([], new_writer 100)).0)
