-- ===== src/Examples/Transport.antt =====
-- A run of src/net/transport.cpp: node 1 dials node 2, and node 2 dials node 1.
use sententia.Prelude.{ℕ, get_elem?, ◌≡◌, refl, some, true, List, [], ◌∷◌}
use sententia.Wire.{put_u16, put_u32, put_u64, put_str, get_u8, get_u16, get_u32, byte_at, get_str}
use sententia.Wire.Decode.{◌>>=◌}
use sententia.Message.{
  hello, encode, encode_body, patch, decode_body, decoder, decode_hello, finish,
}
use sententia.Framing.{append_bytes, next, read_header, check_header, take_frame, reset}
use sententia.Framing.Writer.{enqueue, consume}
use sententia.Transport.{
  Transport, Run, accept_one, got, find_peer, drop_peer, keeps, handle_hello, drain_frames,
  own_hello, decimal,
}
use sententia.Transport.Unique.{Unique}
use sententia.Transport.Sending.{handle_readable, read_into, drain}
use sententia.Transport.Dialing.{dial_from}
use sententia.Transport.Draining.{Drains, drain-Drains}
use sententia.Transport.Operations.{
  Input, added, accepted, polled, came_through, readable, step, steps, steps-Unique,
}

abbrev first_node : Transport
first_node = record {
  self_id = 1;
  listen_port = 9001;
  peers = [];
  high_water_mark = 4096;
  next_connect_cycle = [];
  reconnect_delay = 10;
  cycle = 0;
  stats = record {
    messages_sent = 0;
    messages_received = 0;
    bytes_sent = 0;
    bytes_received = 0;
    short_writes = 0;
    partial_reads = 0;
    connections_accepted = 0;
    connections_established = 0;
    disconnects = 0;
    framing_errors = 0;
    decode_errors = 0;
    sends_refused_overflow = 0;
  };
}

abbrev hello_from_2 : List ℕ
hello_from_2 =
    encode (hello (record { node_id = 2; protocol_version = 1; advertised_address = b'b' ∷ [] })) []

abbrev both_dial : List Input
both_dial =
    added 2 (b'b' ∷ []) 9002
    ∷ polled (λ i. true)
    ∷ came_through 0
    ∷ accepted
    ∷ readable 1 (got hello_from_2 ∷ [])
    ∷ readable 0 (got hello_from_2 ∷ [])
    ∷ []

-- The polled connection takes over, since 1 is the lower number.
kept : find_peer 2 (steps both_dial (first_node, [])).0.peers ≡ some 0
unfolding steps step dial_from find_peer handle_readable drain_frames handle_hello drop_peer keeps
    own_hello decimal append_bytes next read_header check_header take_frame reset enqueue consume
    encode encode_body patch decode_body decoder decode_hello finish put_u16 put_u32 put_u64 put_str
    get_u8 get_u16 get_u32 get_str byte_at ◌>>=◌
kept = refl

steps-Unique_example : Unique (steps both_dial (first_node, []))
steps-Unique_example = steps-Unique both_dial first_node refl

abbrev hello_came : Run
hello_came =
    read_into 0 hello_from_2 (get_elem? (accept_one first_node).peers 0) (accept_one first_node, [])

drain-Drains_example : Drains 0 hello_came (drain 0 hello_came)
drain-Drains_example = drain-Drains 0 hello_came
