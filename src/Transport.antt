-- ===== src/Transport.antt =====
-- include/sententia/net/transport.hpp and src/net/transport.cpp: the table of connections. A
-- connection is named by its place in the table. What the sockets answer to reads and writes is given
-- as lists; where a list ends, the next call would block. What the owner is told is a list of events.
pub mod Unique
pub mod Resolving
pub mod Sending
pub mod Draining
pub mod Handling
pub mod Dialing
pub mod Retiring
pub mod Operations
use sententia.Prelude.{
  ℕ, zero, suc, ◌+◌, ◌-◌, ◌*◌, ◌/◌, ◌%◌, Bool, true, false, not, ◌&&◌, ◌||◌, Option, none, some,
  List, [], ◌∷◌, ◌++◌, ◌==◌, ltb, if◌then◌else◌, length, get_elem?, set, map, inc64, add64,
}
use sententia.Message.{Message, Hello, hello, decode_body}
use sententia.Framing.{Frame, FrameReader, has_failed, append_bytes, next, buffered, reset}
use sententia.Framing.Receiving.{empty_reader}
use sententia.Framing.Writer.{
  FrameWriter, new_writer, pending, over_high_water_mark, set_high_water_mark, enqueue, consume,
  reset_writer,
}
use sententia.Network.{SendResult, sent, not_connected, would_overflow}

pub data PeerState : Type 0 where
  disconnected connecting handshaking ready : PeerState

abbrev pub is_ready_state : PeerState → Bool
is_ready_state ready = true
is_ready_state _ = false

abbrev pub is_disconnected : PeerState → Bool
is_disconnected disconnected = true
is_disconnected _ = false

pub record TransportStats : Type 0 where
  pub messages_sent : ℕ
  pub messages_received : ℕ
  pub bytes_sent : ℕ
  pub bytes_received : ℕ
  pub short_writes : ℕ
  pub partial_reads : ℕ
  pub connections_accepted : ℕ
  pub connections_established : ℕ
  pub disconnects : ℕ
  pub framing_errors : ℕ
  pub decode_errors : ℕ
  pub sends_refused_overflow : ℕ

-- `has_sock` is whether the socket is valid.
pub record Peer : Type 0 where
  pub id : ℕ
  pub host : List ℕ
  pub port : ℕ
  pub outbound : Bool
  pub state : PeerState
  pub has_sock : Bool
  pub reader : FrameReader
  pub writer : FrameWriter

pub record Transport : Type 0 where
  pub self_id : ℕ
  pub listen_port : ℕ
  pub peers : List Peer
  pub high_water_mark : ℕ
  pub next_connect_cycle : List ℕ
  pub reconnect_delay : ℕ
  pub cycle : ℕ
  pub stats : TransportStats

-- The calls of the owner's handlers.
pub data HandlerCall : Type 0 where
  came_up : ℕ → List ℕ → HandlerCall
  went_down : ℕ → HandlerCall
  arrived : ℕ → Message → HandlerCall

abbrev pub Run : Type 0
Run = Transport × List HandlerCall

-- What a socket answers.
pub data ReadAnswer : Type 0 where
  got : List ℕ → ReadAnswer
  read_blocks read_closed read_failed : ReadAnswer

pub data WriteAnswer : Type 0 where
  took : ℕ → WriteAnswer
  write_blocks write_failed : WriteAnswer

abbrev pub read_chunk : ℕ
read_chunk = 16 * 1024

abbrev pub protocol_version : ℕ
protocol_version = 1

abbrev pub put_peer : ℕ → Peer → Transport → Transport
put_peer i p t = record t { peers = set t.peers i p }

-- A peer to dial.
abbrev pub add_peer : ℕ → List ℕ → ℕ → Transport → Transport
add_peer id host port t = record t {
  peers =
      t.peers
      ++ record {
        id = id;
        host = host;
        port = port;
        outbound = true;
        state = disconnected;
        has_sock = false;
        reader = empty_reader;
        writer = new_writer t.high_water_mark;
      }
        ∷ [];
  next_connect_cycle = t.next_connect_cycle ++ 0 ∷ [];
}

abbrev pub is_ready_as : ℕ → Peer → Bool
is_ready_as id p = p.id == id && is_ready_state p.state

-- The place of the first connection that is ready under an id.
unfoldable pub find_peer : ℕ → List Peer → Option ℕ
find_peer id [] = none
find_peer id (p ∷ ps) = elim (is_ready_as id p) [
  | true ↦ some 0
  | false ↦ elim (find_peer id ps) [ some i ↦ some (suc i) | none ↦ none ]
]

abbrev pub is_found : Option ℕ → Bool
is_found none = false
is_found (some i) = true

abbrev pub is_ready : ℕ → Transport → Bool
is_ready id t = is_found (find_peer id t.peers)

-- `std::to_string`, for numbers of at most `fuel` digits.
unfoldable pub decimal : ℕ → ℕ → List ℕ
decimal zero n = []
decimal (suc fuel) n =
    let front = decimal fuel (n / 10) in
    let digit = (b'0' + n % 10) ∷ [] in if ltb n 10 then digit else front ++ digit

unfoldable pub own_hello : Transport → Message
own_hello t = hello (record {
  node_id = t.self_id;
  protocol_version = protocol_version;
  advertised_address =
      b'0' ∷ b'.' ∷ b'0' ∷ b'.' ∷ b'0' ∷ b'.' ∷ b'0' ∷ b':' ∷ decimal 5 t.listen_port;
})

abbrev pub send_hello : Transport → Peer → Peer
send_hello t p = record p { writer = enqueue (own_hello t) p.writer }

-- `connected` is whether the socket of the dial is valid.
abbrev pub start_connect : Bool → Peer → Peer
start_connect false p = record p { has_sock = false; state = disconnected }
start_connect true p = record p {
  has_sock = true;
  state = connecting;
  reader = reset p.reader;
  writer = reset_writer p.writer;
}

-- A dial that has come through.
abbrev pub established : ℕ → Peer → Transport → Transport
established i p t = record (put_peer i (send_hello t (record p { state = handshaking })) t) {
  stats = record t.stats { connections_established = inc64 t.stats.connections_established };
}

-- A connection that was accepted.
abbrev pub accept_one : Transport → Transport
accept_one t = record t {
  peers =
      t.peers
      ++ send_hello t (record {
        id = 0;
        host = [];
        port = 0;
        outbound = false;
        state = handshaking;
        has_sock = true;
        reader = empty_reader;
        writer = new_writer t.high_water_mark;
      })
        ∷ [];
  next_connect_cycle = t.next_connect_cycle ++ 0 ∷ [];
  stats = record t.stats { connections_accepted = inc64 t.stats.connections_accepted };
}

abbrev pub dropped : Peer → Peer
dropped p = record p {
  id = if p.outbound then p.id else 0;
  has_sock = false;
  state = disconnected;
  reader = reset p.reader;
  writer = reset_writer p.writer;
}

abbrev pub drop_known : ℕ → Peer → Run → Run
drop_known i p (t, es) = (
  record (put_peer i (dropped p) t) {
    stats = record t.stats { disconnects = inc64 t.stats.disconnects };
  },
  (if is_ready_state p.state then es ++ went_down p.id ∷ [] else es),
)

unfoldable pub drop_peer : ℕ → Run → Run
drop_peer i (t, es) = elim (get_elem? t.peers i) [
  | none ↦ (t, es)
  | some p ↦ drop_known i p (t, es)
]

-- Whether a connection with `other` stays where there are two: that of the lower-numbered dialer.
unfoldable pub keeps : ℕ → ℕ → Bool → Bool
keeps self other outbound = if outbound then ltb self other else not (ltb self other)

abbrev pub become_ready : ℕ → Peer → Hello → Run → Bool × Run
become_ready i p h (t, es) = (
  true,
  (
    put_peer i (record p { id = h.node_id; state = ready }) t,
    es ++ came_up h.node_id h.advertised_address ∷ [],
  ),
)

-- A hello when the connection at `found`, if any, is ready under the same id.
abbrev pub resolve : Option ℕ → ℕ → Peer → Hello → Run → Bool × Run
resolve none i p h r = become_ready i p h r
resolve (some j) i p h r =
    if j == i
    then become_ready i p h r
    else if keeps r.0.self_id h.node_id p.outbound
    then become_ready i p h (drop_peer j r)
    else (false, drop_peer i r)

-- What a frame's message does, with whether the loop goes on.
unfoldable pub handle_hello : ℕ → Peer → Hello → Run → Bool × Run
handle_hello i p h r =
    if not (h.protocol_version == protocol_version)
    then (false, drop_peer i r)
    else if p.outbound && not (p.id == h.node_id)
    then (false, drop_peer i r)
    else resolve (find_peer h.node_id r.0.peers) i p h r

abbrev pub deliver : ℕ → Peer → Message → Run → Bool × Run
deliver i p m (t, es) =
    if not (is_ready_state p.state)
    then (false, drop_peer i (t, es))
    else (true, (t, es ++ arrived p.id m ∷ []))

abbrev pub count_received : Run → Run
count_received (t, es) = (
  record t { stats = record t.stats { messages_received = inc64 t.stats.messages_received } },
  es,
)

abbrev pub handle_message : ℕ → Peer → Option Message → Run → Bool × Run
handle_message i p none (t, es) = (
  true,
  (record t { stats = record t.stats { decode_errors = inc64 t.stats.decode_errors } }, es),
)
handle_message i p (some (hello h)) r = handle_hello i p h (count_received r)
handle_message i p (some m) r = deliver i p m (count_received r)

-- A round of the loop of `drainFrames`, on the connection as the read of a frame left it.
abbrev pub handle_next : ℕ → Peer → Option Frame × FrameReader → Run → Bool × Run
handle_next i p (none, reader) (t, es) =
    (has_failed reader.status, (put_peer i (record p { reader = reader }) t, es))
handle_next i p (some f, reader) (t, es) =
    let p' = record p { reader = reader } in
    handle_message i p' (decode_body f.kind f.payload) (put_peer i p' t, es)

abbrev pub count_framing_error : Run → Run
count_framing_error (t, es) =
    (record t { stats = record t.stats { framing_errors = inc64 t.stats.framing_errors } }, es)

abbrev pub drain_round : ℕ → Option Peer → Run → Bool × Run
drain_round i none r = (false, r)
drain_round i (some p) r =
    if has_failed p.reader.status
    then (false, drop_peer i (count_framing_error r))
    else handle_next i p (next p.reader) r

unfoldable pub drain_frames : ℕ → ℕ → Run → Run
drain_frames zero i r = r
drain_frames (suc fuel) i r =
    let (again, r') = drain_round i (get_elem? r.0.peers i) r in
    elim again [ true ↦ drain_frames fuel i r' | false ↦ r' ]
