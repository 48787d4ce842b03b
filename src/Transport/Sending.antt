-- ===== src/Transport/Sending.antt =====
-- The reads, the writes and the sends of src/net/transport.cpp, and the retiring of connections.
use sententia.Prelude.{
  ℕ, zero, suc, Bool, true, false, not, ◌&&◌, ◌||◌, Option, none, some, List, [], ◌∷◌, ◌==◌, ltb,
  if◌then◌else◌, length, get_elem?, map, inc64, add64,
}
use sententia.Message.{Message}
use sententia.Framing.{append_bytes, buffered}
use sententia.Framing.Writer.{pending, over_high_water_mark, set_high_water_mark, enqueue, consume}
use sententia.Network.{SendResult, sent, not_connected, would_overflow}
use sententia.Transport.{
  Peer, Transport, Run, ReadAnswer, got, read_blocks, read_closed, read_failed, WriteAnswer, took,
  write_blocks, write_failed, read_chunk, is_ready_state, is_disconnected, put_peer, find_peer,
  drop_peer, drain_frames,
}

abbrev pub pending_size : Peer → ℕ
pending_size p = length (pending p.writer)

-- The fuel of the loop: a round for each byte that waits, and the last.
abbrev pub drain_at : ℕ → Option Peer → Run → Run
drain_at i none r = r
drain_at i (some p) r = drain_frames (suc (buffered p.reader)) i r

abbrev pub drain : ℕ → Run → Run
drain i r = drain_at i (get_elem? r.0.peers i) r

abbrev pub read_into : ℕ → List ℕ → Option Peer → Run → Run
read_into i bytes none r = r
read_into i bytes (some p) (t, es) = (
  record (put_peer i (record p { reader = append_bytes bytes p.reader }) t) {
    stats = record t.stats { bytes_received = add64 t.stats.bytes_received (length bytes) };
  },
  es,
)

abbrev pub count_partial_read : Run → Run
count_partial_read (t, es) =
    (record t { stats = record t.stats { partial_reads = inc64 t.stats.partial_reads } }, es)

unfoldable pub handle_readable : ℕ → List ReadAnswer → Run → Run
handle_readable i [] r = drain i r
handle_readable i (read_blocks ∷ answers) r = drain i r
handle_readable i (read_closed ∷ answers) r = drop_peer i r
handle_readable i (read_failed ∷ answers) r = drop_peer i r
handle_readable i (got bytes ∷ answers) r =
    let r' = read_into i bytes (get_elem? r.0.peers i) r in
    elim (ltb (length bytes) read_chunk) [
      | true ↦ drain i (count_partial_read r')
      | false ↦ handle_readable i answers r'
    ]

abbrev pub count_short_write : Run → Run
count_short_write (t, es) =
    (record t { stats = record t.stats { short_writes = inc64 t.stats.short_writes } }, es)

-- `n` bytes of a connection that are written.
abbrev pub wrote_bytes : ℕ → ℕ → Peer → Run → Run
wrote_bytes n i p (t, es) =
    let (t', es') = if ltb n (pending_size p) then count_short_write (t, es) else (t, es) in
    (
      record (put_peer i (record p { writer = consume n p.writer }) t') {
        stats = record t'.stats { bytes_sent = add64 t'.stats.bytes_sent n };
      },
      es',
    )

abbrev pub all_written : Option Peer → Bool
all_written none = true
all_written (some p) = pending_size p == 0

abbrev pub write_some : ℕ → ℕ → Option Peer → Run → Run
write_some n i none r = r
write_some n i (some p) r = wrote_bytes n i p r

unfoldable pub handle_writable : ℕ → List WriteAnswer → Run → Run
handle_writable i [] r = if all_written (get_elem? r.0.peers i) then r else count_short_write r
handle_writable i (a ∷ answers) r = elim (all_written (get_elem? r.0.peers i)) [
  | true ↦ r
  | false ↦ elim a [
    | write_blocks ↦ count_short_write r
    | write_failed ↦ drop_peer i r
    | took n ↦ handle_writable i answers (write_some n i (get_elem? r.0.peers i) r)
  ]
]

abbrev pub count_refused : Run → Run
count_refused (t, es) = (
  record t {
    stats = record t.stats { sends_refused_overflow = inc64 t.stats.sends_refused_overflow };
  },
  es,
)

abbrev pub queue_message : ℕ → Message → Peer → Run → Run
queue_message i m p (t, es) = (
  record (put_peer i (record p { writer = enqueue m p.writer }) t) {
    stats = record t.stats { messages_sent = inc64 t.stats.messages_sent };
  },
  es,
)

-- A send to the connection at `i`, after the first drain.
abbrev pub send_ready : ℕ → Message → List WriteAnswer → Option Peer → Run → SendResult × Run
send_ready i m after none r = (not_connected, r)
send_ready i m after (some p) r =
    if not p.has_sock
    then (not_connected, r)
    else if over_high_water_mark p.writer
    then (would_overflow, count_refused r)
    else (sent, handle_writable i after (queue_message i m p r))

abbrev pub send_at :
    Option ℕ → Message → List WriteAnswer → List WriteAnswer → Run → SendResult × Run
send_at none m before after r = (not_connected, r)
send_at (some i) m before after r =
    let r' = handle_writable i before r in send_ready i m after (get_elem? r'.0.peers i) r'

-- `before` and `after` are what the socket answers to the writes in front of the message's and to its.
unfoldable pub send : ℕ → Message → List WriteAnswer → List WriteAnswer → Run → SendResult × Run
send to m before after r = send_at (find_peer to r.0.peers) m before after r

-- The place of the first connection with a socket under an id.
unfoldable pub find_connected : ℕ → List Peer → Option ℕ
find_connected id [] = none
find_connected id (p ∷ ps) = elim (p.id == id && p.has_sock) [
  | true ↦ some 0
  | false ↦ elim (find_connected id ps) [ some i ↦ some (suc i) | none ↦ none ]
]

abbrev pub disconnect_at : Option ℕ → Run → Bool × Run
disconnect_at none r = (false, r)
disconnect_at (some i) r = (true, drop_peer i r)

unfoldable pub disconnect_peer : ℕ → Run → Bool × Run
disconnect_peer id r = disconnect_at (find_connected id r.0.peers) r

unfoldable pub set_mark : ℕ → Transport → Transport
set_mark bytes t = record t {
  high_water_mark = bytes;
  peers =
      map {A = Peer} {B = Peer} (λ p. record p { writer = set_high_water_mark bytes p.writer })
        t.peers;
}

-- A send to every connection that is ready, with the number that took it so far. `answers` gives what
-- the socket at a place answers to the writes in front of the message's and to its.
abbrev pub broadcast_ready : ℕ → Message → List WriteAnswer → Option Peer → ℕ × Run → ℕ × Run
broadcast_ready i m after none (count, r) = (count, r)
broadcast_ready i m after (some p) (count, r) =
    if not p.has_sock || over_high_water_mark p.writer
    then (count, count_refused r)
    else (suc count, handle_writable i after (queue_message i m p r))

abbrev pub broadcast_one :
    ℕ → Message → List WriteAnswer × List WriteAnswer → Option Peer → ℕ × Run → ℕ × Run
broadcast_one i m (before, after) none (count, r) = (count, r)
broadcast_one i m (before, after) (some p) (count, r) =
    if not (is_ready_state p.state)
    then (count, r)
    else let r' = handle_writable i before r in
      broadcast_ready i m after (get_elem? r'.0.peers i) (count, r')

unfoldable pub broadcast_from :
    ℕ → ℕ → Message → (ℕ → List WriteAnswer × List WriteAnswer) → ℕ × Run → ℕ × Run
broadcast_from zero i m answers (count, r) = (count, r)
broadcast_from (suc left) i m answers (count, r) =
    broadcast_from left (suc i) m answers
      (broadcast_one i m (answers i) (get_elem? r.0.peers i) (count, r))

abbrev pub broadcast : Message → (ℕ → List WriteAnswer × List WriteAnswer) → Run → ℕ × Run
broadcast m answers r = broadcast_from (length r.0.peers) 0 m answers (0, r)

abbrev pub is_retired : Peer → Bool
is_retired p = not p.outbound && is_disconnected p.state

unfoldable pub without_retired : List Peer → List Peer
without_retired [] = []
without_retired (p ∷ ps) = let rest = without_retired ps in if is_retired p then rest else p ∷ rest

unfoldable pub resized : ℕ → List ℕ → List ℕ
resized zero cycles = []
resized (suc n) [] = 0 ∷ resized n []
resized (suc n) (c ∷ cycles) = c ∷ resized n cycles

-- The end of a round of `poll`.
abbrev pub retire : Transport → Transport
retire t =
    let left = without_retired t.peers in
    record t { peers = left; next_connect_cycle = resized (length left) t.next_connect_cycle }
