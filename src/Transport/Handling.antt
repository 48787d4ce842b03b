-- ===== src/Transport/Handling.antt =====
-- Reads, writes and sends of src/net/transport.cpp make no two connections ready under one id.
use sententia.Prelude.{
  ◌||◌, ℕ, zero, suc, ◌≡◌, refl, Bool, true, false, not, if-elim, ltb, Option, none, some, List, [],
  ◌∷◌, get_elem?, length,
}
use sententia.Message.{Message}
use sententia.Framing.{append_bytes, buffered}
use sententia.Framing.Writer.{over_high_water_mark, enqueue, consume}
use sententia.Transport.{
  Peer, Run, ReadAnswer, got, read_blocks, read_closed, read_failed, WriteAnswer, took,
  write_blocks, write_failed, read_chunk, put_peer, is_ready_state, drop_peer,
}
use sententia.Transport.Unique.{IsUnique, Unique, drop_peer-Unique}
use sententia.Transport.Resolving.{put_peer-Unique, drain_frames-Unique}
use sententia.Transport.Sending.{
  pending_size, drain_at, drain, read_into, count_partial_read, handle_readable, count_short_write,
  all_written, write_some, handle_writable, queue_message, send_ready, send_at, broadcast_ready,
  broadcast_one, broadcast_from,
}

drain-Unique : (i : ℕ) (o : Option Peer) (r : Run) → Unique r → Unique (drain_at i o r)
drain-Unique i none r u = u
drain-Unique i (some p) r u = drain_frames-Unique (suc (buffered p.reader)) i r u

read_into-Unique :
    (i : ℕ) (bytes : List ℕ) (o : Option Peer) (r : Run)
    → Unique r
    → get_elem? r.0.peers i ≡ o
    → Unique (read_into i bytes o r)
read_into-Unique i bytes none r u at = u
read_into-Unique i bytes (some p) (t, es) u at =
    put_peer-Unique i p (record p { reader = append_bytes bytes p.reader }) t u at refl refl

pub handle_readable-Unique :
    (i : ℕ) (answers : List ReadAnswer) (r : Run) → Unique r → Unique (handle_readable i answers r)
unfolding handle_readable
handle_readable-Unique i [] r u = drain-Unique i (get_elem? r.0.peers i) r u
handle_readable-Unique i (read_blocks ∷ rest) r u = drain-Unique i (get_elem? r.0.peers i) r u
handle_readable-Unique i (read_closed ∷ rest) r u = drop_peer-Unique i r u
handle_readable-Unique i (read_failed ∷ rest) r u = drop_peer-Unique i r u
handle_readable-Unique i (got bytes ∷ rest) r u =
    let r' = read_into i bytes (get_elem? r.0.peers i) r in
    let u' = read_into-Unique i bytes (get_elem? r.0.peers i) r u refl in
    last (ltb (length bytes) read_chunk) r'
      (drain-Unique i (get_elem? r'.0.peers i) (count_partial_read r') u')
      (handle_readable-Unique i rest r' u')
  where
    last :
        (b : Bool) (r' : Run)
        → Unique (drain i (count_partial_read r'))
        → Unique (handle_readable i rest r')
        → Unique
            (elim b [ true ↦ drain i (count_partial_read r') | false ↦ handle_readable i rest r' ])
    last true r' u v = u
    last false r' u v = v

write_some-Unique :
    (n i : ℕ) (o : Option Peer) (r : Run)
    → Unique r
    → get_elem? r.0.peers i ≡ o
    → Unique (write_some n i o r)
write_some-Unique n i none r u at = u
write_some-Unique n i (some p) (t, es) u at =
    let v = record p { writer = consume n p.writer } in
    if-elim (λ (s : Run). IsUnique (put_peer i v s.0).peers) (ltb n (pending_size p))
      (λ short. put_peer-Unique i p v t u at refl refl)
      (λ all. put_peer-Unique i p v t u at refl refl)

pub handle_writable-Unique :
    (i : ℕ) (answers : List WriteAnswer) (r : Run) → Unique r → Unique (handle_writable i answers r)
unfolding handle_writable
handle_writable-Unique i [] r u =
    if-elim Unique (all_written (get_elem? r.0.peers i)) (λ done. u) (λ left. u)
handle_writable-Unique i (a ∷ rest) r u = next_write (all_written (get_elem? r.0.peers i)) a (λ n.
    handle_writable-Unique i rest (write_some n i (get_elem? r.0.peers i) r)
      (write_some-Unique n i (get_elem? r.0.peers i) r u refl))
  where
    next_write :
        (b : Bool) (a : WriteAnswer)
        → ((n : ℕ) → Unique (handle_writable i rest (write_some n i (get_elem? r.0.peers i) r)))
        → Unique (elim b [
          | true ↦ r
          | false ↦ elim a [
            | write_blocks ↦ count_short_write r
            | write_failed ↦ drop_peer i r
            | took n ↦ handle_writable i rest (write_some n i (get_elem? r.0.peers i) r)
          ]
        ])
    next_write true a ih = u
    next_write false write_blocks ih = u
    next_write false write_failed ih = drop_peer-Unique i r u
    next_write false (took n) ih = ih n

abbrev pub Sent {ℓ} : {A : Type ℓ} → A × Run → Type 0
Sent (a, r) = Unique r

send_ready-Unique :
    (i : ℕ) (m : Message) (after : List WriteAnswer) (o : Option Peer) (r : Run)
    → Unique r
    → get_elem? r.0.peers i ≡ o
    → Sent (send_ready i m after o r)
send_ready-Unique i m after none r u at = u
send_ready-Unique i m after (some p) r u at =
    if-elim Sent (not p.has_sock) (λ down. u)
      λ up.
        if-elim Sent (over_high_water_mark p.writer) (λ full. u)
          (λ room.
            handle_writable-Unique i after (queue_message i m p r)
              (put_peer-Unique i p (record p { writer = enqueue m p.writer }) r.0 u at refl refl))

pub send_at-Unique :
    (o : Option ℕ) (m : Message) (before after : List WriteAnswer) (r : Run)
    → Unique r
    → Sent (send_at o m before after r)
send_at-Unique none m before after r u = u
send_at-Unique (some i) m before after r u =
    let r' = handle_writable i before r in
    send_ready-Unique i m after (get_elem? r'.0.peers i) r' (handle_writable-Unique i before r u)
      refl

broadcast_ready-Unique :
    (i : ℕ) (m : Message) (after : List WriteAnswer) (o : Option Peer) (count : ℕ) (r : Run)
    → Unique r
    → get_elem? r.0.peers i ≡ o
    → Sent (broadcast_ready i m after o (count, r))
broadcast_ready-Unique i m after none count r u at = u
broadcast_ready-Unique i m after (some p) count r u at =
    if-elim Sent (not p.has_sock || over_high_water_mark p.writer) (λ refused. u)
      (λ room.
        handle_writable-Unique i after (queue_message i m p r)
          (put_peer-Unique i p (record p { writer = enqueue m p.writer }) r.0 u at refl refl))

broadcast_one-Unique :
    (i : ℕ) (m : Message) (answers : List WriteAnswer × List WriteAnswer) (o : Option Peer)
    (count : ℕ) (r : Run)
    → Unique r
    → Sent (broadcast_one i m answers o (count, r))
broadcast_one-Unique i m (before, after) none count r u = u
broadcast_one-Unique i m (before, after) (some p) count r u =
    let r' = handle_writable i before r in
    if-elim Sent (not (is_ready_state p.state)) (λ down. u)
      (λ up.
        broadcast_ready-Unique i m after (get_elem? r'.0.peers i) count r'
          (handle_writable-Unique i before r u) refl)

pub broadcast-Unique :
    (left i : ℕ) (m : Message) (answers : ℕ → List WriteAnswer × List WriteAnswer) (n : ℕ × Run)
    → Sent n
    → Sent (broadcast_from left i m answers n)
unfolding broadcast_from
broadcast-Unique zero i m answers (count, r) u = u
broadcast-Unique (suc left) i m answers (count, r) u =
    let one = broadcast_one-Unique i m (answers i) (get_elem? r.0.peers i) count r u in
    broadcast-Unique left (suc i) m answers
      (broadcast_one i m (answers i) (get_elem? r.0.peers i) (count, r)) one
