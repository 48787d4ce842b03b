-- ===== src/Transport/Draining.antt =====
-- The loop of `Transport::drainFrames` of src/net/transport.cpp ends by its own tests.
use sententia.Prelude.{
  ℕ, zero, suc, ◌+◌, ◌<◌, ◌≡◌, refl, sym, ap, subst, inl, inr, Bool, true, false, not, ◌&&◌,
  if-elim, ltb, leb, if◌then◌else◌, Option, none, some, List, ◌==◌, get_elem?, set, length-drop,
  drop, arith,
}
use sententia.Message.{
  Message, Hello, hello, heartbeat, command_forward, event_ack, append_entries, append_response,
  request_vote, vote_response, decode_body,
}
use sententia.Framing.{
  Header, Frame, FrameReader, has_failed, next, buffered, header_size, check_header, read_header,
  take_frame, compact, compact_threshold,
}
use sententia.Transport.{
  Peer, Run, ready, is_ready_state, find_peer, drop_peer, keeps, become_ready, resolve,
  handle_hello, deliver, count_received, count_framing_error, handle_message, handle_next,
  drain_round, drain_frames, protocol_version,
}
use sententia.Transport.Unique.{get_elem?-set}
use sententia.Transport.Sending.{drain_at, drain}

-- The loop, with no bound on its rounds.
pub data Drains (i : ℕ) : Run → Run → Type 0 where
  last_round : {r r' : Run} → drain_round i (get_elem? r.0.peers i) r ≡ (false, r') → Drains i r r'
  round :
      {r r1 r' : Run}
      → drain_round i (get_elem? r.0.peers i) r ≡ (true, r1)
      → Drains i r1 r'
      → Drains i r r'

-- A frame takes bytes off a reader, and a failure needs some.
abbrev Takes : FrameReader → Option Frame × FrameReader → Type 0
Takes r (some f, r') = buffered r' < buffered r
Takes r (none, r') = has_failed r'.status ≡ true → 0 < buffered r

buffered-compact : (r : FrameReader) → buffered (compact r) ≡ buffered r
unfolding compact
buffered-compact r =
    if-elim {A = FrameReader} (λ x. buffered x ≡ buffered r) (r.read_pos == 0) (λ still. refl)
      (λ moved. omega (arith, length-drop r.read_pos r.buf))

take_frame-Takes :
    (h : Header) (r : FrameReader) → has_failed r.status ≡ false → Takes r (take_frame h r)
unfolding take_frame
take_frame-Takes h r ok =
    let r' = record r { read_pos = r.read_pos + (header_size + h.size) } in
    if-elim (Takes r) (ltb (buffered r) (header_size + h.size))
      (λ short bad. ground (arith, bad, ok))
      (λ whole.
        if-elim {A = FrameReader} (λ x. buffered x < buffered r) (leb compact_threshold r'.read_pos)
          (λ far. ground (arith, whole, buffered-compact r')) (λ near. ground (arith, whole)))

next-Takes : (r : FrameReader) → has_failed r.status ≡ false → Takes r (next r)
unfolding next
next-Takes r ok =
    let h = read_header (drop r.read_pos r.buf) in
    if-elim (Takes r) (has_failed r.status) (λ bad _. ground (arith, bad, ok))
      λ fine.
        if-elim (Takes r) (ltb (buffered r) header_size) (λ short bad. ground (arith, bad, ok))
          λ enough.
            if-elim (Takes r) (has_failed (check_header h)) (λ bad _. ground (arith, enough))
              (λ sound. take_frame-Takes h r ok)

-- Where the loop goes on, the connection still has the reader.
abbrev Keeps : ℕ → FrameReader → Bool × Run → Type 0
Keeps i reader (b, r) = b ≡ true → (q : Peer) → get_elem? r.0.peers i ≡ some q → q.reader ≡ reader

set-reader :
    (ps : List Peer) (i : ℕ) (v q : Peer) → get_elem? (set ps i v) i ≡ some q → q.reader ≡ v.reader
set-reader ps i v q at = elim (get_elem?-set ps i i v q at) [
  | inl here ↦ ap (λ x. x.reader) here.1
  | inr there ↦ absurd (there.0 refl)
]

stopped-Keeps : (i : ℕ) (reader : FrameReader) (r : Run) → Keeps i reader (false, r)
stopped-Keeps i reader r goes = ground (arith, goes)

become_ready-Keeps :
    (i : ℕ) (p : Peer) (h : Hello) (r : Run) → Keeps i p.reader (become_ready i p h r)
become_ready-Keeps i p h (t, es) goes q at =
    set-reader t.peers i (record p { id = h.node_id; state = ready }) q at

resolve-Keeps :
    (found : Option ℕ) (i : ℕ) (p : Peer) (h : Hello) (r : Run)
    → Keeps i p.reader (resolve found i p h r)
resolve-Keeps none i p h r = become_ready-Keeps i p h r
resolve-Keeps (some j) i p h r =
    if-elim (Keeps i p.reader) (j == i) (λ self. become_ready-Keeps i p h r)
      λ other.
        if-elim (Keeps i p.reader) (keeps r.0.self_id h.node_id p.outbound)
          (λ stays. become_ready-Keeps i p h (drop_peer j r))
          (λ goes. stopped-Keeps i p.reader (drop_peer i r))

handle_hello-Keeps :
    (i : ℕ) (p : Peer) (h : Hello) (r : Run) → Keeps i p.reader (handle_hello i p h r)
unfolding handle_hello
handle_hello-Keeps i p h r =
    if-elim (Keeps i p.reader) (not (h.protocol_version == protocol_version))
      (λ old. stopped-Keeps i p.reader (drop_peer i r))
      λ current.
        if-elim (Keeps i p.reader) (p.outbound && not (p.id == h.node_id))
          (λ wrong. stopped-Keeps i p.reader (drop_peer i r))
          (λ right. resolve-Keeps (find_peer h.node_id r.0.peers) i p h r)

deliver-Keeps :
    (i : ℕ) (p : Peer) (m : Message) (r : Run)
    → Keeps i p.reader (true, r)
    → Keeps i p.reader (deliver i p m r)
deliver-Keeps i p m (t, es) here =
    if-elim (Keeps i p.reader) (not (is_ready_state p.state))
      (λ early. stopped-Keeps i p.reader (drop_peer i (t, es))) (λ known. here)

handle_message-Keeps :
    (i : ℕ) (p : Peer) (m : Option Message) (r : Run)
    → Keeps i p.reader (true, r)
    → Keeps i p.reader (handle_message i p m r)
handle_message-Keeps i p none r here = here
handle_message-Keeps i p (some (hello h)) r here = handle_hello-Keeps i p h (count_received r)
handle_message-Keeps i p (some (heartbeat m)) r here =
    deliver-Keeps i p (heartbeat m) (count_received r) here
handle_message-Keeps i p (some (command_forward m)) r here =
    deliver-Keeps i p (command_forward m) (count_received r) here
handle_message-Keeps i p (some (event_ack m)) r here =
    deliver-Keeps i p (event_ack m) (count_received r) here
handle_message-Keeps i p (some (append_entries m)) r here =
    deliver-Keeps i p (append_entries m) (count_received r) here
handle_message-Keeps i p (some (append_response m)) r here =
    deliver-Keeps i p (append_response m) (count_received r) here
handle_message-Keeps i p (some (request_vote m)) r here =
    deliver-Keeps i p (request_vote m) (count_received r) here
handle_message-Keeps i p (some (vote_response m)) r here =
    deliver-Keeps i p (vote_response m) (count_received r) here

-- How many rounds a connection can have before its last.
abbrev rounds : Option Peer → ℕ
rounds none = 0
rounds (some p) = if has_failed p.reader.status then 0 else buffered p.reader

handle_next-rounds :
    (i : ℕ) (p : Peer) (n : Option Frame × FrameReader) (r : Run)
    → has_failed p.reader.status ≡ false
    → Takes p.reader n
    → (handle_next i p n r).0 ≡ true
    → rounds (get_elem? (handle_next i p n r).1.0.peers i) < buffered p.reader
handle_next-rounds i p (none, reader) (t, es) ok takes goes =
    fewer (get_elem? (set t.peers i (record p { reader = reader })) i)
      (set-reader t.peers i (record p { reader = reader }))
  where
    fewer :
        (o : Option Peer)
        → ((q : Peer) → o ≡ some q → q.reader ≡ reader)
        → rounds o < buffered p.reader
    fewer none same = takes goes
    fewer (some q) same =
        subst (λ x. (if has_failed x.status then 0 else buffered x) < buffered p.reader)
          (sym (same q refl)) (ground (arith, goes, takes goes))
handle_next-rounds i p (some f, reader) (t, es) ok takes goes =
    let p' = record p { reader = reader } in
    let m = decode_body f.kind f.payload in
    let r' : Run = (record t { peers = set t.peers i p' }, es) in
    fewer (get_elem? (handle_message i p' m r').1.0.peers i)
      (handle_message-Keeps i p' m r' (λ _ q at. set-reader t.peers i p' q at) goes)
  where
    fewer :
        (o : Option Peer)
        → ((q : Peer) → o ≡ some q → q.reader ≡ reader)
        → rounds o < buffered p.reader
    fewer none same = omega (arith, takes)
    fewer (some q) same =
        subst (λ x. (if has_failed x.status then 0 else buffered x) < buffered p.reader)
          (sym (same q refl)) (ground (arith, takes))

abbrev Fewer : ℕ → ℕ → Bool × Run → Type 0
Fewer i k (b, r) = b ≡ true → rounds (get_elem? r.0.peers i) < k

drain_round-Fewer : (i : ℕ) (o : Option Peer) (r : Run) → Fewer i (rounds o) (drain_round i o r)
drain_round-Fewer i none r = λ goes. ground (arith, goes)
drain_round-Fewer i (some p) r =
    at_status (has_failed p.reader.status)
      (λ ok. handle_next-rounds i p (next p.reader) r ok (next-Takes p.reader ok))
  where
    at_status :
        (b : Bool)
        → (b ≡ false → Fewer i (buffered p.reader) (handle_next i p (next p.reader) r))
        → Fewer i (if b then 0 else buffered p.reader) (
            if b
            then (false, drop_peer i (count_framing_error r))
            else handle_next i p (next p.reader) r)
    at_status true next_one = λ goes. ground (arith, goes)
    at_status false next_one = next_one refl

drain_frames-Drains :
    (fuel i : ℕ) (r : Run)
    → rounds (get_elem? r.0.peers i) < fuel
    → Drains i r (drain_frames fuel i r)
unfolding drain_frames
drain_frames-Drains zero i r h = ground (arith, h)
drain_frames-Drains (suc fuel) i r h =
    goes_on (drain_round i (get_elem? r.0.peers i) r) refl
      (drain_round-Fewer i (get_elem? r.0.peers i) r) (drain_frames-Drains fuel i)
  where
    goes_on :
        (n : Bool × Run)
        → drain_round i (get_elem? r.0.peers i) r ≡ n
        → (n.0 ≡ true → rounds (get_elem? n.1.0.peers i) < rounds (get_elem? r.0.peers i))
        → ((r' : Run)
            → rounds (get_elem? r'.0.peers i) < fuel
            → Drains i r' (drain_frames fuel i r'))
        → Drains i r (elim n.0 [ true ↦ drain_frames fuel i n.1 | false ↦ n.1 ])
    goes_on (true, r') e less ih = round e (ih r' (omega (arith, h, less refl)))
    goes_on (false, r') e less ih = last_round e

rounds-buffered : (p : Peer) → rounds (some p) < suc (buffered p.reader)
rounds-buffered p = ground arith

-- The loop that takes frames off a connection ends by its own tests, whatever its reader holds, and
-- `drain` gives what it ends with.
pub drain-Drains : (i : ℕ) (r : Run) → Drains i r (drain i r)
drain-Drains i r = from (get_elem? r.0.peers i) refl
  where
    from : (o : Option Peer) → get_elem? r.0.peers i ≡ o → Drains i r (drain_at i o r)
    from none at = last_round (ap (λ o. drain_round i o r) at)
    from (some p) at =
        drain_frames-Drains (suc (buffered p.reader)) i r
          (subst (λ o. rounds o < suc (buffered p.reader)) (sym at) (rounds-buffered p))
