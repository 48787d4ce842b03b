-- ===== src/Transport/Resolving.antt =====
-- Of two connections with one node src/net/transport.cpp keeps one, and both nodes the same.
use sententia.Prelude.{
  ℕ, zero, suc, ◌≡◌, ◌≢◌, refl, sym, ap, ◌∙◌, inl, inr, Bool, true, false, not, ◌&&◌, if-elim,
  Option, none, some, ◌==◌, ==→≡, get_elem?, set, arith,
}
use sententia.Message.{
  Message, Hello, hello, heartbeat, command_forward, event_ack, append_entries, append_response,
  request_vote, vote_response, decode_body,
}
use sententia.Framing.{Frame, FrameReader, has_failed, next}
use sententia.Transport.{
  Peer, Transport, Run, ready, is_ready_state, find_peer, put_peer, dropped, drop_peer, keeps,
  become_ready, resolve, handle_hello, deliver, count_received, handle_message, handle_next,
  count_framing_error, drain_round, drain_frames, protocol_version,
}
use sententia.Transport.Unique.{
  IsReady, IsUnique, get_elem?-set, set_alone, set_like, find_peer-none, find_peer-some, Unique,
  Then, drop_peer-Unique,
}

-- The two ends of a connection, one of which dialed it, decide alike whether it stays, and of the
-- connections in the two directions just one stays, for two different nodes.
pub keeps_alike :
    (a b : ℕ) (outbound : Bool)
    → a ≢ b
    → (keeps a b outbound ≡ keeps b a (not outbound))
      × (keeps a b (not outbound) ≡ not (keeps a b outbound))
unfolding keeps
keeps_alike a b true ne = ground (arith, ne)
keeps_alike a b false ne = ground (arith, ne)

abbrev At : ℕ → Peer → Run → Type 0
At i p (t, es) = get_elem? t.peers i ≡ some p

become_ready-Unique :
    (i : ℕ) (p : Peer) (h : Hello) (r : Run)
    → Unique r
    → ((k : ℕ) (q : Peer) → get_elem? r.0.peers k ≡ some q → IsReady q → q.id ≡ h.node_id → k ≡ i)
    → Then (become_ready i p h r)
become_ready-Unique i p h (t, es) u alone =
    set_alone t.peers i (record p { id = h.node_id; state = ready }) u
      (λ k q at rq same rv. alone k q at rq same)

drop_peer_lem :
    (j : ℕ) (p : Peer) (t : Transport) (r : Run)
    → r.0 ≡ t
    → get_elem? t.peers j ≡ some p
    → (drop_peer j r).0.peers ≡ set t.peers j (dropped p)
unfolding drop_peer
drop_peer_lem j p t r same at = ground (arith, same, at)

-- Once the ready connection under an id is dropped, none is ready under it.
drop_peer-alone :
    (i j id : ℕ) (r : Run)
    → Unique r
    → find_peer id r.0.peers ≡ some j
    → (k : ℕ) (q : Peer) → get_elem? (drop_peer j r).0.peers k ≡ some q
    → IsReady q
    → q.id ≡ id
    → k ≡ i
drop_peer-alone i j id r u found k q at' rq same' =
    let (p, at, rp, same) = find_peer-some id r.0.peers j found in
    let placed : get_elem? (set r.0.peers j (dropped p)) k ≡ some q =
      ap (λ ps. get_elem? ps k) (sym (drop_peer_lem j p r.0 r refl at)) ∙ at' in
    elim (get_elem?-set r.0.peers j k (dropped p) q placed) [
      | inl here ↦ ground (arith, rq, here.1)
      | inr there ↦ absurd (there.0 (u k j q p there.1 at rq rp (same' ∙ sym same)))
    ]

resolve-Unique :
    (found : Option ℕ) (i : ℕ) (p : Peer) (h : Hello) (r : Run)
    → find_peer h.node_id r.0.peers ≡ found
    → Unique r
    → Then (resolve found i p h r)
resolve-Unique none i p h r at u =
    become_ready-Unique i p h r u
      (λ k q at' rq same. absurd (find_peer-none h.node_id r.0.peers at k q at' rq same))
resolve-Unique (some j) i p h r at u =
    let (x, at_j, rx, same_x) = find_peer-some h.node_id r.0.peers j at in
    if-elim Then (j == i)
      (λ self.
        become_ready-Unique i p h r u
          (λ k q at' rq same. u k j q x at' at_j rq rx (same ∙ sym same_x) ∙ ==→≡ j i self))
      λ other.
        if-elim Then (keeps r.0.self_id h.node_id p.outbound)
          (λ stays.
            become_ready-Unique i p h (drop_peer j r) (drop_peer-Unique j r u)
              (drop_peer-alone i j h.node_id r u at))
          (λ goes. drop_peer-Unique i r u)

handle_hello-Unique :
    (i : ℕ) (p : Peer) (h : Hello) (r : Run) → Unique r → Then (handle_hello i p h r)
unfolding handle_hello
handle_hello-Unique i p h r u =
    if-elim Then (not (h.protocol_version == protocol_version)) (λ old. drop_peer-Unique i r u)
      λ current.
        if-elim Then (p.outbound && not (p.id == h.node_id)) (λ wrong. drop_peer-Unique i r u)
          (λ right. resolve-Unique (find_peer h.node_id r.0.peers) i p h r refl u)

deliver-Unique : (i : ℕ) (p : Peer) (m : Message) (r : Run) → Unique r → Then (deliver i p m r)
deliver-Unique i p m (t, es) u =
    if-elim Then (not (is_ready_state p.state)) (λ early. drop_peer-Unique i (t, es) u) (λ known. u)

handle_message-Unique :
    (i : ℕ) (p : Peer) (m : Option Message) (r : Run) → Unique r → Then (handle_message i p m r)
handle_message-Unique i p none r u = u
handle_message-Unique i p (some (hello h)) r u = handle_hello-Unique i p h (count_received r) u
handle_message-Unique i p (some (heartbeat m)) r u =
    deliver-Unique i p (heartbeat m) (count_received r) u
handle_message-Unique i p (some (command_forward m)) r u =
    deliver-Unique i p (command_forward m) (count_received r) u
handle_message-Unique i p (some (event_ack m)) r u =
    deliver-Unique i p (event_ack m) (count_received r) u
handle_message-Unique i p (some (append_entries m)) r u =
    deliver-Unique i p (append_entries m) (count_received r) u
handle_message-Unique i p (some (append_response m)) r u =
    deliver-Unique i p (append_response m) (count_received r) u
handle_message-Unique i p (some (request_vote m)) r u =
    deliver-Unique i p (request_vote m) (count_received r) u
handle_message-Unique i p (some (vote_response m)) r u =
    deliver-Unique i p (vote_response m) (count_received r) u

-- A connection with another reader or writer.
pub put_peer-Unique :
    (i : ℕ) (p v : Peer) (t : Transport)
    → IsUnique t.peers
    → get_elem? t.peers i ≡ some p
    → v.id ≡ p.id
    → v.state ≡ p.state
    → IsUnique (put_peer i v t).peers
put_peer-Unique i p v t u at id state =
    set_like t.peers i p v u at (λ rv. (ap is_ready_state (sym state) ∙ rv, sym id))

handle_next-Unique :
    (i : ℕ) (p : Peer) (n : Option Frame × FrameReader) (r : Run)
    → Unique r
    → At i p r
    → Then (handle_next i p n r)
handle_next-Unique i p (none, reader) (t, es) u at =
    put_peer-Unique i p (record p { reader = reader }) t u at refl refl
handle_next-Unique i p (some f, reader) (t, es) u at =
    let p' = record p { reader = reader } in
    handle_message-Unique i p' (decode_body f.kind f.payload) (put_peer i p' t, es)
      (put_peer-Unique i p p' t u at refl refl)

drain_round-Unique :
    (i : ℕ) (o : Option Peer) (r : Run)
    → Unique r
    → get_elem? r.0.peers i ≡ o
    → Then (drain_round i o r)
drain_round-Unique i none r u at = u
drain_round-Unique i (some p) r u at =
    if-elim Then (has_failed p.reader.status) (λ bad. drop_peer-Unique i (count_framing_error r) u)
      (λ fine. handle_next-Unique i p (next p.reader) r u at)

again-Unique :
    (loop : Run → Run) (b : Bool) (r : Run)
    → Unique r
    → ((r' : Run) → Unique r' → Unique (loop r'))
    → Unique (elim b [ true ↦ loop r | false ↦ r ])
again-Unique loop true r u ih = ih r u
again-Unique loop false r u ih = u

pub drain_frames-Unique : (fuel i : ℕ) (r : Run) → Unique r → Unique (drain_frames fuel i r)
unfolding drain_frames
drain_frames-Unique zero i r u = u
drain_frames-Unique (suc fuel) i r u =
    let (again, r') = drain_round i (get_elem? r.0.peers i) r in
    again-Unique (drain_frames fuel i) again r'
      (drain_round-Unique i (get_elem? r.0.peers i) r u refl)
      (λ x ux. drain_frames-Unique fuel i x ux)
