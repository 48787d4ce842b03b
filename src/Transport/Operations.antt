-- ===== src/Transport/Operations.antt =====
-- No operation of src/net/transport.cpp that is modelled makes two connections ready under one id.
use sententia.Prelude.{
  ℕ, zero, suc, ◌≡◌, refl, sym, ap, ◌∙◌, Bool, false, Option, none, some, List, [], ◌∷◌, ◌++◌, map,
  get_elem?, length, arith,
}
use sententia.Message.{Message}
use sententia.Framing.Writer.{set_high_water_mark}
use sententia.Transport.{
  Peer, Transport, Run, ReadAnswer, WriteAnswer, add_peer, accept_one, established, send_hello,
  handshaking, is_ready_state, find_peer, drop_peer,
}
use sententia.Transport.Unique.{IsReady, IsUnique, set_like, Unique, drop_peer-Unique}
use sententia.Transport.Handling.{
  handle_readable-Unique, handle_writable-Unique, Sent, send_at-Unique, broadcast-Unique,
}
use sententia.Transport.Dialing.{dial_due, dial_from-IsUnique}
use sententia.Transport.Retiring.{without_retired-IsUnique}
use sententia.Transport.Sending.{
  handle_readable, handle_writable, send, broadcast, retire, find_connected, disconnect_at,
  disconnect_peer, set_mark,
}

-- A connection that is not ready, at the end.
pushed-IsUnique :
    (ps : List Peer) (v : Peer)
    → is_ready_state v.state ≡ false
    → IsUnique ps
    → IsUnique (ps ++ v ∷ [])
pushed-IsUnique ps v down u j k p q at at' rp rq same =
    u j k p q (before ps j p at rp) (before ps k q at' rq) rp rq same
  where
    before :
        (xs : List Peer) (n : ℕ) (x : Peer)
        → get_elem? (xs ++ v ∷ []) n ≡ some x
        → IsReady x
        → get_elem? xs n ≡ some x
    before [] zero x at rx =
        let here : v ≡ x = ground (arith, at) in
        ground (arith, ap (λ y. is_ready_state y.state) here, down, rx)
    before [] (suc n) x at rx = ground (arith, at)
    before (y ∷ xs) zero x at rx = at
    before (y ∷ xs) (suc n) x at rx = before xs n x at rx

marked-IsUnique :
    (bytes : ℕ) (ps : List Peer)
    → IsUnique ps
    → IsUnique (
        map {A = Peer} {B = Peer}
          (λ p. record p { writer = set_high_water_mark bytes p.writer })
          ps)
marked-IsUnique bytes ps u j k p q at at' rp rq same =
    let (x, at_x, state_x, id_x) = original ps j p at in
    let (y, at_y, state_y, id_y) = original ps k q at' in
    u j k x y at_x at_y (ap is_ready_state state_x ∙ rp) (ap is_ready_state state_y ∙ rq)
      (id_x ∙ same ∙ sym id_y)
  where
    original :
        (xs : List Peer) (n : ℕ) (p : Peer)
        → get_elem?
            (map {A = Peer} {B = Peer}
              (λ p. record p { writer = set_high_water_mark bytes p.writer })
              xs)
            n
          ≡ some p
        → (x : Peer) × (get_elem? xs n ≡ some x) × (x.state ≡ p.state) × (x.id ≡ p.id)
    original [] n p at = ground (arith, at)
    original (x ∷ xs) zero p at = (x, refl, ground (arith, at), ground (arith, at))
    original (x ∷ xs) (suc n) p at = original xs n p at

-- What happens to a transport: its owner's calls, and what the sockets report of a connection.
pub data Input : Type 0 where
  added : ℕ → List ℕ → ℕ → Input
  accepted : Input
  polled : (ℕ → Bool) → Input
  came_through : ℕ → Input
  broke : ℕ → Input
  readable : ℕ → List ReadAnswer → Input
  writable : ℕ → List WriteAnswer → Input
  sending : ℕ → Message → List WriteAnswer → List WriteAnswer → Input
  disconnected_by_owner : ℕ → Input
  marked : ℕ → Input
  broadcasting : Message → (ℕ → List WriteAnswer × List WriteAnswer) → Input
  retired : Input

abbrev come_through : ℕ → Option Peer → Run → Run
come_through i none r = r
come_through i (some p) (t, es) = (established i p t, es)

unfoldable pub step : Input → Run → Run
step (added id host port) (t, es) = (add_peer id host port t, es)
step accepted (t, es) = (accept_one t, es)
step (polled oks) (t, es) = (dial_due oks t, es)
step (came_through i) r = come_through i (get_elem? r.0.peers i) r
step (broke i) r = drop_peer i r
step (readable i answers) r = handle_readable i answers r
step (writable i answers) r = handle_writable i answers r
step (sending to m before after) r = (send to m before after r).1
step (disconnected_by_owner id) r = (disconnect_peer id r).1
step (marked bytes) (t, es) = (set_mark bytes t, es)
step (broadcasting m answers) r = (broadcast m answers r).1
step retired (t, es) = (retire t, es)

unfoldable pub steps : List Input → Run → Run
steps [] r = r
steps (x ∷ xs) r = steps xs (step x r)

come_through-Unique :
    (i : ℕ) (o : Option Peer) (r : Run)
    → get_elem? r.0.peers i ≡ o
    → Unique r
    → Unique (come_through i o r)
come_through-Unique i none r at u = u
come_through-Unique i (some p) (t, es) at u =
    set_like t.peers i p (send_hello t (record p { state = handshaking })) u at
      (λ rv. ground (arith, rv))

step-Unique : (x : Input) (r : Run) → Unique r → Unique (step x r)
unfolding step send disconnect_peer set_mark
step-Unique (added id host port) (t, es) u = pushed-IsUnique t.peers _ refl u
step-Unique accepted (t, es) u = pushed-IsUnique t.peers _ refl u
step-Unique (polled oks) (t, es) u =
    dial_from-IsUnique (length t.peers) 0 oks (record t { cycle = suc t.cycle }) u
step-Unique (came_through i) r u = come_through-Unique i (get_elem? r.0.peers i) r refl u
step-Unique (broke i) r u = drop_peer-Unique i r u
step-Unique (readable i answers) r u = handle_readable-Unique i answers r u
step-Unique (writable i answers) r u = handle_writable-Unique i answers r u
step-Unique (sending to m before after) r u =
    send_at-Unique (find_peer to r.0.peers) m before after r u
step-Unique (disconnected_by_owner id) r u = dropped_at (find_connected id r.0.peers)
  where
    dropped_at : (o : Option ℕ) → Sent (disconnect_at o r)
    dropped_at none = u
    dropped_at (some i) = drop_peer-Unique i r u
step-Unique (marked bytes) (t, es) u = marked-IsUnique bytes t.peers u
step-Unique (broadcasting m answers) r u = broadcast-Unique (length r.0.peers) 0 m answers (0, r) u
step-Unique retired (t, es) u = without_retired-IsUnique t.peers u

-- Whatever its owner asks for and its sockets report, in any order, a transport that starts with no
-- connections has at most one connection that is ready under an id.
pub steps-Unique : (xs : List Input) (t : Transport) → t.peers ≡ [] → Unique (steps xs (t, []))
unfolding steps
steps-Unique xs t none_yet =
    run xs (t, []) (λ j k p q at at' rp rq same. ground (arith, none_yet, at))
  where
    run : (xs : List Input) (r : Run) → Unique r → Unique (steps xs r)
    run [] r u = u
    run (x ∷ xs) r u = run xs (step x r) (step-Unique x r u)
