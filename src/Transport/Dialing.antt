-- ===== src/Transport/Dialing.antt =====
-- The beginning of `Transport::poll` of src/net/transport.cpp, which dials the peers that are down.
use sententia.Prelude.{
  ℕ, zero, suc, ◌+◌, ◌≡◌, refl, Bool, true, false, not, ◌&&◌, if-elim, if◌then◌else◌, leb, Option,
  none, some, length, get_elem?, set, arith,
}
use sententia.Transport.{
  Peer, Transport, is_ready_state, is_disconnected, is_ready, put_peer, start_connect,
}
use sententia.Transport.Unique.{IsUnique, set_like}

abbrev pub dial : ℕ → Bool → Peer → Transport → Transport
dial i ok p t = record (put_peer i (start_connect ok p) t) {
  next_connect_cycle = set t.next_connect_cycle i (t.cycle + t.reconnect_delay);
}

abbrev pub is_due : Peer → ℕ → Transport → Bool
is_due p next t = p.outbound && is_disconnected p.state && leb next t.cycle && not (is_ready p.id t)

abbrev pub dial_one : ℕ → Bool → Option Peer → Option ℕ → Transport → Transport
dial_one i ok none next t = t
dial_one i ok (some p) none t = t
dial_one i ok (some p) (some next) t = if is_due p next t then dial i ok p t else t

-- `oks` is, for each place, whether a socket is valid that is opened for it.
unfoldable pub dial_from : ℕ → ℕ → (ℕ → Bool) → Transport → Transport
dial_from zero i oks t = t
dial_from (suc left) i oks t =
    dial_from left (suc i) oks
      (dial_one i (oks i) (get_elem? t.peers i) (get_elem? t.next_connect_cycle i) t)

abbrev pub dial_due : (ℕ → Bool) → Transport → Transport
dial_due oks t = dial_from (length t.peers) 0 oks (record t { cycle = suc t.cycle })

connecting_down : (ok : Bool) (p : Peer) → is_ready_state (start_connect ok p).state ≡ false
connecting_down true p = refl
connecting_down false p = refl

dial_one-IsUnique :
    (i : ℕ) (ok : Bool) (o : Option Peer) (next : Option ℕ) (t : Transport)
    → IsUnique t.peers
    → get_elem? t.peers i ≡ o
    → IsUnique (dial_one i ok o next t).peers
dial_one-IsUnique i ok none next t u at = u
dial_one-IsUnique i ok (some p) none t u at = u
dial_one-IsUnique i ok (some p) (some next) t u at =
    if-elim {A = Transport} (λ x. IsUnique x.peers) (is_due p next t)
      (λ due.
        set_like t.peers i p (start_connect ok p) u at
          (λ rv. ground (arith, rv, connecting_down ok p)))
      (λ later. u)

pub dial_from-IsUnique :
    (left i : ℕ) (oks : ℕ → Bool) (t : Transport)
    → IsUnique t.peers
    → IsUnique (dial_from left i oks t).peers
unfolding dial_from
dial_from-IsUnique zero i oks t u = u
dial_from-IsUnique (suc left) i oks t u =
    let next = get_elem? t.next_connect_cycle i in
    dial_from-IsUnique left (suc i) oks (dial_one i (oks i) (get_elem? t.peers i) next t)
      (dial_one-IsUnique i (oks i) (get_elem? t.peers i) next t u refl)
