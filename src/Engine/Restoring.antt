-- ===== src/Engine/Restoring.antt =====
-- `restore` after `snapshot` of src/engine.cpp: the engine that comes out is the one that went in.
use sententia.Prelude.{
  ℕ, ◌^◌, ◌<◌, ◌≡◌, refl, sym, ap, ◌∙◌, true, List, [], ◌∷◌, arith, All, All-append, All-map,
  ==-refl-of,
}
use sententia.Types.{Side, buy, sell}
use sententia.Book.{RestingOrder, Level, OrderBook, find, walk, empty_book, orders, lookup}
use sententia.Book.Checksum.{checksum, hash_value, hash_value-lt}
use sententia.Book.Levels.{AllFit, LevelsOk}
use sententia.Book.Invariant.{BookOk, located}
use sententia.Book.Spread.{IsPriced, IsSound}
use sententia.Engine.{MatchingEngine}
use sententia.Engine.Rebuilding.{
  rested, rested-BookOk, rested-sides, push_all-walk, no_levels_before, Ready,
}
use sententia.Engine.Snapshot.{snapshot, all_valid, rest_all, restore, state_checksum}

-- Two engines that no method can tell apart: the same levels, queues, counters and last top, and
-- id indexes that answer every lookup alike.
pub record SameState (a b : MatchingEngine) : Type 0 where
  pub instrument : a.instrument ≡ b.instrument
  pub bids : a.book.bids ≡ b.book.bids
  pub asks : a.book.asks ≡ b.book.asks
  pub index : (k : ℕ) → lookup k a.book.index ≡ lookup k b.book.index
  pub command_seq : a.command_seq ≡ b.command_seq
  pub event_seq : a.event_seq ≡ b.event_seq
  pub arrival_counter : a.arrival_counter ≡ b.arrival_counter
  pub last_top : a.last_top ≡ b.last_top

abbrev Placed : Side → RestingOrder → Type 0
Placed s o = (o.side ≡ s) × (0 < o.quantity)

queue-Placed :
    (s : Side) (l : Level) (q : List RestingOrder) → AllFit s l.price q → All (Placed s) q
queue-Placed s l [] a = tt
queue-Placed s l (o ∷ os) a = ((a.0.side, a.0.positive), queue-Placed s l os a.1)

walk-Placed : (s : Side) (ls : List Level) → LevelsOk s ls → All (Placed s) (walk ls)
unfolding walk
walk-Placed s [] ok = tt
walk-Placed s (l ∷ ls) ok =
    All-append (Placed s) l.queue (walk ls) (queue-Placed s l l.queue ok.1) (walk-Placed s ls ok.3)

valid :
    (os : List RestingOrder) → All (λ o. 0 < o.quantity) os → All IsPriced os → all_valid os ≡ true
unfolding all_valid
valid [] a p = refl
valid (o ∷ os) a p = ground (arith, valid os)

ready : (os : List RestingOrder) → All (λ o. 0 < o.quantity) os → Ready empty_book os
unfolding orders walk find
ready [] a = tt
ready (o ∷ os) a = ((a.0, refl), ready os a.1)

empty-BookOk : BookOk empty_book
unfolding orders walk lookup find
empty-BookOk = record {
  sides = record { bids = tt; asks = tt };
  distinct = tt;
  indexed = λ k. refl;
}

module _ (b : OrderBook) (h : IsSound b) where
  sizes : All (λ o. 0 < o.quantity) (orders b)
  unfolding orders
  sizes =
      All-append (λ o. 0 < o.quantity) (walk b.bids) (walk b.asks)
        (All-map (Placed buy) (λ o. 0 < o.quantity) (walk b.bids) (λ o x. x.1)
          (walk-Placed buy b.bids h.ok.sides.bids))
        (All-map (Placed sell) (λ o. 0 < o.quantity) (walk b.asks) (λ o x. x.1)
          (walk-Placed sell b.asks h.ok.sides.asks))

  abbrev again : OrderBook
  again = rested (orders b) empty_book

  rebuilt : (rest_all (orders b) empty_book ≡ (true, again)) × BookOk again
  rebuilt = rested-BookOk (orders b) empty_book empty-BookOk h.ok.distinct (ready (orders b) sizes)

  rebuilt-sides : (again.bids ≡ b.bids) × (again.asks ≡ b.asks)
  unfolding orders
  rebuilt-sides =
      let t =
        rested-sides (walk b.bids) (walk b.asks)
          (All-map (Placed buy) (λ o. o.side ≡ buy) (walk b.bids) (λ o x. x.0)
            (walk-Placed buy b.bids h.ok.sides.bids))
          (All-map (Placed sell) (λ o. o.side ≡ sell) (walk b.asks) (λ o x. x.0)
            (walk-Placed sell b.asks h.ok.sides.asks)) in
      (
        t.0 ∙ push_all-walk buy [] b.bids h.ok.sides.bids (no_levels_before buy b.bids),
        t.1 ∙ push_all-walk sell [] b.asks h.ok.sides.asks (no_levels_before sell b.asks),
      )

  rebuilt-index : (k : ℕ) → lookup k again.index ≡ lookup k b.index
  rebuilt-index k =
      rebuilt.1.indexed k ∙ ap (λ os. located (find k os)) same_orders ∙ sym (h.ok.indexed k)
    where
      same_orders : orders again ≡ orders b
      same_orders = unfold orders in rw (rebuilt-sides.0, rebuilt-sides.1) refl

-- A snapshot of an engine with a sound book restores, into any engine of the same instrument, to
-- the state that it was taken from.
pub restore-snapshot :
    (e f : MatchingEngine)
    → IsSound e.book
    → f.instrument ≡ e.instrument
    → ((restore (snapshot e) f).0 ≡ true) × SameState (restore (snapshot e) f).1 e
unfolding restore snapshot
restore-snapshot e f h same =
    rw
      (
        ==-refl-of e.instrument f.instrument same,
        valid (orders e.book) (sizes e.book h) h.priced,
        (rebuilt e.book h).0,
      )
      (
        refl,
        record {
          instrument = same;
          bids = (rebuilt-sides e.book h).0;
          asks = (rebuilt-sides e.book h).1;
          index = rebuilt-index e.book h;
          command_seq = refl;
          event_seq = refl;
          arrival_counter = refl;
          last_top = refl;
        },
      )

-- Engines in the same state have the same checksum, whatever their indexes are made of.
pub state_checksum-SameState :
    (a b : MatchingEngine) → SameState a b → state_checksum a ≡ state_checksum b
unfolding state_checksum checksum
state_checksum-SameState a b s =
    rw (s.bids, s.asks, s.command_seq, s.event_seq, s.arrival_counter, s.instrument) refl

-- A checksum is a 64-bit number.
pub state_checksum-lt : (e : MatchingEngine) → state_checksum e < 2 ^ 64
unfolding state_checksum
state_checksum-lt e =
    hash_value-lt
      (hash_value (hash_value (hash_value (checksum e.book) e.command_seq) e.event_seq)
        e.arrival_counter)
      e.instrument
