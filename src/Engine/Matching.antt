-- ===== src/Engine/Matching.antt =====
-- The loop of `MatchingEngine::match` refines `Engine.Priority`: same trades, same quantities, and
-- the book that they leave is well formed.
use sententia.Prelude.{
  ℕ, zero, suc, ◌-◌, ◌<◌, min, ◌≡◌, ◌≢◌, refl, sym, ap, ◌∙◌, inl, inr, true, false, none, some,
  List, [], ◌∷◌, ◌++◌, ◌==◌, ltb, if◌then◌else◌, arith, length, Bool-cases, inc64,
}
use mathlib.Core.List.{append-nil, append_assoc}
use sententia.Types.{Side, NewOrder, opposite}
use sententia.Book.{RestingOrder, Level, OrderBook, walk, levels, front_level, first_queue}
use sententia.Book.Levels.{LevelsOk}
use sententia.Book.Invariant.{BookOk, LevelsOk-levels}
use sententia.Book.Update.{reduce-BookOk}
use sententia.Book.Front.{reduce-front, reduce-opposite, front-find}
use sententia.Engine.{
  Run, emit, crosses, front_of, crossing, front_to_fill, trade_front, match_loop, match_order,
}
use sententia.Engine.Priority.{
  takes, fills, remaining, left_over, trade_events, advance, fills-zero, remaining-zero,
  left_over-zero, left_over-whole, left_over-part,
}

queue-nil : (q w : List RestingOrder) → q ≢ [] → (q ++ w) ≡ [] → front_of (some q) ≡ none
unfolding front_of
queue-nil [] w h e = refl
queue-nil (x ∷ xs) w h e = cc

queue-cons :
    (q w : List RestingOrder) {o : RestingOrder} {os : List RestingOrder}
    → q ≢ []
    → (q ++ w) ≡ o ∷ os
    → front_of (some q) ≡ some o
unfolding front_of
queue-cons [] w h e = absurd (h refl)
queue-cons (x ∷ xs) w h e = cc

first-nil :
    (s : Side) (ls : List Level) → LevelsOk s ls → walk ls ≡ [] → front_of (first_queue ls) ≡ none
unfolding walk first_queue
first-nil s [] ok e = unfold front_of in refl
first-nil s (l ∷ ls) ok e = queue-nil l.queue (walk ls) ok.0 e

first-cons :
    (s : Side) (ls : List Level) {o : RestingOrder} {os : List RestingOrder}
    → LevelsOk s ls
    → walk ls ≡ o ∷ os
    → front_of (first_queue ls) ≡ some o
unfolding walk first_queue
first-cons s [] ok e = cc
first-cons s (l ∷ ls) ok e = queue-cons l.queue (walk ls) ok.0 e

-- A run of the loop from `q` and `r` to `q'` and `r'`, against the opposite orders `os`.
pub record Matches (cmd : NewOrder) (q : ℕ) (os : List RestingOrder) (r : Run) (result : ℕ × Run)
    : Type 0 where
  pub quantity : result.0 ≡ remaining cmd q os
  pub events : result.1.1 ≡ r.1 ++ trade_events cmd r.0.command_seq r.0.event_seq (fills cmd q os)
  pub event_seq : result.1.0.event_seq ≡ advance (length (fills cmd q os)) r.0.event_seq
  pub opposite_orders : walk (levels (opposite cmd.side) result.1.0.book) ≡ left_over cmd q os
  pub own_levels :
      levels (opposite (opposite cmd.side)) result.1.0.book
      ≡ levels (opposite (opposite cmd.side)) r.0.book
  pub book : BookOk result.1.0.book
  pub command_seq : result.1.0.command_seq ≡ r.0.command_seq
  pub instrument : result.1.0.instrument ≡ r.0.instrument
  pub arrival_counter : result.1.0.arrival_counter ≡ r.0.arrival_counter
  pub last_top : result.1.0.last_top ≡ r.0.last_top

abbrev opposite_walk : NewOrder → OrderBook → List RestingOrder
opposite_walk cmd b = walk (levels (opposite cmd.side) b)

module _ (cmd : NewOrder) (b : OrderBook) (ok : BookOk b) where
  front_to_fill-nil : opposite_walk cmd b ≡ [] → front_to_fill cmd b ≡ none
  unfolding front_to_fill front_level
  front_to_fill-nil e = ap (crossing cmd) (
      first-nil (opposite cmd.side) (levels (opposite cmd.side) b)
        (LevelsOk-levels (opposite cmd.side) b ok.sides) e)

  front_to_fill-cons :
      {o : RestingOrder} {os : List RestingOrder}
      → opposite_walk cmd b ≡ o ∷ os
      → front_to_fill cmd b ≡ (if crosses cmd.side cmd.kind cmd.price o.price then some o else none)
  unfolding front_to_fill front_level
  front_to_fill-cons e = ap (crossing cmd) (
      first-cons (opposite cmd.side) (levels (opposite cmd.side) b)
        (LevelsOk-levels (opposite cmd.side) b ok.sides) e)

-- One round: a trade with the front order, and what it does to the book.
module _ (cmd : NewOrder) (q : ℕ) (r : Run) (o : RestingOrder) (os : List RestingOrder)
    (ok : BookOk r.0.book) (e : opposite_walk cmd r.0.book ≡ o ∷ os) where
  abbrev filled : ℕ
  filled = min q o.quantity

  abbrev traded : Run
  traded = trade_front cmd filled o r

  traded-BookOk : BookOk traded.0.book
  unfolding trade_front emit
  traded-BookOk =
      reduce-BookOk filled r.0.book o ok
        (front-find (opposite cmd.side) r.0.book o os ok.distinct e) (omega arith)

  traded-opposite :
      opposite_walk cmd traded.0.book
      ≡ (if filled == o.quantity then os else record o { quantity = o.quantity - filled } ∷ os)
  unfolding trade_front emit
  traded-opposite = reduce-front (opposite cmd.side) r.0.book o os ok e filled (omega arith)

  traded-own :
      levels (opposite (opposite cmd.side)) traded.0.book
      ≡ levels (opposite (opposite cmd.side)) r.0.book
  unfolding trade_front emit
  traded-own = reduce-opposite (opposite cmd.side) r.0.book o os ok e filled (omega arith)

-- The loop stops: nothing is traded.
stop-Matches :
    (cmd : NewOrder) (q : ℕ) (os : List RestingOrder) (r : Run)
    → BookOk r.0.book
    → opposite_walk cmd r.0.book ≡ os
    → remaining cmd q os ≡ q
    → fills cmd q os ≡ []
    → left_over cmd q os ≡ os
    → Matches cmd q os r (q, r)
unfolding trade_events advance
stop-Matches cmd q os r ok e stays none_filled all_left = record {
  quantity = sym stays;
  events = rw (none_filled, append-nil);
  event_seq = rw none_filled;
  opposite_orders = e ∙ sym all_left;
  own_levels = refl;
  book = ok;
  command_seq = refl;
  instrument = refl;
  arrival_counter = refl;
  last_top = refl;
}

match_loop-zero_quantity : (fuel : ℕ) (cmd : NewOrder) (r : Run) → match_loop fuel cmd 0 r ≡ (0, r)
unfolding match_loop
match_loop-zero_quantity zero cmd r = refl
match_loop-zero_quantity (suc fuel) cmd r = refl

module _ (cmd : NewOrder) (q fuel : ℕ) (r : Run) where
  pub loop-stop : front_to_fill cmd r.0.book ≡ none → match_loop (suc fuel) cmd q r ≡ (q, r)
  unfolding match_loop
  loop-stop h = ground arith

  pub loop-done : ltb 0 q ≡ false → match_loop (suc fuel) cmd q r ≡ (q, r)
  unfolding match_loop
  loop-done h = ground arith

  pub loop-round :
      {o : RestingOrder}
      → ltb 0 q ≡ true
      → front_to_fill cmd r.0.book ≡ some o
      → match_loop (suc fuel) cmd q r
        ≡ match_loop fuel cmd (q - min q o.quantity) (trade_front cmd (min q o.quantity) o r)
  unfolding match_loop
  loop-round h k = ground arith

loop_stops :
    (cmd : NewOrder) (q fuel : ℕ) (r : Run) (o : RestingOrder) {os : List RestingOrder}
    → BookOk r.0.book
    → opposite_walk cmd r.0.book ≡ o ∷ os
    → takes cmd q o ≡ false
    → match_loop (suc fuel) cmd q r ≡ (q, r)
loop_stops cmd q fuel r o ok e stops = elim (Bool-cases (ltb 0 q)) [
  | inl some_left ↦ loop-stop cmd q fuel r (front_to_fill-cons cmd r.0.book ok e ∙ ground arith)
  | inr none_left ↦ loop-done cmd q fuel r none_left
]

-- A trade with the front and what follows it, as one run.
round-Matches :
    (cmd : NewOrder) (q : ℕ) (r : Run) (o : RestingOrder) (os os' : List RestingOrder)
    (ok : BookOk r.0.book) (e : opposite_walk cmd r.0.book ≡ o ∷ os) (result : ℕ × Run)
    → takes cmd q o ≡ true
    → fills cmd (q - filled cmd q r o os ok e) os' ≡ fills cmd (q - filled cmd q r o os ok e) os
    → remaining cmd (q - filled cmd q r o os ok e) os'
      ≡ remaining cmd (q - filled cmd q r o os ok e) os
    → left_over cmd q (o ∷ os) ≡ left_over cmd (q - filled cmd q r o os ok e) os'
    → Matches cmd (q - filled cmd q r o os ok e) os' (traded cmd q r o os ok e) result
    → Matches cmd q (o ∷ os) r result
unfolding fills remaining trade_front emit trade_events advance
round-Matches cmd q r o os os' ok e result t f m l rec = record {
  quantity = rw t (rec.quantity ∙ m);
  events = rw t (rec.events ∙ rw (f, append_assoc) refl);
  event_seq = rw t (rec.event_seq ∙ ap (λ fs. advance (length fs) (inc64 r.0.event_seq)) f);
  opposite_orders = rec.opposite_orders ∙ sym l;
  own_levels = rec.own_levels ∙ traded-own cmd q r o os ok e;
  book = rec.book;
  command_seq = rec.command_seq;
  instrument = rec.instrument;
  arrival_counter = rec.arrival_counter;
  last_top = rec.last_top;
}

-- The last round: the front order outlasts the incoming one.
last-Matches :
    (fuel : ℕ) (cmd : NewOrder) (q : ℕ) (r : Run) (o : RestingOrder) (os : List RestingOrder)
    (ok : BookOk r.0.book) (e : opposite_walk cmd r.0.book ≡ o ∷ os)
    → takes cmd q o ≡ true
    → (min q o.quantity == o.quantity) ≡ false
    → q - min q o.quantity ≡ 0
    → Matches cmd q
        (o ∷ os)
        r
        (match_loop fuel cmd (q - min q o.quantity) (traded cmd q r o os ok e))
last-Matches fuel cmd q r o os ok e go part z =
    round-Matches cmd q r o os (record o { quantity = o.quantity - min q o.quantity } ∷ os) ok e _
      go (rw z (fills-zero cmd _ ∙ sym (fills-zero cmd os)))
      (rw z (remaining-zero cmd _ ∙ sym (remaining-zero cmd os)))
      (left_over-part cmd q o os go part ∙ rw z (sym (left_over-zero cmd _)))
      (rw (z, match_loop-zero_quantity)
        (stop-Matches cmd 0 _ (traded cmd q r o os ok e) (traded-BookOk cmd q r o os ok e)
          (traded-opposite cmd q r o os ok e ∙ rw part refl) (remaining-zero cmd _)
          (fills-zero cmd _) (left_over-zero cmd _)))

match_loop-Matches :
    (fuel : ℕ) (cmd : NewOrder) (q : ℕ) (r : Run) (os : List RestingOrder)
    → BookOk r.0.book
    → opposite_walk cmd r.0.book ≡ os
    → length os < fuel
    → Matches cmd q os r (match_loop fuel cmd q r)
match_loop-Matches zero cmd q r os ok e h = absurd (omega arith)
match_loop-Matches (suc fuel) cmd q r [] ok e h =
    rw (loop-stop cmd q fuel r (front_to_fill-nil cmd r.0.book ok e))
      (unfold remaining fills left_over in stop-Matches cmd q [] r ok e refl refl refl)
match_loop-Matches (suc fuel) cmd q r (o ∷ os) ok e h = elim (Bool-cases (takes cmd q o)) [
  | inl go ↦
      rw
        (loop-round cmd q fuel r {o = o} (ground arith)
          (front_to_fill-cons cmd r.0.book ok e ∙ ground arith))
        (elim (Bool-cases (min q o.quantity == o.quantity)) [
          | inl whole ↦
              round-Matches cmd q r o os os ok e _ go refl refl
                (left_over-whole cmd q o os go whole)
                (match_loop-Matches fuel cmd (q - min q o.quantity) (traded cmd q r o os ok e) os
                  (traded-BookOk cmd q r o os ok e)
                  (traded-opposite cmd q r o os ok e ∙ rw whole refl) (omega arith))
          | inr part ↦ last-Matches fuel cmd q r o os ok e go part (ground arith)
        ])
  | inr stops ↦ rw (loop_stops cmd q fuel r o ok e stops) (
      unfold remaining fills left_over in
      stop-Matches cmd q (o ∷ os) r ok e (rw stops refl) (rw stops refl) (rw stops refl))
]

-- On a well-formed book, matching takes what the price-time priority of the opposite orders gives:
-- the residual quantity, one trade event for each fill under the next ordinal, and the orders that
-- are left. The own side and the other fields of the engine stay, and the book stays well formed.
pub match_order-Matches :
    (cmd : NewOrder) (q : ℕ) (r : Run)
    → BookOk r.0.book
    → Matches cmd q (walk (levels (opposite cmd.side) r.0.book)) r (match_order cmd q r)
unfolding match_order
match_order-Matches cmd q r ok = match_loop-Matches _ cmd q r _ ok refl (omega arith)
