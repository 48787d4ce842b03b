-- ===== src/Engine.antt =====
-- include/sententia/engine.hpp and src/engine.cpp. A method that changes the engine and appends to
-- `out` takes and returns the pair of both, a `Run`.
pub mod Priority
pub mod Matching
pub mod Numbering
pub mod Soundness
pub mod Snapshot
pub mod Rebuilding
pub mod Repeating
pub mod Restoring
pub mod Outcomes
pub mod Instrument
use sententia.Prelude.{
  ℕ, zero, suc, ◌-◌, min, Bool, true, false, not, ◌&&◌, Option, none, some, List, [], ◌∷◌, ◌++◌,
  ◌==◌, ltb, if◌then◌else◌, inc64, length,
}
use sententia.Prelude.Int.{ℤ, pos, ltz, eqz}
use sententia.Types.{
  Side, buy, sell, OrderType, limit, market, TimeInForce, good_till_cancel, immediate_or_cancel,
  RejectReason, no_reason, duplicate_order_id, unknown_order_id, zero_quantity, non_positive_price,
  wrong_instrument, market_order_must_be_ioc, opposite, NewOrder, CancelOrder, Command, new_order,
  cancel_order, EventHeader, Event, order_accepted, order_rejected, trade, order_resting,
  order_cancelled, cancel_rejected, top_of_book_changed,
}
use sententia.Book
use sententia.Book.{
  RestingOrder, TopOfBook, OrderBook, empty_book, no_top, contains, rest, reduce, front_level, top,
  levels, walk, orders,
}

pub record MatchingEngine : Type 0 where
  pub instrument : ℕ
  pub book : OrderBook
  pub command_seq : ℕ
  pub event_seq : ℕ
  pub arrival_counter : ℕ
  pub last_top : TopOfBook

unfoldable pub new_engine : ℕ → MatchingEngine
new_engine instrument = record {
  instrument = instrument;
  book = empty_book;
  command_seq = 0;
  event_seq = 0;
  arrival_counter = 0;
  last_top = no_top;
}

abbrev pub Run : Type 0
Run = MatchingEngine × List Event

-- `e.header = nextHeader(); out.push_back(e);`
unfoldable pub emit : (EventHeader → Event) → Run → Run
emit event (e, out) =
    let ordinal = inc64 e.event_seq in
    (
      record e { event_seq = ordinal },
      out ++ event (record { command_seq = e.command_seq; event_seq = ordinal }) ∷ [],
    )

bool_eq : Bool → Bool → Bool
bool_eq true b = b
bool_eq false b = not b

-- The defaulted `operator==` of `TopOfBook`.
unfoldable pub same_top : TopOfBook → TopOfBook → Bool
unfolding bool_eq
same_top a b =
    bool_eq a.has_bid b.has_bid
    && eqz a.bid_price b.bid_price
    && a.bid_quantity == b.bid_quantity
    && bool_eq a.has_ask b.has_ask
    && eqz a.ask_price b.ask_price
    && a.ask_quantity == b.ask_quantity

unfoldable pub emit_top_of_book_if_changed : Run → Run
emit_top_of_book_if_changed (e, out) =
    let now = top e.book in
    if same_top now e.last_top
    then (e, out)
    else emit
        (λ h. top_of_book_changed (record {
          header = h;
          has_bid = now.has_bid;
          bid_price = now.bid_price;
          bid_quantity = now.bid_quantity;
          has_ask = now.has_ask;
          ask_price = now.ask_price;
          ask_quantity = now.ask_quantity;
        }))
        (record e { last_top = now }, out)

unfoldable pub crosses : Side → OrderType → ℤ → ℤ → Bool
crosses side market bound resting = true
crosses buy limit bound resting = not (ltz bound resting)
crosses sell limit bound resting = not (ltz resting bound)

front_of : Option (List RestingOrder) → Option RestingOrder
front_of none = none
front_of (some []) = none
front_of (some (o ∷ os)) = some o

crossing : NewOrder → Option RestingOrder → Option RestingOrder
crossing cmd none = none
crossing cmd (some front) =
    if crosses cmd.side cmd.kind cmd.price front.price then some front else none

-- The order that the next round of the loop trades with; `none` is a `break`.
unfoldable pub front_to_fill : NewOrder → OrderBook → Option RestingOrder
unfolding front_of crossing
front_to_fill cmd b = crossing cmd (front_of (front_level (opposite cmd.side) b))

-- The body of the loop, after its breaks.
unfoldable pub trade_front : NewOrder → ℕ → RestingOrder → Run → Run
trade_front cmd fill front r =
    let (e, out) =
      emit
        (λ h. trade (record {
          header = h;
          aggressor_id = cmd.id;
          resting_id = front.id;
          aggressor_side = cmd.side;
          price = front.price;
          quantity = fill;
        }))
        r in
    (record e { book = reduce front.id fill e.book }, out)

-- `while (quantity > 0)`. Each round takes an order off the book or is the last.
unfoldable pub match_loop : ℕ → NewOrder → ℕ → Run → ℕ × Run
match_loop zero cmd quantity r = (quantity, r)
match_loop (suc fuel) cmd quantity r = elim (ltb 0 quantity) [
  | false ↦ (quantity, r)
  | true ↦ elim (front_to_fill cmd r.0.book) [
    | none ↦ (quantity, r)
    | some front ↦
        let fill = min quantity front.quantity in
        match_loop fuel cmd (quantity - fill) (trade_front cmd fill front r)
  ]
]

-- The fuel is one round more than the opposite side has orders.
unfoldable pub match_order : NewOrder → ℕ → Run → ℕ × Run
match_order cmd quantity r =
    match_loop (suc (length (walk (levels (opposite cmd.side) r.0.book)))) cmd quantity r

abbrev pub is_limit : OrderType → Bool
is_limit limit = true
is_limit market = false

abbrev pub is_gtc : TimeInForce → Bool
is_gtc good_till_cancel = true
is_gtc immediate_or_cancel = false

unfoldable pub validate : NewOrder → MatchingEngine → RejectReason
validate cmd e =
    if not (cmd.instrument == e.instrument)
    then wrong_instrument
    else if cmd.quantity == 0
    then zero_quantity
    else if is_limit cmd.kind && not (ltz (pos 0) cmd.price)
    then non_positive_price
    else if not (is_limit cmd.kind) && is_gtc cmd.tif
    then market_order_must_be_ioc
    else if contains cmd.id e.book
    then duplicate_order_id
    else no_reason

unfoldable pub rest_residual : NewOrder → ℕ → Run → Run
rest_residual cmd residual (e, out) =
    let arrival = inc64 e.arrival_counter in
    let resting =
      rest
        (record {
          id = cmd.id;
          side = cmd.side;
          price = cmd.price;
          quantity = residual;
          arrival = arrival;
        })
        e.book in
    emit
      (λ h. order_resting (record {
        header = h;
        id = cmd.id;
        side = cmd.side;
        price = cmd.price;
        quantity = residual;
      }))
      (record e { book = resting; arrival_counter = arrival }, out)

unfoldable pub cancel_residual : NewOrder → ℕ → Run → Run
cancel_residual cmd residual = emit λ h. order_cancelled (record {
  header = h;
  id = cmd.id;
  side = cmd.side;
  price = cmd.price;
  remaining = residual;
  engine_initiated = true;
})

unfoldable pub settle : NewOrder → ℕ × Run → Run
settle cmd (residual, r) =
    if ltb 0 residual
    then (if is_limit cmd.kind && is_gtc cmd.tif
        then rest_residual cmd residual r
        else cancel_residual cmd residual r)
    else r

unfoldable pub accept : NewOrder → Run → Run
accept cmd = emit λ h. order_accepted (record {
  header = h;
  id = cmd.id;
  side = cmd.side;
  kind = cmd.kind;
  tif = cmd.tif;
  price = cmd.price;
  quantity = cmd.quantity;
})

unfoldable pub reject : NewOrder → RejectReason → Run → Run
reject cmd reason = emit λ h. order_rejected (record { header = h; id = cmd.id; reason = reason })

after_validation : RejectReason → NewOrder → Run → Run
after_validation no_reason cmd r =
    emit_top_of_book_if_changed (settle cmd (match_order cmd cmd.quantity (accept cmd r)))
after_validation why cmd r = reject cmd why r

unfoldable pub apply_new_order : NewOrder → Run → Run
unfolding after_validation
apply_new_order cmd r = after_validation (validate cmd r.0) cmd r

after_cancel : ℕ → Option RestingOrder × OrderBook → Run → Run
after_cancel k (none, b) r =
    emit (λ h. cancel_rejected (record { header = h; id = k; reason = unknown_order_id })) r
after_cancel k (some removed, b) (e, out) = emit_top_of_book_if_changed (
    emit
      (λ h. order_cancelled (record {
        header = h;
        id = removed.id;
        side = removed.side;
        price = removed.price;
        remaining = removed.quantity;
        engine_initiated = false;
      }))
      (record e { book = b }, out))

unfoldable pub apply_cancel : CancelOrder → Run → Run
unfolding after_cancel
apply_cancel cmd r = after_cancel cmd.id (Book.cancel cmd.id r.0.book) r

dispatch : Command → Run → Run
dispatch (new_order cmd) r = apply_new_order cmd r
dispatch (cancel_order cmd) r = apply_cancel cmd r

-- `apply(cmd, out)`
unfoldable pub apply : Command → Run → Run
unfolding dispatch
apply cmd (e, out) = dispatch cmd (record e { command_seq = inc64 e.command_seq }, out)

-- A run of commands, as the log replays them.
unfoldable pub apply_all : List Command → Run → Run
apply_all [] r = r
apply_all (c ∷ cs) r = apply_all cs (apply c r)
