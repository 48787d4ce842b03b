-- ===== src/Types.antt =====
-- include/sententia/types.hpp, command.hpp and event.hpp: the values that go in and come out of
-- the engine. Ids, quantities and sequences are numbers below 2^64, a price is a signed number.
use sententia.Prelude.{ℕ, Bool}
use sententia.Prelude.Int.{ℤ}

pub data Side : Type 0 where
  buy sell : Side

pub data OrderType : Type 0 where
  limit market : OrderType

pub data TimeInForce : Type 0 where
  good_till_cancel immediate_or_cancel : TimeInForce

pub data RejectReason : Type 0 where
  no_reason duplicate_order_id unknown_order_id zero_quantity : RejectReason
  non_positive_price wrong_instrument market_order_must_be_ioc : RejectReason

unfoldable pub opposite : Side → Side
opposite buy = sell
opposite sell = buy

pub record NewOrder : Type 0 where
  pub id : ℕ
  pub instrument : ℕ
  pub side : Side
  pub kind : OrderType
  pub tif : TimeInForce
  pub price : ℤ
  pub quantity : ℕ

pub record CancelOrder : Type 0 where
  pub id : ℕ

pub data Command : Type 0 where
  new_order : NewOrder → Command
  cancel_order : CancelOrder → Command

pub record EventHeader : Type 0 where
  pub command_seq : ℕ
  pub event_seq : ℕ

pub record OrderAccepted : Type 0 where
  pub header : EventHeader
  pub id : ℕ
  pub side : Side
  pub kind : OrderType
  pub tif : TimeInForce
  pub price : ℤ
  pub quantity : ℕ

pub record OrderRejected : Type 0 where
  pub header : EventHeader
  pub id : ℕ
  pub reason : RejectReason

pub record Trade : Type 0 where
  pub header : EventHeader
  pub aggressor_id : ℕ
  pub resting_id : ℕ
  pub aggressor_side : Side
  pub price : ℤ
  pub quantity : ℕ

pub record OrderResting : Type 0 where
  pub header : EventHeader
  pub id : ℕ
  pub side : Side
  pub price : ℤ
  pub quantity : ℕ

pub record OrderCancelled : Type 0 where
  pub header : EventHeader
  pub id : ℕ
  pub side : Side
  pub price : ℤ
  pub remaining : ℕ
  pub engine_initiated : Bool

pub record CancelRejected : Type 0 where
  pub header : EventHeader
  pub id : ℕ
  pub reason : RejectReason

pub record TopOfBookChanged : Type 0 where
  pub header : EventHeader
  pub has_bid : Bool
  pub bid_price : ℤ
  pub bid_quantity : ℕ
  pub has_ask : Bool
  pub ask_price : ℤ
  pub ask_quantity : ℕ

pub data Event : Type 0 where
  order_accepted : OrderAccepted → Event
  order_rejected : OrderRejected → Event
  trade : Trade → Event
  order_resting : OrderResting → Event
  order_cancelled : OrderCancelled → Event
  cancel_rejected : CancelRejected → Event
  top_of_book_changed : TopOfBookChanged → Event

-- `header(const Event&)` of event.cpp
unfoldable pub header : Event → EventHeader
header (order_accepted e) = e.header
header (order_rejected e) = e.header
header (trade e) = e.header
header (order_resting e) = e.header
header (order_cancelled e) = e.header
header (cancel_rejected e) = e.header
header (top_of_book_changed e) = e.header
