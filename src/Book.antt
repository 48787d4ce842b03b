-- ===== src/Book.antt =====
-- include/sententia/order_book.hpp and src/order_book.cpp. A `std::map` of price levels is the list
-- of its entries in the comparator's order; the hash map of locators is an association list, which
-- the code looks up and never walks. A list iterator, stable while other entries come and go, is
-- named by the id of the order that it points to.
pub mod Checksum
pub mod Inserted
pub mod Levels
pub mod Invariant
pub mod Update
pub mod Front
pub mod Spread
pub mod Sides
pub mod Relevel
use sententia.Prelude.{
  ℕ, Bool, true, false, Option, none, some, List, [], ◌∷◌, ◌++◌, ◌==◌, if◌then◌else◌, add64, sub64,
}
use sententia.Prelude.Int.{ℤ, pos, ltz, eqz}
use sententia.Types.{Side, buy, sell}

pub record RestingOrder : Type 0 where
  pub id : ℕ
  pub side : Side
  pub price : ℤ
  pub quantity : ℕ
  pub arrival : ℕ

-- An entry of `BidLevels` or `AskLevels`: a price and its FIFO queue.
pub record Level : Type 0 where
  pub price : ℤ
  pub queue : List RestingOrder

pub record TopOfBook : Type 0 where
  pub has_bid : Bool
  pub bid_price : ℤ
  pub bid_quantity : ℕ
  pub has_ask : Bool
  pub ask_price : ℤ
  pub ask_quantity : ℕ

pub record Locator : Type 0 where
  pub side : Side
  pub price : ℤ
  pub it : ℕ

pub record OrderBook : Type 0 where
  pub bids : List Level
  pub asks : List Level
  pub index : List (ℕ × Locator)

abbrev pub empty_book : OrderBook
empty_book = record { bids = []; asks = []; index = [] }

-- The comparators: `std::greater` for bids, `std::less` for asks.
unfoldable pub before : Side → ℤ → ℤ → Bool
before buy a b = ltz b a
before sell a b = ltz a b

-- The queue entry that an iterator points to.
unfoldable pub find : ℕ → List RestingOrder → Option RestingOrder
find k [] = none
find k (o ∷ os) = if o.id == k then some o else find k os

-- `OrderQueue::erase`
unfoldable pub remove : ℕ → List RestingOrder → List RestingOrder
remove k [] = []
remove k (o ∷ os) = if o.id == k then os else o ∷ remove k os

-- A write through an iterator.
unfoldable pub set_quantity : ℕ → ℕ → List RestingOrder → List RestingOrder
set_quantity k q [] = []
set_quantity k q (o ∷ os) =
    if o.id == k then record o { quantity = q } ∷ os else o ∷ set_quantity k q os

-- `levels[order.price].push_back(order)`: the map creates the level where it is missing.
unfoldable pub push_back : Side → RestingOrder → List Level → List Level
push_back s o [] = record { price = o.price; queue = o ∷ [] } ∷ []
push_back s o (l ∷ ls) =
    if eqz l.price o.price
    then record { price = l.price; queue = l.queue ++ o ∷ [] } ∷ ls
    else if before s o.price l.price
    then record { price = o.price; queue = o ∷ [] } ∷ l ∷ ls
    else l ∷ push_back s o ls

-- A level that has lost its last order goes.
unfoldable pub keep_level : ℤ → List RestingOrder → List Level → List Level
keep_level p [] ls = ls
keep_level p (o ∷ os) ls = record { price = p; queue = o ∷ os } ∷ ls

-- `levels.find(price)`, `queue.erase(it)`, and `levels.erase(level)` if the queue is empty.
unfoldable pub erase_order : ℤ → ℕ → List Level → List Level
unfolding keep_level
erase_order p k [] = []
erase_order p k (l ∷ ls) =
    if eqz l.price p then keep_level l.price (remove k l.queue) ls else l ∷ erase_order p k ls

-- The write of `reduce`, on the level that the iterator lies in.
unfoldable pub write_quantity : ℤ → ℕ → ℕ → List Level → List Level
write_quantity p k q [] = []
write_quantity p k q (l ∷ ls) =
    if eqz l.price p
    then record { price = l.price; queue = set_quantity k q l.queue } ∷ ls
    else l ∷ write_quantity p k q ls

-- Orders of a side in canonical order: levels by the comparator, FIFO within a level.
unfoldable pub walk : List Level → List RestingOrder
walk [] = []
walk (l ∷ ls) = l.queue ++ walk ls

-- `index_.find`, `index_.emplace` (which leaves an entry that is there) and `index_.erase`
unfoldable pub lookup : ℕ → List (ℕ × Locator) → Option Locator
lookup k [] = none
lookup k ((j, loc) ∷ m) = if j == k then some loc else lookup k m

unfoldable pub emplace : ℕ → Locator → List (ℕ × Locator) → List (ℕ × Locator)
emplace k loc m = elim (lookup k m) [ none ↦ (k, loc) ∷ m | some old ↦ m ]

unfoldable pub unindex : ℕ → List (ℕ × Locator) → List (ℕ × Locator)
unindex k [] = []
unindex k ((j, loc) ∷ m) = let rest = unindex k m in if j == k then rest else (j, loc) ∷ rest

unfoldable pub levels : Side → OrderBook → List Level
levels buy b = b.bids
levels sell b = b.asks

unfoldable pub set_levels : Side → List Level → OrderBook → OrderBook
set_levels buy ls b = record b { bids = ls }
set_levels sell ls b = record b { asks = ls }

abbrev pub locate : RestingOrder → Locator
locate o = record { side = o.side; price = o.price; it = o.id }

-- The source asserts here that no order rests under the id and that a quantity is left.
unfoldable pub rest : RestingOrder → OrderBook → OrderBook
rest o b = record (set_levels o.side (push_back o.side o (levels o.side b)) b) {
  index = emplace o.id (locate o) b.index;
}

unfoldable pub erase_located : Locator → ℕ → OrderBook → OrderBook
erase_located loc k b =
    record (set_levels loc.side (erase_order loc.price loc.it (levels loc.side b)) b) {
      index = unindex k b.index;
    }

-- `*loc.it`; an iterator of the index always points into the side that the locator names.
unfoldable pub deref : Locator → OrderBook → Option RestingOrder
deref loc b = find loc.it (walk (levels loc.side b))

-- The locator and the order of an id that is on the book.
unfoldable pub locate_order : ℕ → OrderBook → Option (Locator × RestingOrder)
locate_order k b = elim (lookup k b.index) [
  | none ↦ none
  | some loc ↦ elim (deref loc b) [ none ↦ none | some o ↦ some (loc, o) ]
]

unfoldable pub cancel : ℕ → OrderBook → Option RestingOrder × OrderBook
cancel k b = elim (locate_order k b) [
  | none ↦ (none, b)
  | some (loc, removed) ↦ (some removed, erase_located loc k b)
]

unfoldable pub contains : ℕ → OrderBook → Bool
contains k b = elim (lookup k b.index) [ none ↦ false | some loc ↦ true ]

unfoldable pub write_order : Locator → ℕ → OrderBook → OrderBook
write_order loc q b = set_levels loc.side (write_quantity loc.price loc.it q (levels loc.side b)) b

-- The subtraction wraps where the source's would.
unfoldable pub reduce : ℕ → ℕ → OrderBook → OrderBook
reduce k by b = elim (locate_order k b) [
  | none ↦ b
  | some (loc, o) ↦
      let q = sub64 o.quantity by in
      let written = write_order loc q b in if q == 0 then erase_located loc k written else written
]

unfoldable pub best_price : List Level → Option ℤ
best_price [] = none
best_price (l ∷ ls) = some l.price

unfoldable pub best_bid : OrderBook → Option ℤ
unfolding best_price
best_bid b = best_price b.bids

unfoldable pub best_ask : OrderBook → Option ℤ
unfolding best_price
best_ask b = best_price b.asks

-- `for (o : queue) total += o.quantity`
unfoldable pub add_quantities : ℕ → List RestingOrder → ℕ
add_quantities total [] = total
add_quantities total (o ∷ os) = add_quantities (add64 total o.quantity) os

abbrev pub no_top : TopOfBook
no_top = record {
  has_bid = false;
  bid_price = pos 0;
  bid_quantity = 0;
  has_ask = false;
  ask_price = pos 0;
  ask_quantity = 0;
}

top_bid : List Level → TopOfBook → TopOfBook
top_bid [] t = t
top_bid (l ∷ ls) t = record t {
  has_bid = true;
  bid_price = l.price;
  bid_quantity = add_quantities 0 l.queue;
}

top_ask : List Level → TopOfBook → TopOfBook
top_ask [] t = t
top_ask (l ∷ ls) t = record t {
  has_ask = true;
  ask_price = l.price;
  ask_quantity = add_quantities 0 l.queue;
}

unfoldable pub top : OrderBook → TopOfBook
unfolding top_bid top_ask add_quantities
top b = top_ask b.asks (top_bid b.bids no_top)

unfoldable pub quantity_of_level : ℤ → List Level → ℕ
quantity_of_level p [] = 0
quantity_of_level p (l ∷ ls) =
    if eqz l.price p then add_quantities 0 l.queue else quantity_of_level p ls

unfoldable pub quantity_at : Side → ℤ → OrderBook → ℕ
quantity_at s p b = quantity_of_level p (levels s b)

unfoldable pub first_queue : List Level → Option (List RestingOrder)
first_queue [] = none
first_queue (l ∷ ls) = some l.queue

-- `frontLevel`: the queue of the best level of a side.
unfoldable pub front_level : Side → OrderBook → Option (List RestingOrder)
front_level s b = first_queue (levels s b)

-- Every resting order, bids first: the order in which the book is hashed and snapshotted.
unfoldable pub orders : OrderBook → List RestingOrder
orders b = walk b.bids ++ walk b.asks
