-- ===== src/Book/Invariant.antt =====
-- The well-formed order book, and that `rest`, `cancel` and `reduce` of order_book.cpp keep it.
use sententia.Prelude.{
  ℕ, ◌≡◌, refl, sym, subst, ap, ◌∙◌, inl, inr, false, Option, none, some, List, [], ◌∷◌, ◌==◌,
  if◌then◌else◌, arith,
}
use sententia.Types.{Side, buy, sell}
use sententia.Book.{
  RestingOrder, Level, Locator, OrderBook, find, walk, lookup, emplace, unindex, levels, set_levels,
  locate, deref, locate_order, contains, orders,
}
use sententia.Book.Inserted.{
  Inserted, Distinct, Inserted-append_right, Inserted-append_left, find-append_cases, find-id,
}
use sententia.Book.Levels.{LevelsOk, walk-side}

abbrev pub located : Option RestingOrder → Option Locator
located none = none
located (some o) = some (locate o)

pub record SidesOk (b : OrderBook) : Type 0 where
  pub bids : LevelsOk buy b.bids
  pub asks : LevelsOk sell b.asks

-- The index has a locator for each resting order, the right one, and for nothing else.
abbrev pub IndexOk : List (ℕ × Locator) → List RestingOrder → Type 0
IndexOk m os = (k : ℕ) → lookup k m ≡ located (find k os)

pub record BookOk (b : OrderBook) : Type 0 where
  pub sides : SidesOk b
  pub distinct : Distinct (orders b)
  pub indexed : IndexOk b.index (orders b)

pub lookup-emplace :
    (j k : ℕ) (loc : Locator) (m : List (ℕ × Locator))
    → lookup k m ≡ none
    → lookup j (emplace k loc m) ≡ (if k == j then some loc else lookup j m)
unfolding emplace
lookup-emplace j k loc m h = rw (h, emplace) (unfold lookup in refl)

pub lookup-unindex :
    (j k : ℕ) (m : List (ℕ × Locator))
    → lookup j (unindex k m) ≡ (if k == j then none else lookup j m)
unfolding lookup unindex
lookup-unindex j k [] = ground arith
lookup-unindex j k ((i, loc) ∷ m) = ground (arith, lookup-unindex j k m)

pub LevelsOk-levels : (s : Side) (b : OrderBook) → SidesOk b → LevelsOk s (levels s b)
unfolding levels
LevelsOk-levels buy b ok = ok.bids
LevelsOk-levels sell b ok = ok.asks

pub SidesOk-set :
    (s : Side) (ls : List Level) (b : OrderBook)
    → SidesOk b
    → LevelsOk s ls
    → SidesOk (set_levels s ls b)
unfolding set_levels
SidesOk-set buy ls b ok h = record { bids = h; asks = ok.asks }
SidesOk-set sell ls b ok h = record { bids = ok.bids; asks = h }

pub set-same : (s : Side) (b : OrderBook) → set_levels s (levels s b) b ≡ b
unfolding set_levels levels
set-same buy b = refl
set-same sell b = refl

pub set-index : (s : Side) (ls : List Level) (b : OrderBook) → (set_levels s ls b).index ≡ b.index
unfolding set_levels
set-index buy ls b = refl
set-index sell ls b = refl

pub Inserted-set :
    (s : Side) (b : OrderBook) {o : RestingOrder} (ls ms : List Level)
    → Inserted o (walk ls) (walk ms)
    → Inserted o (orders (set_levels s ls b)) (orders (set_levels s ms b))
unfolding set_levels orders
Inserted-set buy b ls ms i = Inserted-append_right (walk b.asks) i
Inserted-set sell b ls ms i = Inserted-append_left (walk b.bids) i

-- An order is found on its own side.
pub find-on_side :
    (k : ℕ) (b : OrderBook) {o : RestingOrder}
    → SidesOk b
    → find k (orders b) ≡ some o
    → find k (walk (levels o.side b)) ≡ some o
unfolding orders levels
find-on_side k b {o} ok h = elim (find-append_cases k (walk b.bids) (walk b.asks) h) [
  | inl bid ↦
      subst (λ s. find k (walk (levels s b)) ≡ some o) (sym (walk-side buy k b.bids ok.bids bid))
        bid
  | inr (_, ask) ↦
      subst (λ s. find k (walk (levels s b)) ≡ some o) (sym (walk-side sell k b.asks ok.asks ask))
        ask
]

-- The id index and the queues agree on every id.
pub locate_order-find :
    (k : ℕ) (b : OrderBook) {o : RestingOrder}
    → BookOk b
    → find k (orders b) ≡ some o
    → locate_order k b ≡ some (locate o, o)
unfolding locate_order deref
locate_order-find k b {o} ok h =
    rw (ok.indexed k ∙ ap located h, locate_order)
      (rw
        (
          subst (λ j. find j (walk (levels o.side b)) ≡ some o) (sym (find-id k (orders b) h))
              (find-on_side k b ok.sides h),
          locate_order,
        )
        refl)

pub locate_order-none :
    (k : ℕ) (b : OrderBook) → BookOk b → find k (orders b) ≡ none → locate_order k b ≡ none
unfolding locate_order
locate_order-none k b ok h = rw (ok.indexed k ∙ ap located h, locate_order)

pub contains-find :
    (k : ℕ) (b : OrderBook) → BookOk b → contains k b ≡ false → find k (orders b) ≡ none
unfolding contains
contains-find k b ok h = ground (arith, ok.indexed k)
