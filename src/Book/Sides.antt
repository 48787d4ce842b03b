-- ===== src/Book/Sides.antt =====
-- A book as one side and the other: `bids_` and `asks_` of order_book.hpp by the side of an order.
use sententia.Prelude.{
  ℕ, ◌≡◌, refl, ◌∙◌, false, none, List, [], ◌∷◌, ◌++◌, arith, All, All-append, All-append_left,
  All-append_right,
}
use sententia.Types.{Side, buy, sell, opposite}
use sententia.Book.{RestingOrder, OrderBook, find, walk, levels, orders, contains}
use sententia.Book.Inserted.{find-append_none}
use sententia.Book.Invariant.{BookOk}
use sententia.Book.Spread.{IsPriced}

pub opposite-opposite : (s : Side) → opposite (opposite s) ≡ s
unfolding opposite
opposite-opposite buy = refl
opposite-opposite sell = refl

pub find-append-none :
    (k : ℕ) (xs ys : List RestingOrder)
    → find k (xs ++ ys) ≡ none
    → (find k xs ≡ none) × (find k ys ≡ none)
unfolding find
find-append-none k [] ys h = (refl, h)
find-append-none k (x ∷ xs) ys h = ground (arith, find-append-none k xs ys)

module _ (b : OrderBook) where
  pub IsPriced-side :
      (s : Side)
      → All IsPriced (orders b)
      → All IsPriced (walk (levels s b)) × All IsPriced (walk (levels (opposite s) b))
  unfolding orders levels opposite
  IsPriced-side buy a = (
    All-append_left IsPriced (walk b.bids) (walk b.asks) a,
    All-append_right IsPriced (walk b.bids) (walk b.asks) a,
  )
  IsPriced-side sell a = (
    All-append_right IsPriced (walk b.bids) (walk b.asks) a,
    All-append_left IsPriced (walk b.bids) (walk b.asks) a,
  )

  pub side-IsPriced :
      (s : Side)
      → All IsPriced (walk (levels s b))
      → All IsPriced (walk (levels (opposite s) b))
      → All IsPriced (orders b)
  unfolding orders levels opposite
  side-IsPriced buy own opp = All-append IsPriced (walk b.bids) (walk b.asks) own opp
  side-IsPriced sell own opp = All-append IsPriced (walk b.bids) (walk b.asks) opp own

  pub none-side :
      (s : Side) (k : ℕ)
      → find k (orders b) ≡ none
      → (find k (walk (levels s b)) ≡ none) × (find k (walk (levels (opposite s) b)) ≡ none)
  unfolding orders levels opposite
  none-side buy k h = find-append-none k (walk b.bids) (walk b.asks) h
  none-side sell k h = let t = find-append-none k (walk b.bids) (walk b.asks) h in (t.1, t.0)

  pub side-none :
      (s : Side) (k : ℕ)
      → find k (walk (levels s b)) ≡ none
      → find k (walk (levels (opposite s) b)) ≡ none
      → find k (orders b) ≡ none
  unfolding orders levels opposite
  side-none buy k own opp = find-append_none k (walk b.bids) (walk b.asks) own ∙ opp
  side-none sell k own opp = find-append_none k (walk b.bids) (walk b.asks) opp ∙ own

  pub contains-none : (k : ℕ) → BookOk b → find k (orders b) ≡ none → contains k b ≡ false
  unfolding contains
  contains-none k ok h = ground (arith, ok.indexed k)
