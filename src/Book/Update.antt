-- ===== src/Book/Update.antt =====
-- `rest`, `cancel` and `reduce` of order_book.cpp keep a book well formed.
use sententia.Prelude.{
  ℕ, ◌-◌, ◌≤◌, ◌<◌, ◌≡◌, refl, subst, inl, inr, false, none, some, ◌==◌, if◌then◌else◌, arith,
  Bool-cases, sub64-exact,
}
use sententia.Types.{Side, buy, sell}
use sententia.Book.{
  RestingOrder, Locator, OrderBook, find, push_back, erase_order, write_quantity, lookup, levels,
  set_levels, locate, rest, erase_located, cancel, contains, write_order, reduce, orders,
}
use sententia.Book.Inserted.{Inserted, Distinct, find-Inserted, Distinct-Inserted, Distinct-taken}
use sententia.Book.Relevel.{
  Inserted-push_back, LevelsOk-push_back, Inserted-erase_order, LevelsOk-erase_order,
  Inserted-write_quantity, LevelsOk-write_quantity, erase-write,
}
use sententia.Book.Invariant.{
  located, BookOk, lookup-emplace, lookup-unindex, LevelsOk-levels, SidesOk-set, set-same,
  set-index, Inserted-set, find-on_side, locate_order-find, locate_order-none, contains-find,
}

-- Putting an order on the book, off it, and changing its quantity, seen from the list of orders.
pub Inserted-rest : (o : RestingOrder) (b : OrderBook) → Inserted o (orders b) (orders (rest o b))
unfolding rest orders
Inserted-rest o b =
    subst (λ b'. Inserted o (orders b') (orders (rest o b))) (set-same o.side b)
      (Inserted-set o.side b (levels o.side b) (push_back o.side o (levels o.side b))
        (Inserted-push_back o.side o (levels o.side b)))

module _ (b : OrderBook) (o : RestingOrder) (ok : BookOk b)
    (h : find o.id (orders b) ≡ some o) where
  pub Inserted-erase_located : Inserted o (orders (erase_located (locate o) o.id b)) (orders b)
  unfolding erase_located orders
  Inserted-erase_located =
      subst (λ b'. Inserted o (orders (erase_located (locate o) o.id b)) (orders b'))
        (set-same o.side b)
        (Inserted-set o.side b (erase_order o.price o.id (levels o.side b)) (levels o.side b) (
          Inserted-erase_order o.side o.id (levels o.side b) (LevelsOk-levels o.side b ok.sides)
            (find-on_side o.id b ok.sides h)))

  Inserted-write_order :
      (q : ℕ)
      → Inserted
          (record o { quantity = q })
          (orders (erase_located (locate o) o.id b))
          (orders (write_order (locate o) q b))
  unfolding write_order erase_located orders
  Inserted-write_order q =
      Inserted-set o.side b (erase_order o.price o.id (levels o.side b))
        (write_quantity o.price o.id q (levels o.side b))
        (Inserted-write_quantity o.side o.id q (levels o.side b) (LevelsOk-levels o.side b ok.sides)
          (find-on_side o.id b ok.sides h))

  pub erase_located-BookOk : BookOk (erase_located (locate o) o.id b)
  erase_located-BookOk = record {
    sides =
        unfold erase_located in
        (let s = SidesOk-set o.side (erase_order o.price o.id (levels o.side b)) b ok.sides (
            LevelsOk-erase_order o.side o.id o.price (levels o.side b)
              (LevelsOk-levels o.side b ok.sides)) in
          record { bids = s.bids; asks = s.asks });
    distinct = (Distinct-taken Inserted-erase_located ok.distinct).0;
    indexed = λ k.
        unindexed k
          (find-Inserted k Inserted-erase_located
            (Distinct-taken Inserted-erase_located ok.distinct).1)
          (unfold erase_located in lookup-unindex k o.id b.index)
          (Distinct-taken Inserted-erase_located ok.distinct).1;
  }
    where
      unindexed :
          (k : ℕ)
          → find k (orders b)
            ≡ (if o.id == k then some o else find k (orders (erase_located (locate o) o.id b)))
          → lookup k (erase_located (locate o) o.id b).index
            ≡ (if o.id == k then none else lookup k b.index)
          → find o.id (orders (erase_located (locate o) o.id b)) ≡ none
          → lookup k (erase_located (locate o) o.id b).index
            ≡ located (find k (orders (erase_located (locate o) o.id b)))
      unindexed k p q r = ground (arith, ok.indexed k)

  index-write_order : (q : ℕ) → (write_order (locate o) q b).index ≡ b.index
  unfolding write_order
  index-write_order q = set-index o.side (write_quantity o.price o.id q (levels o.side b)) b

  pub write_order-BookOk : (q : ℕ) → 0 < q → BookOk (write_order (locate o) q b)
  write_order-BookOk q pos = record {
    sides =
        unfold write_order in
        SidesOk-set o.side (write_quantity o.price o.id q (levels o.side b)) b ok.sides (
          LevelsOk-write_quantity o.side o.id o.price q (levels o.side b) pos
            (LevelsOk-levels o.side b ok.sides));
    distinct = Distinct-Inserted (Inserted-write_order q) t.1 t.0;
    indexed = λ k. ground (
      arith,
      ok.indexed k,
      index-write_order q,
      find-Inserted k Inserted-erase_located t.1,
      find-Inserted k (Inserted-write_order q) t.1,
    );
  }
    where
      t :
          Distinct (orders (erase_located (locate o) o.id b))
          × (find o.id (orders (erase_located (locate o) o.id b)) ≡ none)
      t = Distinct-taken Inserted-erase_located ok.distinct

module _ (o : RestingOrder) (b : OrderBook) (ok : BookOk b) (free : contains o.id b ≡ false) where
  -- A new order with a free id and something to trade may rest.
  pub rest-BookOk : 0 < o.quantity → BookOk (rest o b)
  rest-BookOk pos = record {
    sides =
        unfold rest in
        (let s = SidesOk-set o.side (push_back o.side o (levels o.side b)) b ok.sides (
            LevelsOk-push_back o.side o (levels o.side b)
              (record { side = refl; price = refl; positive = pos })
              (LevelsOk-levels o.side b ok.sides)) in
          record { bids = s.bids; asks = s.asks });
    distinct = Distinct-Inserted (Inserted-rest o b) (contains-find o.id b ok free) ok.distinct;
    indexed = λ k.
        unfold rest in
        ground (
          arith,
          ok.indexed k,
          ok.indexed o.id,
          contains-find o.id b ok free,
          find-Inserted k (Inserted-rest o b) (contains-find o.id b ok free),
          lookup-emplace k o.id (locate o) b.index,
        );
  }

erase-write_order :
    (loc : Locator) (q : ℕ) (b : OrderBook)
    → erase_located loc loc.it (write_order loc q b) ≡ erase_located loc loc.it b
unfolding erase_located write_order
erase-write_order loc q b = onto loc.side
  where
    onto :
        (s : Side)
        → erase_located (record loc { side = s }) loc.it (write_order (record loc { side = s }) q b)
          ≡ erase_located (record loc { side = s }) loc.it b
    onto buy = unfold set_levels levels in rw erase-write
    onto sell = unfold set_levels levels in rw erase-write

-- `cancel` returns the order of an id that is on the book, and takes it off.
pub cancel-find :
    (k : ℕ) (b : OrderBook) {o : RestingOrder}
    → BookOk b
    → find k (orders b) ≡ some o
    → cancel k b ≡ (some o, erase_located (locate o) k b)
unfolding cancel
cancel-find k b ok h = rw (locate_order-find k b ok h, cancel)

-- It refuses an id that is not there, and the book stays as it was.
pub cancel-none :
    (k : ℕ) (b : OrderBook) → BookOk b → find k (orders b) ≡ none → cancel k b ≡ (none, b)
unfolding cancel
cancel-none k b ok h = rw (locate_order-none k b ok h, cancel)

-- `reduce` by what the order has takes it off the book; by less, it writes the difference.
pub reduce-find :
    (by : ℕ) (b : OrderBook) (o : RestingOrder)
    → BookOk b
    → find o.id (orders b) ≡ some o
    → by ≤ o.quantity
    → reduce o.id by b ≡ (
        if by == o.quantity
        then erase_located (locate o) o.id b
        else write_order (locate o) (o.quantity - by) b)
unfolding reduce
reduce-find by b o ok h le =
    rw (locate_order-find o.id b ok h, reduce)
      (rw (sub64-exact o.quantity by le)
        (ground (arith, erase-write_order (locate o) (o.quantity - by) b)))

pub reduce-BookOk :
    (by : ℕ) (b : OrderBook) (o : RestingOrder)
    → BookOk b
    → find o.id (orders b) ≡ some o
    → by ≤ o.quantity
    → BookOk (reduce o.id by b)
reduce-BookOk by b o ok h le =
    rw (reduce-find by b o ok h le) (elim (Bool-cases (by == o.quantity)) [
      | inl whole ↦ rw whole (erase_located-BookOk b o ok h)
      | inr part ↦ rw part (write_order-BookOk b o ok h (o.quantity - by) (ground arith))
    ])
