-- ===== src/Book/Spread.antt =====
-- A book that is not crossed: every bid below every ask. What the updates of order_book.cpp need
-- and keep of it.
use sententia.Prelude.{
  ◌<◌, ◌≡◌, subst, ◌∙◌, true, false, some, List, [], ◌∷◌, All, All-append, All-map, All-swap,
}
use sententia.Prelude.Int.{ℤ, pos, ltz, ltz_asym, ltz_le_trans, ltz_trans_le}
use sententia.Types.{Side, buy, sell, opposite}
use sententia.Book.{
  RestingOrder, Level, OrderBook, before, find, push_back, walk, levels, locate, rest,
  erase_located, orders, contains,
}
use sententia.Book.Inserted.{Inserted, here, there}
use sententia.Book.Levels.{AllFit, Ahead, LevelsOk, before_irrefl}
use sententia.Book.Relevel.{Inserted-push_back, Inserted-erase_order}
use sententia.Book.Update.{rest-BookOk, erase_located-BookOk, Inserted-rest, Inserted-erase_located}
use sententia.Book.Invariant.{BookOk, LevelsOk-levels, find-on_side}
use sententia.Book.Front.{
  queue-front, levels-erase_located, opposite-erase_located, levels-set, levels-index,
  levels-set_opposite,
}

-- A price on a side is worse for nobody than all the orders of the other: they cannot trade.
abbrev pub Clear : Side → ℤ → List RestingOrder → Type 0
Clear s p os = All (λ y. before (opposite s) p y.price ≡ true) os

abbrev pub Apart : Side → OrderBook → Type 0
Apart s b = All (λ x. Clear s x.price (walk (levels (opposite s) b))) (walk (levels s b))

abbrev pub IsPriced : RestingOrder → Type 0
IsPriced o = ltz (pos 0) o.price ≡ true

-- A well-formed book with positive prices that is not crossed.
pub record IsSound (b : OrderBook) : Type 0 where
  pub ok : BookOk b
  pub priced : All IsPriced (orders b)
  pub apart : Apart buy b

pub All-Inserted :
    (P : RestingOrder → Type 0) {o : RestingOrder} {xs ys : List RestingOrder}
    → Inserted o xs ys
    → P o
    → All P xs
    → All P ys
All-Inserted P here p a = (p, a)
All-Inserted P (there i) p a = (a.0, All-Inserted P i p a.1)

pub All-taken :
    (P : RestingOrder → Type 0) {o : RestingOrder} {xs ys : List RestingOrder}
    → Inserted o xs ys
    → All P ys
    → All P xs
All-taken P here a = a.1
All-taken P (there i) a = (a.0, All-taken P i a.1)

pub before_asym : (s : Side) (a b : ℤ) → before s a b ≡ true → before s b a ≡ false
unfolding before
before_asym buy a b h = ltz_asym b a h
before_asym sell a b h = ltz_asym a b h

before_trans_le :
    (s : Side) (a b c : ℤ) → before s a b ≡ true → before s c b ≡ false → before s a c ≡ true
unfolding before
before_trans_le buy a b c h k = ltz_le_trans c b a k h
before_trans_le sell a b c h k = ltz_trans_le a b c h k

pub Apart-side : (s : Side) (b : OrderBook) → Apart buy b → Apart s b
unfolding opposite levels before
Apart-side buy b a = a
Apart-side sell b a =
    All-swap (λ (x y : RestingOrder). ltz x.price y.price ≡ true) (walk b.bids) (walk b.asks) a

pub side-Apart : (s : Side) (b : OrderBook) → Apart s b → Apart buy b
unfolding opposite levels before
side-Apart buy b a = a
side-Apart sell b a =
    All-swap (λ (y x : RestingOrder). ltz x.price y.price ≡ true) (walk b.asks) (walk b.bids) a

Fit-before :
    (s : Side) (p : ℤ) (os : List RestingOrder)
    → AllFit s p os
    → All (λ x. before s x.price p ≡ false) os
Fit-before s p [] a = tt
Fit-before s p (o ∷ os) a = (rw a.0.price (before_irrefl s p), Fit-before s p os a.1)

Fit-behind :
    (s : Side) (p r : ℤ) (os : List RestingOrder)
    → before s p r ≡ true
    → AllFit s r os
    → All (λ x. before s x.price p ≡ false) os
Fit-behind s p r [] h a = tt
Fit-behind s p r (o ∷ os) h a = (rw a.0.price (before_asym s p r h), Fit-behind s p r os h a.1)

Ahead-walk :
    (s : Side) (p : ℤ) (ls : List Level)
    → Ahead s p ls
    → LevelsOk s ls
    → All (λ x. before s x.price p ≡ false) (walk ls)
unfolding walk
Ahead-walk s p [] a ok = tt
Ahead-walk s p (l ∷ ls) a ok =
    All-append (λ x. before s x.price p ≡ false) l.queue (walk ls)
      (Fit-behind s p l.price l.queue a.0 ok.1) (Ahead-walk s p ls a.1 ok.3)

-- No order of a side has a better price than its front.
pub front-best :
    (s : Side) (o : RestingOrder) (os : List RestingOrder) (ls : List Level)
    → LevelsOk s ls
    → walk ls ≡ o ∷ os
    → All (λ x. before s x.price o.price ≡ false) os
unfolding walk
front-best s o os [] ok e = cc
front-best s o os (l ∷ ls) ok e =
    let (xs, eq, later) = queue-front l.queue (walk ls) ok.0 e in
    let fit = subst (AllFit s l.price) eq ok.1 in
    rw (later, fit.0.price)
      (All-append (λ x. before s x.price l.price ≡ false) xs (walk ls)
        (Fit-before s l.price xs fit.1) (Ahead-walk s l.price ls ok.2 ok.3))

-- A price that is clear of the front is clear of the side.
pub Clear-front :
    (s : Side) (p : ℤ) (o : RestingOrder) (os : List RestingOrder)
    → before (opposite s) p o.price ≡ true
    → All (λ x. before (opposite s) x.price o.price ≡ false) os
    → Clear s p (o ∷ os)
Clear-front s p o os h a = (
  h,
  All-map (λ x. before (opposite s) x.price o.price ≡ false)
      (λ y. before (opposite s) p y.price ≡ true) os
      (λ x behind. before_trans_le (opposite s) p o.price x.price h behind) a,
)

pub levels-rest :
    (o : RestingOrder) (b : OrderBook)
    → levels o.side (rest o b) ≡ push_back o.side o (levels o.side b)
unfolding rest
levels-rest o b = levels-index o.side _ _ ∙ levels-set o.side _ b

pub opposite-rest :
    (o : RestingOrder) (b : OrderBook)
    → levels (opposite o.side) (rest o b) ≡ levels (opposite o.side) b
unfolding rest
opposite-rest o b = levels-index (opposite o.side) _ _ ∙ levels-set_opposite o.side _ b

-- A new order rests soundly where its price is clear of the other side.
pub rest-IsSound :
    (o : RestingOrder) (b : OrderBook)
    → IsSound b
    → contains o.id b ≡ false
    → 0 < o.quantity
    → ltz (pos 0) o.price ≡ true
    → Clear o.side o.price (walk (levels (opposite o.side) b))
    → IsSound (rest o b)
rest-IsSound o b h free size priced clear = record {
  ok = rest-BookOk o b h.ok free size;
  priced = All-Inserted IsPriced (Inserted-rest o b) priced h.priced;
  apart = side-Apart o.side (rest o b) (
      rw (levels-rest o b, opposite-rest o b)
        (All-Inserted (λ x. Clear o.side x.price (walk (levels (opposite o.side) b)))
          (Inserted-push_back o.side o (levels o.side b)) clear (Apart-side o.side b h.apart)));
}

-- Taking an order off keeps the book sound.
pub erase_located-IsSound :
    (b : OrderBook) (o : RestingOrder)
    → IsSound b
    → find o.id (orders b) ≡ some o
    → IsSound (erase_located (locate o) o.id b)
erase_located-IsSound b o h found = record {
  ok = erase_located-BookOk b o h.ok found;
  priced = All-taken IsPriced (Inserted-erase_located b o h.ok found) h.priced;
  apart = side-Apart o.side (erase_located (locate o) o.id b) (
      rw (levels-erase_located (locate o) o.id b, opposite-erase_located (locate o) o.id b)
        (All-taken (λ x. Clear o.side x.price (walk (levels (opposite o.side) b)))
          (Inserted-erase_order o.side o.id (levels o.side b) (LevelsOk-levels o.side b h.ok.sides)
            (find-on_side o.id b h.ok.sides found))
          (Apart-side o.side b h.apart)));
}
