-- ===== src/Book/Front.antt =====
-- The front of a side of the book, which the matcher trades with: `frontLevel` and `reduce` of
-- order_book.cpp seen from the side's walk.
use sententia.Prelude.{
  ℕ, ◌-◌, ◌≤◌, ◌≡◌, ◌≢◌, refl, sym, subst, ap, ◌∙◌, inl, inr, true, some, List, [], ◌∷◌, ◌++◌, ◌==◌,
  if◌then◌else◌, Bool-cases, ==-refl,
}
use sententia.Prelude.Int.{eqz, eqz_refl}
use sententia.Types.{Side, buy, sell, opposite}
use sententia.Book.{
  RestingOrder, Level, Locator, OrderBook, find, remove, set_quantity, erase_order, write_quantity,
  walk, levels, set_levels, locate, erase_located, write_order, reduce, orders,
}
use sententia.Book.Inserted.{
  Inserted, here, Distinct, Inserted-append_left, find-Inserted, Distinct-taken,
}
use sententia.Book.Levels.{Fits, AllFit, LevelsOk, walk-keep_level, walk-cons}
use sententia.Book.Invariant.{BookOk, LevelsOk-levels}
use sententia.Book.Update.{reduce-find}

pub find-member :
    {o : RestingOrder} {xs ys : List RestingOrder}
    → Inserted o xs ys
    → Distinct ys
    → find o.id ys ≡ some o
find-member {o} i d = find-Inserted o.id i (Distinct-taken i d).1 ∙ rw (==-refl o.id) refl

pub queue-front :
    (q : List RestingOrder) (w : List RestingOrder) {o : RestingOrder} {rest : List RestingOrder}
    → q ≢ []
    → (q ++ w) ≡ o ∷ rest
    → (xs : List RestingOrder) × (q ≡ o ∷ xs) × (rest ≡ xs ++ w)
queue-front [] w h e = absurd (h refl)
queue-front (x ∷ xs) w h e = (xs, cc, cc)

module _ (s : Side) (o : RestingOrder) (rest : List RestingOrder) where
  front-Fits : (ls : List Level) → LevelsOk s ls → walk ls ≡ o ∷ rest → Fits s o.price o
  unfolding walk
  front-Fits [] ok e = cc
  front-Fits (l ∷ ls) ok e =
      let (xs, eq, _) = queue-front l.queue (walk ls) ok.0 e in
      let f = (subst (AllFit s l.price) eq ok.1).0 in
      record { side = f.side; price = refl; positive = f.positive }

  -- The first order of the walk is the first of the first queue, at that level's price.
  front_cases :
      (l : Level) (ls : List Level)
      → LevelsOk s (l ∷ ls)
      → walk (l ∷ ls) ≡ o ∷ rest
      → (xs : List RestingOrder) × (l.queue ≡ o ∷ xs)
        × (rest ≡ xs ++ walk ls)
        × (eqz l.price o.price ≡ true)
  front_cases l ls ok e =
      let (xs, eq, later) = queue-front l.queue (walk ls) ok.0 (sym (walk-cons l ls) ∙ e) in
      (xs, eq, later, rw ((subst (AllFit s l.price) eq ok.1).0.price) (eqz_refl l.price))

  -- Erasing the front leaves the rest in order.
  pub erase-front :
      (ls : List Level)
      → LevelsOk s ls
      → walk ls ≡ o ∷ rest
      → walk (erase_order o.price o.id ls) ≡ rest
  unfolding erase_order
  erase-front [] ok e = unfold walk in cc
  erase-front (l ∷ ls) ok e =
      let (xs, eq, later, same) = front_cases l ls ok e in
      rw (same, walk-keep_level l.price (remove o.id l.queue) ls, eq)
        (unfold remove in rw (==-refl o.id) (sym later))

  pub write-front :
      (q : ℕ) (ls : List Level)
      → LevelsOk s ls
      → walk ls ≡ o ∷ rest
      → walk (write_quantity o.price o.id q ls) ≡ record o { quantity = q } ∷ rest
  unfolding write_quantity
  write-front q [] ok e = unfold walk in cc
  write-front q (l ∷ ls) ok e =
      let (xs, eq, later, same) = front_cases l ls ok e in
      rw (same, walk-cons, eq)
        (unfold set_quantity in
          rw (==-refl o.id) (ap (λ t. record o { quantity = q } ∷ t) (sym later)))

pub levels-set : (s : Side) (ls : List Level) (b : OrderBook) → levels s (set_levels s ls b) ≡ ls
unfolding levels set_levels
levels-set buy ls b = refl
levels-set sell ls b = refl

pub levels-set_opposite :
    (s : Side) (ls : List Level) (b : OrderBook)
    → levels (opposite s) (set_levels s ls b) ≡ levels (opposite s) b
unfolding levels set_levels opposite
levels-set_opposite buy ls b = refl
levels-set_opposite sell ls b = refl

pub levels-index :
    (s : Side) (b : OrderBook) (m : List (ℕ × Locator))
    → levels s (record b { index = m }) ≡ levels s b
unfolding levels
levels-index buy b m = refl
levels-index sell b m = refl

-- The front order of a side is found by its id.
pub front-find :
    (s : Side) (b : OrderBook) (o : RestingOrder) (rest : List RestingOrder)
    → Distinct (orders b)
    → walk (levels s b) ≡ o ∷ rest
    → find o.id (orders b) ≡ some o
unfolding levels orders
front-find buy b o rest d e = find-member {xs = rest ++ walk b.asks} (rw e here) d
front-find sell b o rest d e =
    find-member {xs = walk b.bids ++ rest} (rw e (Inserted-append_left (walk b.bids) here)) d

pub levels-erase_located :
    (loc : Locator) (k : ℕ) (b : OrderBook)
    → levels loc.side (erase_located loc k b) ≡ erase_order loc.price loc.it (levels loc.side b)
unfolding erase_located
levels-erase_located loc k b = levels-index loc.side _ _ ∙ levels-set loc.side _ b

levels-write_order :
    (loc : Locator) (q : ℕ) (b : OrderBook)
    → levels loc.side (write_order loc q b) ≡ write_quantity loc.price loc.it q (levels loc.side b)
unfolding write_order
levels-write_order loc q b = levels-set loc.side _ b

pub opposite-erase_located :
    (loc : Locator) (k : ℕ) (b : OrderBook)
    → levels (opposite loc.side) (erase_located loc k b) ≡ levels (opposite loc.side) b
unfolding erase_located
opposite-erase_located loc k b =
    levels-index (opposite loc.side) _ _ ∙ levels-set_opposite loc.side _ b

opposite-write_order :
    (loc : Locator) (q : ℕ) (b : OrderBook)
    → levels (opposite loc.side) (write_order loc q b) ≡ levels (opposite loc.side) b
unfolding write_order
opposite-write_order loc q b = levels-set_opposite loc.side _ b

module _ (s : Side) (b : OrderBook) (o : RestingOrder) (rest : List RestingOrder) (ok : BookOk b)
    (e : walk (levels s b) ≡ o ∷ rest) (by : ℕ) (le : by ≤ o.quantity) where
  side-eq : o.side ≡ s
  side-eq = (front-Fits s o rest (levels s b) (LevelsOk-levels s b ok.sides) e).side

  -- A fill of the front order: it goes when it is used up, and else stays the front.
  pub reduce-front :
      walk (levels s (reduce o.id by b))
      ≡ (if by == o.quantity then rest else record o { quantity = o.quantity - by } ∷ rest)
  reduce-front =
      subst
        (λ t.
          walk (levels t (reduce o.id by b))
          ≡ (if by == o.quantity then rest else record o { quantity = o.quantity - by } ∷ rest))
        side-eq
        (rw (reduce-find by b o ok (front-find s b o rest ok.distinct e) le)
          (elim (Bool-cases (by == o.quantity)) [
            | inl whole ↦
                rw (whole, levels-erase_located (locate o) o.id b)
                  (erase-front o.side o rest (levels o.side b) (LevelsOk-levels o.side b ok.sides)
                    here_walk)
            | inr part ↦
                rw (part, levels-write_order (locate o) (o.quantity - by) b)
                  (write-front o.side o rest (o.quantity - by) (levels o.side b)
                    (LevelsOk-levels o.side b ok.sides) here_walk)
          ]))
    where
      here_walk : walk (levels o.side b) ≡ o ∷ rest
      here_walk = subst (λ t. walk (levels t b) ≡ o ∷ rest) (sym side-eq) e

  -- It leaves the other side alone.
  pub reduce-opposite : levels (opposite s) (reduce o.id by b) ≡ levels (opposite s) b
  reduce-opposite =
      subst (λ t. levels (opposite t) (reduce o.id by b) ≡ levels (opposite t) b) side-eq
        (rw (reduce-find by b o ok (front-find s b o rest ok.distinct e) le)
          (elim (Bool-cases (by == o.quantity)) [
            | inl whole ↦ rw whole (opposite-erase_located (locate o) o.id b)
            | inr part ↦ rw part (opposite-write_order (locate o) (o.quantity - by) b)
          ]))
