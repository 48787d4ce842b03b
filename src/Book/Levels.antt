-- ===== src/Book/Levels.antt =====
-- The invariant of the price levels of one side of order_book.hpp, and where an order stands in them.
use sententia.Prelude.{
  ℕ, ◌<◌, ◌≡◌, ◌≢◌, refl, subst, ◌⊎◌, inl, inr, true, false, none, some, List, [], ◌∷◌, ◌++◌, arith,
}
use sententia.Prelude.Int.{ℤ, eqz, eqz→≡, eqz_refl, ltz_irrefl, ltz_trans, ltz_total}
use sententia.Types.{Side, buy, sell}
use sententia.Book.{RestingOrder, Level, before, find, remove, set_quantity, keep_level, walk}
use sententia.Book.Inserted.{find-append_cases, find-cases}

pub before_irrefl : (s : Side) (a : ℤ) → before s a a ≡ false
unfolding before
before_irrefl buy a = ltz_irrefl a
before_irrefl sell a = ltz_irrefl a

pub before_trans :
    (s : Side) (a b c : ℤ) → before s a b ≡ true → before s b c ≡ true → before s a c ≡ true
unfolding before
before_trans buy a b c h k = ltz_trans c b a k h
before_trans sell a b c h k = ltz_trans a b c h k

pub before_total :
    (s : Side) (a b : ℤ) → eqz a b ≡ false → before s b a ≡ false → before s a b ≡ true
unfolding before
before_total buy a b h k = ground (arith, ltz_total a b, eqz_refl b)
before_total sell a b h k = ground (arith, ltz_total b a, eqz_refl a)

-- An order that may stand in the level of a price on a side.
pub record Fits (s : Side) (p : ℤ) (o : RestingOrder) : Type 0 where
  pub side : o.side ≡ s
  pub price : o.price ≡ p
  pub positive : 0 < o.quantity

abbrev pub AllFit : Side → ℤ → List RestingOrder → Type 0
AllFit s p [] = Unit {0}
AllFit s p (o ∷ os) = Fits s p o × AllFit s p os

-- `p` comes before every price of the levels.
abbrev pub Ahead : Side → ℤ → List Level → Type 0
Ahead s p [] = Unit {0}
Ahead s p (l ∷ ls) = (before s p l.price ≡ true) × Ahead s p ls

-- The map's order is strict, no level is empty, and each order stands in its own price's level.
abbrev pub LevelsOk : Side → List Level → Type 0
LevelsOk s [] = Unit {0}
LevelsOk s (l ∷ ls) = (l.queue ≢ []) × AllFit s l.price l.queue × Ahead s l.price ls × LevelsOk s ls

pub Ahead-trans :
    (s : Side) (p q : ℤ) (ls : List Level) → before s p q ≡ true → Ahead s q ls → Ahead s p ls
Ahead-trans s p q [] h a = tt
Ahead-trans s p q (l ∷ ls) h a = (before_trans s p q l.price h a.0, Ahead-trans s p q ls h a.1)

pub AllFit-end :
    (s : Side) (p : ℤ) (os : List RestingOrder) (o : RestingOrder)
    → Fits s p o
    → AllFit s p os
    → AllFit s p (os ++ o ∷ [])
AllFit-end s p [] o f a = (f, tt)
AllFit-end s p (x ∷ os) o f a = (a.0, AllFit-end s p os o f a.1)

pub AllFit-remove :
    (s : Side) (p : ℤ) (k : ℕ) (os : List RestingOrder) → AllFit s p os → AllFit s p (remove k os)
unfolding remove
AllFit-remove s p k [] a = tt
AllFit-remove s p k (x ∷ os) a = ground (arith, AllFit-remove s p k os)

pub AllFit-set_quantity :
    (s : Side) (p : ℤ) (k q : ℕ) (os : List RestingOrder)
    → 0 < q
    → AllFit s p os
    → AllFit s p (set_quantity k q os)
unfolding set_quantity
AllFit-set_quantity s p k q [] h a = tt
AllFit-set_quantity s p k q (x ∷ os) h a = ground (arith, AllFit-set_quantity s p k q os)

pub end-ne-nil : (os : List RestingOrder) (o : RestingOrder) → (os ++ o ∷ []) ≢ []
end-ne-nil [] o h = cc
end-ne-nil (x ∷ os) o h = cc

pub set_quantity-ne-nil : (k q : ℕ) (os : List RestingOrder) → os ≢ [] → set_quantity k q os ≢ []
unfolding set_quantity
set_quantity-ne-nil k q [] h e = h refl
set_quantity-ne-nil k q (x ∷ os) h e = ground arith

pub find-Fits :
    (s : Side) (p : ℤ) (k : ℕ) (os : List RestingOrder) {o : RestingOrder}
    → AllFit s p os
    → find k os ≡ some o
    → Fits s p o
find-Fits s p k [] a h = unfold find in cc
find-Fits s p k (x ∷ os) {o} a h = elim (find-cases k x os h) [
  | inl (_, same) ↦ subst (Fits s p) same a.0
  | inr (_, later) ↦ find-Fits s p k os a.1 later
]

-- A price that is ahead of all levels is ahead of each order's price.
pub walk-price :
    (s : Side) (p : ℤ) (k : ℕ) (ls : List Level) {o : RestingOrder}
    → Ahead s p ls
    → LevelsOk s ls
    → find k (walk ls) ≡ some o
    → before s p o.price ≡ true
unfolding walk
walk-price s p k [] a ok h = unfold find in cc
walk-price s p k (l ∷ ls) a ok h = elim (find-append_cases k l.queue (walk ls) h) [
  | inl now ↦ rw ((find-Fits s l.price k l.queue ok.1 now).price) a.0
  | inr (_, later) ↦ walk-price s p k ls a.1 ok.3 later
]

-- An order is in the level of its price and in no other.
pub level_cases :
    (s : Side) (k : ℕ) (l : Level) (ls : List Level) {o : RestingOrder}
    → LevelsOk s (l ∷ ls)
    → find k (walk (l ∷ ls)) ≡ some o
    → ((eqz l.price o.price ≡ true) × (find k l.queue ≡ some o))
      ⊎ ((eqz l.price o.price ≡ false) × (find k l.queue ≡ none) × (find k (walk ls) ≡ some o))
unfolding walk
level_cases s k l ls {o} ok h = elim (find-append_cases k l.queue (walk ls) h) [
  | inl now ↦ inl (rw ((find-Fits s l.price k l.queue ok.1 now).price) (eqz_refl l.price), now)
  | inr (absent, later) ↦
      let apart = walk-price s l.price k ls ok.2 ok.3 later in
      inr (ground (arith, eqz→≡ l.price o.price, before_irrefl s l.price, apart), absent, later)
]

-- The side of an order that a walk holds.
pub walk-side :
    (s : Side) (k : ℕ) (ls : List Level) {o : RestingOrder}
    → LevelsOk s ls
    → find k (walk ls) ≡ some o
    → o.side ≡ s
unfolding walk
walk-side s k [] ok h = unfold find in cc
walk-side s k (l ∷ ls) ok h = elim (find-append_cases k l.queue (walk ls) h) [
  | inl now ↦ (find-Fits s l.price k l.queue ok.1 now).side
  | inr (_, later) ↦ walk-side s k ls ok.3 later
]

pub walk-cons : (l : Level) (ls : List Level) → walk (l ∷ ls) ≡ l.queue ++ walk ls
unfolding walk
walk-cons l ls = refl

pub walk-keep_level :
    (p : ℤ) (os : List RestingOrder) (ls : List Level) → walk (keep_level p os ls) ≡ os ++ walk ls
unfolding keep_level walk
walk-keep_level p [] ls = refl
walk-keep_level p (o ∷ os) ls = refl
