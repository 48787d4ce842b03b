-- ===== src/Engine/Priority.antt =====
-- What `MatchingEngine::match` promises, with no book: the incoming order meets the opposite orders
-- in price-time priority, a list, and takes from its front while the price crosses.
use sententia.Prelude.{
  ℕ, zero, suc, ◌+◌, ◌-◌, min, ◌≡◌, refl, Bool, true, false, List, [], ◌∷◌, ◌==◌, ◌&&◌, ltb,
  if◌then◌else◌, arith, inc64, ◌⊎◌, inr, All,
}
use sententia.Prelude.Int.{ℤ}
use sententia.Types.{NewOrder, Event, trade}
use sententia.Book.{RestingOrder}
use sententia.Engine.{crosses}

pub record Fill : Type 0 where
  pub resting_id : ℕ
  pub price : ℤ
  pub quantity : ℕ

-- There is quantity left, and the price of the resting order is good enough.
abbrev pub takes : NewOrder → ℕ → RestingOrder → Bool
takes cmd q o = ltb 0 q && crosses cmd.side cmd.kind cmd.price o.price

unfoldable pub fills : NewOrder → ℕ → List RestingOrder → List Fill
fills cmd q [] = []
fills cmd q (o ∷ os) =
    let fill = min q o.quantity in
    let more =
      record { resting_id = o.id; price = o.price; quantity = fill } ∷ fills cmd (q - fill) os in
    if takes cmd q o then more else []

unfoldable pub remaining : NewOrder → ℕ → List RestingOrder → ℕ
remaining cmd q [] = q
remaining cmd q (o ∷ os) =
    let later = remaining cmd (q - min q o.quantity) os in if takes cmd q o then later else q

unfoldable pub left_over : NewOrder → ℕ → List RestingOrder → List RestingOrder
left_over cmd q [] = []
left_over cmd q (o ∷ os) =
    let fill = min q o.quantity in
    let later = left_over cmd (q - fill) os in
    if takes cmd q o
    then (if fill == o.quantity then later else record o { quantity = o.quantity - fill } ∷ os)
    else o ∷ os

-- The trades that announce the fills, under consecutive ordinals.
unfoldable pub trade_events : NewOrder → ℕ → ℕ → List Fill → List Event
trade_events cmd command ordinal [] = []
trade_events cmd command ordinal (f ∷ fs) =
    trade (record {
      header = record { command_seq = command; event_seq = inc64 ordinal };
      aggressor_id = cmd.id;
      resting_id = f.resting_id;
      aggressor_side = cmd.side;
      price = f.price;
      quantity = f.quantity;
    })
    ∷ trade_events cmd command (inc64 ordinal) fs

-- The ordinal after `n` events.
unfoldable pub advance : ℕ → ℕ → ℕ
advance zero ordinal = ordinal
advance (suc n) ordinal = advance n (inc64 ordinal)

abbrev pub total_filled : List Fill → ℕ
total_filled [] = 0
total_filled (f ∷ fs) = f.quantity + total_filled fs

abbrev pub total_resting : List RestingOrder → ℕ
total_resting [] = 0
total_resting (o ∷ os) = o.quantity + total_resting os

module _ (cmd : NewOrder) where
  pub fills-zero : (os : List RestingOrder) → fills cmd 0 os ≡ []
  unfolding fills
  fills-zero [] = refl
  fills-zero (o ∷ os) = refl

  pub remaining-zero : (os : List RestingOrder) → remaining cmd 0 os ≡ 0
  unfolding remaining
  remaining-zero [] = refl
  remaining-zero (o ∷ os) = refl

  pub left_over-zero : (os : List RestingOrder) → left_over cmd 0 os ≡ os
  unfolding left_over
  left_over-zero [] = refl
  left_over-zero (o ∷ os) = refl

  -- What is not filled remains.
  pub fills-remaining :
      (q : ℕ) (os : List RestingOrder) → total_filled (fills cmd q os) + remaining cmd q os ≡ q
  unfolding fills remaining
  fills-remaining q [] = omega arith
  fills-remaining q (o ∷ os) = ground (arith, fills-remaining (q - min q o.quantity) os)

  -- What is filled is taken from the resting orders.
  pub fills-left_over :
      (q : ℕ) (os : List RestingOrder)
      → total_filled (fills cmd q os) + total_resting (left_over cmd q os) ≡ total_resting os
  unfolding fills left_over
  fills-left_over q [] = refl
  fills-left_over q (o ∷ os) =
      ground (arith, fills-left_over (q - min q o.quantity) os, fills-zero os)

  -- Matching goes on to the end: nothing remains, or the front order left does not cross.
  abbrev pub IsUncrossed : List RestingOrder → Type 0
  IsUncrossed [] = Unit {0}
  IsUncrossed (o ∷ os) = crosses cmd.side cmd.kind cmd.price o.price ≡ false

  pub remaining-IsUncrossed :
      (q : ℕ) (os : List RestingOrder) → (remaining cmd q os ≡ 0) ⊎ IsUncrossed (left_over cmd q os)
  unfolding remaining left_over
  remaining-IsUncrossed q [] = inr tt
  remaining-IsUncrossed q (o ∷ os) =
      ground (arith, remaining-IsUncrossed (q - min q o.quantity) os, remaining-zero os)

  -- No trade is at a price that the incoming order would not accept.
  pub fills-cross :
      (q : ℕ) (os : List RestingOrder)
      → All (λ f. crosses cmd.side cmd.kind cmd.price f.price ≡ true) (fills cmd q os)
  unfolding fills
  fills-cross q [] = tt
  fills-cross q (o ∷ os) = ground (arith, fills-cross (q - min q o.quantity) os)

  module _ (q : ℕ) (o : RestingOrder) (os : List RestingOrder) (t : takes cmd q o ≡ true) where
    pub left_over-whole :
        (min q o.quantity == o.quantity) ≡ true
        → left_over cmd q (o ∷ os) ≡ left_over cmd (q - min q o.quantity) os
    unfolding left_over
    left_over-whole w = ground arith

    pub left_over-part :
        (min q o.quantity == o.quantity) ≡ false
        → left_over cmd q (o ∷ os) ≡ record o { quantity = o.quantity - min q o.quantity } ∷ os
    unfolding left_over
    left_over-part w = ground arith
