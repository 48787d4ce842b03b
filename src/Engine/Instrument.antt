-- ===== src/Engine/Instrument.antt =====
-- No method of src/engine.cpp changes the engine's instrument.
use sententia.Prelude.{
  ℕ, zero, suc, ◌-◌, min, ◌≡◌, refl, ◌∙◌, inl, inr, Option, none, some, ltb, ◌&&◌, Bool-cases,
  Option-cases,
}
use sententia.Types.{
  NewOrder, Command, new_order, cancel_order, RejectReason, no_reason, duplicate_order_id,
  unknown_order_id, zero_quantity, non_positive_price, wrong_instrument, market_order_must_be_ioc,
}
use sententia.Book.{RestingOrder, OrderBook, top}
use sententia.Engine.{
  Run, emit, same_top, emit_top_of_book_if_changed, front_to_fill, trade_front, match_loop,
  match_order, rest_residual, cancel_residual, settle, is_limit, is_gtc, accept, reject,
  after_validation, apply_new_order, after_cancel, apply_cancel, dispatch, apply,
}
use sententia.Engine.Matching.{loop-stop, loop-done, loop-round}

match_loop-instrument :
    (fuel : ℕ) (cmd : NewOrder) (q : ℕ) (r : Run)
    → (match_loop fuel cmd q r).1.0.instrument ≡ r.0.instrument
unfolding match_loop trade_front emit
match_loop-instrument zero cmd q r = refl
match_loop-instrument (suc fuel) cmd q r = elim (Bool-cases (ltb 0 q)) [
  | inl more ↦ elim (Option-cases (front_to_fill cmd r.0.book)) [
    | inl stop ↦ rw (loop-stop cmd q fuel r stop) refl
    | inr (front, go) ↦ rw (loop-round cmd q fuel r more go) (
        match_loop-instrument fuel cmd (q - min q front.quantity)
          (trade_front cmd (min q front.quantity) front r))
  ]
  | inr done ↦ rw (loop-done cmd q fuel r done) refl
]

top_of_book-instrument : (r : Run) → (emit_top_of_book_if_changed r).0.instrument ≡ r.0.instrument
unfolding emit_top_of_book_if_changed emit
top_of_book-instrument r = elim (Bool-cases (same_top (top r.0.book) r.0.last_top)) [
  | inl same ↦ rw same refl
  | inr other ↦ rw other refl
]

settle-instrument :
    (cmd : NewOrder) (q : ℕ) (r : Run) → (settle cmd (q, r)).0.instrument ≡ r.0.instrument
unfolding settle rest_residual cancel_residual emit
settle-instrument cmd q r = elim (Bool-cases (ltb 0 q)) [
  | inl left ↦ elim (Bool-cases (is_limit cmd.kind && is_gtc cmd.tif)) [
    | inl rests ↦ rw (left, rests) refl
    | inr goes ↦ rw (left, goes) refl
  ]
  | inr filled ↦ rw filled refl
]

validated-instrument :
    (why : RejectReason) (cmd : NewOrder) (r : Run)
    → (after_validation why cmd r).0.instrument ≡ r.0.instrument
unfolding after_validation accept reject emit match_order
validated-instrument no_reason cmd r =
    top_of_book-instrument _
    ∙ settle-instrument cmd _ _
    ∙ match_loop-instrument _ cmd cmd.quantity (accept cmd r)
validated-instrument duplicate_order_id cmd r = refl
validated-instrument unknown_order_id cmd r = refl
validated-instrument zero_quantity cmd r = refl
validated-instrument non_positive_price cmd r = refl
validated-instrument wrong_instrument cmd r = refl
validated-instrument market_order_must_be_ioc cmd r = refl

cancelled-instrument :
    (k : ℕ) (found : Option RestingOrder) (b : OrderBook) (r : Run)
    → (after_cancel k (found, b) r).0.instrument ≡ r.0.instrument
unfolding after_cancel emit
cancelled-instrument k none b r = refl
cancelled-instrument k (some removed) b r = top_of_book-instrument _

pub apply-instrument : (c : Command) (r : Run) → (apply c r).0.instrument ≡ r.0.instrument
unfolding apply dispatch apply_new_order apply_cancel
apply-instrument (new_order cmd) r = validated-instrument _ cmd _
apply-instrument (cancel_order cmd) r = cancelled-instrument cmd.id _ _ _
