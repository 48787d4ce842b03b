-- ===== src/Engine/Outcomes.antt =====
-- What one command of src/engine.cpp does, branch by branch: rejections, cancels, and how far
-- `match` goes.
use sententia.Prelude.{
  ℕ, ◌+◌, ◌≡◌, ◌≢◌, refl, sym, subst, ap, ◌∙◌, ◌⊎◌, inl, inr, true, false, none, some, List, [],
  ◌∷◌, ◌++◌, arith, inc64, All, All-map, ==-refl-of,
}
use sententia.Prelude.Int.{ℤ, ltz_trans_le, ltz_le_trans}
use sententia.Types.{
  Side, opposite, buy, sell, OrderType, limit, market, RejectReason, no_reason, unknown_order_id,
  NewOrder, new_order, cancel_order, Event, order_rejected, cancel_rejected,
}
use sententia.Book.{
  RestingOrder, OrderBook, before, find, walk, levels, orders, locate, erase_located, empty_book,
}
use sententia.Book.Inserted.{Inserted, Distinct, find-id}
use sententia.Book.Invariant.{BookOk, LevelsOk-levels}
use sententia.Book.Update.{cancel-find, cancel-none, Inserted-erase_located}
use sententia.Book.Spread.{front-best}
use sententia.Engine.{
  MatchingEngine, Run, emit, crosses, match_order, validate, reject, after_validation,
  apply_new_order, after_cancel, apply_cancel, dispatch, apply,
}
use sententia.Engine.Priority.{
  total_resting, fills-remaining, fills-left_over, IsUncrossed, remaining-IsUncrossed,
}
use sententia.Engine.Matching.{match_order-Matches}
use sententia.Engine.Soundness.{top-book}
use sententia.Engine.Rebuilding.{rested}
use sententia.Engine.Repeating.{rest_all-repeats}
use sententia.Engine.Snapshot.{EngineSnapshot, all_valid, restore}

refused :
    (cmd : NewOrder) (why : RejectReason) (r : Run)
    → why ≢ no_reason
    → after_validation why cmd r ≡ reject cmd why r
unfolding after_validation
refused cmd no_reason r h = absurd (h refl)
refused cmd _ r h = refl

-- A new order that fails validation leaves the book, the arrival counter and the last top of book
-- as they were, and says why in the one event that it causes.
pub rejected_order :
    (cmd : NewOrder) (e : MatchingEngine) (out : List Event)
    → validate cmd e ≢ no_reason
    → apply (new_order cmd) (e, out) ≡ (
      record e { command_seq = inc64 e.command_seq; event_seq = inc64 e.event_seq },
      out
          ++ order_rejected (record {
            header = record { command_seq = inc64 e.command_seq; event_seq = inc64 e.event_seq };
            id = cmd.id;
            reason = validate cmd e;
          })
            ∷ [],
    )
unfolding apply dispatch apply_new_order reject emit validate
rejected_order cmd e out h = refused cmd (validate cmd e) _ h

-- A cancel of an id that is not on the book changes nothing but the counters, and says so.
pub cancelled_unknown :
    (k : ℕ) (e : MatchingEngine) (out : List Event)
    → BookOk e.book
    → find k (orders e.book) ≡ none
    → apply (cancel_order (record { id = k })) (e, out) ≡ (
      record e { command_seq = inc64 e.command_seq; event_seq = inc64 e.event_seq },
      out
          ++ cancel_rejected (record {
            header = record { command_seq = inc64 e.command_seq; event_seq = inc64 e.event_seq };
            id = k;
            reason = unknown_order_id;
          })
            ∷ [],
    )
unfolding apply dispatch apply_cancel after_cancel emit
cancelled_unknown k e out ok h = rw (cancel-none k e.book ok h) refl

-- A cancel of an order that is on the book takes that order off and moves no other.
pub cancelled_order :
    (k : ℕ) (e : MatchingEngine) (out : List Event) {o : RestingOrder}
    → BookOk e.book
    → find k (orders e.book) ≡ some o
    → Inserted o (orders (apply (cancel_order (record { id = k })) (e, out)).0.book) (orders e.book)
unfolding apply dispatch apply_cancel after_cancel emit
cancelled_order k e out {o} ok h = rw (cancel-find k e.book ok h) (
    rw top-book (
      subst (λ j. Inserted o (orders (erase_located (locate o) j e.book)) (orders e.book)) same
        (Inserted-erase_located e.book o ok
          (subst (λ j. find j (orders e.book) ≡ some o) (sym same) h))))
  where
    same : o.id ≡ k
    same = find-id k (orders e.book) h

crosses-worse :
    (s : Side) (kind : OrderType) (p best x : ℤ)
    → crosses s kind p best ≡ false
    → before (opposite s) x best ≡ false
    → crosses s kind p x ≡ false
unfolding crosses before opposite
crosses-worse buy limit p best x c w = ground (arith, ltz_trans_le p best x)
crosses-worse sell limit p best x c w = ground (arith, ltz_le_trans x best p)
crosses-worse s market p best x c w = cc

uncrossed-All :
    (cmd : NewOrder) (b : OrderBook) (os : List RestingOrder)
    → BookOk b
    → walk (levels (opposite cmd.side) b) ≡ os
    → IsUncrossed cmd os
    → All (λ o. crosses cmd.side cmd.kind cmd.price o.price ≡ false) os
uncrossed-All cmd b [] ok e u = tt
uncrossed-All cmd b (o ∷ os) ok e u = (
  u,
  All-map (λ x. before (opposite cmd.side) x.price o.price ≡ false)
      (λ x. crosses cmd.side cmd.kind cmd.price x.price ≡ false) os
      (λ x worse. crosses-worse cmd.side cmd.kind cmd.price o.price x.price u worse)
      (front-best (opposite cmd.side) o os (levels (opposite cmd.side) b)
        (LevelsOk-levels (opposite cmd.side) b ok.sides) e),
)

module _ (cmd : NewOrder) (q : ℕ) (r : Run) (ok : BookOk r.0.book) where
  abbrev opposite_side : OrderBook → List RestingOrder
  opposite_side b = walk (levels (opposite cmd.side) b)

  -- Matching neither makes nor loses quantity: what the incoming order has traded is what the
  -- opposite side has lost.
  pub match_order-conserves :
      total_resting (opposite_side (match_order cmd q r).1.0.book) + q
      ≡ total_resting (opposite_side r.0.book) + (match_order cmd q r).0
  match_order-conserves =
      let m = match_order-Matches cmd q r ok in
      omega (
        arith,
        m.quantity,
        ap total_resting m.opposite_orders,
        fills-remaining cmd q (opposite_side r.0.book),
        fills-left_over cmd q (opposite_side r.0.book),
      )

  -- Matching goes on as long as it can: it ends with nothing left of the incoming order, or with no
  -- opposite order whose price it crosses.
  pub match_order-exhausts :
      ((match_order cmd q r).0 ≡ 0)
      ⊎ All
          (λ o. crosses cmd.side cmd.kind cmd.price o.price ≡ false)
          (opposite_side (match_order cmd q r).1.0.book)
  match_order-exhausts =
      let m = match_order-Matches cmd q r ok in
      elim (remaining-IsUncrossed cmd q (opposite_side r.0.book)) [
        | inl done ↦ inl (m.quantity ∙ done)
        | inr u ↦ inr (
            rw m.opposite_orders
              (uncrossed-All cmd (match_order cmd q r).1.0.book _ m.book m.opposite_orders u))
      ]

-- A snapshot of the engine's instrument whose orders are valid, and that lists an order under the id of
-- one in front of it, is refused, but only after the engine's own book has been replaced by the orders
-- in front of the first such order; nothing else of the engine changes.
pub restore_half_applied :
    (front back : List RestingOrder) (o : RestingOrder) (snap : EngineSnapshot) (e : MatchingEngine)
    → snap.orders ≡ front ++ o ∷ back
    → Distinct front
    → find o.id front ≢ none
    → snap.instrument ≡ e.instrument
    → all_valid snap.orders ≡ true
    → restore snap e ≡ (false, record e { book = rested front empty_book })
unfolding restore
restore_half_applied front back o snap e listed distinct again same valid =
    rw
      (
        ==-refl-of snap.instrument e.instrument (sym same),
        valid,
        listed,
        rest_all-repeats front back o distinct again,
      )
      refl
