-- ===== src/Examples/Engine.antt =====
-- Runs of src/engine.cpp: a book with two asks and a bid, and an order that takes from it.
use sententia.Prelude.{
  ℕ, none, sub64, ◌+◌, ◌≡◌, ◌≢◌, refl, ◌⊎◌, true, false, some, List, [], ◌∷◌, arith, All, inc64,
}
use sententia.Prelude.Int.{pos, negsuc, ltz, eqz}
use sententia.Types.{buy, sell, limit, good_till_cancel, opposite, NewOrder, Command, new_order}
use sententia.Book
use sententia.Book.{
  RestingOrder, before, walk, levels, orders, find, best_bid, best_ask, best_price,
}
use sententia.Book.Inserted.{Distinct}
use sententia.Book.Spread.{IsSound}
use sententia.Engine
use sententia.Engine.{
  MatchingEngine, Run, new_engine, apply, apply_all, match_order, crosses, validate,
}
use sententia.Engine.Priority.{total_resting}
use sententia.Engine.Matching.{Matches, match_order-Matches}
use sententia.Engine.Numbering.{Extends, apply-Extends}
use sententia.Engine.Soundness.{reached, reached-IsSound, apply-IsSound, never_crossed}
use sententia.Engine.Snapshot.{EngineSnapshot, snapshot, restore, all_valid}
use sententia.Engine.Rebuilding.{rested}
use sententia.Engine.Restoring.{SameState, restore-snapshot}
use sententia.Engine.Outcomes.{match_order-conserves, match_order-exhausts, restore_half_applied}

abbrev ask_1 : NewOrder
ask_1 = record {
  id = 1;
  instrument = 7;
  side = sell;
  kind = limit;
  tif = good_till_cancel;
  price = pos 101;
  quantity = 5;
}

abbrev ask_2 : NewOrder
ask_2 = record {
  id = 2;
  instrument = 7;
  side = sell;
  kind = limit;
  tif = good_till_cancel;
  price = pos 100;
  quantity = 4;
}

abbrev bid_3 : NewOrder
bid_3 = record {
  id = 3;
  instrument = 7;
  side = buy;
  kind = limit;
  tif = good_till_cancel;
  price = pos 99;
  quantity = 2;
}

-- It takes all of order 2 and part of order 1.
abbrev taker : NewOrder
taker = record {
  id = 4;
  instrument = 7;
  side = buy;
  kind = limit;
  tif = good_till_cancel;
  price = pos 101;
  quantity = 6;
}

abbrev empty_order : NewOrder
empty_order = record {
  id = 5;
  instrument = 7;
  side = buy;
  kind = limit;
  tif = good_till_cancel;
  price = negsuc 3;
  quantity = 0;
}

abbrev quotes : List Command
quotes = new_order ask_1 ∷ new_order ask_2 ∷ new_order bid_3 ∷ []

-- The line names all that a run of the engine computes with.
unfoldable pub quoted : MatchingEngine
unfolding apply_all apply Engine.apply_new_order find orders walk validate new_engine ltz
    Book.contains Book.lookup Engine.emit_top_of_book_if_changed Engine.same_top Book.top
    Engine.settle match_order Engine.match_loop Engine.front_to_fill Book.front_level
    Book.first_queue Book.add_quantities before Book.cancel Book.deref Book.emplace
    Book.erase_located Book.erase_order Book.keep_level levels Book.locate_order Book.push_back
    Book.reduce Book.remove Book.rest Book.set_levels Book.set_quantity Book.unindex
    Book.write_order Book.write_quantity Engine.accept Engine.apply_cancel Engine.cancel_residual
    crosses Engine.emit Engine.reject Engine.rest_residual Engine.trade_front eqz sub64 opposite
    best_bid best_ask best_price
quoted = (apply_all quotes (new_engine 7, [])).0

pub quoted-IsSound : IsSound quoted.book
unfolding quoted reached
quoted-IsSound = reached-IsSound 7 quotes

ask_order : RestingOrder
ask_order = record { id = 2; side = sell; price = pos 100; quantity = 4; arrival = 2 }

found-ask : find 2 (orders quoted.book) ≡ some ask_order
unfolding quoted ask_order
found-ask = refl

-- The taker's run: two trades, best price first, and a book with what is left.
taken : (match_order taker 6 (quoted, [])).0 ≡ 0
unfolding quoted
taken = refl

left_on_offer :
    walk (levels sell (match_order taker 6 (quoted, [])).1.0.book)
    ≡ record { id = 1; side = sell; price = pos 101; quantity = 3; arrival = 1 } ∷ []
unfolding quoted
left_on_offer = refl

match_order-Matches_example :
    Matches taker 6
      (walk (levels (opposite buy) quoted.book))
      (quoted, [])
      (match_order taker 6 (quoted, []))
match_order-Matches_example = match_order-Matches taker 6 (quoted, []) quoted-IsSound.ok

match_order-conserves_example :
    total_resting (walk (levels (opposite buy) (match_order taker 6 (quoted, [])).1.0.book)) + 6
    ≡ total_resting (walk (levels (opposite buy) quoted.book))
      + (match_order taker 6 (quoted, [])).0
match_order-conserves_example = match_order-conserves taker 6 (quoted, []) quoted-IsSound.ok

match_order-exhausts_example :
    ((match_order taker 6 (quoted, [])).0 ≡ 0)
    ⊎ All
        (λ o. crosses buy limit (pos 101) o.price ≡ false)
        (walk (levels (opposite buy) (match_order taker 6 (quoted, [])).1.0.book))
match_order-exhausts_example = match_order-exhausts taker 6 (quoted, []) quoted-IsSound.ok

apply-IsSound_example : IsSound (apply (new_order taker) (quoted, [])).0.book
apply-IsSound_example = apply-IsSound (new_order taker) quoted [] quoted-IsSound

never_crossed_example : ltz (pos 99) (pos 100) ≡ true
unfolding quoted reached
never_crossed_example = never_crossed 7 quotes (pos 99) (pos 100) refl refl

apply-Extends_example :
    Extends
      (record quoted { command_seq = inc64 quoted.command_seq }, [])
      (apply (new_order taker) (quoted, []))
apply-Extends_example = apply-Extends (new_order taker) quoted []

restore-snapshot_example :
    ((restore (snapshot quoted) (new_engine 7)).0 ≡ true)
    × SameState (restore (snapshot quoted) (new_engine 7)).1 quoted
restore-snapshot_example = restore-snapshot quoted (new_engine 7) quoted-IsSound same
  where
    same : (new_engine 7).instrument ≡ quoted.instrument
    same = unfold quoted in refl

abbrev bid_at : ℕ → ℕ → RestingOrder
bid_at id price = record { id = id; side = buy; price = pos price; quantity = 4; arrival = id }

abbrev repeated : EngineSnapshot
repeated = record {
  instrument = 7;
  command_seq = 0;
  event_seq = 0;
  arrival_counter = 1;
  last_top = Book.no_top;
  orders = bid_at 2 100 ∷ bid_at 3 101 ∷ bid_at 2 99 ∷ bid_at 4 98 ∷ [];
}

restore_half_applied_example :
    restore repeated quoted
    ≡ (false, record quoted { book = rested (bid_at 2 100 ∷ bid_at 3 101 ∷ []) Book.empty_book })
unfolding ltz
restore_half_applied_example =
    restore_half_applied (bid_at 2 100 ∷ bid_at 3 101 ∷ []) (bid_at 4 98 ∷ []) (bid_at 2 99)
      repeated quoted refl two_orders listed same valid
  where
    two_orders : Distinct (bid_at 2 100 ∷ bid_at 3 101 ∷ [])
    two_orders = unfold Book.find in (refl, (refl, tt))

    listed : Book.find 2 (bid_at 2 100 ∷ bid_at 3 101 ∷ []) ≢ none
    listed = λ e. unfold Book.find in ground (arith, e)

    same : repeated.instrument ≡ quoted.instrument
    same = unfold quoted in refl

    valid : all_valid repeated.orders ≡ true
    valid = unfold all_valid in refl
