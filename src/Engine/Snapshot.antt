-- ===== src/Engine/Snapshot.antt =====
-- `EngineSnapshot`, `MatchingEngine::snapshot` and `MatchingEngine::restore` of src/engine.cpp.
use sententia.Prelude.{ℕ, Bool, true, false, not, ◌&&◌, List, [], ◌∷◌, ◌==◌, if◌then◌else◌}
use sententia.Prelude.Int.{pos, ltz}
use sententia.Book.{RestingOrder, TopOfBook, OrderBook, empty_book, contains, rest, orders}
use sententia.Book.Checksum.{checksum, hash_value}
use sententia.Engine.{MatchingEngine}

pub record EngineSnapshot : Type 0 where
  pub instrument : ℕ
  pub command_seq : ℕ
  pub event_seq : ℕ
  pub arrival_counter : ℕ
  pub last_top : TopOfBook
  pub orders : List RestingOrder

unfoldable pub snapshot : MatchingEngine → EngineSnapshot
snapshot e = record {
  instrument = e.instrument;
  command_seq = e.command_seq;
  event_seq = e.event_seq;
  arrival_counter = e.arrival_counter;
  last_top = e.last_top;
  orders = orders e.book;
}

-- The first loop of `restore`.
unfoldable pub all_valid : List RestingOrder → Bool
all_valid [] = true
all_valid (o ∷ os) = not (o.quantity == 0) && ltz (pos 0) o.price && all_valid os

-- The second loop: it stops at an id that is on the book already.
unfoldable pub rest_all : List RestingOrder → OrderBook → Bool × OrderBook
rest_all [] b = (true, b)
rest_all (o ∷ os) b =
    let more = rest_all os (rest o b) in if contains o.id b then (false, b) else more

unfoldable pub restore : EngineSnapshot → MatchingEngine → Bool × MatchingEngine
restore snap e =
    if not (snap.instrument == e.instrument)
    then (false, e)
    else if not (all_valid snap.orders)
    then (false, e)
    else let (done, b) = rest_all snap.orders empty_book in
      if done
      then (
        true,
        record e {
          book = b;
          command_seq = snap.command_seq;
          event_seq = snap.event_seq;
          arrival_counter = snap.arrival_counter;
          last_top = snap.last_top;
        },
      )
      else (false, record e { book = b })

-- `stateChecksum`: the book's checksum, mixed with the counters. `mix` hashes a value as
-- `hashValue` of the book does.
unfoldable pub state_checksum : MatchingEngine → ℕ
state_checksum e =
    hash_value
      (hash_value (hash_value (hash_value (checksum e.book) e.command_seq) e.event_seq)
        e.arrival_counter)
      e.instrument
