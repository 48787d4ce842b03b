-- ===== src/Storage/SnapshotBytes.antt =====
-- Snapshots of src/storage/snapshot.cpp are read back, from their bytes and from their file.
use sententia.Prelude.{
  ◌||◌, ◌%◌, ◌^◌, ◌≤◌, ◌<◌, ◌≡◌, refl, sym, ap, ◌∙◌, subst, some, List, [], ◌∷◌, ◌==◌, ==-refl, ltb,
  if◌then◌else◌, length, All, append-nil, arith,
}
use sententia.Book.{RestingOrder, TopOfBook}
use sententia.Wire.{put_u32, get_u32}
use sententia.Wire.Reading.{IsInt64}
use sententia.Wire.Decode.{
  ◌>>=◌, pure, fail, ReadsBack, Completes, pure-ReadsBack, bind-ReadsBack, bind-Completes,
  u8-ReadsBack, u16-ReadsBack, u32-ReadsBack, u64-ReadsBack, i64-ReadsBack,
}
use sententia.Message.{bool_byte, side_byte, side_of}
use sententia.Message.RoundTrip.{side_back, flag_back, not_above}
use sententia.Storage.SnapshotFile.{
  SnapshotRecord, max_orders, put_top, put_order, put_orders, encode_snapshot, get_top, get_order,
  get_orders, check_version, finish_snapshot, snapshot_decoder, decode_snapshot,
}

abbrev pub FitsTop : TopOfBook → Type 0
FitsTop t =
    IsInt64 t.bid_price
    × (t.bid_quantity < 2 ^ 64)
    × IsInt64 t.ask_price
    × (t.ask_quantity < 2 ^ 64)

abbrev pub FitsOrder : RestingOrder → Type 0
FitsOrder o = (o.id < 2 ^ 64) × IsInt64 o.price × (o.quantity < 2 ^ 64) × (o.arrival < 2 ^ 64)

-- The numbers of a snapshot fit their fields, and there are not too many orders.
pub record FitsSnapshot (snap : SnapshotRecord) : Type 0 where
  pub seq : snap.last_included_seq < 2 ^ 64
  pub term : snap.last_included_term < 2 ^ 64
  pub sum : snap.state_sum < 2 ^ 64
  pub instrument : snap.engine.instrument < 2 ^ 32
  pub command_seq : snap.engine.command_seq < 2 ^ 64
  pub event_seq : snap.engine.event_seq < 2 ^ 64
  pub arrival_counter : snap.engine.arrival_counter < 2 ^ 64
  pub top : FitsTop snap.engine.last_top
  pub orders : All FitsOrder snap.engine.orders
  pub few : length snap.engine.orders ≤ max_orders

top_back :
    (t : TopOfBook)
    → ReadsBack
        (λ out. out)
        (if ltb 1 (bool_byte t.has_bid) || ltb 1 (bool_byte t.has_ask)
          then fail
          else pure
              (record t { has_bid = bool_byte t.has_bid == 1; has_ask = bool_byte t.has_ask == 1 }))
        t
top_back t =
    let (b, bid) = flag_back t.has_bid in
    let (a, ask) = flag_back t.has_ask in
    rw (bid, ask)
      (subst (λ (u : TopOfBook). ReadsBack (λ out. out) (pure u) t)
        (ap (λ h. record t { has_bid = h }) (sym b)
          ∙ ap (λ h. record t { has_bid = bool_byte t.has_bid == 1; has_ask = h }) (sym a))
        (pure-ReadsBack t))

top-ReadsBack : (t : TopOfBook) → FitsTop t → ReadsBack (put_top t) get_top t
unfolding put_top get_top
top-ReadsBack t (bid, bids, ask, asks) = bind-ReadsBack _ (u8-ReadsBack (bool_byte t.has_bid)) (
    bind-ReadsBack _ (i64-ReadsBack t.bid_price bid) (
      bind-ReadsBack _ (u64-ReadsBack t.bid_quantity bids) (
        bind-ReadsBack _ (u8-ReadsBack (bool_byte t.has_ask)) (
          bind-ReadsBack _ (i64-ReadsBack t.ask_price ask)
            (bind-ReadsBack _ (u64-ReadsBack t.ask_quantity asks) (top_back t))))))

order_back :
    (o : RestingOrder)
    → ReadsBack
        (λ out. out)
        (if ltb 1 (side_byte o.side)
          then fail
          else pure (record o { side = side_of (side_byte o.side) }))
        o
order_back o =
    let (small, side) = side_back o.side in
    rw small (
      subst (λ s. ReadsBack (λ out. out) (pure (record o { side = s })) o) (sym side)
        (pure-ReadsBack o))

order-ReadsBack : (o : RestingOrder) → FitsOrder o → ReadsBack (put_order o) get_order o
unfolding put_order get_order
order-ReadsBack o (id, price, quantity, arrival) = bind-ReadsBack _ (u64-ReadsBack o.id id) (
    bind-ReadsBack _ (u8-ReadsBack (side_byte o.side)) (
      bind-ReadsBack _ (i64-ReadsBack o.price price) (
        bind-ReadsBack _ (u64-ReadsBack o.quantity quantity)
          (bind-ReadsBack _ (u64-ReadsBack o.arrival arrival) (order_back o)))))

orders-ReadsBack :
    (os : List RestingOrder)
    → All FitsOrder os
    → ReadsBack (put_orders os) (get_orders (length os)) os
unfolding put_orders get_orders
orders-ReadsBack [] fits = pure-ReadsBack []
orders-ReadsBack (o ∷ os) fits =
    bind-ReadsBack _ (order-ReadsBack o fits.0)
      (bind-ReadsBack _ (orders-ReadsBack os fits.1) (pure-ReadsBack (o ∷ os)))

finish-Completes : (snap : SnapshotRecord) → Completes (λ out. out) (finish_snapshot snap) snap
unfolding finish_snapshot
finish-Completes snap = record {
  printed = [];
  writes = λ out. sym (append-nil out);
  reads = λ before. rw (append-nil before, append-nil before, ==-refl (length before)) refl;
}

few-ReadsBack :
    (os : List RestingOrder)
    → length os ≤ max_orders
    → All FitsOrder os
    → ReadsBack
        (put_orders os)
        (if ltb max_orders (length os) then fail else get_orders (length os))
        os
few-ReadsBack os few fits = rw (not_above few) (orders-ReadsBack os fits)

orders-Completes :
    (snap : SnapshotRecord)
    → length snap.engine.orders ≤ max_orders
    → All FitsOrder snap.engine.orders
    → Completes
        (λ out. put_orders snap.engine.orders (put_u32 (length snap.engine.orders % 2 ^ 32) out))
        (get_u32 >>= λ count.
          (if ltb max_orders count then fail else get_orders count) >>= λ orders.
          finish_snapshot (record snap { engine = record snap.engine { orders = orders } }))
        snap
orders-Completes snap few fits =
    let small : length snap.engine.orders % 2 ^ 32 ≡ length snap.engine.orders =
      omega (arith, few) in
    rw small (
      bind-Completes _ (u32-ReadsBack (length snap.engine.orders) (omega (arith, few)))
        (bind-Completes _ (few-ReadsBack snap.engine.orders few fits) (finish-Completes snap)))

version-ReadsBack : ReadsBack (λ out. out) (check_version 0x50414E53 1) tt
unfolding check_version
version-ReadsBack = pure-ReadsBack tt

snapshot-Completes :
    (snap : SnapshotRecord)
    → FitsSnapshot snap
    → Completes (encode_snapshot snap) snapshot_decoder snap
unfolding encode_snapshot snapshot_decoder
snapshot-Completes snap f = bind-Completes _ (u32-ReadsBack 0x50414E53 (omega arith)) (
    bind-Completes _ (u16-ReadsBack 1 (omega arith)) (
      bind-Completes _ version-ReadsBack (
        bind-Completes _ (u64-ReadsBack snap.last_included_seq f.seq) (
          bind-Completes _ (u64-ReadsBack snap.last_included_term f.term) (
            bind-Completes _ (u64-ReadsBack snap.state_sum f.sum) (
              bind-Completes _ (u32-ReadsBack snap.engine.instrument f.instrument) (
                bind-Completes _ (u64-ReadsBack snap.engine.command_seq f.command_seq) (
                  bind-Completes _ (u64-ReadsBack snap.engine.event_seq f.event_seq) (
                    bind-Completes _ (u64-ReadsBack snap.engine.arrival_counter f.arrival_counter) (
                      bind-Completes _ (top-ReadsBack snap.engine.last_top f.top)
                        (orders-Completes snap f.few f.orders)))))))))))

-- A snapshot whose numbers fit their fields, and that has at most `max_orders` orders, is read back
-- from its bytes.
pub decode_snapshot-encode_snapshot :
    (snap : SnapshotRecord)
    → FitsSnapshot snap
    → decode_snapshot (encode_snapshot snap []) ≡ some snap
unfolding decode_snapshot
decode_snapshot-encode_snapshot snap f =
    let h = snapshot-Completes snap f in rw (h.writes []) (ap (λ r. r.0) (h.reads []))
