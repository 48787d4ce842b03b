-- ===== src/Engine/Soundness.antt =====
-- Every command leaves the book well formed, priced and not crossed.
use sententia.Prelude.{
  ℕ, ◌-◌, ◌<◌, min, ◌≡◌, refl, sym, subst, ◌∙◌, inl, inr, true, false, ◌&&◌, none, some, List, [],
  ◌∷◌, ◌++◌, ◌==◌, ltb, arith, Bool-cases, Option-cases, inc64, ◌≢◌, All, All-map,
}
use sententia.Prelude.Int.{ℤ, pos, ltz}
use sententia.Types.{
  Event, Side, buy, sell, opposite, OrderType, limit, market, RejectReason, no_reason, NewOrder,
  Command, new_order, cancel_order,
}
use sententia.Book
use sententia.Book.{
  RestingOrder, Level, OrderBook, best_price, best_bid, best_ask, lookup, before, find, walk,
  levels, orders, contains, erase_located, locate, rest,
}
use sententia.Book.Inserted.{find-id}
use sententia.Book.Levels.{AllFit, LevelsOk}
use sententia.Book.Invariant.{BookOk, LevelsOk-levels, contains-find}
use sententia.Book.Update.{cancel-find, cancel-none}
use sententia.Book.Spread.{
  Clear, IsSound, Apart-side, side-Apart, front-best, Clear-front, rest-IsSound,
  erase_located-IsSound,
}
use sententia.Book.Sides.{
  opposite-opposite, IsPriced-side, side-IsPriced, none-side, side-none, contains-none,
}
use sententia.Engine.{
  MatchingEngine, Run, emit, emit_top_of_book_if_changed, crosses, is_limit, is_gtc, validate,
  rest_residual, cancel_residual, settle, accept, reject, after_validation, apply_new_order,
  after_cancel, apply_cancel, dispatch, apply, apply_all, new_engine,
}
use sententia.Engine.Priority.{left_over, takes, IsUncrossed, remaining-IsUncrossed}
use sententia.Engine.Matching.{Matches, match_order-Matches}

module _ (cmd : NewOrder) where
  -- Partial fills change no price.
  left_over-All :
      (Q : ℤ → Type 0) (q : ℕ) (os : List RestingOrder)
      → All (λ o. Q o.price) os
      → All (λ o. Q o.price) (left_over cmd q os)
  unfolding left_over
  left_over-All Q q [] a = tt
  left_over-All Q q (o ∷ os) a = elim (Bool-cases (takes cmd q o)) [
    | inr stops ↦ rw stops a
    | inl go ↦ rw go (elim (Bool-cases (min q o.quantity == o.quantity)) [
      | inl whole ↦ rw whole (left_over-All Q (q - min q o.quantity) os a.1)
      | inr part ↦ rw part a
    ])
  ]

  left_over-none :
      (k q : ℕ) (os : List RestingOrder) → find k os ≡ none → find k (left_over cmd q os) ≡ none
  unfolding left_over find
  left_over-none k q [] h = refl
  left_over-none k q (o ∷ os) h = ground (arith, left_over-none k (q - min q o.quantity) os)

crosses-before :
    (s : Side) (kind : OrderType) (p x : ℤ)
    → is_limit kind ≡ true
    → crosses s kind p x ≡ false
    → before (opposite s) p x ≡ true
unfolding crosses before opposite
crosses-before buy limit p x l c = ground arith
crosses-before sell limit p x l c = ground arith
crosses-before s market p x l c = cc

uncrossed-Clear :
    (cmd : NewOrder) (b : OrderBook) (os : List RestingOrder)
    → BookOk b
    → is_limit cmd.kind ≡ true
    → walk (levels (opposite cmd.side) b) ≡ os
    → IsUncrossed cmd os
    → Clear cmd.side cmd.price os
uncrossed-Clear cmd b [] ok lim e u = tt
uncrossed-Clear cmd b (o ∷ os) ok lim e u =
    Clear-front cmd.side cmd.price o os (crosses-before cmd.side cmd.kind cmd.price o.price lim u) (
      front-best (opposite cmd.side) o os (levels (opposite cmd.side) b)
        (LevelsOk-levels (opposite cmd.side) b ok.sides) e)

-- The book after the match.
module _ (cmd : NewOrder) (q : ℕ) (r : Run) (result : ℕ × Run) (h : IsSound r.0.book)
    (m : Matches cmd q (walk (levels (opposite cmd.side) r.0.book)) r result) where
  abbrev after : OrderBook
  after = result.1.0.book

  own-same : levels cmd.side after ≡ levels cmd.side r.0.book
  own-same =
      subst (λ s. levels s after ≡ levels s r.0.book) (opposite-opposite cmd.side) m.own_levels

  matched-IsSound : IsSound after
  matched-IsSound = record {
    ok = m.book;
    priced =
        side-IsPriced after cmd.side (rw own-same (IsPriced-side r.0.book cmd.side h.priced).0) (
          rw m.opposite_orders (
            left_over-All cmd (λ p. ltz (pos 0) p ≡ true) q _
              (IsPriced-side r.0.book cmd.side h.priced).1));
    apart = side-Apart cmd.side after (
        rw (own-same, m.opposite_orders)
          (All-map (λ x. Clear cmd.side x.price (walk (levels (opposite cmd.side) r.0.book)))
            (λ x.
              Clear cmd.side x.price (left_over cmd q (walk (levels (opposite cmd.side) r.0.book))))
            (walk (levels cmd.side r.0.book))
            (λ x clear.
              left_over-All cmd (λ p. before (opposite cmd.side) x.price p ≡ true) q _ clear)
            (Apart-side cmd.side r.0.book h.apart)));
  }

  matched-free : contains cmd.id r.0.book ≡ false → contains cmd.id after ≡ false
  matched-free free =
      let t = none-side r.0.book cmd.side cmd.id (contains-find cmd.id r.0.book h.ok free) in
      contains-none after cmd.id m.book (
        side-none after cmd.side cmd.id (rw own-same t.0)
          (rw m.opposite_orders (left_over-none cmd cmd.id q _ t.1)))

  matched-Clear :
      is_limit cmd.kind ≡ true
      → 0 < result.0
      → Clear cmd.side cmd.price (walk (levels (opposite cmd.side) after))
  matched-Clear lim more =
      elim (remaining-IsUncrossed cmd q (walk (levels (opposite cmd.side) r.0.book))) [
        | inl none_left ↦ absurd (omega (arith, m.quantity, none_left))
        | inr u ↦ rw m.opposite_orders (uncrossed-Clear cmd after _ m.book lim m.opposite_orders u)
      ]

  settled-IsSound :
      contains cmd.id r.0.book ≡ false
      → (is_limit cmd.kind ≡ true → ltz (pos 0) cmd.price ≡ true)
      → IsSound (settle cmd result).0.book
  unfolding settle rest_residual cancel_residual emit
  settled-IsSound free priced = elim (Bool-cases (ltb 0 result.0)) [
    | inr none_left ↦ rw none_left matched-IsSound
    | inl some_left ↦ rw some_left (elim (Bool-cases (is_limit cmd.kind && is_gtc cmd.tif)) [
      | inr goes ↦ rw goes matched-IsSound
      | inl rests ↦ rw rests (
          rest-IsSound _ after matched-IsSound (matched-free free) (ground arith)
            (priced (ground arith)) (matched-Clear (ground arith) (ground arith)))
    ])
  ]

pub top-book : (r : Run) → (emit_top_of_book_if_changed r).0.book ≡ r.0.book
unfolding emit_top_of_book_if_changed emit
top-book (e, out) = ground arith

-- What validation has established once it lets an order pass.
validate-free :
    (cmd : NewOrder) (e : MatchingEngine)
    → validate cmd e ≡ no_reason
    → contains cmd.id e.book ≡ false
unfolding validate
validate-free cmd e h = ground arith

validate-priced :
    (cmd : NewOrder) (e : MatchingEngine)
    → validate cmd e ≡ no_reason
    → is_limit cmd.kind ≡ true
    → ltz (pos 0) cmd.price ≡ true
unfolding validate
validate-priced cmd e h l = ground arith

validated-IsSound :
    (why : RejectReason) (cmd : NewOrder) (r : Run)
    → validate cmd r.0 ≡ why
    → IsSound r.0.book
    → IsSound (after_validation why cmd r).0.book
unfolding after_validation accept reject emit
validated-IsSound no_reason cmd r v h = rw top-book (
    settled-IsSound cmd cmd.quantity _ _ h (match_order-Matches cmd cmd.quantity _ h.ok)
      (validate-free cmd r.0 v) (validate-priced cmd r.0 v))
validated-IsSound why cmd r v h = h

erased-IsSound :
    (k : ℕ) (b : OrderBook) (o : RestingOrder)
    → IsSound b
    → find k (orders b) ≡ some o
    → IsSound (erase_located (locate o) k b)
erased-IsSound k b o h there =
    let same = find-id k (orders b) there in
    subst (λ j. IsSound (erase_located (locate o) j b)) same
      (erase_located-IsSound b o h (subst (λ j. find j (orders b) ≡ some o) (sym same) there))

cancelled-IsSound :
    (k : ℕ) (r : Run)
    → IsSound r.0.book
    → IsSound (after_cancel k (Book.cancel k r.0.book) r).0.book
unfolding after_cancel emit
cancelled-IsSound k (e, out) h = elim (Option-cases (find k (orders e.book))) [
  | inl absent ↦ rw (cancel-none k e.book h.ok absent) h
  | inr (o, there) ↦
      rw (cancel-find k e.book h.ok there) (rw top-book (erased-IsSound k e.book o h there))
]

dispatch-IsSound : (c : Command) (r : Run) → IsSound r.0.book → IsSound (dispatch c r).0.book
unfolding dispatch apply_new_order apply_cancel
dispatch-IsSound (new_order cmd) r h = validated-IsSound (validate cmd r.0) cmd r refl h
dispatch-IsSound (cancel_order cmd) r h = cancelled-IsSound cmd.id r h

-- Every command keeps a sound book sound: well formed, with positive prices, and not crossed.
pub apply-IsSound :
    (c : Command) (e : MatchingEngine) (out : List Event)
    → IsSound e.book
    → IsSound (apply c (e, out)).0.book
unfolding apply
apply-IsSound c e out h = dispatch-IsSound c (record e { command_seq = inc64 e.command_seq }, out) h

apply_all-IsSound :
    (cs : List Command) (r : Run) → IsSound r.0.book → IsSound (apply_all cs r).0.book
unfolding apply_all
apply_all-IsSound [] r h = h
apply_all-IsSound (c ∷ cs) r h = apply_all-IsSound cs (apply c r) (apply-IsSound c r.0 r.1 h)

new_engine-IsSound : (instrument : ℕ) → IsSound (new_engine instrument).book
unfolding new_engine orders walk lookup find levels opposite
new_engine-IsSound instrument = record {
  ok = record { sides = record { bids = tt; asks = tt }; distinct = tt; indexed = λ k. refl };
  priced = tt;
  apart = tt;
}

-- The book of an engine that has applied any commands.
unfoldable pub reached : ℕ → List Command → OrderBook
reached instrument cs = (apply_all cs (new_engine instrument, [])).0.book

pub reached-IsSound : (instrument : ℕ) (cs : List Command) → IsSound (reached instrument cs)
unfolding reached
reached-IsSound instrument cs = apply_all-IsSound cs _ (new_engine-IsSound instrument)

best-order :
    (s : Side) (ls : List Level) {p : ℤ}
    → LevelsOk s ls
    → best_price ls ≡ some p
    → (o : RestingOrder) × (os : List RestingOrder) × (walk ls ≡ o ∷ os) × (o.price ≡ p)
unfolding walk best_price
best-order s [] ok e = cc
best-order s (l ∷ ls) {p} ok e = from l.queue ok.0 ok.1
  where
    same : l.price ≡ p
    same = cc

    from :
        (q : List RestingOrder)
        → q ≢ []
        → AllFit s l.price q
        → (o : RestingOrder) × (os : List RestingOrder) × ((q ++ walk ls) ≡ o ∷ os) × (o.price ≡ p)
    from [] h a = absurd (h refl)
    from (x ∷ xs) h a = (x, xs ++ walk ls, refl, a.0.price ∙ same)

sound-spread :
    (b : OrderBook) (bid ask : ℤ)
    → IsSound b
    → best_bid b ≡ some bid
    → best_ask b ≡ some ask
    → ltz bid ask ≡ true
unfolding best_bid best_ask
sound-spread b bid ask h eb ea =
    let (x, xs, ex, px) = best-order buy b.bids h.ok.sides.bids eb in
    let (y, ys, ey, py) = best-order sell b.asks h.ok.sides.asks ea in
    unfold levels opposite before in
    rw (← px, ← py)
      (subst (λ os. All (λ y'. ltz x.price y'.price ≡ true) os) ey
        (subst (λ os. All (λ x'. All (λ y'. ltz x'.price y'.price ≡ true) (walk b.asks)) os) ex
          h.apart).0).0

-- Whatever commands an engine has applied, its best bid is below its best ask.
pub never_crossed :
    (instrument : ℕ) (cs : List Command) (bid ask : ℤ)
    → best_bid (reached instrument cs) ≡ some bid
    → best_ask (reached instrument cs) ≡ some ask
    → ltz bid ask ≡ true
never_crossed instrument cs bid ask eb ea =
    sound-spread (reached instrument cs) bid ask (reached-IsSound instrument cs) eb ea
