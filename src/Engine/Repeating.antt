-- ===== src/Engine/Repeating.antt =====
-- The loop of `MatchingEngine::restore` of src/engine.cpp on a list that has an order's id twice.
use sententia.Prelude.{
  ℕ, ◌≡◌, ◌≢◌, refl, sym, ap, ◌∙◌, inl, inr, Bool, true, false, Bool-cases, Option, none, some,
  Option-cases, List, [], ◌∷◌, ◌++◌, ◌==◌, ==→≡, ==-refl, arith,
}
use sententia.Book.{
  RestingOrder, OrderBook, find, rest, empty_book, contains, emplace, lookup, Locator, locate,
}
use sententia.Book.Inserted.{Distinct}
use sententia.Engine.Snapshot.{rest_all}
use sententia.Engine.Rebuilding.{rested}

emplace-other :
    (k j : ℕ) (loc : Locator) (m : List (ℕ × Locator))
    → (j == k) ≡ false
    → lookup k (emplace j loc m) ≡ lookup k m
unfolding emplace lookup
emplace-other k j loc m ne = elim (Option-cases (lookup j m)) [
  | inl fresh ↦ ground (arith, fresh, ne)
  | inr (old, at) ↦ ground (arith, at)
]

emplace-own :
    (k : ℕ) (loc : Locator) (m : List (ℕ × Locator))
    → (old : Locator) × (lookup k (emplace k loc m) ≡ some old)
unfolding emplace lookup
emplace-own k loc m = elim (Option-cases (lookup k m)) [
  | inl fresh ↦ (loc, ground (arith, fresh, ==-refl k))
  | inr (old, at) ↦ (old, ground (arith, at))
]

abbrev is_some : Option Locator → Bool
is_some o = elim o [ none ↦ false | some loc ↦ true ]

contains-rest_other :
    (k : ℕ) (o : RestingOrder) (b : OrderBook)
    → (o.id == k) ≡ false
    → contains k (rest o b) ≡ contains k b
unfolding contains rest
contains-rest_other k o b ne = ap is_some (emplace-other k o.id (locate o) b.index ne)

contains-rest_own : (o : RestingOrder) (b : OrderBook) → contains o.id (rest o b) ≡ true
unfolding contains rest
contains-rest_own o b = ap is_some (emplace-own o.id (locate o) b.index).1

contains-kept :
    (k : ℕ) (o : RestingOrder) (b : OrderBook) → contains k b ≡ true → contains k (rest o b) ≡ true
contains-kept k o b h = elim (Bool-cases (o.id == k)) [
  | inl own ↦ ap (λ n. contains n (rest o b)) (sym (==→≡ o.id k own)) ∙ contains-rest_own o b
  | inr other ↦ contains-rest_other k o b other ∙ h
]

contains-rested :
    (k : ℕ) (os : List RestingOrder) (b : OrderBook)
    → contains k b ≡ true
    → contains k (rested os b) ≡ true
unfolding rested
contains-rested k [] b h = h
contains-rested k (o ∷ os) b h = contains-rested k os (rest o b) (contains-kept k o b h)

listed-contains :
    (k : ℕ) (os : List RestingOrder) (b : OrderBook)
    → find k os ≢ none
    → contains k (rested os b) ≡ true
unfolding rested find
listed-contains k [] b h = absurd (h refl)
listed-contains k (o ∷ os) b h = elim (Bool-cases (o.id == k)) [
  | inl own ↦
      contains-rested k os (rest o b)
        (ap (λ n. contains n (rest o b)) (sym (==→≡ o.id k own)) ∙ contains-rest_own o b)
  | inr other ↦ listed-contains k os (rest o b) (λ e. h (ground (arith, other, e)))
]

-- No order of a list is on a book.
abbrev Free : List RestingOrder → OrderBook → Type 0
Free [] b = Unit {0}
Free (o ∷ os) b = (contains o.id b ≡ false) × Free os b

Free-rest :
    (o : RestingOrder) (os : List RestingOrder) (b : OrderBook)
    → find o.id os ≡ none
    → Free os b
    → Free os (rest o b)
unfolding find
Free-rest o [] b fresh f = tt
Free-rest o (x ∷ os) b fresh f = elim (Bool-cases (x.id == o.id)) [
  | inl same ↦ ground (arith, same, fresh)
  | inr other ↦ (
    contains-rest_other x.id o b (ground (arith, other)) ∙ f.0,
    Free-rest o os b (ground (arith, other, fresh)) f.1,
  )
]

Free-empty_book : (os : List RestingOrder) → Free os empty_book
unfolding contains lookup
Free-empty_book [] = tt
Free-empty_book (o ∷ os) = (refl, Free-empty_book os)

stops_at :
    (front back : List RestingOrder) (o : RestingOrder) (b : OrderBook)
    → Distinct front
    → Free front b
    → contains o.id (rested front b) ≡ true
    → rest_all (front ++ o ∷ back) b ≡ (false, rested front b)
unfolding rest_all rested
stops_at [] back o b d f again = rw again refl
stops_at (x ∷ front) back o b d f again =
    rw f.0 (stops_at front back o (rest x b) d.1 (Free-rest x front b d.0 f.1) again)

-- The loop stops at the first order whose id is in front of it.
pub rest_all-repeats :
    (front back : List RestingOrder) (o : RestingOrder)
    → Distinct front
    → find o.id front ≢ none
    → rest_all (front ++ o ∷ back) empty_book ≡ (false, rested front empty_book)
rest_all-repeats front back o d listed =
    stops_at front back o empty_book d (Free-empty_book front)
      (listed-contains o.id front empty_book listed)
