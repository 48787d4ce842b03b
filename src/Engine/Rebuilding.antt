-- ===== src/Engine/Rebuilding.antt =====
-- The second loop of `MatchingEngine::restore` of src/engine.cpp: resting the orders of a walk again
-- builds the levels that were walked.
use sententia.Prelude.{
  ◌<◌, ◌≡◌, ◌≢◌, inl, inr, refl, sym, subst, ap, ◌∙◌, true, false, none, List, [], ◌∷◌, ◌++◌, arith,
  Bool-cases, All,
}
use mathlib.Core.List.{append_assoc, append-nil}
use sententia.Prelude.Int.{ℤ, eqz, eqz→≡, eqz_refl}
use sententia.Types.{Side, buy, sell, opposite}
use sententia.Book.{
  RestingOrder, Level, OrderBook, before, find, push_back, walk, levels, empty_book, rest, orders,
}
use sententia.Book.Inserted.{Distinct, find-Inserted}
use sententia.Book.Levels.{AllFit, Ahead, LevelsOk, before_irrefl}
use sententia.Book.Invariant.{BookOk}
use sententia.Book.Update.{rest-BookOk, Inserted-rest}
use sententia.Book.Spread.{before_asym, levels-rest, opposite-rest}
use sententia.Book.Sides.{contains-none}
use sententia.Engine.Snapshot.{rest_all}

-- Pushing the orders of a side back in the order of its walk.
pub push_all : Side → List RestingOrder → List Level → List Level
push_all s [] ls = ls
push_all s (o ∷ os) ls = push_all s os (push_back s o ls)

-- All the levels come before a price.
abbrev pub Behind : Side → ℤ → List Level → Type 0
Behind s p [] = Unit {0}
Behind s p (l ∷ ls) = (before s l.price p ≡ true) × Behind s p ls

abbrev pub level : ℤ → List RestingOrder → Level
level p q = record { price = p; queue = q }

before-eqz : (s : Side) (a b : ℤ) → before s a b ≡ true → eqz a b ≡ false
before-eqz s a b h = elim (Bool-cases (eqz a b)) [
  | inr e ↦ e
  | inl e ↦ cc (subst (λ c. before s c b ≡ true) (eqz→≡ a b e) h, before_irrefl s b)
]

module _ (s : Side) (o : RestingOrder) (p : ℤ) (e : o.price ≡ p) where
  past-level :
      (l : Level)
      → before s l.price p ≡ true
      → (eqz l.price o.price ≡ false) × (before s o.price l.price ≡ false)
  past-level l h =
      let h' = subst (λ r. before s l.price r ≡ true) (sym e) h in
      (before-eqz s l.price o.price h', before_asym s l.price o.price h')

  -- A price behind all levels opens a new level at the end.
  push_back-new : (ls : List Level) → Behind s p ls → push_back s o ls ≡ ls ++ level p (o ∷ []) ∷ []
  unfolding push_back
  push_back-new [] b = ap (λ r. level r (o ∷ []) ∷ []) e
  push_back-new (l ∷ ls) b =
      let (apart, behind) = past-level l b.0 in rw (apart, behind, push_back-new ls b.1) refl

  -- The price of the last level appends to its queue.
  push_back-last :
      (ls : List Level) (q : List RestingOrder)
      → Behind s p ls
      → push_back s o (ls ++ level p q ∷ []) ≡ ls ++ level p (q ++ o ∷ []) ∷ []
  unfolding push_back
  push_back-last [] q b = rw (subst (λ r. eqz p r ≡ true) (sym e) (eqz_refl p)) refl
  push_back-last (l ∷ ls) q b =
      let (apart, behind) = past-level l b.0 in rw (apart, behind, push_back-last ls q b.1) refl

push_all-queue :
    (s : Side) (p : ℤ) (ls : List Level) (q os : List RestingOrder)
    → Behind s p ls
    → AllFit s p os
    → push_all s os (ls ++ level p q ∷ []) ≡ ls ++ level p (q ++ os) ∷ []
unfolding push_all
push_all-queue s p ls q [] b a = rw append-nil refl
push_all-queue s p ls q (o ∷ os) b a = rw (push_back-last s o p a.0.price ls q b) (
    push_all-queue s p ls (q ++ o ∷ []) os b a.1
    ∙ ap (λ t. ls ++ level p t ∷ []) (append_assoc q (o ∷ []) os))

pub push_all-append :
    (s : Side) (xs ys : List RestingOrder) (ls : List Level)
    → push_all s (xs ++ ys) ls ≡ push_all s ys (push_all s xs ls)
unfolding push_all
push_all-append s [] ys ls = refl
push_all-append s (x ∷ xs) ys ls = push_all-append s xs ys (push_back s x ls)

-- Pushing a whole queue onto the levels before it makes its level.
push_all-level :
    (s : Side) (p : ℤ) (q : List RestingOrder) (ls : List Level)
    → q ≢ []
    → AllFit s p q
    → Behind s p ls
    → push_all s q ls ≡ ls ++ level p q ∷ []
unfolding push_all
push_all-level s p [] ls h a b = absurd (h refl)
push_all-level s p (x ∷ xs) ls h a b =
    rw (push_back-new s x p a.0.price ls b) (push_all-queue s p ls (x ∷ []) xs b a.1)

Behind-append :
    (s : Side) (p : ℤ) (m : Level) (ls : List Level)
    → before s m.price p ≡ true
    → Behind s p ls
    → Behind s p (ls ++ m ∷ [])
Behind-append s p m [] h b = (h, tt)
Behind-append s p m (l ∷ ls) h b = (b.0, Behind-append s p m ls h b.1)

AllBehind-append :
    (s : Side) (m : Level) (ls ms : List Level)
    → Ahead s m.price ms
    → All (λ x. Behind s x.price ls) ms
    → All (λ x. Behind s x.price (ls ++ m ∷ [])) ms
AllBehind-append s m ls [] a b = tt
AllBehind-append s m ls (x ∷ ms) a b =
    (Behind-append s x.price m ls a.0 b.0, AllBehind-append s m ls ms a.1 b.1)

-- Rebuilding a side from its walk.
pub push_all-walk :
    (s : Side) (ls ms : List Level)
    → LevelsOk s ms
    → All (λ m. Behind s m.price ls) ms
    → push_all s (walk ms) ls ≡ ls ++ ms
unfolding walk push_all
push_all-walk s ls [] ok b = sym (append-nil ls)
push_all-walk s ls (m ∷ ms) ok b =
    rw (push_all-append s m.queue (walk ms) ls, push_all-level s m.price m.queue ls ok.0 ok.1 b.0)
      (push_all-walk s (ls ++ m ∷ []) ms ok.3 (AllBehind-append s m ls ms ok.2 b.1)
        ∙ append_assoc ls (m ∷ []) ms)

pub no_levels_before : (s : Side) (ms : List Level) → All (λ m. Behind s m.price []) ms
no_levels_before s [] = tt
no_levels_before s (m ∷ ms) = (tt, no_levels_before s ms)

-- The loop of `restore`, with the test that never fails here left out.
unfoldable pub rested : List RestingOrder → OrderBook → OrderBook
rested [] b = b
rested (o ∷ os) b = rested os (rest o b)

abbrev pub Ready : OrderBook → List RestingOrder → Type 0
Ready b os = All (λ o. (0 < o.quantity) × (find o.id (orders b) ≡ none)) os

Ready-rest :
    (o : RestingOrder) (b : OrderBook) (os : List RestingOrder)
    → find o.id (orders b) ≡ none
    → find o.id os ≡ none
    → Ready b os
    → Ready (rest o b) os
unfolding find
Ready-rest o b [] f d r = tt
Ready-rest o b (x ∷ os) f d r = (
  (r.0.0, ground (arith, find-Inserted x.id (Inserted-rest o b) f)),
  Ready-rest o b os f (ground arith) r.1,
)

pub rested-BookOk :
    (os : List RestingOrder) (b : OrderBook)
    → BookOk b
    → Distinct os
    → Ready b os
    → (rest_all os b ≡ (true, rested os b)) × BookOk (rested os b)
unfolding rest_all rested
rested-BookOk [] b ok d r = (refl, ok)
rested-BookOk (o ∷ os) b ok d r =
    let free = contains-none b o.id ok r.0.1 in
    let later =
      rested-BookOk os (rest o b) (rest-BookOk o b ok free r.0.0) d.1
        (Ready-rest o b os r.0.1 d.0 r.1) in
    (rw free later.0, later.1)

rested-append :
    (xs ys : List RestingOrder) (b : OrderBook) → rested (xs ++ ys) b ≡ rested ys (rested xs b)
unfolding rested
rested-append [] ys b = refl
rested-append (x ∷ xs) ys b = rested-append xs ys (rest x b)

-- Orders of one side go to that side's levels, and the other side's stay.
pub rested-own :
    (s : Side) (os : List RestingOrder) (b : OrderBook)
    → All (λ o. o.side ≡ s) os
    → (levels s (rested os b) ≡ push_all s os (levels s b))
      × (levels (opposite s) (rested os b) ≡ levels (opposite s) b)
unfolding rested push_all
rested-own s [] b a = (refl, refl)
rested-own s (o ∷ os) b a =
    let later = rested-own s os (rest o b) a.1 in
    (
      later.0
          ∙ ap (push_all s os)
              (subst (λ t. levels t (rest o b) ≡ push_back t o (levels t b)) a.0 (levels-rest o b)),
      later.1
          ∙ subst (λ t. levels (opposite t) (rest o b) ≡ levels (opposite t) b) a.0
              (opposite-rest o b),
    )

module _ (bs as' : List RestingOrder) where
  -- Bids first, then asks, onto the empty book.
  pub rested-sides :
      All (λ o. o.side ≡ buy) bs
      → All (λ o. o.side ≡ sell) as'
      → ((rested (bs ++ as') empty_book).bids ≡ push_all buy bs [])
        × ((rested (bs ++ as') empty_book).asks ≡ push_all sell as' [])
  unfolding levels opposite
  rested-sides hb ha =
      let first = rested-own buy bs empty_book hb in
      let then' = rested-own sell as' (rested bs empty_book) ha in
      rw (rested-append bs as' empty_book)
        (then'.1 ∙ first.0, then'.0 ∙ ap (push_all sell as') first.1)
