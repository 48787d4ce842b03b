-- ===== src/Book/Inserted.antt =====
-- Where an order stands in a list of orders: `Inserted o xs ys` says that `ys` is `xs` with `o` at
-- one more place. Queue updates of order_book.cpp are described by it.
use sententia.Prelude.{
  ℕ, ◌≡◌, refl, ◌⊎◌, inl, inr, true, false, none, some, List, [], ◌∷◌, ◌++◌, ◌==◌, if◌then◌else◌,
  arith,
}
use sententia.Book.{RestingOrder, find, remove, set_quantity}

pub data Inserted (o : RestingOrder) : List RestingOrder → List RestingOrder → Type 0 where
  here : {xs : List RestingOrder} → Inserted o xs (o ∷ xs)
  there :
      {x : RestingOrder} {xs ys : List RestingOrder}
      → Inserted o xs ys
      → Inserted o (x ∷ xs) (x ∷ ys)

-- No two orders share an id.
abbrev pub Distinct : List RestingOrder → Type 0
Distinct [] = Unit {0}
Distinct (o ∷ os) = (find o.id os ≡ none) × Distinct os

pub Inserted-append_right :
    {o : RestingOrder} {xs ys : List RestingOrder} (zs : List RestingOrder)
    → Inserted o xs ys
    → Inserted o (xs ++ zs) (ys ++ zs)
Inserted-append_right zs here = here
Inserted-append_right zs (there i) = there (Inserted-append_right zs i)

pub Inserted-append_left :
    {o : RestingOrder} (zs : List RestingOrder) {xs ys : List RestingOrder}
    → Inserted o xs ys
    → Inserted o (zs ++ xs) (zs ++ ys)
Inserted-append_left [] i = i
Inserted-append_left (z ∷ zs) i = there (Inserted-append_left zs i)

-- A new order goes to the end of a queue.
pub Inserted-end :
    (o : RestingOrder) (xs zs : List RestingOrder) → Inserted o (xs ++ zs) ((xs ++ o ∷ []) ++ zs)
Inserted-end o [] zs = here
Inserted-end o (x ∷ xs) zs = there (Inserted-end o xs zs)

pub find-append_none :
    (k : ℕ) (xs ys : List RestingOrder) → find k xs ≡ none → find k (xs ++ ys) ≡ find k ys
unfolding find
find-append_none k [] ys h = refl
find-append_none k (x ∷ xs) ys h = ground (arith, find-append_none k xs ys)

pub find-append_some :
    (k : ℕ) (xs ys : List RestingOrder) {o : RestingOrder}
    → find k xs ≡ some o
    → find k (xs ++ ys) ≡ some o
unfolding find
find-append_some k [] ys h = cc
find-append_some k (x ∷ xs) ys {o} h = ground (arith, find-append_some k xs ys {o = o})

-- What `find` returns has the id that was looked for.
pub find-id : (k : ℕ) (xs : List RestingOrder) {o : RestingOrder} → find k xs ≡ some o → o.id ≡ k
unfolding find
find-id k [] h = cc
find-id k (x ∷ xs) {o} h = ground (arith, find-id k xs {o = o})

pub find-append_cases :
    (k : ℕ) (xs ys : List RestingOrder) {o : RestingOrder}
    → find k (xs ++ ys) ≡ some o
    → (find k xs ≡ some o) ⊎ ((find k xs ≡ none) × (find k ys ≡ some o))
unfolding find
find-append_cases k [] ys h = inr (refl, h)
find-append_cases k (x ∷ xs) ys {o} h = ground (arith, find-append_cases k xs ys {o = o})

-- A lookup after an insertion.
pub find-Inserted :
    (k : ℕ) {o : RestingOrder} {xs ys : List RestingOrder}
    → Inserted o xs ys
    → find o.id xs ≡ none
    → find k ys ≡ (if o.id == k then some o else find k xs)
unfolding find
find-Inserted k here h = refl
find-Inserted k {o} (there {x} {xs} {ys} i) h = ground (arith, find-Inserted k i)

pub Distinct-Inserted :
    {o : RestingOrder} {xs ys : List RestingOrder}
    → Inserted o xs ys
    → find o.id xs ≡ none
    → Distinct xs
    → Distinct ys
unfolding find
Distinct-Inserted here h d = (h, d)
Distinct-Inserted {o} (there {x} {xs} {ys} i) h d =
    ground (arith, find-Inserted x.id i, Distinct-Inserted i)

-- The other way: taking an order out.
pub Distinct-taken :
    {o : RestingOrder} {xs ys : List RestingOrder}
    → Inserted o xs ys
    → Distinct ys
    → Distinct xs × (find o.id xs ≡ none)
unfolding find
Distinct-taken here d = (d.1, d.0)
Distinct-taken {o} (there {x} {xs} {ys} i) d =
    let t = Distinct-taken i d.1 in ground (arith, t.0, t.1, find-Inserted x.id i t.1)

-- The head of a list is found, or the search goes on.
pub find-cases :
    (k : ℕ) (x : RestingOrder) (xs : List RestingOrder) {o : RestingOrder}
    → find k (x ∷ xs) ≡ some o
    → ((x.id == k) ≡ true) × (x ≡ o) ⊎ ((x.id == k) ≡ false) × (find k xs ≡ some o)
unfolding find
find-cases k x xs h = ground arith

-- Erasing the entry that is found takes it out.
pub remove-Inserted :
    (k : ℕ) (xs : List RestingOrder) {o : RestingOrder}
    → find k xs ≡ some o
    → Inserted o (remove k xs) xs
unfolding remove
remove-Inserted k [] h = unfold find in cc
remove-Inserted k (x ∷ xs) {o} h = elim (find-cases k x xs h) [
  | inl (e, same) ↦ rw (e, same) here
  | inr (e, later) ↦ rw e (there (remove-Inserted k xs later))
]

-- A write through an iterator changes one entry in its place.
pub set_quantity-Inserted :
    (k q : ℕ) (xs : List RestingOrder) {o : RestingOrder}
    → find k xs ≡ some o
    → Inserted (record o { quantity = q }) (remove k xs) (set_quantity k q xs)
unfolding remove set_quantity
set_quantity-Inserted k q [] h = unfold find in cc
set_quantity-Inserted k q (x ∷ xs) {o} h = elim (find-cases k x xs h) [
  | inl (e, same) ↦ rw (e, same) here
  | inr (e, later) ↦ rw e (there (set_quantity-Inserted k q xs later))
]

-- A write does not hide the entry from the erasure that may follow.
pub remove-set_quantity :
    (k q : ℕ) (xs : List RestingOrder) → remove k (set_quantity k q xs) ≡ remove k xs
unfolding remove set_quantity
remove-set_quantity k q [] = refl
remove-set_quantity k q (x ∷ xs) = ground (arith, remove-set_quantity k q xs)
