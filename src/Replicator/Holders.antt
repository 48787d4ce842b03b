-- ===== src/Replicator/Holders.antt =====
-- The match points of src/replication/replicator.cpp, counted and sorted.
use sententia.Prelude.{
  ℕ, zero, suc, ◌+◌, ◌≤◌, ◌<◌, ◌≡◌, refl, inl, inr, some, List, [], ◌∷◌, ◌++◌, ltb, leb,
  if◌then◌else◌, Bool-cases, arith, length, All, get_elem?,
}
use sententia.Replicator.Commit.{insert_desc, sort_desc, zeros}

-- How many of the numbers are `n` or higher.
abbrev pub holders : ℕ → List ℕ → ℕ
holders n [] = 0
holders n (x ∷ xs) = (if leb n x then 1 else 0) + holders n xs

abbrev pub IsDescending : List ℕ → Type 0
IsDescending [] = Unit
IsDescending (x ∷ xs) = All (λ y. y ≤ x) xs × IsDescending xs

holders-insert : (n x : ℕ) (xs : List ℕ) → holders n (insert_desc x xs) ≡ holders n (x ∷ xs)
unfolding insert_desc
holders-insert n x [] = refl
holders-insert n x (y ∷ ys) = elim (Bool-cases (ltb x y)) [
  | inl below ↦ rw below (omega (arith, holders-insert n x ys))
  | inr above ↦ rw above refl
]

pub holders-sort : (n : ℕ) (xs : List ℕ) → holders n (sort_desc xs) ≡ holders n xs
unfolding sort_desc
holders-sort n [] = refl
holders-sort n (x ∷ xs) = omega (arith, holders-insert n x (sort_desc xs), holders-sort n xs)

length-insert : (x : ℕ) (xs : List ℕ) → length (insert_desc x xs) ≡ suc (length xs)
unfolding insert_desc
length-insert x [] = refl
length-insert x (y ∷ ys) = elim (Bool-cases (ltb x y)) [
  | inl below ↦ rw below (omega (arith, length-insert x ys))
  | inr above ↦ rw above refl
]

pub length-sort : (xs : List ℕ) → length (sort_desc xs) ≡ length xs
unfolding sort_desc
length-sort [] = refl
length-sort (x ∷ xs) = omega (arith, length-insert x (sort_desc xs), length-sort xs)

insert-All :
    (b x : ℕ) (xs : List ℕ) → x ≤ b → All (λ y. y ≤ b) xs → All (λ y. y ≤ b) (insert_desc x xs)
unfolding insert_desc
insert-All b x [] h a = (h, tt)
insert-All b x (y ∷ ys) h a = elim (Bool-cases (ltb x y)) [
  | inl below ↦ rw below (a.0, insert-All b x ys h a.1)
  | inr above ↦ rw above (h, a)
]

weaken-All : (b c : ℕ) (xs : List ℕ) → b ≤ c → All (λ y. y ≤ b) xs → All (λ y. y ≤ c) xs
weaken-All b c [] h a = tt
weaken-All b c (x ∷ xs) h a = (omega (arith, h, a.0), weaken-All b c xs h a.1)

insert-IsDescending : (x : ℕ) (xs : List ℕ) → IsDescending xs → IsDescending (insert_desc x xs)
unfolding insert_desc
insert-IsDescending x [] d = (tt, tt)
insert-IsDescending x (y ∷ ys) d = elim (Bool-cases (ltb x y)) [
  | inl below ↦
      rw below (insert-All y x ys (ground (arith, below)) d.0, insert-IsDescending x ys d.1)
  | inr above ↦
      let le : y ≤ x = ground (arith, above) in rw above ((le, weaken-All y x ys le d.0), d)
]

pub sort-IsDescending : (xs : List ℕ) → IsDescending (sort_desc xs)
unfolding sort_desc
sort-IsDescending [] = tt
sort-IsDescending (x ∷ xs) = insert-IsDescending x (sort_desc xs) (sort-IsDescending xs)

holders-none : (n b : ℕ) (xs : List ℕ) → b < n → All (λ y. y ≤ b) xs → holders n xs ≡ 0
holders-none n b [] h a = refl
holders-none n b (x ∷ xs) h a = ground (arith, h, a.0, holders-none n b xs h a.1)

-- In a descending list the number at a place is the highest that one more than so many hold.
pub nth-holders :
    (k : ℕ) (xs : List ℕ)
    → IsDescending xs
    → k < length xs
    → (v : ℕ) × (get_elem? xs k ≡ some v)
      × (k < holders v xs)
      × ((n : ℕ) → v < n → holders n xs ≤ k)
      × ((b : ℕ) → All (λ y. y ≤ b) xs → v ≤ b)
nth-holders k [] d h = ground (arith, h)
nth-holders zero (x ∷ xs) d h =
    (x, refl, ground arith, λ n lt. ground (arith, lt, holders-none n x xs lt d.0), λ b a. a.0)
nth-holders (suc k) (x ∷ xs) d h =
    let (v, found, held, highest, bounded) = nth-holders k xs d.1 (omega (arith, h)) in
    (
      v,
      found,
      ground (arith, held, bounded x d.0),
      λ n lt. ground (arith, highest n lt),
      λ b a. bounded b a.1,
    )

pub holders-zeros : (n k : ℕ) → 0 < n → holders n (zeros k) ≡ 0
unfolding zeros
holders-zeros n zero h = refl
holders-zeros n (suc k) h = ground (arith, h, holders-zeros n k h)

pub length-zeros : (k : ℕ) → length (zeros k) ≡ k
unfolding zeros
length-zeros zero = refl
length-zeros (suc k) = omega (arith, length-zeros k)

pub holders-append : (n : ℕ) (xs ys : List ℕ) → holders n (xs ++ ys) ≡ holders n xs + holders n ys
holders-append n [] ys = omega arith
holders-append n (x ∷ xs) ys = omega (arith, holders-append n xs ys)
