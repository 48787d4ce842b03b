-- ===== src/Election/Quorum.antt =====
-- The voters of src/consensus/election.cpp: a list without repetition, looked up by `std::find`, and
-- why two majorities of one cluster share a voter.
use sententia.Prelude.{
  ℕ, suc, ◌+◌, ◌≤◌, ◌<◌, ◌≡◌, ◌≢◌, refl, sym, subst, ◌/◌, inl, inr, true, false, List, [], ◌∷◌,
  ◌++◌, ◌==◌, arith, length, All, Bool-cases, ==→≡, ==-refl, if◌then◌else◌,
}
use sententia.Election.{has_vote}

-- No voter twice.
abbrev pub Distinct : List ℕ → Type 0
Distinct [] = Unit
Distinct (x ∷ xs) = (has_vote x xs ≡ false) × Distinct xs

abbrev pub Voter : List ℕ → ℕ → Type 0
Voter members v = has_vote v members ≡ true

has_vote-append :
    (v w : ℕ) (xs : List ℕ) → has_vote v xs ≡ false → v ≢ w → has_vote v (xs ++ w ∷ []) ≡ false
unfolding has_vote
has_vote-append v w [] h ne = ground (arith, h, ne)
has_vote-append v w (x ∷ xs) h ne = elim (Bool-cases (x == v)) [
  | inl same ↦ ground (arith, h, same)
  | inr other ↦ rw other (has_vote-append v w xs (ground (arith, h, other)) ne)
]

has_vote-head : (v x : ℕ) (xs : List ℕ) → has_vote v (x ∷ xs) ≡ false → x ≢ v
unfolding has_vote
has_vote-head v x xs h = ground (arith, h)

has_vote-tail : (v x : ℕ) (xs : List ℕ) → has_vote v (x ∷ xs) ≡ false → has_vote v xs ≡ false
unfolding has_vote
has_vote-tail v x xs h = ground (arith, h)

pub Distinct-append :
    (v : ℕ) (xs : List ℕ) → has_vote v xs ≡ false → Distinct xs → Distinct (xs ++ v ∷ [])
unfolding has_vote
Distinct-append v [] h d = (refl, tt)
Distinct-append v (x ∷ xs) h d = (
  has_vote-append x v xs d.0 (has_vote-head v x xs h),
  Distinct-append v xs (has_vote-tail v x xs h) d.1,
)

-- The members without one of them.
unfoldable pub without : ℕ → List ℕ → List ℕ
without v [] = []
without v (x ∷ xs) = if x == v then xs else x ∷ without v xs

pub length-without : (v : ℕ) (m : List ℕ) → Voter m v → length m ≡ suc (length (without v m))
unfolding without has_vote
length-without v [] h = ground (arith, h)
length-without v (x ∷ xs) h = elim (Bool-cases (x == v)) [
  | inl same ↦ rw same refl
  | inr other ↦ rw other (omega (arith, length-without v xs (ground (arith, h, other))))
]

without-Voter : (v w : ℕ) (m : List ℕ) → v ≢ w → Voter m w → Voter (without v m) w
unfolding without has_vote
without-Voter v w [] ne h = h
without-Voter v w (x ∷ xs) ne h = elim (Bool-cases (x == v)) [
  | inl same ↦ rw same (ground (arith, h, same, ne))
  | inr other ↦ rw other (ground (arith, h, without-Voter v w xs ne))
]

-- Voters that are not `v` are members without `v`.
others :
    (v : ℕ) (m xs : List ℕ)
    → has_vote v xs ≡ false
    → All (Voter m) xs
    → All (Voter (without v m)) xs
others v m [] h a = tt
others v m (x ∷ xs) h a = (
  without-Voter v x m (λ e. has_vote-head v x xs h (sym e)) a.0,
  others v m xs (has_vote-tail v x xs h) a.1,
)

-- Distinct members are no more than the members.
fits : (ys m : List ℕ) → Distinct ys → All (Voter m) ys → length ys ≤ length m
fits [] m d a = omega arith
fits (y ∷ ys) m d a =
    omega (arith, length-without y m a.0, fits ys (without y m) d.1 (others y m ys d.0 a.1))

-- Two lists of distinct members that are longer than the members together share one.
overlap :
    (xs ys m : List ℕ)
    → Distinct xs
    → Distinct ys
    → All (Voter m) xs
    → All (Voter m) ys
    → length m < length xs + length ys
    → (v : ℕ) × Voter xs v × Voter ys v
unfolding has_vote
overlap [] ys m dx dy ax ay lt = ground (arith, lt, fits ys m dy ay)
overlap (x ∷ xs) ys m dx dy ax ay lt = elim (Bool-cases (has_vote x ys)) [
  | inl both ↦ (x, rw (==-refl x) refl, both)
  | inr apart ↦
      let (v, inx, iny) =
        overlap xs ys (without x m) dx.1 dy (others x m xs dx.0 ax.1) (others x m ys apart ay)
          (omega (arith, lt, length-without x m ax.0)) in
      (v, ground (arith, inx), iny)
]

pick {ℓ} : (P : ℕ → Type ℓ) (xs : List ℕ) (v : ℕ) → Voter xs v → All P xs → P v
unfolding has_vote
pick P [] v h a = ground (arith, h)
pick P (x ∷ xs) v h a = elim (Bool-cases (x == v)) [
  | inl same ↦ subst P (==→≡ x v same) a.0
  | inr other ↦ pick P xs v (ground (arith, h, other)) a.1
]

-- Two majorities share a voter, so what all voters of each satisfy holds of one voter at once.
pub majorities_meet {ℓ} :
    (P Q : ℕ → Type ℓ) (xs ys m : List ℕ)
    → Distinct xs
    → Distinct ys
    → All (Voter m) xs
    → All (Voter m) ys
    → length m / 2 + 1 ≤ length xs
    → length m / 2 + 1 ≤ length ys
    → All P xs
    → All Q ys
    → (v : ℕ) × P v × Q v
majorities_meet P Q xs ys m dx dy ax ay mx my p q =
    let (v, inx, iny) = overlap xs ys m dx dy ax ay (omega (arith, mx, my)) in
    (v, pick P xs v inx p, pick Q ys v iny q)
