-- ===== src/CommandLog/Chain.antt =====
-- Entries of src/replication/command_log.cpp with consecutive sequence numbers.
use sententia.Prelude.{
  ℕ, zero, suc, ◌+◌, ◌-◌, ◌≤◌, ◌<◌, ◌≡◌, refl, sym, subst, ◌⊎◌, inl, inr, true, ◌&&◌, leb,
  Bool-cases, some, List, [], ◌∷◌, ◌++◌, length, arith, length-take, length-drop, min, get_elem?,
  take, drop,
}
use sententia.CommandLog.{LogEntry, is_empty, pop_back, back_seq, pop_front}

-- The entries after number `b` up to `l`, one for each number.
abbrev pub Chain : ℕ → List LogEntry → ℕ → Type 0
Chain b [] l = l ≡ b
Chain b (x ∷ xs) l = (x.seq ≡ b + 1) × Chain (b + 1) xs l

pub Chain-length : (b : ℕ) (xs : List LogEntry) (l : ℕ) → Chain b xs l → l ≡ b + length xs
Chain-length b [] l c = omega (arith, c)
Chain-length b (x ∷ xs) l c = omega (arith, Chain-length (b + 1) xs l c.1)

pub Chain-append :
    (b : ℕ) (xs : List LogEntry) (l : ℕ) (x : LogEntry)
    → Chain b xs l
    → x.seq ≡ l + 1
    → Chain b (xs ++ x ∷ []) (l + 1)
Chain-append b [] l x c s = (omega (arith, c, s), omega (arith, c))
Chain-append b (y ∷ ys) l x c s = (c.0, Chain-append (b + 1) ys l x c.1 s)

pub Chain-get_elem? :
    (b : ℕ) (xs : List LogEntry) (l k : ℕ)
    → Chain b xs l
    → k < length xs
    → (x : LogEntry) × (get_elem? xs k ≡ some x) × (x.seq ≡ b + k + 1)
Chain-get_elem? b [] l k c lt = ground (arith, lt)
Chain-get_elem? b (x ∷ xs) l zero c lt = (x, refl, omega (arith, c.0))
Chain-get_elem? b (x ∷ xs) l (suc k) c lt =
    let (y, found, s) = Chain-get_elem? (b + 1) xs l k c.1 (omega (arith, lt)) in
    (y, found, omega (arith, s))

pub Chain-drop :
    (b : ℕ) (xs : List LogEntry) (l k : ℕ)
    → Chain b xs l
    → k ≤ length xs
    → Chain (b + k) (drop k xs) l
Chain-drop b xs l zero c le = subst (λ n. Chain n xs l) (omega arith) c
Chain-drop b [] l (suc k) c le = ground (arith, le)
Chain-drop b (x ∷ xs) l (suc k) c le =
    subst (λ n. Chain n (drop k xs) l) (omega arith)
      (Chain-drop (b + 1) xs l k c.1 (omega (arith, le)))

pub Chain-take :
    (b : ℕ) (xs : List LogEntry) (l k : ℕ)
    → Chain b xs l
    → Chain b (take k xs) (b + length (take k xs))
Chain-take b xs l zero c = omega arith
Chain-take b [] l (suc k) c = omega arith
Chain-take b (x ∷ xs) l (suc k) c =
    (c.0, subst (λ n. Chain (b + 1) (take k xs) n) (omega arith) (Chain-take (b + 1) xs l k c.1))

Chain-cast : {b c l k : ℕ} (xs : List LogEntry) → b ≡ c → l ≡ k → Chain b xs l → Chain c xs k
Chain-cast xs p q chain = rw (sym p, sym q) chain

-- A segment of consecutive entries.
pub Chain-segment :
    (b : ℕ) (xs : List LogEntry) (l k n c e : ℕ)
    → Chain b xs l
    → k ≤ length xs
    → b + k ≡ c
    → c + min n (length xs - k) ≡ e
    → Chain c (take n (drop k xs)) e
Chain-segment b xs l k n c e chain le p q =
    Chain-cast (take n (drop k xs)) p
      (omega (arith, p, q, length-take n (drop k xs), length-drop k xs))
      (Chain-take (b + k) (drop k xs) l n (Chain-drop b xs l k chain le))

pub back_seq-Chain :
    (b : ℕ) (xs : List LogEntry) (l d : ℕ)
    → Chain b xs l
    → (is_empty xs ≡ true) ⊎ (back_seq d xs ≡ l)
back_seq-Chain b [] l d c = inl refl
back_seq-Chain b (x ∷ []) l d c = inr (omega (arith, c.0, c.1))
back_seq-Chain b (x ∷ y ∷ ys) l d c = elim (back_seq-Chain (b + 1) (y ∷ ys) l x.seq c.1) [
  | inl empty ↦ ground (arith, empty)
  | inr same ↦ inr same
]

-- Dropping entries from the back leaves consecutive entries.
pub pop_back-Chain :
    (s b : ℕ) (xs : List LogEntry) (l : ℕ) → Chain b xs l → (k : ℕ) × Chain b (pop_back s xs) k
unfolding pop_back
pop_back-Chain s b [] l c = (b, refl)
pop_back-Chain s b (x ∷ xs) l c = elim (Bool-cases (is_empty (pop_back s xs) && leb s x.seq)) [
  | inl gone ↦ rw gone (b, refl)
  | inr kept ↦ rw kept (let (k, chain) = pop_back-Chain s (b + 1) xs l c.1 in (k, (c.0, chain)))
]

-- Dropping entries from the front leaves consecutive entries that end where they did.
pub pop_front-Chain :
    (s t b : ℕ) (xs : List LogEntry) (l : ℕ)
    → Chain b xs l
    → (k : ℕ) × Chain k (pop_front s t xs).1 l
unfolding pop_front
pop_front-Chain s t b [] l c = (b, c)
pop_front-Chain s t b (x ∷ xs) l c = elim (Bool-cases (leb x.seq s)) [
  | inl gone ↦ rw gone (pop_front-Chain s x.seq (b + 1) xs l c.1)
  | inr kept ↦ rw kept (b, c)
]
