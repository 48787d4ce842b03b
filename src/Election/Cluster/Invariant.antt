-- ===== src/Election/Cluster/Invariant.antt =====
-- What holds of a cluster between two inputs of its nodes: the votes cast so far, the vote responses
-- on their way, and the votes behind each candidate and leader.
use sententia.Prelude.{
  ℕ, ◌+◌, ◌≤◌, ◌<◌, ◌≡◌, ◌≢◌, sym, subst, ◌∙◌, ◌⊎◌, inl, inr, true, some, List, ◌∷◌, length, All,
  arith, All-map,
}
use sententia.Election.{follower, Election}
use sententia.Election.Effect.{Input, Elected, Effect, quiet, newer, stood, voted, counted}
use sententia.Election.Quorum.{Distinct, Voter}
use sententia.Election.Cluster.{Held, Letter, Cluster, InRange}

-- The votes that a node has cast are of its term or older, and it remembers the one of its term.
abbrev pub Follows : List Election → Election → Type 0
Follows past e =
    (t k : ℕ)
    → Held past e.self t k
    → (t ≤ e.current_term) × (t ≡ e.current_term → e.voted_for ≡ some k)

-- One vote per voter and term.
abbrev pub Single : List Election → Type 0
Single past = (v t k l : ℕ) → Held past v t k → Held past v t l → k ≡ l

-- A term that grows, or a vote that stands.
abbrev pub KeepsVote : Election → Election → Type 0
KeepsVote e e' =
    (e.current_term < e'.current_term)
    ⊎ ((e'.current_term ≡ e.current_term)
        × ((k : ℕ) → e.voted_for ≡ some k → e'.voted_for ≡ some k))

abbrev pub Earned : List ℕ → List Election → Letter → Type 0
Earned members past l =
    l.message.granted ≡ true
    → Held past l.message.voter_id l.message.term l.to × Voter members l.message.voter_id

-- Different members whose votes of term `t` are on `n`.
abbrev pub Backing : List ℕ → List Election → ℕ → ℕ → List ℕ → Type 0
Backing members past n t votes =
    Distinct votes × All (Voter members) votes × All (λ v. Held past v t n) votes

-- A node that is no follower has the votes it counts, of different members.
abbrev pub Backed : List ℕ → List Election → Election → Type 0
Backed members past e =
    (e.role ≡ follower)
    ⊎ (Elected e
        × (length e.peers + 1 ≡ length members)
        × Backing members past e.self e.current_term e.votes_granted)

pub record Inv (members : List ℕ) (c : Cluster) : Type 0 where
  pub in_range : (n : ℕ) → InRange (c.nodes n)
  pub own : (n : ℕ) → (c.nodes n).self ≡ n
  pub sized : (n : ℕ) → Voter members n → length (c.nodes n).peers + 1 ≡ length members
  pub follows : (n : ℕ) → Follows c.past (c.nodes n)
  pub single : Single c.past
  pub earned : All (Earned members c.past) c.letters
  pub backed : (n : ℕ) → Backed members c.past (c.nodes n)
  pub won : All (Backed members c.past) c.past

-- A vote cast stays cast.
pub Earned-cons :
    (members : List ℕ) (past : List Election) (b : Election) (l : Letter)
    → Earned members past l
    → Earned members (b ∷ past) l
Earned-cons members past b l f g = (inr (f g).0, (f g).1)

pub Backing-cons :
    (members : List ℕ) (past : List Election) (b : Election) (n t : ℕ) (votes : List ℕ)
    → Backing members past n t votes
    → Backing members (b ∷ past) n t votes
Backing-cons members past b n t votes (d, m, h) =
    (d, m, All-map (λ v. Held past v t n) (λ v. Held (b ∷ past) v t n) votes (λ v x. inr x) h)

pub Backed-cons :
    (members : List ℕ) (past : List Election) (b e : Election)
    → Backed members past e
    → Backed members (b ∷ past) e
Backed-cons members past b e (inl idle) = inl idle
Backed-cons members past b e (inr (el, size, votes)) =
    inr (el, size, Backing-cons members past b e.self e.current_term e.votes_granted votes)

-- Every input keeps the vote of the node's term.
pub Effect-KeepsVote : {i : Input} {e e' : Election} → InRange e → Effect i e e' → KeepsVote e e'
Effect-KeepsVote r (quiet t v g) = inr (t, λ k h. v ∙ h)
Effect-KeepsVote r (newer lt v f) = inl lt
Effect-KeepsVote r (stood t v g el) = inl (omega (arith, t, r))
Effect-KeepsVote r (voted c (inl lt) v g) = inl lt
Effect-KeepsVote r (voted c (inr (t, inl free)) v g) = inr (t, λ k h. ground (arith, free, h))
Effect-KeepsVote r (voted c (inr (t, inr same)) v g) = inr (t, λ k h. v ∙ (sym same ∙ h))
Effect-KeepsVote r (counted m n q a b t v x y z el) = inr (t, λ k h. v ∙ h)

some_inj : {a b : ℕ} → some a ≡ some b → a ≡ b
some_inj h = ground (arith, h)

module _ (past : List Election) (e e' : Election) (same : e'.self ≡ e.self) (keep : KeepsVote e e')
    (old : Follows past e) where
  f :
      (t k : ℕ)
      → Held past e'.self t k
      → (t ≤ e.current_term) × (t ≡ e.current_term → e.voted_for ≡ some k)
  f t k h = old t k (subst (λ v. Held past v t k) same h)

  older :
      (t k : ℕ)
      → Held past e'.self t k
      → (t ≤ e'.current_term) × (t ≡ e'.current_term → e'.voted_for ≡ some k)
  older t k h = elim keep [
    | inl lt ↦ (omega (arith, lt, (f t k h).0), λ q. ground (arith, q, lt, (f t k h).0))
    | inr (at, kept) ↦ (omega (arith, at, (f t k h).0), λ q. kept k ((f t k h).1 (q ∙ at)))
  ]

  pub Follows-self : Follows (e' ∷ past) e'
  Follows-self t k (inl (s, at, v)) = (omega (arith, at), λ q. v)
  Follows-self t k (inr h) = older t k h

  new_old :
      (v t k l : ℕ)
      → e'.self ≡ v
      → e'.current_term ≡ t
      → e'.voted_for ≡ some k
      → Held past v t l
      → k ≡ l
  new_old v t k l s at a h =
      some_inj (sym a ∙ (older t l (subst (λ w. Held past w t l) (sym s) h)).1 (sym at))

  pub Single-cons : Single past → Single (e' ∷ past)
  Single-cons one v t k l (inl (s, at, a)) (inl (s2, at2, b)) = some_inj (sym a ∙ b)
  Single-cons one v t k l (inl (s, at, a)) (inr h) = new_old v t k l s at a h
  Single-cons one v t k l (inr h) (inl (s, at, b)) = sym (new_old v t l k s at b h)
  Single-cons one v t k l (inr h) (inr g) = one v t k l h g

pub Follows-other :
    (past : List Election) (e' e : Election)
    → e'.self ≢ e.self
    → Follows past e
    → Follows (e' ∷ past) e
Follows-other past e' e ne f t k (inl (s, at, v)) = ground (arith, s, ne)
Follows-other past e' e ne f t k (inr h) = f t k h
