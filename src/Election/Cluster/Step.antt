-- ===== src/Election/Cluster/Step.antt =====
-- One input of one node of a cluster keeps the invariant.
use mathlib.Core.List.{Memᴰ}
use sententia.Prelude.{
  ℕ, ◌+◌, ◌≡◌, ◌≢◌, refl, sym, ap, subst, ◌∙◌, inl, inr, true, false, Bool-cases, ◌==◌, ==→≡, some,
  List, [], ◌∷◌, ◌++◌, length, All, arith, All-append,
}
use sententia.Election.{NodeRole, follower, candidate, Election, VoteResponse, Action, has_vote}
use sententia.Election.Effect.{
  Input, vote_answered, Elected, GoesOn, Effect, quiet, newer, stood, voted, counted,
}
use sententia.Election.Frame.{Same}
use sententia.Election.Grants.{Honest}
use sententia.Election.Quorum.{Distinct-append, Voter}
use sententia.Election.Cluster.{Held, run_actions, set_node, is_vote_response}
use sententia.Election.Cluster.Invariant.{Earned, Backed, Backing, Backing-cons}

-- The vote responses that a node sends are its own votes.
pub letters-Earned :
    (members : List ℕ) (past : List Election) (n : ℕ) (e : Election) (actions : List Action)
    → e.self ≡ n
    → Voter members n
    → All (Honest e) actions
    → All (Earned members (e ∷ past)) (run_actions n actions)
unfolding run_actions
letters-Earned members past n e [] own m h = tt
letters-Earned members past n e (a ∷ actions) own m h =
    elim (Bool-cases (is_vote_response a.kind)) [
      | inl vote ↦ rw vote (
        (λ g. (inl (own, sym (h.0 g).0, (h.0 g).1), m)),
        letters-Earned members past n e actions own m h.1,
      )
      | inr plain ↦ rw plain (letters-Earned members past n e actions own m h.1)
    ]

pub Backing-same :
    (members : List ℕ) (past : List Election) {n n2 t t2 : ℕ} {votes votes2 : List ℕ}
    → n2 ≡ n
    → t2 ≡ t
    → votes2 ≡ votes
    → Backing members past n t votes
    → Backing members past n2 t2 votes2
Backing-same members past p q r h = rw (p, q, r) h

Same-Elected :
    (e e' : Election)
    → Same e e'
    → e'.role ≡ e.role
    → e'.votes_granted ≡ e.votes_granted
    → Elected e
    → Elected e'
Same-Elected e e' same r v (inl runs) = inl (r ∙ runs)
Same-Elected e e' same r v (inr (led, most)) = inr (r ∙ led, rw (same.1, v) most)

not_both : (r : NodeRole) → r ≡ candidate → r ≡ follower → ⊥
not_both r c f = ground (arith, c, f)

-- The votes behind a node after an input.
module _ (members : List ℕ) (past : List Election) (e e' : Election) (same : Same e e')
    (size : length e.peers + 1 ≡ length members) (old : Backed members past e) where
  sized' : length e'.peers + 1 ≡ length members
  sized' = ap (λ p. length p + 1) same.1 ∙ size

  goes-Backed : GoesOn e e' → Backed members (e' ∷ past) e'
  goes-Backed (inl idle) = inl idle
  goes-Backed (inr (r, v, t)) = elim old [
    | inl idle ↦ inl (r ∙ idle)
    | inr (el, _, votes) ↦ inr (
      Same-Elected e e' same r v el,
      sized',
      Backing-same members (e' ∷ past) same.0 t v
          (Backing-cons members past e' e.self e.current_term e.votes_granted votes),
    )
  ]

  stood-Backed :
      Voter members e.self
      → e'.voted_for ≡ some e.self
      → e'.votes_granted ≡ e.self ∷ []
      → Elected e'
      → Backed members (e' ∷ past) e'
  unfolding has_vote
  stood-Backed m v g el = inr (
    el,
    sized',
    Backing-same members (e' ∷ past) same.0 refl g
        ((refl, tt), (m, tt), (inl (same.0, refl, v), tt)),
  )

  counted-Backed :
      (w : ℕ)
      → Held past w e.current_term e.self
      → Voter members w
      → e'.current_term ≡ e.current_term
      → has_vote w e.votes_granted ≡ false
      → e.role ≡ candidate
      → e'.votes_granted ≡ e.votes_granted ++ w ∷ []
      → Elected e'
      → Backed members (e' ∷ past) e'
  counted-Backed w held m t new r g el = elim old [
    | inl idle ↦ elim (not_both e.role r idle) [ ]
    | inr (_, _, votes) ↦ inr (
      el,
      sized',
      Backing-same members (e' ∷ past) same.0 t g (
          Backing-cons members past e' e.self e.current_term (e.votes_granted ++ w ∷ []) (
            Distinct-append w e.votes_granted new votes.0,
            All-append (Voter members) e.votes_granted (w ∷ []) votes.1 (m, tt),
            All-append (λ v. Held past v e.current_term e.self) e.votes_granted (w ∷ []) votes.2
                (held, tt),
          )),
    )
  ]

  pub Effect-Backed :
      (i : Input)
      → Voter members e.self
      → ((msg : VoteResponse) (now : ℕ)
          → i ≡ vote_answered msg now
          → msg.granted ≡ true
          → Held past msg.voter_id msg.term e.self × Voter members msg.voter_id)
      → Effect i e e'
      → Backed members (e' ∷ past) e'
  Effect-Backed i m s (quiet t v g) = goes-Backed g
  Effect-Backed i m s (newer lt v f) = inl f
  Effect-Backed i m s (stood t v g el) = stood-Backed m v g el
  Effect-Backed i m s (voted c may v g) = goes-Backed g
  Effect-Backed i m s (counted msg now q given at t v new r g el) =
      let vote = s msg now q given in
      counted-Backed msg.voter_id (subst (λ k. Held past msg.voter_id k e.self) at vote.0) vote.1 t
        new r g el

-- What holds of every node after one of them moved.
pub set_node-lem {ℓ} :
    (P : ℕ → Election → Type ℓ) (n : ℕ) (e : Election) (nodes : ℕ → Election)
    → P n e
    → ((m : ℕ) → m ≢ n → P m (nodes m))
    → (m : ℕ) → P m (set_node n e nodes m)
set_node-lem P n e nodes p q m = elim (Bool-cases (m == n)) [
  | inl at ↦ rw at (subst (λ k. P k e) (sym (==→≡ m n at)) p)
  | inr off ↦ rw off (q m (λ s. ground (arith, off, s)))
]

pub All-lookup {ℓ κ} :
    {A : Type ℓ} (P : A → Type κ) (x : A) (xs : List A) → Memᴰ x xs → All P xs → P x
All-lookup P x [] h a = elim h [ ]
All-lookup P x (y ∷ ys) (Memᴰ.head s) a = subst P (sym s) a.0
All-lookup P x (y ∷ ys) (Memᴰ.tail h) a = All-lookup P x ys h a.1
