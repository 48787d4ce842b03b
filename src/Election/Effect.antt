-- ===== src/Election/Effect.antt =====
-- The inputs of a node of src/consensus/election.cpp, and what one of them can do to its term, its
-- vote and its candidacy.
use sententia.Prelude.{
  ℕ, ◌≤◌, ◌<◌, ◌≡◌, refl, sym, ap, ◌⊎◌, inl, inr, Bool, true, false, not, ◌&&◌, Option, none, some,
  List, [], ◌∷◌, ◌++◌, ltb, leb, arith, length, Bool-cases, inc64, ==→≡,
}
use sententia.Election.{
  NodeRole, follower, candidate, leader, Action, Election, RequestVote, VoteResponse, Run, majority,
  reset_election_timer, observe_term, become_follower, tick, decide_vote, on_request_vote, has_vote,
  on_vote_response, follow, on_append_entries, on_append_response, set_last_log_seq, is_candidate,
  is_follower, voted_otherwise,
}

-- What can happen to a node: the calls of the application.
pub data Input : Type 0 where
  ticked : ℕ → Input
  vote_requested : RequestVote → ℕ → Input
  vote_answered : VoteResponse → ℕ → Input
  entries_appended : ℕ → ℕ → ℕ → Input
  append_answered : ℕ → ℕ → Input
  log_moved : ℕ → Input

unfoldable pub handle : Input → Election → Run
handle (ticked now) e = tick now (e, [])
handle (vote_requested msg now) e = on_request_vote msg now (e, [])
handle (vote_answered msg now) e = on_vote_response msg now (e, [])
handle (entries_appended term boss now) e = on_append_entries term boss now (e, [])
handle (append_answered term now) e = on_append_response term now (e, [])
handle (log_moved seq) e = (set_last_log_seq seq e, [])

-- A node that runs, or has won with a majority of its cluster.
abbrev pub Elected : Election → Type 0
Elected e = (e.role ≡ candidate) ⊎ ((e.role ≡ leader) × (majority e ≤ length e.votes_granted))

-- A node that gave up, or whose candidacy or leadership goes on as it was.
abbrev pub GoesOn : Election → Election → Type 0
GoesOn e e' =
    (e'.role ≡ follower)
    ⊎ ((e'.role ≡ e.role)
        × (e'.votes_granted ≡ e.votes_granted)
        × (e'.current_term ≡ e.current_term))

-- A vote for `c` that breaks no vote of the same term.
abbrev pub MayVote : Election → Election → ℕ → Type 0
MayVote e e' c =
    (e.current_term < e'.current_term)
    ⊎ ((e'.current_term ≡ e.current_term) × ((e.voted_for ≡ none) ⊎ (e.voted_for ≡ some c)))

-- What an input can do to the term, the vote and the candidacy of a node.
pub data Effect (i : Input) (e e' : Election) : Type 0 where
  quiet :
      e'.current_term ≡ e.current_term → e'.voted_for ≡ e.voted_for → GoesOn e e' → Effect i e e'
  newer :
      e.current_term < e'.current_term → e'.voted_for ≡ none → e'.role ≡ follower → Effect i e e'
  stood :
      e'.current_term ≡ inc64 e.current_term
      → e'.voted_for ≡ some e.self
      → e'.votes_granted ≡ e.self ∷ []
      → Elected e'
      → Effect i e e'
  voted : (c : ℕ) → MayVote e e' c → e'.voted_for ≡ some c → GoesOn e e' → Effect i e e'
  counted :
      (msg : VoteResponse) (now : ℕ)
      → i ≡ vote_answered msg now
      → msg.granted ≡ true
      → msg.term ≡ e.current_term
      → e'.current_term ≡ e.current_term
      → e'.voted_for ≡ e.voted_for
      → has_vote msg.voter_id e.votes_granted ≡ false
      → e.role ≡ candidate
      → e'.votes_granted ≡ e.votes_granted ++ msg.voter_id ∷ []
      → Elected e'
      → Effect i e e'

pub stays : (i : Input) (e : Election) → Effect i e e
stays i e = quiet refl refl (inr (refl, refl, refl))

-- `observeTerm` does nothing, or moves the node to a newer term as a follower with no vote.
pub observe_cases :
    (term now : ℕ) (e : Election)
    → ((observe_term term now e ≡ (false, e)) × (term ≤ e.current_term))
      ⊎ (((observe_term term now e).0 ≡ true)
          × (e.current_term < (observe_term term now e).1.current_term)
          × ((observe_term term now e).1.current_term ≡ term)
          × ((observe_term term now e).1.voted_for ≡ none)
          × ((observe_term term now e).1.role ≡ follower))
unfolding observe_term reset_election_timer
observe_cases term now e = elim (Bool-cases (leb term e.current_term)) [
  | inl old ↦ rw old (inl (refl, ground arith))
  | inr new ↦ rw new (inr (refl, ground arith, refl, refl, refl))
]

pub not_below : {a b : ℕ} → ltb a b ≡ false → b ≤ a
not_below h = ground arith

pub at_least : {a b : ℕ} → leb a b ≡ true → a ≤ b
at_least h = ground arith

pub granted_of : (b : Bool) → not b ≡ false → b ≡ true
granted_of true h = refl
granted_of false h = ground (arith, h)

pub still_runs :
    (r : NodeRole) (b : Bool) → not (is_candidate r && b) ≡ false → (r ≡ candidate) × (b ≡ true)
still_runs candidate true h = (refl, refl)
still_runs candidate false h = ground (arith, h)
still_runs follower b h = ground (arith, h)
still_runs leader b h = ground (arith, h)

pub may_vote : (v : Option ℕ) (c : ℕ) → voted_otherwise v c ≡ false → (v ≡ none) ⊎ (v ≡ some c)
may_vote none c h = inl refl
may_vote (some w) c h = inr (ap some (==→≡ w c (ground (arith, h))))

pub follower_cases :
    (r : NodeRole) → ((is_follower r ≡ true) × (r ≡ follower)) ⊎ (is_follower r ≡ false)
follower_cases follower = inl (refl, refl)
follower_cases candidate = inr refl
follower_cases leader = inr refl

-- A decision on a vote moves neither the role nor the term.
pub vote_frame :
    (msg : RequestVote) (now : ℕ) (e : Election)
    → ((decide_vote msg now e).1.role ≡ e.role)
      × ((decide_vote msg now e).1.current_term ≡ e.current_term)
      × (((decide_vote msg now e).1.voted_for ≡ e.voted_for)
          ⊎ ((c : ℕ) × ((decide_vote msg now e).1.voted_for ≡ some c)))
unfolding decide_vote reset_election_timer
vote_frame msg now e = elim (Bool-cases (ltb msg.term e.current_term)) [
  | inl old ↦ rw old (refl, refl, inl refl)
  | inr fresh ↦ rw fresh (elim (Bool-cases (voted_otherwise e.voted_for msg.candidate_id)) [
    | inl other ↦ rw other (refl, refl, inl refl)
    | inr free ↦ rw free (elim (Bool-cases (ltb msg.last_log_seq e.last_log_seq)) [
      | inl behind ↦ rw behind (refl, refl, inl refl)
      | inr level ↦ rw level (refl, refl, inr (msg.candidate_id, refl))
    ])
  ])
]

-- A follower that hears from the leader of its term keeps its vote.
pub follow_frame :
    (term boss now : ℕ) (e : Election) (out : List Action)
    → e.current_term ≡ term
    → ((follow term boss now (e, out)).0.role ≡ follower)
      × ((follow term boss now (e, out)).0.current_term ≡ e.current_term)
      × ((follow term boss now (e, out)).0.voted_for ≡ e.voted_for)
unfolding follow become_follower reset_election_timer
follow_frame term boss now e out h = elim (follower_cases e.role) [
  | inl (test, idle) ↦ rw test (idle, refl, refl)
  | inr busy ↦ rw busy (refl, sym h, refl)
]
