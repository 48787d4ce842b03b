-- ===== src/Election/Votes.antt =====
-- What a vote request of src/consensus/election.cpp is answered with, the term and the vote over one
-- input, the randomised timeout, and a leader that hears of a newer term.
use native.Mathlib.Nat.{mod-lt}
use sententia.Prelude.{
  sub64, sub64-exact, max, ◌/◌, ◌||◌, ℕ, ◌+◌, ◌≤◌, ◌<◌, ◌^◌, ◌≡◌, refl, ap, ◌∙◌, inl, inr, Bool,
  false, not, ◌&&◌, none, List, [], ◌∷◌, ◌++◌, ◌==◌, ltb, leb, arith, Bool-cases, inc64,
}
use sententia.Election.{
  follower, leader, Action, send_vote_response, Election, RequestVote, VoteResponse, next_state,
  draw_jitter, reset_election_timer, observe_term, decide_vote, answer_vote, on_request_vote,
  on_vote_response, follow, on_append_entries, voted_otherwise,
}
use sententia.Election.Effect.{Input, handle, observe_cases}
use sententia.Election.Handlers.{handle-Effect}
use sententia.Election.Cluster.{InRange}
use sententia.Election.Cluster.Invariant.{KeepsVote, Effect-KeepsVote}

-- Whether a candidate deserves the vote: its term is not older, the node's vote is free in that term,
-- and its log is not behind.
abbrev pub deserves_vote : RequestVote → Election → Bool
deserves_vote msg e =
    leb e.current_term msg.term
    && (ltb e.current_term msg.term || not (voted_otherwise e.voted_for msg.candidate_id))
    && leb e.last_log_seq msg.last_log_seq

decided_level :
    (msg : RequestVote) (now : ℕ) (e : Election)
    → msg.term ≤ e.current_term
    → (decide_vote msg now e).0 ≡ deserves_vote msg e
unfolding decide_vote
decided_level msg now e h = ground (arith, h)

decided_fresh :
    (msg : RequestVote) (now : ℕ) (e : Election)
    → e.current_term ≡ msg.term
    → e.voted_for ≡ none
    → (decide_vote msg now e).0 ≡ leb e.last_log_seq msg.last_log_seq
unfolding decide_vote
decided_fresh msg now e t v = ground (arith, t, v)

decided_term :
    (msg : RequestVote) (now : ℕ) (e : Election)
    → (decide_vote msg now e).1.current_term ≡ e.current_term
unfolding decide_vote reset_election_timer
decided_term msg now e = ground arith

observed_log :
    (term now : ℕ) (e : Election) → (observe_term term now e).1.last_log_seq ≡ e.last_log_seq
unfolding observe_term reset_election_timer
observed_log term now e = ground arith

request_term :
    (msg : RequestVote) (now : ℕ) (e : Election)
    → (decide_vote msg now (observe_term msg.term now e).1).1.current_term
      ≡ max e.current_term msg.term
request_term msg now e =
    decided_term msg now (observe_term msg.term now e).1 ∙ elim (observe_cases msg.term now e) [
      | inl (same, le) ↦ rw (same, observe_term msg.term now e) (ground (arith, le))
      | inr (_, lt, at, _, _) ↦ rw at (ground (arith, lt, at))
    ]

request_grant :
    (msg : RequestVote) (now : ℕ) (e : Election)
    → (decide_vote msg now (observe_term msg.term now e).1).0 ≡ deserves_vote msg e
request_grant msg now e = elim (observe_cases msg.term now e) [
  | inl (same, le) ↦ rw (same, observe_term msg.term now e) (decided_level msg now e le)
  | inr (_, lt, at, unset, _) ↦
      let e1 = (observe_term msg.term now e).1 in
      decided_fresh msg now e1 at unset
      ∙ (ap (λ l. leb l msg.last_log_seq) (observed_log msg.term now e) ∙ ground (arith, lt, at))
]

-- The answer to a vote request goes to the candidate, in the newer of the two terms, and grants the
-- vote exactly when the candidate deserves it.
pub answered_request :
    (msg : RequestVote) (now : ℕ) (e : Election) (out : List Action)
    → (on_request_vote msg now (e, out)).1
      ≡ out
        ++ record {
          kind = send_vote_response;
          to = msg.candidate_id;
          term = max e.current_term msg.term;
          last_log_seq = 0;
          vote_granted = deserves_vote msg e;
        }
          ∷ []
unfolding on_request_vote answer_vote
answered_request msg now e out = rw (request_term msg now e, request_grant msg now e) refl

-- Over one input of a node whose next term is a 64-bit number, the term grows, or it stays and the
-- vote that the node has in it stands.
pub handle-KeepsVote : (i : Input) (e : Election) → InRange e → KeepsVote e (handle i e).0
handle-KeepsVote i e r = Effect-KeepsVote r (handle-Effect i e)

jitter_le :
    (e : Election)
    → sub64 e.config.election_timeout_max e.config.election_timeout_min + 1 < 2 ^ 64
    → (draw_jitter e).0 ≤ sub64 e.config.election_timeout_max e.config.election_timeout_min
unfolding draw_jitter
jitter_le e fits =
    let span = sub64 e.config.election_timeout_max e.config.election_timeout_min in
    elim (Bool-cases (span == 0)) [
      | inl none_left ↦ rw none_left (omega arith)
      | inr some_left ↦
          let wide : inc64 span ≡ span + 1 = omega (arith, fits) in
          rw (some_left, wide)
            (omega (arith, mod-lt (next_state e.rng_state / 2 ^ 17) {m = span + 1} (omega arith)))
    ]

-- The timeout that a node draws lies between the configured bounds, if these are in order and their
-- distance is below the last 64-bit number.
pub timeout_bounds :
    (now : ℕ) (e : Election)
    → e.config.election_timeout_min ≤ e.config.election_timeout_max
    → e.config.election_timeout_max + 1 < 2 ^ 64
    → (e.config.election_timeout_min ≤ (reset_election_timer now e).election_timeout)
      × ((reset_election_timer now e).election_timeout ≤ e.config.election_timeout_max)
unfolding reset_election_timer
timeout_bounds now e order fits =
    let x = sub64-exact _ _ order in
    let j = jitter_le e (omega (arith, x, fits)) in
    (ground (arith, j, x, order, fits), ground (arith, j, x, order, fits))

-- A leader that hears of a newer term through an append becomes a follower of that term without a
-- `SteppedDown` action, and so does one that hears of it through a vote response.
pub silent_step_down :
    (term boss now : ℕ) (msg : VoteResponse) (e : Election) (out : List Action)
    → e.role ≡ leader
    → e.current_term < term
    → e.current_term < msg.term
    → ((on_append_entries term boss now (e, out)).1 ≡ out)
      × ((on_append_entries term boss now (e, out)).0.role ≡ follower)
      × ((on_append_entries term boss now (e, out)).0.current_term ≡ term)
      × ((on_vote_response msg now (e, out)).1 ≡ out)
      × ((on_vote_response msg now (e, out)).0.role ≡ follower)
      × ((on_vote_response msg now (e, out)).0.current_term ≡ msg.term)
unfolding on_append_entries observe_term reset_election_timer follow on_vote_response
silent_step_down term boss now msg e out led h g =
    let old : ltb term e.current_term ≡ false = ground (arith, h) in
    let fresh : leb term e.current_term ≡ false = ground (arith, h) in
    let higher : leb msg.term e.current_term ≡ false = ground (arith, g) in
    rw (old, fresh, higher) (refl, refl, refl, refl, refl, refl)
