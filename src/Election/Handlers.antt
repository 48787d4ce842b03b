-- ===== src/Election/Handlers.antt =====
-- One handler of src/consensus/election.cpp at a time: terms grow, a vote stands for its term, and
-- where the votes of a candidate come from.
use sententia.Prelude.{
  sub64, ℕ, ◌≤◌, ◌<◌, ◌≡◌, refl, ◌∙◌, ◌⊎◌, inl, inr, Bool, not, ◌&&◌, none, some, List, [], ◌∷◌,
  ◌++◌, ◌==◌, ltb, leb, arith, length, Bool-cases, ==→≡,
}
use sententia.Election.{
  follower, Action, Election, RequestVote, VoteResponse, majority, reset_election_timer,
  observe_term, broadcast_heartbeat, become_leader, stand, become_candidate, tick, decide_vote,
  answer_vote, on_request_vote, has_vote, count_response, on_vote_response, follow,
  on_append_entries, on_append_response, set_last_log_seq, is_leader, is_candidate, voted_otherwise,
}
use sententia.Election.Effect.{
  Input, ticked, vote_requested, vote_answered, entries_appended, append_answered, log_moved,
  handle, Elected, Effect, quiet, newer, stood, voted, counted, stays, observe_cases, not_below,
  at_least, granted_of, still_runs, may_vote, vote_frame, follow_frame,
}

module _ (i : Input) where
  lead-Elected :
      (now : ℕ) (e : Election) (out : List Action)
      → majority e ≤ length e.votes_granted
      → Elected (become_leader now (e, out)).0
  unfolding become_leader broadcast_heartbeat
  lead-Elected now e out h = inr (refl, h)

  candidate-Effect :
      (now : ℕ) (e : Election) (out : List Action) → Effect i e (become_candidate now (e, out)).0
  unfolding become_candidate become_leader broadcast_heartbeat stand reset_election_timer
  candidate-Effect now e out = elim (Bool-cases (leb (majority e) 1)) [
    | inl alone ↦ rw alone (stood refl refl refl (inr (refl, ground arith)))
    | inr more ↦ rw more (stood refl refl refl (inl refl))
  ]

  tick-Effect : (now : ℕ) (e : Election) (out : List Action) → Effect i e (tick now (e, out)).0
  unfolding tick
  tick-Effect now e out = elim (Bool-cases (is_leader e.role)) [
    | inl leads ↦
        rw leads
          (elim (Bool-cases (leb e.config.heartbeat_interval (sub64 now e.last_heartbeat_sent))) [
            | inl due ↦
                rw due (unfold broadcast_heartbeat in quiet refl refl (inr (refl, refl, refl)))
            | inr early ↦ rw early (stays i e)
          ])
    | inr waits ↦
        rw waits (elim (Bool-cases (leb e.election_timeout (sub64 now e.last_heard_from_leader))) [
          | inl due ↦ rw due (candidate-Effect now e out)
          | inr early ↦ rw early (stays i e)
        ])
  ]

  vote-Effect : (msg : RequestVote) (now : ℕ) (e : Election) → Effect i e (decide_vote msg now e).1
  unfolding decide_vote reset_election_timer
  vote-Effect msg now e = elim (Bool-cases (ltb msg.term e.current_term)) [
    | inl old ↦ rw old (stays i e)
    | inr fresh ↦ rw fresh (elim (Bool-cases (voted_otherwise e.voted_for msg.candidate_id)) [
      | inl other ↦ rw other (stays i e)
      | inr free ↦ rw free (elim (Bool-cases (ltb msg.last_log_seq e.last_log_seq)) [
        | inl behind ↦ rw behind (quiet refl refl (inr (refl, refl, refl)))
        | inr level ↦ rw level (
            voted msg.candidate_id (inr (refl, may_vote e.voted_for msg.candidate_id free)) refl
              (inr (refl, refl, refl)))
      ])
    ])
  ]

  answer-Effect :
      (e : Election) (msg : RequestVote) (d : Bool × Election) (out : List Action)
      → Effect i e d.1
      → Effect i e (answer_vote msg d out).0
  unfolding answer_vote
  answer-Effect e msg d out (quiet a b c) = quiet a b c
  answer-Effect e msg d out (newer a b c) = newer a b c
  answer-Effect e msg d out (stood a b c el) = stood a b c el
  answer-Effect e msg d out (voted c m v g) = voted c m v g
  answer-Effect e msg d out (counted m n a b c e1 e2 e3 e4 e5 e6) =
      counted m n a b c e1 e2 e3 e4 e5 e6

  -- What follows a newer term.
  after_newer :
      (e e1 e2 : Election)
      → e.current_term < e1.current_term
      → e1.voted_for ≡ none
      → e1.role ≡ follower
      → (e2.role ≡ follower)
      → e2.current_term ≡ e1.current_term
      → ((e2.voted_for ≡ e1.voted_for) ⊎ ((c : ℕ) × (e2.voted_for ≡ some c)))
      → Effect i e e2
  after_newer e e1 e2 lt v r r2 t2 (inl v2) = newer (omega (arith, lt, t2)) (v2 ∙ v) r2
  after_newer e e1 e2 lt v r r2 t2 (inr (c, v2)) = voted c (inl (omega (arith, lt, t2))) v2 (inl r2)

  request-Effect :
      (msg : RequestVote) (now : ℕ) (e : Election) (out : List Action)
      → Effect i e (on_request_vote msg now (e, out)).0
  unfolding on_request_vote
  request-Effect msg now e out = elim (observe_cases msg.term now e) [
    | inl (same, le) ↦
        rw (same, observe_term msg.term now e)
          (answer-Effect e msg (decide_vote msg now e) out (vote-Effect msg now e))
    | inr (_, lt, _, unset, idle) ↦
        let e1 = (observe_term msg.term now e).1 in
        let frame = vote_frame msg now e1 in
        answer-Effect e msg (decide_vote msg now e1) out (
          after_newer e e1 (decide_vote msg now e1).1 lt unset idle (frame.0 ∙ idle) frame.1
            frame.2)
  ]

  append-Effect :
      (term boss now : ℕ) (e : Election) (out : List Action)
      → Effect i e (on_append_entries term boss now (e, out)).0
  unfolding on_append_entries
  append-Effect term boss now e out = elim (Bool-cases (ltb term e.current_term)) [
    | inl old ↦ rw old (stays i e)
    | inr fresh ↦ rw fresh (elim (observe_cases term now e) [
      | inl (same, le) ↦
          let frame = follow_frame term boss now e out (omega (arith, le, not_below fresh)) in
          rw (same, observe_term term now e) (quiet frame.1 frame.2 (inl frame.0))
      | inr (_, lt, at, unset, idle) ↦
          let e1 = (observe_term term now e).1 in
          let frame = follow_frame term boss now e1 out at in
          after_newer e e1 (follow term boss now (e1, out)).0 lt unset idle frame.0 frame.1
            (inl frame.2)
    ])
  ]

  response-Effect :
      (term now : ℕ) (e : Election) (out : List Action)
      → Effect i e (on_append_response term now (e, out)).0
  unfolding on_append_response
  response-Effect term now e out = elim (observe_cases term now e) [
    | inl (same, le) ↦ rw (same, observe_term term now e) (stays i e)
    | inr (_, lt, _, unset, idle) ↦ newer lt unset idle
  ]

  count-Effect :
      (msg : VoteResponse) (now : ℕ) (e : Election) (out : List Action)
      → i ≡ vote_answered msg now
      → Effect i e (count_response msg now (e, out)).0
  unfolding count_response become_leader broadcast_heartbeat
  count-Effect msg now e out h =
      elim (Bool-cases (not (is_candidate e.role && msg.term == e.current_term))) [
        | inl late ↦ rw late (stays i e)
        | inr running ↦
            let runs = still_runs e.role (msg.term == e.current_term) running in
            rw running (elim (Bool-cases (not msg.granted)) [
              | inl refused ↦ rw refused (stays i e)
              | inr given ↦ rw given (elim (Bool-cases (has_vote msg.voter_id e.votes_granted)) [
                | inl known ↦ rw known (stays i e)
                | inr new ↦
                    rw new
                      (elim (Bool-cases
                        (leb (majority e) (length (e.votes_granted ++ msg.voter_id ∷ [])))) [
                          | inl most ↦ rw most (
                              counted msg now h (granted_of msg.granted given)
                                (==→≡ msg.term e.current_term runs.1) refl refl new runs.0 refl
                                (inr (refl, at_least most)))
                          | inr few ↦ rw few (
                              counted msg now h (granted_of msg.granted given)
                                (==→≡ msg.term e.current_term runs.1) refl refl new runs.0 refl
                                (inl runs.0))
                        ])
              ])
            ])
      ]

  answered-Effect :
      (msg : VoteResponse) (now : ℕ) (e : Election) (out : List Action)
      → i ≡ vote_answered msg now
      → Effect i e (on_vote_response msg now (e, out)).0
  unfolding on_vote_response
  answered-Effect msg now e out h = elim (observe_cases msg.term now e) [
    | inl (same, le) ↦ rw (same, observe_term msg.term now e) (count-Effect msg now e out h)
    | inr (test, lt, _, unset, idle) ↦ rw test (newer lt unset idle)
  ]

-- The effect of every input.
pub handle-Effect : (i : Input) (e : Election) → Effect i e (handle i e).0
unfolding set_last_log_seq handle
handle-Effect (ticked now) e = tick-Effect (ticked now) now e []
handle-Effect (vote_requested msg now) e = request-Effect (vote_requested msg now) msg now e []
handle-Effect (vote_answered msg now) e = answered-Effect (vote_answered msg now) msg now e [] refl
handle-Effect (entries_appended term boss now) e =
    append-Effect (entries_appended term boss now) term boss now e []
handle-Effect (append_answered term now) e =
    response-Effect (append_answered term now) term now e []
handle-Effect (log_moved seq) e = quiet refl refl (inr (refl, refl, refl))
