-- ===== src/Election/Frame.antt =====
-- What no input of a node of src/consensus/election.cpp changes: its id and its peers. And what the
-- answer to a vote request says.
use sententia.Prelude.{
  sub64, ℕ, ◌≡◌, refl, ◌∙◌, inl, inr, not, ◌&&◌, List, [], ◌∷◌, ◌++◌, ◌==◌, ltb, leb, length,
  Bool-cases,
}
use sententia.Election.{
  Action, Election, RequestVote, VoteResponse, majority, reset_election_timer, observe_term,
  become_follower, broadcast_heartbeat, become_leader, stand, become_candidate, tick, decide_vote,
  answer_vote, on_request_vote, has_vote, count_response, on_vote_response, follow,
  on_append_entries, on_append_response, set_last_log_seq, is_leader, is_candidate, is_follower,
  voted_otherwise,
}
use sententia.Election.Effect.{
  Input, ticked, vote_requested, vote_answered, entries_appended, append_answered, log_moved,
  handle,
}

abbrev pub Same : Election → Election → Type 0
Same e e' = (e'.self ≡ e.self) × (e'.peers ≡ e.peers)

observe-Same : (term now : ℕ) (e : Election) → Same e (observe_term term now e).1
unfolding observe_term reset_election_timer
observe-Same term now e = elim (Bool-cases (leb term e.current_term)) [
  | inl old ↦ rw old (refl, refl)
  | inr new ↦ rw new (refl, refl)
]

candidate-Same :
    (now : ℕ) (e : Election) (out : List Action) → Same e (become_candidate now (e, out)).0
unfolding become_candidate become_leader broadcast_heartbeat stand reset_election_timer
candidate-Same now e out = elim (Bool-cases (leb (majority e) 1)) [
  | inl alone ↦ rw alone (refl, refl)
  | inr more ↦ rw more (refl, refl)
]

tick-Same : (now : ℕ) (e : Election) (out : List Action) → Same e (tick now (e, out)).0
unfolding tick broadcast_heartbeat
tick-Same now e out = elim (Bool-cases (is_leader e.role)) [
  | inl leads ↦
      rw leads
        (elim (Bool-cases (leb e.config.heartbeat_interval (sub64 now e.last_heartbeat_sent))) [
          | inl due ↦ rw due (refl, refl)
          | inr early ↦ rw early (refl, refl)
        ])
  | inr waits ↦
      rw waits (elim (Bool-cases (leb e.election_timeout (sub64 now e.last_heard_from_leader))) [
        | inl due ↦ rw due (candidate-Same now e out)
        | inr early ↦ rw early (refl, refl)
      ])
]

decide-Same : (msg : RequestVote) (now : ℕ) (e : Election) → Same e (decide_vote msg now e).1
unfolding decide_vote reset_election_timer
decide-Same msg now e = elim (Bool-cases (ltb msg.term e.current_term)) [
  | inl old ↦ rw old (refl, refl)
  | inr fresh ↦ rw fresh (elim (Bool-cases (voted_otherwise e.voted_for msg.candidate_id)) [
    | inl other ↦ rw other (refl, refl)
    | inr free ↦ rw free (elim (Bool-cases (ltb msg.last_log_seq e.last_log_seq)) [
      | inl behind ↦ rw behind (refl, refl)
      | inr level ↦ rw level (refl, refl)
    ])
  ])
]

follow-Same :
    (term boss now : ℕ) (e : Election) (out : List Action)
    → Same e (follow term boss now (e, out)).0
unfolding follow become_follower reset_election_timer
follow-Same term boss now e out = elim (Bool-cases (is_follower e.role)) [
  | inl idle ↦ rw idle (refl, refl)
  | inr busy ↦ rw busy (refl, refl)
]

append-Same :
    (term boss now : ℕ) (e : Election) (out : List Action)
    → Same e (on_append_entries term boss now (e, out)).0
unfolding on_append_entries
append-Same term boss now e out = elim (Bool-cases (ltb term e.current_term)) [
  | inl old ↦ rw old (refl, refl)
  | inr fresh ↦
      let o = observe-Same term now e in
      let f = follow-Same term boss now (observe_term term now e).1 out in
      rw fresh (f.0 ∙ o.0, f.1 ∙ o.1)
]

count-Same :
    (msg : VoteResponse) (now : ℕ) (e : Election) (out : List Action)
    → Same e (count_response msg now (e, out)).0
unfolding count_response become_leader broadcast_heartbeat
count-Same msg now e out =
    elim (Bool-cases (not (is_candidate e.role && msg.term == e.current_term))) [
      | inl late ↦ rw late (refl, refl)
      | inr running ↦ rw running (elim (Bool-cases (not msg.granted)) [
        | inl refused ↦ rw refused (refl, refl)
        | inr given ↦ rw given (elim (Bool-cases (has_vote msg.voter_id e.votes_granted)) [
          | inl known ↦ rw known (refl, refl)
          | inr new ↦
              rw new
                (elim (Bool-cases
                  (leb (majority e) (length (e.votes_granted ++ msg.voter_id ∷ [])))) [
                    | inl most ↦ rw most (refl, refl)
                    | inr few ↦ rw few (refl, refl)
                  ])
        ])
      ])
    ]

answered-Same :
    (msg : VoteResponse) (now : ℕ) (e : Election) (out : List Action)
    → Same e (on_vote_response msg now (e, out)).0
unfolding on_vote_response
answered-Same msg now e out = elim (Bool-cases (observe_term msg.term now e).0) [
  | inl higher ↦ rw higher (observe-Same msg.term now e)
  | inr level ↦
      let o = observe-Same msg.term now e in
      let c = count-Same msg now (observe_term msg.term now e).1 out in
      rw level (c.0 ∙ o.0, c.1 ∙ o.1)
]

pub handle-Same : (i : Input) (e : Election) → Same e (handle i e).0
unfolding handle on_request_vote answer_vote on_append_response set_last_log_seq
handle-Same (ticked now) e = tick-Same now e []
handle-Same (vote_requested msg now) e =
    let o = observe-Same msg.term now e in
    let d = decide-Same msg now (observe_term msg.term now e).1 in (d.0 ∙ o.0, d.1 ∙ o.1)
handle-Same (vote_answered msg now) e = answered-Same msg now e []
handle-Same (entries_appended term boss now) e = append-Same term boss now e []
handle-Same (append_answered term now) e = observe-Same term now e
handle-Same (log_moved seq) e = (refl, refl)
