-- ===== src/Election/Grants.antt =====
-- What a node of src/consensus/election.cpp says when it grants a vote.
use sententia.Prelude.{
  sub64, ℕ, ◌≡◌, refl, inl, inr, true, false, not, ◌&&◌, some, List, [], ◌∷◌, ◌++◌, ◌==◌, ltb, leb,
  arith, length, All, All-append, All-map, Bool-cases,
}
use sententia.Election.{
  Action, Election, RequestVote, VoteResponse, majority, reset_election_timer, observe_term,
  broadcast_heartbeat, become_leader, stand, become_candidate, tick, decide_vote, answer_vote,
  on_request_vote, has_vote, count_response, on_vote_response, follow, on_append_entries,
  on_append_response, heartbeats, vote_requests, is_leader, is_candidate, is_follower,
  voted_otherwise,
}
use sententia.Election.Effect.{
  Input, ticked, vote_requested, vote_answered, entries_appended, append_answered, log_moved,
  handle,
}

-- An action that grants no vote.
abbrev Plain : Action → Type 0
Plain a = a.vote_granted ≡ false

-- A granted vote is the node's own vote in its own term.
abbrev pub Honest : Election → Action → Type 0
Honest e a = a.vote_granted ≡ true → (a.term ≡ e.current_term) × (e.voted_for ≡ some a.to)

Plain→Honest : (e : Election) (a : Action) → Plain a → Honest e a
Plain→Honest e a p g = ground (arith, p, g)

heartbeats-Plain : (term : ℕ) (peers : List ℕ) → All Plain (heartbeats term peers)
unfolding heartbeats
heartbeats-Plain term [] = tt
heartbeats-Plain term (p ∷ ps) = (refl, heartbeats-Plain term ps)

vote_requests-Plain : (term last : ℕ) (peers : List ℕ) → All Plain (vote_requests term last peers)
unfolding vote_requests
vote_requests-Plain term last [] = tt
vote_requests-Plain term last (p ∷ ps) = (refl, vote_requests-Plain term last ps)

broadcast-Plain :
    (now : ℕ) (e : Election) (out : List Action)
    → All Plain out
    → All Plain (broadcast_heartbeat now (e, out)).1
unfolding broadcast_heartbeat
broadcast-Plain now e out h =
    All-append Plain out (heartbeats e.current_term e.peers) h
      (heartbeats-Plain e.current_term e.peers)

lead-Plain :
    (now : ℕ) (e : Election) (out : List Action)
    → All Plain out
    → All Plain (become_leader now (e, out)).1
unfolding become_leader
lead-Plain now e out h = broadcast-Plain now _ _ (All-append Plain out _ h (refl, tt))

candidate-Plain :
    (now : ℕ) (e : Election) (out : List Action)
    → All Plain out
    → All Plain (become_candidate now (e, out)).1
unfolding become_candidate
candidate-Plain now e out h =
    elim (Bool-cases (leb (majority (stand now e)) (length (stand now e).votes_granted))) [
      | inl alone ↦ rw alone (lead-Plain now (stand now e) out h)
      | inr more ↦ rw more (
          All-append Plain out _ h (
            vote_requests-Plain (stand now e).current_term (stand now e).last_log_seq
              (stand now e).peers))
    ]

tick-Plain :
    (now : ℕ) (e : Election) (out : List Action) → All Plain out → All Plain (tick now (e, out)).1
unfolding tick
tick-Plain now e out h = elim (Bool-cases (is_leader e.role)) [
  | inl leads ↦
      rw leads
        (elim (Bool-cases (leb e.config.heartbeat_interval (sub64 now e.last_heartbeat_sent))) [
          | inl due ↦ rw due (broadcast-Plain now e out h)
          | inr early ↦ rw early h
        ])
  | inr waits ↦
      rw waits (elim (Bool-cases (leb e.election_timeout (sub64 now e.last_heard_from_leader))) [
        | inl due ↦ rw due (candidate-Plain now e out h)
        | inr early ↦ rw early h
      ])
]

count-Plain :
    (msg : VoteResponse) (now : ℕ) (e : Election) (out : List Action)
    → All Plain out
    → All Plain (count_response msg now (e, out)).1
unfolding count_response
count-Plain msg now e out h =
    elim (Bool-cases (not (is_candidate e.role && msg.term == e.current_term))) [
      | inl late ↦ rw late h
      | inr running ↦ rw running (elim (Bool-cases (not msg.granted)) [
        | inl refused ↦ rw refused h
        | inr given ↦ rw given (elim (Bool-cases (has_vote msg.voter_id e.votes_granted)) [
          | inl known ↦ rw known h
          | inr new ↦
              rw new
                (elim (Bool-cases
                  (leb (majority e) (length (e.votes_granted ++ msg.voter_id ∷ [])))) [
                    | inl most ↦ rw most (lead-Plain now _ out h)
                    | inr few ↦ rw few h
                  ])
        ])
      ])
    ]

answered-Plain :
    (msg : VoteResponse) (now : ℕ) (e : Election) → All Plain (on_vote_response msg now (e, [])).1
unfolding on_vote_response
answered-Plain msg now e = elim (Bool-cases (observe_term msg.term now e).0) [
  | inl higher ↦ rw higher tt
  | inr level ↦ rw level (count-Plain msg now (observe_term msg.term now e).1 [] tt)
]

append-Plain :
    (term boss now : ℕ) (e : Election) → All Plain (on_append_entries term boss now (e, [])).1
unfolding on_append_entries follow
append-Plain term boss now e = elim (Bool-cases (ltb term e.current_term)) [
  | inl old ↦ rw old tt
  | inr fresh ↦ rw fresh (elim (Bool-cases (is_follower (observe_term term now e).1.role)) [
    | inl idle ↦ rw idle tt
    | inr busy ↦ rw busy (elim (Bool-cases (is_leader (observe_term term now e).1.role)) [
      | inl led ↦ rw led (refl, tt)
      | inr stood ↦ rw stood tt
    ])
  ])
]

response-Plain : (term now : ℕ) (e : Election) → All Plain (on_append_response term now (e, [])).1
unfolding on_append_response
response-Plain term now e = elim (Bool-cases (observe_term term now e).0) [
  | inl higher ↦ rw higher (refl, tt)
  | inr level ↦ rw level tt
]

decide-Honest :
    (msg : RequestVote) (now : ℕ) (e : Election)
    → (decide_vote msg now e).0 ≡ true
    → (decide_vote msg now e).1.voted_for ≡ some msg.candidate_id
unfolding decide_vote reset_election_timer
decide-Honest msg now e = elim (Bool-cases (ltb msg.term e.current_term)) [
  | inl old ↦ rw old (λ h. ground (arith, h))
  | inr fresh ↦ rw fresh (elim (Bool-cases (voted_otherwise e.voted_for msg.candidate_id)) [
    | inl other ↦ rw other (λ h. ground (arith, h))
    | inr free ↦ rw free (elim (Bool-cases (ltb msg.last_log_seq e.last_log_seq)) [
      | inl behind ↦ rw behind (λ h. ground (arith, h))
      | inr level ↦ rw level (λ h. refl)
    ])
  ])
]

request-Honest :
    (msg : RequestVote) (now : ℕ) (e : Election)
    → All (Honest (on_request_vote msg now (e, [])).0) (on_request_vote msg now (e, [])).1
unfolding on_request_vote answer_vote
request-Honest msg now e =
    (λ g. (refl, decide-Honest msg now (observe_term msg.term now e).1 g), tt)

honest :
    (i : Input) (e : Election)
    → All Plain (handle i e).1
    → All (Honest (handle i e).0) (handle i e).1
honest i e = All-map Plain (Honest (handle i e).0) (handle i e).1 (Plain→Honest (handle i e).0)

-- Every granted vote among the actions of an input names the node's term after the input, and goes
-- to the candidate the node then has its vote on.
pub grants_own_vote : (i : Input) (e : Election) → All (Honest (handle i e).0) (handle i e).1
unfolding handle
grants_own_vote (ticked now) e = honest (ticked now) e (tick-Plain now e [] tt)
grants_own_vote (vote_requested msg now) e = request-Honest msg now e
grants_own_vote (vote_answered msg now) e =
    honest (vote_answered msg now) e (answered-Plain msg now e)
grants_own_vote (entries_appended term boss now) e =
    honest (entries_appended term boss now) e (append-Plain term boss now e)
grants_own_vote (append_answered term now) e =
    honest (append_answered term now) e (response-Plain term now e)
grants_own_vote (log_moved seq) e = tt
