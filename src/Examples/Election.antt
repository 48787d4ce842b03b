-- ===== src/Examples/Election.antt =====
-- Runs of src/consensus/election.cpp: three nodes, the first of which times out and is elected.
use mathlib.Core.List.Memᴰ
use sententia.Prelude.{
  sub64, ℕ, max, ◌≡◌, refl, inl, true, false, some, List, [], ◌∷◌, ◌++◌, arith, All,
}
use sententia.Election.{
  leader, follower, ElectionConfig, Election, RequestVote, VoteResponse, send_vote_response,
  new_election, reset_election_timer, draw_jitter, observe_term, decide_vote, answer_vote,
  on_request_vote, count_response, on_vote_response, become_leader, broadcast_heartbeat,
  become_candidate, stand, tick, has_vote, next_state, on_append_entries,
}
use sententia.Election.Effect.{ticked, vote_requested, vote_answered, handle}
use sententia.Election.Quorum.{without}
use sententia.Election.Cluster.{
  Cluster, InRange, Reachable, started, stepped, run_input, run_actions, start, Led,
}
use sententia.Election.Cluster.Invariant.{KeepsVote}
use sententia.Election.Cluster.Safety.{one_leader}
use sententia.Election.Votes.{deserves_vote, answered_request, handle-KeepsVote, silent_step_down}

abbrev setup : ℕ → ElectionConfig
setup n = record {
  heartbeat_interval = 50;
  election_timeout_min = 150;
  election_timeout_max = 300;
  random_seed = 1;
}

abbrev members : List ℕ
members = 1 ∷ 2 ∷ 3 ∷ []

abbrev request : RequestVote
request = record { term = 1; candidate_id = 1; last_log_seq = 0 }

abbrev answer : VoteResponse
answer = record { term = 1; voter_id = 2; granted = true }

abbrev asked : Cluster
asked = run_input 1 (ticked 1000) (start members setup)

abbrev voted_once : Cluster
voted_once = run_input 2 (vote_requested request 1001) asked

abbrev elected : Cluster
elected = run_input 1 (vote_answered answer 1002) voted_once

elected_run : Reachable members setup elected
unfolding run_input run_actions start new_election reset_election_timer draw_jitter handle tick
    become_candidate stand become_leader broadcast_heartbeat on_request_vote observe_term
    decide_vote answer_vote has_vote sub64 without next_state
elected_run =
    stepped 1 (vote_answered answer 1002) refl (Memᴰ.head refl)
      (stepped 2 (vote_requested request 1001) refl tt (stepped 1 (ticked 1000) refl tt started))

elected-InRange : All InRange elected.past
unfolding run_input run_actions start new_election reset_election_timer draw_jitter handle tick
    become_candidate stand become_leader broadcast_heartbeat on_request_vote observe_term
    decide_vote answer_vote has_vote on_vote_response count_response sub64 without next_state
elected-InRange = (omega arith, (omega arith, (omega arith, tt)))

elected-Led : Led elected.past 1 1
unfolding run_input run_actions start new_election reset_election_timer draw_jitter handle tick
    become_candidate stand become_leader broadcast_heartbeat on_request_vote observe_term
    decide_vote answer_vote has_vote on_vote_response count_response sub64 without next_state
elected-Led = inl (refl, refl, refl)

one_leader_example : ◌≡◌ {A = ℕ} 1 1
one_leader_example =
    one_leader members setup elected 1 1 1 elected_run elected-InRange elected-Led elected-Led

abbrev first : Election
first = new_election 1 (2 ∷ 3 ∷ []) (setup 1)

abbrev boss : Election
boss = record first { role = leader; current_term = 4; voted_for = some 1 }

abbrev later : VoteResponse
later = record { term = 5; voter_id = 2; granted = false }

boss-InRange : InRange boss
unfolding new_election reset_election_timer
boss-InRange = omega arith

handle-KeepsVote_example : KeepsVote boss (handle (ticked 9) boss).0
handle-KeepsVote_example = handle-KeepsVote (ticked 9) boss boss-InRange

answered_request_example :
    (on_request_vote request 9 (boss, [])).1
    ≡ []
      ++ record {
        kind = send_vote_response;
        to = request.candidate_id;
        term = max boss.current_term request.term;
        last_log_seq = 0;
        vote_granted = deserves_vote request boss;
      }
        ∷ []
answered_request_example = answered_request request 9 boss []

silent_step_down_example :
    ((on_append_entries 5 2 9 (boss, [])).1 ≡ [])
    × ((on_append_entries 5 2 9 (boss, [])).0.role ≡ follower)
    × ((on_append_entries 5 2 9 (boss, [])).0.current_term ≡ 5)
    × ((on_vote_response later 9 (boss, [])).1 ≡ [])
    × ((on_vote_response later 9 (boss, [])).0.role ≡ follower)
    × ((on_vote_response later 9 (boss, [])).0.current_term ≡ later.term)
silent_step_down_example = silent_step_down 5 2 9 later boss [] refl (omega arith) (omega arith)
