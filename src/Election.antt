-- ===== src/Election.antt =====
-- include/sententia/consensus/election.hpp and src/consensus/election.cpp. Time is an argument of
-- each handler; a handler takes and returns the node with the actions appended so far, a `Run`.
pub mod Effect
pub mod Frame
pub mod Grants
pub mod Cluster
pub mod Handlers
pub mod Quorum
pub mod Votes
use Prim.Native.Nat.{bit_xor}
use sententia.Prelude.{
  ℕ, ◌+◌, ◌*◌, ◌/◌, ◌%◌, ◌^◌, max, Bool, true, false, not, ◌&&◌, Option, none, some, List, [], ◌∷◌,
  ◌++◌, ◌==◌, ltb, leb, if◌then◌else◌, inc64, add64, sub64, length,
}

pub data NodeRole : Type 0 where
  follower candidate leader : NodeRole

pub record ElectionConfig : Type 0 where
  pub heartbeat_interval : ℕ
  pub election_timeout_min : ℕ
  pub election_timeout_max : ℕ
  pub random_seed : ℕ

pub data ActionKind : Type 0 where
  send_request_vote send_vote_response send_heartbeat became_leader stepped_down : ActionKind

pub record Action : Type 0 where
  pub kind : ActionKind
  pub to : ℕ
  pub term : ℕ
  pub last_log_seq : ℕ
  pub vote_granted : Bool

pub record ElectionStats : Type 0 where
  pub elections_started : ℕ
  pub elections_won : ℕ
  pub elections_lost_to_higher_term : ℕ
  pub votes_granted : ℕ
  pub votes_refused : ℕ
  pub votes_refused_stale_log : ℕ
  pub step_downs : ℕ
  pub heartbeats_sent : ℕ
  pub highest_term_seen : ℕ

pub record Election : Type 0 where
  pub self : ℕ
  pub peers : List ℕ
  pub config : ElectionConfig
  pub role : NodeRole
  pub current_term : ℕ
  pub voted_for : Option ℕ
  pub leader_id : Option ℕ
  pub last_log_seq : ℕ
  pub last_heard_from_leader : ℕ
  pub election_timeout : ℕ
  pub last_heartbeat_sent : ℕ
  pub votes_granted : List ℕ
  pub rng_state : ℕ
  pub stats : ElectionStats

pub record RequestVote : Type 0 where
  pub term : ℕ
  pub candidate_id : ℕ
  pub last_log_seq : ℕ

pub record VoteResponse : Type 0 where
  pub term : ℕ
  pub voter_id : ℕ
  pub granted : Bool

abbrev pub Run : Type 0
Run = Election × List Action

abbrev pub majority : Election → ℕ
majority e = (length e.peers + 1) / 2 + 1

-- `nextRandom`: the next state of the generator; the value is its high bits.
unfoldable pub next_state : ℕ → ℕ
next_state s = (s * 6364136223846793005 + 1442695040888963407) % 2 ^ 64

-- The jitter of `resetElectionTimer` and the generator's state after it.
unfoldable pub draw_jitter : Election → ℕ × ℕ
unfolding next_state
draw_jitter e =
    let span = sub64 e.config.election_timeout_max e.config.election_timeout_min in
    if span == 0
    then (0, e.rng_state)
    else (next_state e.rng_state / 2 ^ 17 % inc64 span, next_state e.rng_state)

unfoldable pub reset_election_timer : ℕ → Election → Election
reset_election_timer now e =
    let (jitter, rng) = draw_jitter e in
    record e {
      last_heard_from_leader = now;
      rng_state = rng;
      election_timeout = add64 e.config.election_timeout_min jitter;
    }

abbrev no_stats : ElectionStats
no_stats = record {
  elections_started = 0;
  elections_won = 0;
  elections_lost_to_higher_term = 0;
  votes_granted = 0;
  votes_refused = 0;
  votes_refused_stale_log = 0;
  step_downs = 0;
  heartbeats_sent = 0;
  highest_term_seen = 0;
}

unfoldable pub new_election : ℕ → List ℕ → ElectionConfig → Election
unfolding reset_election_timer draw_jitter
new_election self peers config = reset_election_timer 0 (record {
  self = self;
  peers = peers;
  config = config;
  role = follower;
  current_term = 0;
  voted_for = none;
  leader_id = none;
  last_log_seq = 0;
  last_heard_from_leader = 0;
  election_timeout = 0;
  last_heartbeat_sent = 0;
  votes_granted = [];
  rng_state = bit_xor config.random_seed (add64 self 0x9E3779B97F4A7C15);
  stats = no_stats;
})

abbrev pub is_leader : NodeRole → Bool
is_leader leader = true
is_leader _ = false

-- `if (wasLeader) ++stats_.stepDowns;`
abbrev count_step_down : NodeRole → ElectionStats → ElectionStats
count_step_down r s = if is_leader r then record s { step_downs = inc64 s.step_downs } else s

unfoldable pub observe_term : ℕ → ℕ → Election → Bool × Election
observe_term term now e = if leb term e.current_term then (false, e) else (
  true,
  reset_election_timer now (record e {
    current_term = term;
    voted_for = none;
    role = follower;
    leader_id = none;
    votes_granted = [];
    stats =
        count_step_down e.role
          (record e.stats { highest_term_seen = max e.stats.highest_term_seen term });
  }),
)

unfoldable pub become_follower : ℕ → Option ℕ → ℕ → Election → Election
become_follower term boss now e = reset_election_timer now (record e {
  role = follower;
  current_term = term;
  leader_id = boss;
  votes_granted = [];
  stats = count_step_down e.role e.stats;
})

abbrev plain : ActionKind → ℕ → ℕ → Action
plain kind to term = record {
  kind = kind;
  to = to;
  term = term;
  last_log_seq = 0;
  vote_granted = false;
}

heartbeats : ℕ → List ℕ → List Action
heartbeats term [] = []
heartbeats term (peer ∷ peers) = plain send_heartbeat peer term ∷ heartbeats term peers

unfoldable pub broadcast_heartbeat : ℕ → Run → Run
unfolding heartbeats
broadcast_heartbeat now (e, out) = (
  record e {
    last_heartbeat_sent = now;
    stats = record e.stats { heartbeats_sent = add64 e.stats.heartbeats_sent (length e.peers) };
  },
  out ++ heartbeats e.current_term e.peers,
)

unfoldable pub become_leader : ℕ → Run → Run
become_leader now (e, out) = broadcast_heartbeat now (
  record e {
    role = leader;
    leader_id = some e.self;
    stats = record e.stats { elections_won = inc64 e.stats.elections_won };
    last_heartbeat_sent = now;
  },
  out ++ plain became_leader e.self e.current_term ∷ [],
)

vote_requests : ℕ → ℕ → List ℕ → List Action
vote_requests term last [] = []
vote_requests term last (peer ∷ peers) =
    record {
      kind = send_request_vote;
      to = peer;
      term = term;
      last_log_seq = last;
      vote_granted = false;
    }
    ∷ vote_requests term last peers

-- The state that `becomeCandidate` enters before it counts votes.
unfoldable pub stand : ℕ → Election → Election
stand now e = reset_election_timer now (record e {
  current_term = inc64 e.current_term;
  role = candidate;
  leader_id = none;
  voted_for = some e.self;
  votes_granted = e.self ∷ [];
  stats = record e.stats {
    highest_term_seen = max e.stats.highest_term_seen (inc64 e.current_term);
    elections_started = inc64 e.stats.elections_started;
  };
})

unfoldable pub become_candidate : ℕ → Run → Run
unfolding vote_requests
become_candidate now (e, out) =
    let e' = stand now e in
    if leb (majority e') (length e'.votes_granted)
    then become_leader now (e', out)
    else (e', out ++ vote_requests e'.current_term e'.last_log_seq e'.peers)

unfoldable pub tick : ℕ → Run → Run
tick now (e, out) =
    if is_leader e.role
    then (if leb e.config.heartbeat_interval (sub64 now e.last_heartbeat_sent)
        then broadcast_heartbeat now (e, out)
        else (e, out))
    else (if leb e.election_timeout (sub64 now e.last_heard_from_leader)
        then become_candidate now (e, out)
        else (e, out))

abbrev voted_otherwise : Option ℕ → ℕ → Bool
voted_otherwise none c = false
voted_otherwise (some v) c = not (v == c)

-- The three refusals of `onRequestVote` in their order, and the vote.
unfoldable pub decide_vote : RequestVote → ℕ → Election → Bool × Election
decide_vote msg now e =
    if ltb msg.term e.current_term
    then (false, e)
    else if voted_otherwise e.voted_for msg.candidate_id
    then (false, e)
    else if ltb msg.last_log_seq e.last_log_seq
    then (
      false,
      record e {
        stats = record e.stats { votes_refused_stale_log = inc64 e.stats.votes_refused_stale_log };
      },
    )
    else (true, reset_election_timer now (record e { voted_for = some msg.candidate_id }))

abbrev count_vote : Bool → ElectionStats → ElectionStats
count_vote true s = record s { votes_granted = inc64 s.votes_granted }
count_vote false s = record s { votes_refused = inc64 s.votes_refused }

unfoldable pub answer_vote : RequestVote → Bool × Election → List Action → Run
answer_vote msg (granted, e) out = (
  record e { stats = count_vote granted e.stats },
  out
      ++ record {
        kind = send_vote_response;
        to = msg.candidate_id;
        term = e.current_term;
        last_log_seq = 0;
        vote_granted = granted;
      }
        ∷ [],
)

unfoldable pub on_request_vote : RequestVote → ℕ → Run → Run
on_request_vote msg now (e, out) =
    answer_vote msg (decide_vote msg now (observe_term msg.term now e).1) out

-- `std::find`
unfoldable pub has_vote : ℕ → List ℕ → Bool
has_vote v [] = false
has_vote v (x ∷ xs) = if x == v then true else has_vote v xs

abbrev pub is_candidate : NodeRole → Bool
is_candidate candidate = true
is_candidate _ = false

unfoldable pub count_response : VoteResponse → ℕ → Run → Run
count_response msg now (e, out) =
    if not (is_candidate e.role && msg.term == e.current_term)
    then (e, out)
    else if not msg.granted
    then (e, out)
    else if has_vote msg.voter_id e.votes_granted
    then (e, out)
    else let e' = record e { votes_granted = e.votes_granted ++ msg.voter_id ∷ [] } in
      if leb (majority e') (length e'.votes_granted) then become_leader now (e', out) else (e', out)

unfoldable pub on_vote_response : VoteResponse → ℕ → Run → Run
on_vote_response msg now (e, out) =
    let (higher, e') = observe_term msg.term now e in
    if higher
    then (
      record e' {
        stats = record e'.stats {
          elections_lost_to_higher_term = inc64 e'.stats.elections_lost_to_higher_term;
        };
      },
      out,
    )
    else count_response msg now (e', out)

abbrev pub is_follower : NodeRole → Bool
is_follower follower = true
is_follower _ = false

unfoldable pub follow : ℕ → ℕ → ℕ → Run → Run
follow term boss now (e, out) =
    if is_follower e.role
    then (reset_election_timer now (record e { leader_id = some boss }), out)
    else (
      become_follower term (some boss) now e,
      (if is_leader e.role then out ++ plain stepped_down e.self term ∷ [] else out),
    )

unfoldable pub on_append_entries : ℕ → ℕ → ℕ → Run → Run
on_append_entries term boss now (e, out) =
    if ltb term e.current_term
    then (e, out)
    else follow term boss now ((observe_term term now e).1, out)

unfoldable pub on_append_response : ℕ → ℕ → Run → Run
on_append_response term now (e, out) =
    let (higher, e') = observe_term term now e in
    (e', (if higher then out ++ plain stepped_down e'.self term ∷ [] else out))

unfoldable pub set_last_log_seq : ℕ → Election → Election
set_last_log_seq seq e = record e { last_log_seq = seq }

unfoldable pub reset_volatile_state : Election → Election
reset_volatile_state e = record e {
  role = follower;
  leader_id = none;
  votes_granted = [];
  current_term = 0;
  voted_for = none;
  last_heard_from_leader = 0;
  last_heartbeat_sent = 0;
}
