-- ===== src/Election/Cluster.antt =====
-- The nodes of a cluster of src/consensus/election.cpp that run together, as apps/node/main.cpp wires
-- them: each handler's actions become messages. A granted or refused vote reaches its candidate any
-- number of times, in any order, or never; every other input may be anything at any time.
pub mod Invariant
pub mod Step
pub mod Safety
use mathlib.Core.List.{Memᴰ}
use sententia.Prelude.{
  ℕ, ◌+◌, ◌<◌, ◌^◌, ◌≡◌, ◌⊎◌, Bool, true, false, Option, some, List, [], ◌∷◌, ◌++◌, ◌==◌,
  if◌then◌else◌,
}
use sententia.Election.{
  NodeRole, leader, ActionKind, send_vote_response, Action, ElectionConfig, Election, VoteResponse,
  new_election,
}
use sententia.Election.Effect.{Input, vote_answered, handle}
use sententia.Election.Quorum.{Voter, without}

pub record Letter : Type 0 where
  pub to : ℕ
  pub message : VoteResponse

pub record Cluster : Type 0 where
  pub nodes : ℕ → Election
  -- The vote responses sent so far.
  pub letters : List Letter
  -- The states that nodes have been in, the last one first.
  pub past : List Election

abbrev pub is_vote_response : ActionKind → Bool
is_vote_response send_vote_response = true
is_vote_response _ = false

-- The `SendVoteResponse` case of `runActions`, for each action of node `n`.
unfoldable pub run_actions : ℕ → List Action → List Letter
run_actions n [] = []
run_actions n (a ∷ actions) =
    let rest = run_actions n actions in
    if is_vote_response a.kind
    then record {
      to = a.to;
      message = record { term = a.term; voter_id = n; granted = a.vote_granted };
    }
      ∷ rest
    else rest

abbrev pub set_node : ℕ → Election → (ℕ → Election) → ℕ → Election
set_node n e nodes m = if m == n then e else nodes m

unfoldable pub run_input : ℕ → Input → Cluster → Cluster
run_input n i c = record {
  nodes = set_node n (handle i (c.nodes n)).0 c.nodes;
  letters = run_actions n (handle i (c.nodes n)).1 ++ c.letters;
  past = (handle i (c.nodes n)).0 ∷ c.past;
}

-- Every member starts with the others as its peers.
unfoldable pub start : List ℕ → (ℕ → ElectionConfig) → Cluster
start members setup = record {
  nodes = λ n. new_election n (without n members) (setup n);
  letters = [];
  past = [];
}

-- A vote response was sent to the node that gets it.
abbrev pub Genuine : Input → ℕ → Cluster → Type 0
Genuine (vote_answered msg now) n c = Memᴰ (record { to = n; message = msg }) c.letters
Genuine _ n c = Unit

pub data Reachable (members : List ℕ) (setup : ℕ → ElectionConfig) : Cluster → Type 0 where
  started : Reachable members setup (start members setup)
  stepped :
      {c : Cluster} (n : ℕ) (i : Input)
      → Voter members n
      → Genuine i n c
      → Reachable members setup c
      → Reachable members setup (run_input n i c)

-- Some node was in a state of term `t` with its vote on `k`.
abbrev pub Held : List Election → ℕ → ℕ → ℕ → Type 0
Held [] v t k = ⊥
Held (b ∷ bs) v t k = ((b.self ≡ v) × (b.current_term ≡ t) × (b.voted_for ≡ some k)) ⊎ Held bs v t k

-- Node `n` has led term `t`.
abbrev pub Led : List Election → ℕ → ℕ → Type 0
Led [] n t = ⊥
Led (b ∷ bs) n t = ((b.self ≡ n) × (b.current_term ≡ t) × (b.role ≡ leader)) ⊎ Led bs n t

-- The next term is a 64-bit number.
abbrev pub InRange : Election → Type 0
InRange e = e.current_term + 1 < 2 ^ 64
