-- ===== src/Election/Cluster/Safety.antt =====
-- A cluster of src/consensus/election.cpp keeps its invariant from the start, and has one leader a
-- term.

use sententia.Prelude.{
  ℕ, ◌+◌, ◌/◌, ◌≤◌, ◌≡◌, ◌≢◌, refl, sym, ap, subst, ◌∙◌, inl, inr, true, List, [], ◌∷◌, length, All,
  arith, All-map, All-append,
}
use sententia.Election.{
  leader, Election, majority, ElectionConfig, VoteResponse, new_election, reset_election_timer,
}
use sententia.Election.Effect.{Input, vote_answered, handle, Elected}
use sententia.Election.Handlers.{handle-Effect}
use sententia.Election.Frame.{Same, handle-Same}
use sententia.Election.Grants.{grants_own_vote}
use sententia.Election.Quorum.{Voter, length-without, majorities_meet}
use sententia.Election.Cluster.{
  Held, Led, Cluster, InRange, Genuine, run_actions, run_input, start, Reachable, started, stepped,
}
use sententia.Election.Cluster.Invariant.{
  Inv, Follows, Earned, Backed, Backing, KeepsVote, Earned-cons, Backed-cons, Effect-KeepsVote,
  Follows-self, Follows-other, Single-cons,
}
use sententia.Election.Cluster.Step.{
  letters-Earned, Backing-same, Effect-Backed, set_node-lem, All-lookup,
}

start-Inv : (members : List ℕ) (setup : ℕ → ElectionConfig) → Inv members (start members setup)
unfolding start new_election reset_election_timer
start-Inv members setup = record {
  in_range = λ n. ground arith;
  own = λ n. refl;
  sized = λ n m. omega (arith, length-without n members m);
  follows = λ n t k h. elim h [ ];
  single = λ v t k l h g. elim h [ ];
  earned = tt;
  backed = λ n. inl refl;
  won = tt;
}

module _ (members : List ℕ) (c : Cluster) (inv : Inv members c) (n : ℕ) (i : Input)
    (m : Voter members n) (g : Genuine i n c) where
  abbrev e : Election
  e = c.nodes n

  abbrev e' : Election
  e' = (handle i (c.nodes n)).0

  same : Same e e'
  same = handle-Same i e

  own' : e'.self ≡ n
  own' = same.0 ∙ inv.own n

  keep : KeepsVote e e'
  keep = Effect-KeepsVote (inv.in_range n) (handle-Effect i e)

  elsewhere : (k : ℕ) → k ≢ n → e'.self ≢ (c.nodes k).self
  elsewhere k ne s = ne (sym (inv.own k) ∙ (sym s ∙ own'))

  vouched :
      (msg : VoteResponse) (now : ℕ)
      → i ≡ vote_answered msg now
      → msg.granted ≡ true
      → Held c.past msg.voter_id msg.term e.self × Voter members msg.voter_id
  vouched msg now q given =
      let vote =
        All-lookup (Earned members c.past) _ c.letters (subst (λ j. Genuine j n c) q g) inv.earned
          given in
      (subst (λ k. Held c.past msg.voter_id msg.term k) (sym (inv.own n)) vote.0, vote.1)

  now_Backed : Backed members (e' ∷ c.past) e'
  now_Backed =
      Effect-Backed members c.past e e' same (inv.sized n m) (inv.backed n) i
        (subst (Voter members) (sym (inv.own n)) m) vouched (handle-Effect i e)

  step-Inv : InRange e' → Inv members (run_input n i c)
  unfolding run_input
  step-Inv r = record {
    in_range = set_node-lem (λ k b. InRange b) n e' c.nodes r (λ k ne. inv.in_range k);
    own = set_node-lem (λ k b. b.self ≡ k) n e' c.nodes own' (λ k ne. inv.own k);
    sized =
        set_node-lem (λ k b. Voter members k → length b.peers + 1 ≡ length members) n e' c.nodes
          (λ v. ap (λ p. length p + 1) same.1 ∙ inv.sized n v) (λ k ne. inv.sized k);
    follows =
        set_node-lem (λ k b. Follows (e' ∷ c.past) b) n e' c.nodes
          (Follows-self c.past e e' same.0 keep (inv.follows n))
          (λ k ne. Follows-other c.past e' (c.nodes k) (elsewhere k ne) (inv.follows k));
    single = Single-cons c.past e e' same.0 keep (inv.follows n) inv.single;
    earned =
        All-append (Earned members (e' ∷ c.past)) (run_actions n (handle i e).1) c.letters
          (letters-Earned members c.past n e' (handle i e).1 own' m (grants_own_vote i e))
          (All-map (Earned members c.past) (Earned members (e' ∷ c.past)) c.letters
            (Earned-cons members c.past e') inv.earned);
    backed =
        set_node-lem (λ k b. Backed members (e' ∷ c.past) b) n e' c.nodes now_Backed
          (λ k ne. Backed-cons members c.past e' (c.nodes k) (inv.backed k));
    won = (
      now_Backed,
      All-map (Backed members c.past) (Backed members (e' ∷ c.past)) c.past
          (Backed-cons members c.past e') inv.won,
    );
  }

reach-Inv :
    {members : List ℕ} {setup : ℕ → ElectionConfig} {c : Cluster}
    → Reachable members setup c
    → All InRange c.past
    → Inv members c
unfolding run_input
reach-Inv {members = members} {setup = setup} started r = start-Inv members setup
reach-Inv {members = members} (stepped {c = c} n i m g h) r =
    step-Inv members c (reach-Inv h r.1) n i m g r.0

leader-Elected : (b : Election) → b.role ≡ leader → Elected b → majority b ≤ length b.votes_granted
leader-Elected b led (inl runs) = ground (arith, led, runs)
leader-Elected b led (inr (_, most)) = most

leader-Backing :
    (members : List ℕ) (past : List Election) (b : Election)
    → b.role ≡ leader
    → Backed members past b
    → (length members / 2 + 1 ≤ length b.votes_granted)
      × Backing members past b.self b.current_term b.votes_granted
leader-Backing members past b led (inl idle) = ground (arith, led, idle)
leader-Backing members past b led (inr (el, size, votes)) =
    (rw (sym size) (leader-Elected b led el), votes)

-- The votes behind a leader.
Led-Backing :
    (members : List ℕ) (past p : List Election) (n t : ℕ)
    → All (Backed members past) p
    → Led p n t
    → (votes : List ℕ) × (length members / 2 + 1 ≤ length votes) × Backing members past n t votes
Led-Backing members past [] n t a h = elim h [ ]
Led-Backing members past (b ∷ bs) n t a (inl (s, at, led)) =
    let (most, votes) = leader-Backing members past b led a.0 in
    (b.votes_granted, most, Backing-same members past (sym s) (sym at) refl votes)
Led-Backing members past (b ∷ bs) n t a (inr h) = Led-Backing members past bs n t a.1 h

-- In every run of a cluster in which no node comes to the last 64-bit term, two nodes that have led
-- the same term are one node: vote responses may be lost, repeated, late or out of order, but are
-- those that nodes sent, and any other input may come at any time.
pub one_leader :
    (members : List ℕ) (setup : ℕ → ElectionConfig) (c : Cluster) (n k t : ℕ)
    → Reachable members setup c
    → All InRange c.past
    → Led c.past n t
    → Led c.past k t
    → n ≡ k
one_leader members setup c n k t run r a b =
    let inv = reach-Inv run r in
    let (xs, mx, vx) = Led-Backing members c.past c.past n t inv.won a in
    let (ys, my, vy) = Led-Backing members c.past c.past k t inv.won b in
    let (v, held, held2) =
      majorities_meet (λ v. Held c.past v t n) (λ v. Held c.past v t k) xs ys members vx.0 vy.0 vx.1
        vy.1 mx my vx.2 vy.2 in
    inv.single v t n k held held2
