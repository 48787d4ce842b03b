-- ===== src/Replicator/Operations.antt =====
-- Every operation of src/replication/replicator.cpp but `compactLog` keeps a replica.
use sententia.Prelude.{ℕ, ◌+◌, ◌^◌, ◌<◌, refl, List, [], ◌∷◌, length, arith}
use sententia.Types.{Command}
use sententia.Message.{
  Message, hello, heartbeat, command_forward, event_ack, append_entries, append_response,
  request_vote, vote_response,
}
use sententia.Network.{Network}
use sententia.Replicator.{
  Role, Replicator, apply_committed, set_term, set_sync_window, set_cluster_size,
}
use sententia.Replicator.Replay.{IsReplica}
use sententia.Replicator.Following.{
  Follows, then-Follows, apply_committed-Follows, handle_append_entries-Handled,
}
use sententia.Replicator.Backups.{set_role, on_peer_down}
use sententia.Replicator.Sending.{World}
use sententia.Replicator.Leader.{on_peer_up, submit, tick, on_message}
use sententia.Replicator.Stepping.{
  same-Follows, role-Follows, put-Follows, submit-Follows, on_peer_up-Follows, tick-Follows,
  response-Follows,
}

-- What a node does with its replicator.
pub data Operation : Type 0 where
  submitted : Command → Operation
  received : ℕ → Message → Operation
  peer_up peer_down : ℕ → Operation
  ticked committed_applied : Operation
  role_set : Role → Operation
  term_set window_set size_set : ℕ → Operation

-- How many entries an operation may append.
abbrev pub growth : Operation → ℕ
growth (submitted cmd) = 1
growth (received from (append_entries msg)) = length msg.entries
growth _ = 0

abbrev pub growth_all : List Operation → ℕ
growth_all [] = 0
growth_all (o ∷ os) = growth o + growth_all os

module _ (net : Network) where
  unfoldable pub operate : Operation → World net → World net
  operate (submitted cmd) r = (submit net cmd r).1
  operate (received from msg) r = on_message net from msg r
  operate (peer_up id) r = on_peer_up net id r
  operate (peer_down id) (s, w) = (on_peer_down id s, w)
  operate ticked r = tick net r
  operate committed_applied (s, w) = (apply_committed s, w)
  operate (role_set role) (s, w) = (set_role role s, w)
  operate (term_set term) (s, w) = (set_term term s, w)
  operate (window_set n) (s, w) = (set_sync_window n s, w)
  operate (size_set n) (s, w) = (set_cluster_size n s, w)

  unfoldable pub operate_all : List Operation → World net → World net
  operate_all [] r = r
  operate_all (o ∷ os) r = operate_all os (operate o r)

module _ (instrument : ℕ) (net : Network) where
  configured-Follows :
      (s : Replicator) (n m k : ℕ)
      → IsReplica instrument s
      → Follows instrument 0 s (record s { term = n; sync_window = m; cluster_size = k })
  configured-Follows s n m k r = record {
    replica = record {
      whole = r.whole;
      no_base = r.no_base;
      applied = r.applied;
      committed = r.committed;
      engine = r.engine;
    };
    commit_index = omega arith;
    committed = refl;
    growth = omega arith;
  }

  received-Follows :
      (from : ℕ) (msg : Message) (s : Replicator) (w : net.State)
      → IsReplica instrument s
      → s.log.last_seq + growth (received from msg) + 1 < 2 ^ 64
      → Follows instrument (growth (received from msg)) s (on_message net from msg (s, w)).0
  unfolding on_message
  received-Follows from (append_entries msg) s w r b =
      (handle_append_entries-Handled instrument msg s r b).0
  received-Follows from (append_response msg) s w r b =
      response-Follows instrument net from msg s w r (omega (arith, b))
  received-Follows from (hello m) s w r b = same-Follows instrument 0 s r
  received-Follows from (heartbeat m) s w r b = same-Follows instrument 0 s r
  received-Follows from (command_forward m) s w r b = same-Follows instrument 0 s r
  received-Follows from (event_ack m) s w r b = same-Follows instrument 0 s r
  received-Follows from (request_vote m) s w r b = same-Follows instrument 0 s r
  received-Follows from (vote_response m) s w r b = same-Follows instrument 0 s r

  -- Every operation but `compactLog`, over any network, keeps a replica with a whole log: its engine is
  -- the replay of its log up to the last applied entry. The commit point does not go back, and the
  -- entries up to it stay as they are. The log stays short of 2^64 entries.
  pub operate-Follows :
      (o : Operation) (s : Replicator) (w : net.State)
      → IsReplica instrument s
      → s.log.last_seq + growth o + 1 < 2 ^ 64
      → Follows instrument (growth o) s (operate net o (s, w)).0
  unfolding operate on_peer_down
  operate-Follows (submitted cmd) s w r b =
      submit-Follows instrument net cmd s w r (omega (arith, b))
  operate-Follows (received from msg) s w r b = received-Follows from msg s w r b
  operate-Follows (peer_up id) s w r b = on_peer_up-Follows instrument net id s w r
  operate-Follows (peer_down id) s w r b = put-Follows instrument 0 s s.role _ s.stats r
  operate-Follows ticked s w r b = tick-Follows instrument net s w r
  operate-Follows committed_applied s w r b =
      apply_committed-Follows instrument s r (omega (arith, b))
  operate-Follows (role_set role) s w r b = role-Follows instrument role s r
  operate-Follows (term_set n) s w r b = configured-Follows s n s.sync_window s.cluster_size r
  operate-Follows (window_set n) s w r b = configured-Follows s s.term n s.cluster_size r
  operate-Follows (size_set n) s w r b = configured-Follows s s.term s.sync_window _ r

  pub operate_all-Follows :
      (os : List Operation) (s : Replicator) (w : net.State)
      → IsReplica instrument s
      → s.log.last_seq + growth_all os + 1 < 2 ^ 64
      → Follows instrument (growth_all os) s (operate_all net os (s, w)).0
  unfolding operate_all
  operate_all-Follows [] s w r b = same-Follows instrument 0 s r
  operate_all-Follows (o ∷ os) s w r b =
      let f = operate-Follows o s w r (omega (arith, b)) in
      let (s', w') = operate net o (s, w) in
      then-Follows instrument (growth o) (growth_all os) _ s s' _ f
        (operate_all-Follows os s' w' f.replica (omega (arith, b, f.growth))) (omega arith)
