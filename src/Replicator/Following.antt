-- ===== src/Replicator/Following.antt =====
-- A replica of src/replication/replicator.cpp that handles an `AppendEntries`.
use sententia.Prelude.{
  ℕ, ◌+◌, ◌^◌, ◌≤◌, ◌<◌, ◌≡◌, refl, sym, ap, ◌∙◌, inl, inr, Bool, true, false, ◌==◌, ltb,
  Bool-cases, some, none, Option, length, arith, take, take-take,
}
use sententia.CommandLog.{term_at}
use sententia.Engine.{new_engine}
use sententia.Engine.Snapshot.{state_checksum}
use sententia.Message.{AppendEntries, AppendResponse}
use sententia.Replicator.{Replicator, ReplicationStats, apply_committed}
use sententia.Replicator.Replay.{replay, IsReplica}
use sententia.Replicator.Applying.{apply_committed-Ran}
use sententia.Replicator.Appending.{Kept, append_records-Kept}
use sententia.Replicator.Follower.{
  observe_commit, response, conclude, match_previous, handle_append_entries, refuse,
}

-- What a step may do to a replica, with up to `n` new entries: the committed entries stay, the commit
-- point does not go back, and the engine stays the replay.
pub record Follows (instrument n : ℕ) (s s' : Replicator) : Type 0 where
  pub replica : IsReplica instrument s'
  pub commit_index : s.commit_index ≤ s'.commit_index
  pub committed : take s.commit_index s'.log.entries ≡ take s.commit_index s.log.entries
  pub growth : s'.log.last_seq ≤ s.log.last_seq + n

-- The answer tells what the replica has applied, and the checksum of its state.
pub record Answers (s : Replicator) (answer : AppendResponse) : Type 0 where
  pub term : answer.term ≡ s.term
  pub node_id : answer.node_id ≡ s.self
  pub last_applied : answer.last_applied ≡ s.last_applied
  pub state_checksum : answer.state_checksum ≡ state_checksum s.engine

pub observe_commit-log : (c : ℕ) (s : Replicator) → (observe_commit c s).log ≡ s.log
unfolding observe_commit
observe_commit-log c s = elim (Bool-cases (ltb s.commit_index c)) [
  | inl later ↦ rw later refl
  | inr early ↦ rw early refl
]

module _ (instrument : ℕ) where
  recount-IsReplica :
      (s : Replicator) (stats : ReplicationStats)
      → IsReplica instrument s
      → IsReplica instrument (record s { stats = stats })
  recount-IsReplica s stats r = record {
    whole = r.whole;
    no_base = r.no_base;
    applied = r.applied;
    committed = r.committed;
    engine = r.engine;
  }

  pub counted-Follows :
      (n : ℕ) (s : Replicator) (stats : ReplicationStats)
      → IsReplica instrument s
      → Follows instrument n s (record s { stats = stats })
  counted-Follows n s stats r = record {
    replica = recount-IsReplica s stats r;
    commit_index = omega arith;
    committed = refl;
    growth = omega arith;
  }

  observe_commit-Follows :
      (c : ℕ) (s : Replicator)
      → IsReplica instrument s
      → Follows instrument 0 s (observe_commit c s)
  unfolding observe_commit
  observe_commit-Follows c s r = elim (Bool-cases (ltb s.commit_index c)) [
    | inl later ↦ rw later (record {
      replica = record {
        whole = r.whole;
        no_base = r.no_base;
        applied = r.applied;
        committed = ground arith;
        engine = r.engine;
      };
      commit_index = ground (arith, later, r.committed);
      committed = refl;
      growth = omega arith;
    })
    | inr early ↦ rw early (counted-Follows 0 s s.stats r)
  ]

  pub then-Follows :
      (n m k : ℕ) (s t u : Replicator)
      → Follows instrument n s t
      → Follows instrument m t u
      → n + m ≤ k
      → Follows instrument k s u
  then-Follows n m k s t u a b h = record {
    replica = b.replica;
    commit_index = omega (arith, a.commit_index, b.commit_index);
    committed =
        sym (take-take s.commit_index t.commit_index u.log.entries a.commit_index)
        ∙ ap (take s.commit_index) b.committed
        ∙ take-take s.commit_index t.commit_index t.log.entries a.commit_index
        ∙ a.committed;
    growth = omega (arith, a.growth, b.growth, h);
  }

  pub apply_committed-Follows :
      (s : Replicator)
      → IsReplica instrument s
      → s.log.last_seq + 1 < 2 ^ 64
      → Follows instrument 0 s (apply_committed s)
  apply_committed-Follows s r b =
      let d = apply_committed-Ran instrument s r b in
      record {
        replica = d.replica;
        commit_index = omega (arith, d.commit_index);
        committed = ap (λ l. take s.commit_index l.entries) d.log;
        growth = rw d.log (omega arith);
      }

  pub appended-Follows :
      (n : ℕ) (s s' : Replicator) → Kept instrument n s s' → Follows instrument n s s'
  appended-Follows n s s' k = record {
    replica = k.replica;
    commit_index = omega (arith, k.commit_index);
    committed = k.committed;
    growth = k.growth;
  }

  response-Answers : (ok : Bool) (n : ℕ) (s : Replicator) → Answers s (response ok n s)
  unfolding response
  response-Answers ok n s = record {
    term = refl;
    node_id = refl;
    last_applied = refl;
    state_checksum = refl;
  }

  abbrev pub Handled : ℕ → Replicator → Replicator × AppendResponse → Type 0
  Handled n s (s', answer) = Follows instrument n s s' × Answers s' answer

  refused-Handled :
      (n : ℕ) (s : Replicator) (stats : ReplicationStats)
      → IsReplica instrument s
      → Handled n s (refuse (record s { stats = stats }))
  refused-Handled n s stats r = (counted-Follows n s stats r, response-Answers false _ _)

  conclude-Handled :
      (n c : ℕ) (s : Replicator) (end : Bool × Replicator)
      → Follows instrument n s end.1
      → end.1.log.last_seq + 1 < 2 ^ 64
      → Handled n s (conclude c end)
  unfolding conclude
  conclude-Handled n c s (false, t) f b = (f, response-Answers false 0 t)
  conclude-Handled n c s (true, t) f b =
      let o = observe_commit-Follows c t f.replica in
      (
        then-Follows n 0 n s t _ f
            (then-Follows 0 0 0 t (observe_commit c t) _ o
              (apply_committed-Follows _ o.replica (rw (observe_commit-log c t) b)) (omega arith))
            (omega arith),
        response-Answers true _ _,
      )

  matched-Handled :
      (previous : Option ℕ) (msg : AppendEntries) (s : Replicator)
      → IsReplica instrument s
      → s.log.last_seq + length msg.entries + 1 < 2 ^ 64
      → Handled (length msg.entries) s (match_previous previous msg s)
  matched-Handled none msg s r b = refused-Handled _ s _ r
  matched-Handled (some local) msg s r b = elim (Bool-cases (local == msg.prev_term)) [
    | inl same ↦ rw same (
        let k = append_records-Kept instrument msg.entries s r b in
        conclude-Handled (length msg.entries) msg.commit_seq s _ (appended-Follows _ s _ k)
          (omega (arith, k.growth, b)))
    | inr other ↦ rw other (refused-Handled _ s _ r)
  ]

  -- Whatever `AppendEntries` a replica handles, it stays a replica: its engine is the replay of the
  -- entries of its log up to the last applied one. Its commit point does not go back, the entries up
  -- to it stay as they are, and its answer tells its last applied entry and the checksum of its state.
  -- The log is whole, and stays short of 2^64 entries.
  pub handle_append_entries-Handled :
      (msg : AppendEntries) (s : Replicator)
      → IsReplica instrument s
      → s.log.last_seq + length msg.entries + 1 < 2 ^ 64
      → Handled (length msg.entries) s (handle_append_entries msg s)
  unfolding handle_append_entries
  handle_append_entries-Handled msg s r b = elim (Bool-cases (ltb msg.term s.term)) [
    | inl stale ↦ rw stale (refused-Handled _ s _ r)
    | inr current ↦ rw current (matched-Handled (term_at msg.prev_seq s.log) msg s r b)
  ]

  -- Two replicas of one instrument that have applied the same entries have the same engine, hence the
  -- same checksum of their state.
  pub replicas_agree :
      (s t : Replicator)
      → IsReplica instrument s
      → IsReplica instrument t
      → s.last_applied ≡ t.last_applied
      → take s.last_applied s.log.entries ≡ take s.last_applied t.log.entries
      → (s.engine ≡ t.engine) × (state_checksum s.engine ≡ state_checksum t.engine)
  replicas_agree s t rs rt n same =
      let one : s.engine ≡ t.engine =
        rs.engine
        ∙ ap (λ xs. replay xs (new_engine instrument)) (same ∙ ap (λ k. take k t.log.entries) n)
        ∙ sym rt.engine in
      (one, ap state_checksum one)
