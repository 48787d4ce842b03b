-- ===== src/Replicator/Agreement.antt =====
-- Nodes of src/replication/replicator.cpp that have applied the same commands agree, whatever else has
-- happened to them, and the divergence check does not fire on such nodes.
use sententia.Prelude.{
  ℕ, ◌+◌, ◌^◌, ◌<◌, ◌≡◌, refl, sym, ◌∙◌, subst, inl, inr, false, ◌==◌, ltb, Bool-cases, List, arith,
  take, ==-refl-of, ==→≡,
}
use sententia.CommandLog.{new_log}
use sententia.Engine.{new_engine}
use sententia.Engine.Snapshot.{state_checksum}
use sententia.Message.{AppendResponse}
use sententia.Network.{Network}
use sententia.Replicator.{Role, ReplicationMode, Replicator, BackupState, new_replicator}
use sententia.Replicator.Replay.{replay, IsReplica}
use sententia.Replicator.Following.{replicas_agree}
use sententia.Replicator.Backups.{find_backup, put_backup, heard, has_news, check_divergence}
use sententia.Replicator.Commit.{advance_commit_index}
use sententia.Replicator.Majority.{advance-log}
use sententia.Replicator.Sent.{send_append-Alike}
use sententia.Replicator.Stepping.{put-Follows, advance_commit_index-Follows}
use sententia.Replicator.Leader.{follow_up, handle_append_response}
use sententia.Replicator.Operations.{Operation, growth_all, operate_all, operate_all-Follows}

fresh-IsReplica :
    (instrument self : ℕ) (role : Role) (mode : ReplicationMode)
    → IsReplica instrument (new_replicator self role mode (new_engine instrument) new_log)
unfolding replay
fresh-IsReplica instrument self role mode = record {
  whole = record { chain = refl; no_snapshot = refl; no_truncation = refl };
  no_base = refl;
  applied = omega arith;
  committed = omega arith;
  engine = refl;
}

-- A node that starts with an empty log and an empty engine, after some operations.
abbrev pub node_after :
    (net : Network) → ℕ → ℕ → Role → ReplicationMode → net.State → List Operation → Replicator
node_after net instrument self role mode w os =
    (operate_all net os (new_replicator self role mode (new_engine instrument) new_log, w)).0

pub node_after-IsReplica :
    (net : Network) (instrument self : ℕ) (role : Role) (mode : ReplicationMode) (w : net.State)
    (os : List Operation)
    → growth_all os + 1 < 2 ^ 64
    → IsReplica instrument (node_after net instrument self role mode w os)
node_after-IsReplica net instrument self role mode w os b =
    (operate_all-Follows instrument net os _ w (fresh-IsReplica instrument self role mode)
      (omega (arith, b))).replica

-- Two nodes of one instrument that start empty and go through any operations but `compactLog`, each
-- over its own network: if they have applied equally many commands, and their logs agree on these,
-- then they have the same engine, and the same checksum of it. Neither is offered 2^64 entries.
pub nodes_agree :
    (net net' : Network) (instrument self self' : ℕ) (role role' : Role)
    (mode mode' : ReplicationMode) (w : net.State) (w' : net'.State) (os os' : List Operation)
    → growth_all os + 1 < 2 ^ 64
    → growth_all os' + 1 < 2 ^ 64
    → (node_after net instrument self role mode w os).last_applied
      ≡ (node_after net' instrument self' role' mode' w' os').last_applied
    → take
        (node_after net instrument self role mode w os).last_applied
        (node_after net instrument self role mode w os).log.entries
      ≡ take
          (node_after net instrument self role mode w os).last_applied
          (node_after net' instrument self' role' mode' w' os').log.entries
    → ((node_after net instrument self role mode w os).engine
        ≡ (node_after net' instrument self' role' mode' w' os').engine)
      × (state_checksum (node_after net instrument self role mode w os).engine
          ≡ state_checksum (node_after net' instrument self' role' mode' w' os').engine)
nodes_agree net net' instrument self self' role role' mode mode' w w' os os' b b' n same =
    replicas_agree instrument _ _ (node_after-IsReplica net instrument self role mode w os b)
      (node_after-IsReplica net' instrument self' role' mode' w' os' b') n same

module _ (instrument : ℕ) where
  check_divergence-agrees :
      (b : BackupState) (s t : Replicator)
      → IsReplica instrument s
      → IsReplica instrument t
      → b.last_applied ≡ t.last_applied
      → b.last_checksum ≡ state_checksum t.engine
      → take t.last_applied s.log.entries ≡ take t.last_applied t.log.entries
      → check_divergence b s ≡ s
  check_divergence-agrees b s t rs rt n c same =
      elim (Bool-cases (b.last_applied == s.last_applied)) [
        | inl level ↦
            let even : s.last_applied ≡ t.last_applied =
              sym (==→≡ b.last_applied s.last_applied level) ∙ n in
            let (engines, sums) =
              replicas_agree instrument s t rs rt even
                (subst (λ k. take k s.log.entries ≡ take k t.log.entries) (sym even) same) in
            rw (level, ==-refl-of b.last_checksum (state_checksum s.engine) (sums ∙ sym c)) refl
        | inr apart ↦ rw apart refl
      ]

  follow_up-mismatches :
      (net : Network) (b : BackupState) (s : Replicator) (w : net.State)
      → (follow_up net b (s, w)).0.stats.checksum_mismatches ≡ s.stats.checksum_mismatches
  unfolding follow_up
  follow_up-mismatches net b s w = elim (Bool-cases (has_news b s)) [
    | inl news ↦ rw news (send_append-Alike net false b (s, w)).checksum_mismatches
    | inr quiet ↦ rw quiet refl
  ]

  -- A response that a node's primary gets from a node whose log agrees with its own as far as that node
  -- has applied it raises no divergence. Both are replicas with whole logs, the response tells the
  -- last applied entry and the checksum of the other node, and the primary's log is short of 2^64.
  pub no_false_divergence :
      (net : Network) (from : ℕ) (msg : AppendResponse) (s t : Replicator) (w : net.State)
      → IsReplica instrument s
      → IsReplica instrument t
      → s.log.last_seq + 1 < 2 ^ 64
      → msg.last_applied ≡ t.last_applied
      → msg.state_checksum ≡ state_checksum t.engine
      → take t.last_applied s.log.entries ≡ take t.last_applied t.log.entries
      → (handle_append_response net from msg (s, w)).0.stats.checksum_mismatches
        ≡ s.stats.checksum_mismatches
  unfolding handle_append_response heard
  no_false_divergence net from msg s t w rs rt b n c same =
      elim (Bool-cases (ltb s.term msg.term)) [
        | inl stale ↦ rw stale refl
        | inr current ↦
            let backup = heard msg (find_backup from s.backups) in
            let f = put-Follows instrument 0 s s.role (put_backup backup s.backups) s.stats rs in
            let s1 = record s { backups = put_backup backup s.backups } in
            let g = advance_commit_index-Follows instrument s1 f.replica b in
            let (logs, counts) = advance-log s1 in
            let calm : check_divergence backup (advance_commit_index s1) ≡ advance_commit_index s1 =
              check_divergence-agrees backup (advance_commit_index s1) t g.replica rt n c
                (rw logs same) in
            rw (current, calm)
              (follow_up-mismatches net backup (advance_commit_index s1) w ∙ counts)
      ]
