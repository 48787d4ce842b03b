-- ===== src/Replicator/Stepping.antt =====
-- The methods of src/replication/replicator.cpp keep a replica, one by one.
use sententia.Prelude.{
  ℕ, ◌+◌, ◌^◌, ◌≤◌, ◌<◌, ◌≡◌, refl, ap, inl, inr, true, false, not, ◌&&◌, ◌==◌, ltb, leb,
  Bool-cases, some, none, Option, List, arith, take, ◌≢◌,
}
use sententia.Types.{Command}
use sententia.CommandLog.{append, term_at}
use sententia.CommandLog.Whole.{term_at-past}
use sententia.Engine.Snapshot.{state_checksum}
use sententia.Replicator.Submitting.{submit-cases}
use sententia.Message.{AppendResponse}
use sententia.Network.{Network}
use sententia.Replicator.{Role, Replicator, ReplicationStats, BackupState, is_primary}
use sententia.Replicator.Replay.{IsReplica}
use sententia.Replicator.Appending.{push-Kept}
use sententia.Replicator.Following.{
  Follows, counted-Follows, then-Follows, apply_committed-Follows, appended-Follows,
}
use sententia.Replicator.Commit.{candidate, has_term, advance_commit_index}
use sententia.Replicator.Backups.{
  same_role, set_role, find_backup, put_backup, heard, has_news, check_divergence,
}
use sententia.Replicator.Sent.{
  Alike, same-Alike, Alike-IsReplica, send_append-Alike, send_all-Alike,
}
use sententia.Replicator.Leader.{
  on_peer_up, submit, accept_command, tick, follow_up, handle_append_response,
}

module _ (instrument : ℕ) where
  -- A step that leaves the log and the positions.
  Alike-Follows :
      (n : ℕ) (s s' : Replicator) → Alike s s' → IsReplica instrument s → Follows instrument n s s'
  Alike-Follows n s s' a r = record {
    replica = Alike-IsReplica instrument s s' a r;
    commit_index = omega (arith, a.commit_index);
    committed = ap (λ l. take s.commit_index l.entries) a.log;
    growth = rw a.log (omega arith);
  }

  pub same-Follows : (n : ℕ) (s : Replicator) → IsReplica instrument s → Follows instrument n s s
  same-Follows n s r = Alike-Follows n s s (same-Alike s) r

  has_term-some : (o : Option ℕ) (term : ℕ) → has_term o term ≡ true → o ≢ none
  has_term-some none term h e = ground (arith, h)
  has_term-some (some t) term h e = ground (arith, e)

  -- The candidate of the current term is in the log.
  candidate-known :
      (s : Replicator)
      → IsReplica instrument s
      → has_term (term_at (candidate s) s.log) s.term ≡ true
      → candidate s ≤ s.log.last_seq
  candidate-known s r h = elim (Bool-cases (ltb s.log.last_seq (candidate s))) [
    | inl past ↦
        absurd
          (has_term-some _ _ h (term_at-past (candidate s) s.log r.whole (ground (arith, past))))
    | inr within ↦ ground (arith, within)
  ]

  later-Follows :
      (n : ℕ) (s : Replicator) (stats : ReplicationStats)
      → IsReplica instrument s
      → s.commit_index ≤ n
      → n ≤ s.log.last_seq
      → Follows instrument 0 s (record s { commit_index = n; stats = stats })
  later-Follows n s stats r h k = record {
    replica = record {
      whole = r.whole;
      no_base = r.no_base;
      applied = r.applied;
      committed = k;
      engine = r.engine;
    };
    commit_index = h;
    committed = refl;
    growth = omega arith;
  }

  pub advance_commit_index-Follows :
      (s : Replicator)
      → IsReplica instrument s
      → s.log.last_seq + 1 < 2 ^ 64
      → Follows instrument 0 s (advance_commit_index s)
  unfolding advance_commit_index
  advance_commit_index-Follows s r b = elim (Bool-cases (is_primary s.role)) [
    | inl leads ↦ elim (Bool-cases (leb (candidate s) s.commit_index)) [
      | inl early ↦ rw (leads, early) (same-Follows 0 s r)
      | inr later ↦ elim (Bool-cases (has_term (term_at (candidate s) s.log) s.term)) [
        | inl own ↦
            rw (leads, later, own)
              (let f =
                  later-Follows (candidate s) s _ r (ground (arith, later))
                    (candidate-known s r own) in
                then-Follows instrument 0 0 0 s _ _ f
                  (apply_committed-Follows instrument _ f.replica b) (omega arith))
        | inr other ↦ rw (leads, later, other) (same-Follows 0 s r)
      ]
    ]
    | inr backs ↦ rw backs (same-Follows 0 s r)
  ]

  append-Follows :
      (cmd : Command) (s : Replicator) (stats : ReplicationStats)
      → IsReplica instrument s
      → s.log.last_seq + 1 < 2 ^ 64
      → Follows instrument 1 s (record s { log = (append cmd s.term s.log).1; stats = stats })
  unfolding append
  append-Follows cmd s stats r b =
      appended-Follows instrument 1 s _
        (push-Kept instrument _ s.term cmd s stats r (omega (arith, b)))

  -- What is kept of the backups is no part of a replica.
  pub put-Follows :
      (n : ℕ) (s : Replicator) (role : Role) (backups : List BackupState) (stats : ReplicationStats)
      → IsReplica instrument s
      → Follows instrument n s (record s { role = role; backups = backups; stats = stats })
  put-Follows n s role backups stats r = record {
    replica = record {
      whole = r.whole;
      no_base = r.no_base;
      applied = r.applied;
      committed = r.committed;
      engine = r.engine;
    };
    commit_index = omega arith;
    committed = refl;
    growth = omega arith;
  }

  pub role-Follows :
      (role : Role) (s : Replicator)
      → IsReplica instrument s
      → Follows instrument 0 s (set_role role s)
  unfolding set_role
  role-Follows role s r = elim (Bool-cases (same_role role s.role)) [
    | inl same ↦ rw same (same-Follows 0 s r)
    | inr other ↦ rw other (put-Follows 0 s _ _ _ r)
  ]

  check_divergence-Follows :
      (b : BackupState) (s : Replicator)
      → IsReplica instrument s
      → Follows instrument 0 s (check_divergence b s)
  check_divergence-Follows b s r =
      elim (Bool-cases
        (b.last_applied == s.last_applied && not (b.last_checksum == state_checksum s.engine))) [
          | inl diverged ↦ rw diverged (counted-Follows instrument 0 s _ r)
          | inr fine ↦ rw fine (same-Follows 0 s r)
        ]

  module _ (net : Network) where
    accept_command-Follows :
        (cmd : Command) (s : Replicator) (w : net.State)
        → IsReplica instrument s
        → s.log.last_seq + 1 + 1 < 2 ^ 64
        → Follows instrument 1 s (accept_command net cmd (s, w)).1.0
    unfolding accept_command
    accept_command-Follows cmd s w r b =
        let f = append-Follows cmd s _ r (omega (arith, b)) in
        elim (Bool-cases (s.cluster_size == 1)) [
          | inl alone ↦ rw alone (
              let g = advance_commit_index-Follows _ f.replica (omega (arith, f.growth, b)) in
              then-Follows instrument 1 0 1 s _ _
                (then-Follows instrument 1 0 1 s _ _ f g (omega arith))
                (Alike-Follows 0 _ _ (send_all-Alike net _ (advance_commit_index _, w)) g.replica)
                (omega arith))
          | inr several ↦ rw several (
              then-Follows instrument 1 0 1 s _ _ f
                (Alike-Follows 0 _ _ (send_all-Alike net _ (_, w)) f.replica) (omega arith))
        ]

    pub submit-Follows :
        (cmd : Command) (s : Replicator) (w : net.State)
        → IsReplica instrument s
        → s.log.last_seq + 1 + 1 < 2 ^ 64
        → Follows instrument 1 s (submit net cmd (s, w)).1.0
    unfolding submit
    submit-Follows cmd s w r b = elim (submit-cases net cmd (s, w)) [
      | inl (status, stats, why, e) ↦ rw e (counted-Follows instrument 1 s _ r)
      | inr (ready, e) ↦ rw e (accept_command-Follows cmd s w r b)
    ]

    pub on_peer_up-Follows :
        (id : ℕ) (s : Replicator) (w : net.State)
        → IsReplica instrument s
        → Follows instrument 0 s (on_peer_up net id (s, w)).0
    unfolding on_peer_up
    on_peer_up-Follows id s w r = elim (Bool-cases (is_primary s.role)) [
      | inl leads ↦ rw leads (
          let b = record (find_backup id s.backups) { id = id; probing = true; last_sent = 0 } in
          let f = Alike-Follows 0 s _ (send_append-Alike net true b (s, w)) r in
          then-Follows instrument 0 0 0 s _ _ f (put-Follows 0 _ _ _ _ f.replica) (omega arith))
      | inr backs ↦ rw backs (same-Follows 0 s r)
    ]

    pub tick-Follows :
        (s : Replicator) (w : net.State)
        → IsReplica instrument s
        → Follows instrument 0 s (tick net (s, w)).0
    unfolding tick
    tick-Follows s w r = elim (Bool-cases (is_primary s.role)) [
      | inl leads ↦ rw leads (Alike-Follows 0 s _ (send_all-Alike net _ (s, w)) r)
      | inr backs ↦ rw backs (same-Follows 0 s r)
    ]

    -- The end of `handle_append_response`.
    sent-Follows :
        (b : BackupState) (s : Replicator) (w : net.State)
        → IsReplica instrument s
        → Follows instrument 0 s (follow_up net b (s, w)).0
    unfolding follow_up
    sent-Follows b s w r = elim (Bool-cases (has_news b s)) [
      | inl news ↦ rw news (
          let f = Alike-Follows 0 s _ (send_append-Alike net false b (s, w)) r in
          then-Follows instrument 0 0 0 s _ _ f (put-Follows 0 _ _ _ _ f.replica) (omega arith))
      | inr quiet ↦ rw quiet (same-Follows 0 s r)
    ]

    pub response-Follows :
        (from : ℕ) (msg : AppendResponse) (s : Replicator) (w : net.State)
        → IsReplica instrument s
        → s.log.last_seq + 1 < 2 ^ 64
        → Follows instrument 0 s (handle_append_response net from msg (s, w)).0
    unfolding handle_append_response
    response-Follows from msg s w r b = elim (Bool-cases (ltb s.term msg.term)) [
      | inl stale ↦ rw stale (counted-Follows instrument 0 s _ r)
      | inr current ↦ rw current (
          let backup = heard msg (find_backup from s.backups) in
          let f = put-Follows 0 s s.role (put_backup backup s.backups) s.stats r in
          let g = advance_commit_index-Follows _ f.replica (omega (arith, b)) in
          let h = check_divergence-Follows backup _ g.replica in
          then-Follows instrument 0 0 0 s _ _ f
            (then-Follows instrument 0 0 0 _ _ _ g
              (then-Follows instrument 0 0 0 _ _ _ h (sent-Follows backup _ w h.replica)
                (omega arith))
              (omega arith))
            (omega arith))
    ]
