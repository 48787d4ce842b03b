-- ===== src/Replicator/Sent.antt =====
-- Sending, in src/replication/replicator.cpp, changes counters and what is known of backups only.
use sententia.Prelude.{
  ℕ, ◌≡◌, refl, ◌∙◌, inl, inr, Bool, true, false, List, [], ◌∷◌, ltb, Bool-cases, length,
}
use sententia.Message.{max_entries_per_append}
use sententia.CommandLog.{LogEntry, range, can_serve_from, is_empty}
use sententia.Network.{Network, SendResult, sent, not_connected, would_overflow}
use sententia.Replicator.{Replicator, BackupState}
use sententia.Replicator.Replay.{IsReplica}
use sententia.Replicator.Sending.{
  World, told, advertise_commit, delivered, count_batch, next_for, send_probe, send_entries,
  send_append, send_each, send_all,
}

-- The two states have the same log, engine, term and positions.
pub record Alike (s s' : Replicator) : Type 0 where
  pub log : s'.log ≡ s.log
  pub engine : s'.engine ≡ s.engine
  pub last_applied : s'.last_applied ≡ s.last_applied
  pub commit_index : s'.commit_index ≡ s.commit_index
  pub snapshot_base : s'.snapshot_base ≡ s.snapshot_base
  pub term : s'.term ≡ s.term
  pub checksum_mismatches : s'.stats.checksum_mismatches ≡ s.stats.checksum_mismatches

pub same-Alike : (s : Replicator) → Alike s s
same-Alike s = record {
  log = refl;
  engine = refl;
  last_applied = refl;
  commit_index = refl;
  snapshot_base = refl;
  term = refl;
  checksum_mismatches = refl;
}

pub then-Alike : (s t u : Replicator) → Alike s t → Alike t u → Alike s u
then-Alike s t u a b = record {
  log = b.log ∙ a.log;
  engine = b.engine ∙ a.engine;
  last_applied = b.last_applied ∙ a.last_applied;
  commit_index = b.commit_index ∙ a.commit_index;
  snapshot_base = b.snapshot_base ∙ a.snapshot_base;
  term = b.term ∙ a.term;
  checksum_mismatches = b.checksum_mismatches ∙ a.checksum_mismatches;
}

pub Alike-IsReplica :
    (instrument : ℕ) (s s' : Replicator)
    → Alike s s'
    → IsReplica instrument s
    → IsReplica instrument s'
Alike-IsReplica instrument s s' a r = record {
  whole = rw a.log r.whole;
  no_base = a.snapshot_base ∙ r.no_base;
  applied = rw (a.log, a.last_applied) r.applied;
  committed = rw (a.log, a.commit_index) r.committed;
  engine = rw (a.log, a.last_applied, a.engine) r.engine;
}

counted-Alike : (entries : List LogEntry) (s : Replicator) → Alike s (count_batch entries s)
counted-Alike entries s = elim (Bool-cases (ltb 1 (length entries))) [
  | inl several ↦ rw several (record {
    log = refl;
    engine = refl;
    last_applied = refl;
    commit_index = refl;
    snapshot_base = refl;
    term = refl;
    checksum_mismatches = refl;
  })
  | inr one ↦ rw one (same-Alike s)
]

module _ (net : Network) where
  told-Alike :
      (b : BackupState) (result : SendResult) (r : World net)
      → Alike r.0 (told net b (result, r)).1.0
  unfolding told
  told-Alike b sent r = same-Alike r.0
  told-Alike b not_connected r = same-Alike r.0
  told-Alike b would_overflow r = same-Alike r.0

  delivered-Alike :
      (entries : List LogEntry) (b : BackupState) (result : SendResult) (r : World net)
      → Alike r.0 (delivered net entries b (result, r)).1.0
  unfolding delivered
  delivered-Alike entries b sent r = record {
    log = refl;
    engine = refl;
    last_applied = refl;
    commit_index = refl;
    snapshot_base = refl;
    term = refl;
    checksum_mismatches = refl;
  }
  delivered-Alike entries b not_connected r = same-Alike r.0
  delivered-Alike entries b would_overflow r = same-Alike r.0

  entries-Alike :
      (b : BackupState) (s : Replicator) (w : net.State)
      → Alike s (send_append net false b (s, w)).1.0
  unfolding send_append advertise_commit send_entries
  entries-Alike b s w =
      let from = next_for b in
      let entries = range from max_entries_per_append s.log in
      elim (Bool-cases (ltb s.log.last_seq from)) [
        | inl none_new ↦ elim (Bool-cases (ltb b.last_commit_sent s.commit_index)) [
          | inl news ↦ rw (none_new, news) (told-Alike b _ _)
          | inr quiet ↦ rw (none_new, quiet) (same-Alike s)
        ]
        | inr new ↦ elim (Bool-cases (can_serve_from from s.log)) [
          | inl can ↦ elim (Bool-cases (is_empty entries)) [
            | inl empty ↦ rw (new, can, empty) (same-Alike s)
            | inr more ↦
                rw (new, can, more)
                  (then-Alike s _ _ (counted-Alike entries s) (delivered-Alike entries b _ _))
          ]
          | inr cannot ↦ rw (new, cannot) (same-Alike s)
        ]
      ]

  pub send_append-Alike :
      (probe : Bool) (b : BackupState) (r : World net) → Alike r.0 (send_append net probe b r).1.0
  unfolding send_append send_probe
  send_append-Alike true b r = record {
    log = refl;
    engine = refl;
    last_applied = refl;
    commit_index = refl;
    snapshot_base = refl;
    term = refl;
    checksum_mismatches = refl;
  }
  send_append-Alike false b r = entries-Alike b r.0 r.1

  send_each-Alike :
      (test : BackupState → World net → Bool) (bs : List BackupState) (r : World net)
      → Alike r.0 (send_each net test bs r).1.0
  unfolding send_each
  send_each-Alike test [] r = same-Alike r.0
  send_each-Alike test (b ∷ bs) r = elim (Bool-cases (test b r)) [
    | inl goes ↦ rw goes (
        then-Alike r.0 _ _ (send_append-Alike false b r)
          (send_each-Alike test bs (send_append net false b r).1))
    | inr waits ↦ rw waits (send_each-Alike test bs r)
  ]

  pub send_all-Alike :
      (test : BackupState → World net → Bool) (r : World net) → Alike r.0 (send_all net test r).0
  unfolding send_all
  send_all-Alike test r =
      let a = send_each-Alike test r.0.backups r in
      record {
        log = a.log;
        engine = a.engine;
        last_applied = a.last_applied;
        commit_index = a.commit_index;
        snapshot_base = a.snapshot_base;
        term = a.term;
        checksum_mismatches = a.checksum_mismatches;
      }
