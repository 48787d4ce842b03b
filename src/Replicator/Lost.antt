-- ===== src/Replicator/Lost.antt =====
-- A rebuild of src/replication/replicator.cpp after `compactLog` has dropped the start of the log.
use sententia.Prelude.{
  ℕ, zero, suc, ◌-◌, ◌<◌, ◌≡◌, ◌≢◌, refl, ap, ◌∙◌, subst, true, false, ◌||◌, ◌==◌, min, ltb, none,
  Option, List, [], ◌∷◌, arith, inc64, drop,
}
use sententia.CommandLog.{
  LogEntry, CommandLog, at, first_seq, front_seq, is_empty, truncate_through,
}
use sententia.CommandLog.Chain.{Chain, Chain-drop}
use sententia.CommandLog.Whole.{length-whole}
use sententia.Engine.{new_engine}
use sententia.Engine.Snapshot.{EngineSnapshot}
use sententia.Replicator.{
  Replicator, ReplicationStats, is_primary, rebuild_from_log, replay_loop, clamp_commit, restored,
}
use sententia.Replicator.Replay.{IsReplica}
use sententia.Replicator.Appending.{engine-instrument}
use sententia.Replicator.Commit.{compact_log, count_truncation}
use sententia.Replicator.Compaction.{nonempty, compact_log-drop}

late_front :
    (b d : ℕ) (xs : List LogEntry) (l : ℕ)
    → 0 < b
    → Chain b xs l
    → (is_empty xs || ltb 1 (front_seq d xs)) ≡ true
late_front b d [] l h c = refl
late_front b d (x ∷ xs) l h c = ground (arith, h, c.0)

-- A log that starts past its first entry does not have it.
no_first : (b : ℕ) (log : CommandLog) → 0 < b → Chain b log.entries log.last_seq → at 1 log ≡ none
unfolding at first_seq
no_first b log h c =
    ground (arith, late_front b (inc64 log.truncated_through) log.entries log.last_seq h c)

replay_stops : (fuel : ℕ) (s : Replicator) → at 1 s.log ≡ none → replay_loop fuel 1 s ≡ s
unfolding replay_loop
replay_stops zero s h = refl
replay_stops (suc fuel) s h = ground (arith, h)

start_stops :
    (s : Replicator) (base : Option EngineSnapshot) (k : ℕ)
    → at 1 s.log ≡ none
    → base ≡ none
    → k ≡ 0
    → clamp_commit (
        replay_loop
          (s.log.last_seq - k)
          (inc64 k)
          (record s { engine = restored base (new_engine s.engine.instrument); last_applied = k }))
      ≡ record s { engine = new_engine s.engine.instrument; last_applied = 0; commit_index = 0 }
start_stops s base k h p q =
    rw (p, q)
      (ap clamp_commit (
          replay_stops (s.log.last_seq - 0)
            (record s { engine = new_engine s.engine.instrument; last_applied = 0 }) h)
        ∙ ap
            (λ n. record s {
              engine = new_engine s.engine.instrument;
              last_applied = 0;
              commit_index = n;
            })
            (omega arith))

rebuild-stops :
    (s : Replicator)
    → at 1 s.log ≡ none
    → s.snapshot_base ≡ none
    → s.log.snapshot_seq ≡ 0
    → rebuild_from_log s
      ≡ record s { engine = new_engine s.engine.instrument; last_applied = 0; commit_index = 0 }
unfolding rebuild_from_log
rebuild-stops s h p q = start_stops s s.snapshot_base s.log.snapshot_seq h p q

compact-record :
    (s : Replicator)
    → is_primary s.role ≡ true
    → s.backups ≢ []
    → (min s.commit_index s.last_applied == 0) ≡ false
    → (stats : ReplicationStats) × (compact_log s ≡ record s {
      log = truncate_through (min s.commit_index s.last_applied) s.log;
      stats = stats;
    })
unfolding compact_log
compact-record s p n h = (
  count_truncation (truncate_through (min s.commit_index s.last_applied) s.log) s,
  rw (p, nonempty s.backups n, h) refl,
)

-- A primary with a backup that has dropped at least one entry loses its state by the next rebuild: the
-- engine is empty again, and nothing counts as applied or committed. The log is whole before.
pub rebuild-compact_log :
    (instrument : ℕ) (s : Replicator)
    → IsReplica instrument s
    → is_primary s.role ≡ true
    → s.backups ≢ []
    → 0 < min s.commit_index s.last_applied
    → ((rebuild_from_log (compact_log s)).engine ≡ new_engine instrument)
      × ((rebuild_from_log (compact_log s)).last_applied ≡ 0)
      × ((rebuild_from_log (compact_log s)).commit_index ≡ 0)
unfolding truncate_through
rebuild-compact_log instrument s r p n h =
    let safe = min s.commit_index s.last_applied in
    let (stats, e) = compact-record s p n (ground (arith, h)) in
    let (entries, last) = compact_log-drop instrument s r p n in
    let chain : Chain safe (compact_log s).log.entries (compact_log s).log.last_seq =
      rw (entries, last)
        (subst (λ n. Chain n (drop safe s.log.entries) s.log.last_seq) (omega arith)
          (Chain-drop 0 s.log.entries s.log.last_seq safe r.whole.chain
            (omega (arith, r.committed, length-whole s.log r.whole)))) in
    let lost =
      rebuild-stops (compact_log s) (no_first safe (compact_log s).log h chain)
        (ap (λ t. t.snapshot_base) e ∙ r.no_base)
        (ap (λ t. t.log.snapshot_seq) e ∙ r.whole.no_snapshot) in
    (
      ap (λ t. t.engine) lost
          ∙ ap (λ t. new_engine t.engine.instrument) e
          ∙ ap new_engine (engine-instrument instrument s r),
      ap (λ t. t.last_applied) lost,
      ap (λ t. t.commit_index) lost,
    )
