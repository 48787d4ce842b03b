-- ===== src/Replicator/Applying.antt =====
-- The loops of `applyCommitted` and `rebuildFromLog` in src/replication/replicator.cpp: they end, and
-- where.
use sententia.Prelude.{
  ℕ, zero, suc, ◌+◌, ◌-◌, ◌^◌, ◌≤◌, ◌<◌, ◌≡◌, refl, sym, ◌∙◌, inl, inr, true, false, max, ltb, leb,
  Bool-cases, some, none, Option, arith, inc64, take,
}
use sententia.CommandLog.{LogEntry, at}
use sententia.CommandLog.Whole.{IsWhole}
use sententia.Engine.Snapshot.{EngineSnapshot}
use sententia.Engine.{new_engine}
use sententia.Replicator.{
  run_command, Replicator, apply_entry, apply_loop, apply_committed, replay_loop, rebuild_from_log,
  clamp_commit, restored,
}
use sententia.Replicator.Replay.{replay, IsReplica, next_entry}

-- A run of entries from the log: only the engine, the last applied number and the counters change.
pub record Ran (instrument m : ℕ) (s s' : Replicator) : Type 0 where
  pub replica : IsReplica instrument s'
  pub log : s'.log ≡ s.log
  pub commit_index : s'.commit_index ≡ s.commit_index
  pub term : s'.term ≡ s.term
  pub last_applied : s'.last_applied ≡ m

module _ (fuel : ℕ) (s : Replicator) where
  pub apply-done : ltb s.last_applied s.commit_index ≡ false → apply_loop (suc fuel) s ≡ s
  unfolding apply_loop
  apply-done h = ground arith

  pub apply-next :
      {x : LogEntry}
      → ltb s.last_applied s.commit_index ≡ true
      → at (inc64 s.last_applied) s.log ≡ some x
      → apply_loop (suc fuel) s ≡ apply_loop fuel (apply_entry x s)
  unfolding apply_loop
  apply-next h k = ground arith

  pub apply-missing :
      ltb s.last_applied s.commit_index ≡ true
      → at (inc64 s.last_applied) s.log ≡ none
      → apply_loop (suc fuel) s ≡ s
  unfolding apply_loop
  apply-missing h k = ground arith

  replay-past : (seq : ℕ) → leb seq s.log.last_seq ≡ false → replay_loop (suc fuel) seq s ≡ s
  unfolding replay_loop
  replay-past seq h = ground arith

  replay-next :
      (seq : ℕ) {x : LogEntry}
      → leb seq s.log.last_seq ≡ true
      → at seq s.log ≡ some x
      → replay_loop (suc fuel) seq s
        ≡ replay_loop fuel
            (inc64 seq)
            (record s { engine = run_command x.command s.engine; last_applied = seq })
  unfolding replay_loop
  replay-next seq h k = ground arith

module _ (instrument : ℕ) where
  none-Ran :
      (m : ℕ) (s : Replicator) → IsReplica instrument s → s.last_applied ≡ m → Ran instrument m s s
  none-Ran m s r e = record {
    replica = r;
    log = refl;
    commit_index = refl;
    term = refl;
    last_applied = e;
  }

  then-Ran :
      (m : ℕ) (s t u : Replicator)
      → t.log ≡ s.log
      → t.commit_index ≡ s.commit_index
      → t.term ≡ s.term
      → Ran instrument m t u
      → Ran instrument m s u
  then-Ran m s t u l c e r = record {
    replica = r.replica;
    log = r.log ∙ l;
    commit_index = r.commit_index ∙ c;
    term = r.term ∙ e;
    last_applied = r.last_applied;
  }

  applied-IsReplica :
      (s : Replicator) (x : LogEntry)
      → IsReplica instrument s
      → s.last_applied < s.log.last_seq
      → x.seq ≡ s.last_applied + 1
      → run_command x.command s.engine
        ≡ replay (take (s.last_applied + 1) s.log.entries) (new_engine instrument)
      → IsReplica instrument (apply_entry x s)
  unfolding apply_entry
  applied-IsReplica s x r h e p = record {
    whole = r.whole;
    no_base = r.no_base;
    applied = omega (arith, h, e);
    committed = r.committed;
    engine = rw e p;
  }

  stepped-Ran :
      (s : Replicator) (x : LogEntry) (m : ℕ) (u : Replicator)
      → s.last_applied < s.log.last_seq
      → x.seq ≡ s.last_applied + 1
      → max x.seq s.commit_index ≡ m
      → Ran instrument (max x.seq s.commit_index) (apply_entry x s) u
      → Ran instrument m s u
  unfolding apply_entry
  stepped-Ran s x m u h e k r = then-Ran m s (apply_entry x s) u refl refl refl (rw (sym k) r)

  apply_loop-Ran :
      (fuel : ℕ) (s : Replicator)
      → IsReplica instrument s
      → s.log.last_seq + 1 < 2 ^ 64
      → s.commit_index ≤ s.last_applied + fuel
      → Ran instrument (max s.last_applied s.commit_index) s (apply_loop fuel s)
  unfolding apply_loop apply_entry
  apply_loop-Ran zero s r b h = none-Ran _ s r (ground (arith, h))
  apply_loop-Ran (suc fuel) s r b h = elim (Bool-cases (ltb s.last_applied s.commit_index)) [
    | inl more ↦
        let (x, here, e, p) = next_entry instrument s r (ground (arith, more, r.committed)) in
        let below : s.last_applied < s.log.last_seq = ground (arith, more, r.committed) in
        let step : inc64 s.last_applied ≡ s.last_applied + 1 = ground (arith, below, b) in
        rw (apply-next fuel s {x = x} more (rw step here)) (
          stepped-Ran s x _ _ below e (ground (arith, more, e)) (
            apply_loop-Ran fuel (apply_entry x s) (applied-IsReplica s x r below e p) b
              (ground (arith, h, e))))
    | inr done ↦ rw (apply-done fuel s done) (none-Ran _ s r (ground (arith, done)))
  ]

  -- On a replica whose log is whole and short of 2^64 entries, `applyCommitted` ends with every entry
  -- up to the commit point applied, none of them twice: the engine is the replay of the log so far. The
  -- log, the commit point and the term stay.
  pub apply_committed-Ran :
      (s : Replicator)
      → IsReplica instrument s
      → s.log.last_seq + 1 < 2 ^ 64
      → Ran instrument (max s.last_applied s.commit_index) s (apply_committed s)
  unfolding apply_committed
  apply_committed-Ran s r b = apply_loop-Ran _ s r b (omega arith)

  replayed-IsReplica :
      (s : Replicator) (x : LogEntry) (seq : ℕ)
      → IsReplica instrument s
      → s.last_applied < s.log.last_seq
      → seq ≡ s.last_applied + 1
      → run_command x.command s.engine
        ≡ replay (take (s.last_applied + 1) s.log.entries) (new_engine instrument)
      → IsReplica instrument
          (record s { engine = run_command x.command s.engine; last_applied = seq })
  replayed-IsReplica s x seq r h e p = record {
    whole = r.whole;
    no_base = r.no_base;
    applied = omega (arith, h, e);
    committed = r.committed;
    engine = rw e p;
  }

  replay_loop-Ran :
      (fuel seq : ℕ) (s : Replicator)
      → IsReplica instrument s
      → s.log.last_seq + 1 < 2 ^ 64
      → s.log.last_seq ≤ s.last_applied + fuel
      → seq ≡ s.last_applied + 1
      → Ran instrument s.log.last_seq s (replay_loop fuel seq s)
  unfolding replay_loop
  replay_loop-Ran zero seq s r b h e = none-Ran _ s r (omega (arith, h, r.applied))
  replay_loop-Ran (suc fuel) seq s r b h e = elim (Bool-cases (leb seq s.log.last_seq)) [
    | inl more ↦
        let below : s.last_applied < s.log.last_seq = ground (arith, more, e) in
        let (x, here, at_seq, p) = next_entry instrument s r below in
        rw (replay-next fuel s seq {x = x} more (rw e here)) (
          then-Ran _ s _ _ refl refl refl (
            replay_loop-Ran fuel (inc64 seq)
              (record s { engine = run_command x.command s.engine; last_applied = seq })
              (replayed-IsReplica s x seq r below e p) b (omega (arith, h, e))
              (omega (arith, below, b, e))))
    | inr done ↦
        rw (replay-past fuel s seq done) (none-Ran _ s r (ground (arith, done, e, r.applied)))
  ]

  blank-IsReplica :
      (s : Replicator)
      → IsWhole s.log
      → s.snapshot_base ≡ none
      → s.commit_index ≤ s.log.last_seq
      → IsReplica instrument (record s { engine = new_engine instrument; last_applied = 0 })
  unfolding replay
  blank-IsReplica s w n c = record {
    whole = w;
    no_base = n;
    applied = omega arith;
    committed = c;
    engine = refl;
  }

  clamped-Ran :
      (m : ℕ) (s t : Replicator)
      → Ran instrument m s t
      → s.commit_index ≤ m
      → Ran instrument m s (clamp_commit t)
  clamped-Ran m s t r h = record {
    replica = record {
      whole = r.replica.whole;
      no_base = r.replica.no_base;
      applied = r.replica.applied;
      committed = omega (arith, r.replica.committed);
      engine = r.replica.engine;
    };
    log = r.log;
    commit_index = omega (arith, r.commit_index, r.last_applied, h);
    term = r.term;
    last_applied = r.last_applied;
  }

  -- The start of a rebuild without a snapshot.
  start-Ran :
      (s : Replicator) (base : Option EngineSnapshot) (k j : ℕ)
      → IsWhole s.log
      → s.snapshot_base ≡ none
      → s.commit_index ≤ s.log.last_seq
      → s.log.last_seq + 1 < 2 ^ 64
      → base ≡ none
      → k ≡ 0
      → j ≡ instrument
      → Ran instrument s.log.last_seq s (
          replay_loop
            (s.log.last_seq - k)
            (inc64 k)
            (record s { engine = restored base (new_engine j); last_applied = k }))
  start-Ran s base k j w n c b p q i =
      rw (p, q, i)
        (then-Ran _ s _ _ refl refl refl (
          replay_loop-Ran (s.log.last_seq - 0) (inc64 0) _ (blank-IsReplica s w n c) b (omega arith)
            (omega arith)))

  -- A rebuild from a whole log short of 2^64 entries, whose commit point is in it, without a snapshot to
  -- start from, ends with every entry of the log applied, also those past the commit point: the
  -- engine is their replay. The log, the commit point and the term stay.
  pub rebuild_from_log-Ran :
      (s : Replicator)
      → IsWhole s.log
      → s.snapshot_base ≡ none
      → s.commit_index ≤ s.log.last_seq
      → s.engine.instrument ≡ instrument
      → s.log.last_seq + 1 < 2 ^ 64
      → Ran instrument s.log.last_seq s (rebuild_from_log s)
  unfolding rebuild_from_log
  rebuild_from_log-Ran s w n c i b =
      clamped-Ran _ s _
        (start-Ran s s.snapshot_base s.log.snapshot_seq s.engine.instrument w n c b n w.no_snapshot
          i)
        c
