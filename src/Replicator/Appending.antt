-- ===== src/Replicator/Appending.antt =====
-- What the loop of `handleAppendEntries` in src/replication/replicator.cpp keeps: the engine is the
-- replay of the log, and the committed entries stay.
use sententia.Prelude.{
  ℕ, suc, ◌+◌, ◌-◌, ◌^◌, ◌≤◌, ◌<◌, ◌≡◌, refl, sym, ap, ◌∙◌, subst, inl, inr, Bool, true, false,
  ◌==◌, leb, Bool-cases, some, none, Option, List, [], ◌∷◌, length, arith, inc64, take, take-append,
  take-take, length-take,
}
use sententia.Types.{Command}
use sententia.CommandLog.{push, term_at, truncate_from}
use sententia.CommandLog.Whole.{
  length-whole, push-IsWhole, append_at-next, append_at-refused, truncate_from-IsWhole,
}
use sententia.Engine.{new_engine}
use sententia.Message.{LogRecord}
use sententia.Replicator.{Replicator, ReplicationStats, rebuild_from_log}
use sententia.Replicator.Replay.{replay, replay-instrument, IsReplica}
use sententia.Replicator.Applying.{Ran, rebuild_from_log-Ran}
use sententia.Replicator.Follower.{
  Verdict, goes_on, breaks, refuses, append_new, cut, drop_tail, place, append_record,
  append_records, go_on,
}

-- What up to `n` records may do to a replica.
pub record Kept (instrument n : ℕ) (s s' : Replicator) : Type 0 where
  pub replica : IsReplica instrument s'
  pub commit_index : s'.commit_index ≡ s.commit_index
  pub term : s'.term ≡ s.term
  pub committed : take s.commit_index s'.log.entries ≡ take s.commit_index s.log.entries
  pub growth : s'.log.last_seq ≤ s.log.last_seq + n

module _ (instrument : ℕ) where
  unchanged-Kept : (n : ℕ) (s : Replicator) → IsReplica instrument s → Kept instrument n s s
  unchanged-Kept n s r = record {
    replica = r;
    commit_index = refl;
    term = refl;
    committed = refl;
    growth = omega arith;
  }

  then-Kept :
      (n m k : ℕ) (s t u : Replicator)
      → Kept instrument n s t
      → Kept instrument m t u
      → n + m ≤ k
      → Kept instrument k s u
  then-Kept n m k s t u a b h = record {
    replica = b.replica;
    commit_index = b.commit_index ∙ a.commit_index;
    term = b.term ∙ a.term;
    committed = rw (sym a.commit_index) b.committed ∙ a.committed;
    growth = omega (arith, a.growth, b.growth, h);
  }

  counted-Kept :
      (n : ℕ) (s : Replicator) (stats : ReplicationStats)
      → IsReplica instrument s
      → Kept instrument n s (record s { stats = stats })
  counted-Kept n s stats r = record {
    replica = record {
      whole = r.whole;
      no_base = r.no_base;
      applied = r.applied;
      committed = r.committed;
      engine = r.engine;
    };
    commit_index = refl;
    term = refl;
    committed = refl;
    growth = omega arith;
  }

  -- A new entry at the end of the log.
  pub push-Kept :
      (seq term : ℕ) (cmd : Command) (s : Replicator) (stats : ReplicationStats)
      → IsReplica instrument s
      → seq ≡ s.log.last_seq + 1
      → Kept instrument 1 s (record s { log = push seq term cmd s.log; stats = stats })
  push-Kept seq term cmd s stats r e =
      let len = length-whole s.log r.whole in
      record {
        replica = record {
          whole = push-IsWhole seq term cmd s.log r.whole e;
          no_base = r.no_base;
          applied = omega (arith, r.applied, e);
          committed = omega (arith, r.committed, e);
          engine =
              r.engine
              ∙ ap (λ xs. replay xs (new_engine instrument))
                  (sym
                    (take-append s.last_applied s.log.entries _ (omega (arith, r.applied, len))));
        };
        commit_index = refl;
        term = refl;
        committed = take-append s.commit_index s.log.entries _ (omega (arith, r.committed, len));
        growth = omega (arith, e);
      }

  pub engine-instrument :
      (s : Replicator) → IsReplica instrument s → s.engine.instrument ≡ instrument
  unfolding new_engine
  engine-instrument s r = ap (λ e. e.instrument) r.engine ∙ replay-instrument _ _

  -- The state of a rebuild after a truncation, on a replica whose commit point is in front of it.
  dropped-Ran :
      (k : ℕ) (s : Replicator)
      → IsReplica instrument s
      → s.log.last_seq + 1 < 2 ^ 64
      → s.commit_index ≤ k
      → k < s.log.last_seq
      → Ran instrument k (cut (k + 1) s) (drop_tail (k + 1) s)
        × ((truncate_from (k + 1) s.log).last_seq ≡ k)
  unfolding drop_tail
  dropped-Ran k s r b h l =
      let (whole, left) = truncate_from-IsWhole k s.log r.whole in
      let shorter : (truncate_from (k + 1) s.log).last_seq ≡ k = omega (
        arith,
        l,
        length-whole _ whole,
        ap length left,
        length-take k s.log.entries,
        length-whole s.log r.whole,
      ) in
      (
        subst (λ m. Ran instrument m (cut (k + 1) s) (rebuild_from_log (cut (k + 1) s))) shorter
            (rebuild_from_log-Ran instrument (cut (k + 1) s) whole r.no_base
              (omega (arith, shorter, h)) (engine-instrument s r) (omega (arith, shorter, l, b))),
        shorter,
      )

  -- A truncation leaves the entries in front of it.
  pub drop_tail-log :
      (k : ℕ) (s : Replicator)
      → IsReplica instrument s
      → s.log.last_seq + 1 < 2 ^ 64
      → s.commit_index ≤ k
      → k < s.log.last_seq
      → ((drop_tail (k + 1) s).log.entries ≡ take k s.log.entries)
        × ((drop_tail (k + 1) s).log.last_seq ≡ k)
  drop_tail-log k s r b h l =
      let (ran, shorter) = dropped-Ran k s r b h l in
      (
        ap (λ g. g.entries) ran.log ∙ (truncate_from-IsWhole k s.log r.whole).1,
        ap (λ g. g.last_seq) ran.log ∙ shorter,
      )

  pub drop_tail-Kept :
      (k : ℕ) (s : Replicator)
      → IsReplica instrument s
      → s.log.last_seq + 1 < 2 ^ 64
      → s.commit_index ≤ k
      → k < s.log.last_seq
      → Kept instrument 0 s (drop_tail (k + 1) s)
  drop_tail-Kept k s r b h l =
      let (ran, shorter) = dropped-Ran k s r b h l in
      let (entries, last) = drop_tail-log k s r b h l in
      record {
        replica = ran.replica;
        commit_index = ran.commit_index;
        term = ran.term;
        committed = ap (take s.commit_index) entries ∙ take-take s.commit_index k s.log.entries h;
        growth = omega (arith, last, l);
      }

  append_new-Kept :
      (x : LogRecord) (s : Replicator)
      → IsReplica instrument s
      → s.log.last_seq + 1 < 2 ^ 64
      → Kept instrument 1 s (append_new x s).1
  unfolding append_new
  append_new-Kept x s r b = elim (Bool-cases (x.seq == inc64 s.log.last_seq)) [
    | inl next ↦
        rw (append_at-next x.seq x.term x.command s.log next)
          (push-Kept x.seq x.term x.command s _ r (ground (arith, next, b)))
    | inr other ↦ rw (append_at-refused x.seq x.term x.command s.log other) (counted-Kept 1 s _ r)
  ]

  -- A record that conflicts with an entry past the commit point replaces the tail from there.
  conflict-Kept :
      (x : LogRecord) (s : Replicator)
      → IsReplica instrument s
      → s.log.last_seq + 1 < 2 ^ 64
      → leb x.seq s.log.last_seq ≡ true
      → leb x.seq s.commit_index ≡ false
      → Kept instrument 1 s (append_new x (drop_tail x.seq s)).1
  conflict-Kept x s r b l h =
      let d =
        subst (λ seq. Kept instrument 0 s (drop_tail seq s)) (ground (arith, h))
          (drop_tail-Kept (x.seq - 1) s r b (ground (arith, h)) (ground (arith, h, l))) in
      then-Kept 0 1 1 s (drop_tail x.seq s) _ d
        (append_new-Kept x (drop_tail x.seq s) d.replica (omega (arith, d.growth, b))) (omega arith)

  placed-Kept :
      (found : Option ℕ) (x : LogRecord) (s : Replicator)
      → IsReplica instrument s
      → s.log.last_seq + 1 < 2 ^ 64
      → Kept instrument 1 s (place found x s).1
  placed-Kept none x s r b = append_new-Kept x s r b
  placed-Kept (some term) x s r b = elim (Bool-cases (leb x.seq s.log.last_seq)) [
    | inl known ↦ elim (Bool-cases (term == x.term)) [
      | inl same ↦ rw (known, same) (unchanged-Kept 1 s r)
      | inr other ↦ elim (Bool-cases (leb x.seq s.commit_index)) [
        | inl fixed ↦ rw (known, other, fixed) (unchanged-Kept 1 s r)
        | inr free ↦ rw (known, other, free) (conflict-Kept x s r b known free)
      ]
    ]
    | inr past ↦ rw past (append_new-Kept x s r b)
  ]

  pub append_record-Kept :
      (x : LogRecord) (s : Replicator)
      → IsReplica instrument s
      → s.log.last_seq + 1 < 2 ^ 64
      → Kept instrument 1 s (append_record x s).1
  unfolding append_record
  append_record-Kept x s r b = placed-Kept (term_at x.seq s.log) x s r b

  go_on-Kept :
      (v : Verdict) (n : ℕ) (rest : Replicator → Bool × Replicator) (s : Replicator)
      → IsReplica instrument s
      → Kept instrument n s (rest s).1
      → Kept instrument n s (go_on v rest s).1
  go_on-Kept goes_on n rest s r k = k
  go_on-Kept breaks n rest s r k = unchanged-Kept n s r
  go_on-Kept refuses n rest s r k = unchanged-Kept n s r

  pub append_records-Kept :
      (xs : List LogRecord) (s : Replicator)
      → IsReplica instrument s
      → s.log.last_seq + length xs + 1 < 2 ^ 64
      → Kept instrument (length xs) s (append_records xs s).1
  unfolding append_records
  append_records-Kept [] s r b = unchanged-Kept 0 s r
  append_records-Kept (x ∷ xs) s r b =
      let first = append_record-Kept x s r (omega (arith, b)) in
      then-Kept 1 (length xs) (suc (length xs)) s (append_record x s).1 _ first
        (go_on-Kept (append_record x s).0 (length xs) (append_records xs) (append_record x s).1
          first.replica
          (append_records-Kept xs (append_record x s).1 first.replica
            (omega (arith, b, first.growth))))
        (omega arith)
