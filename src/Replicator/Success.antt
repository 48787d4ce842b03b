-- ===== src/Replicator/Success.antt =====
-- After `handleAppendEntries` of src/replication/replicator.cpp succeeds, the log has what the message
-- says, and the commit point has moved.
use sententia.Prelude.{
  ℕ, ◌+◌, ◌^◌, ◌≤◌, ◌<◌, ◌≡◌, refl, sym, ap, ◌∙◌, subst, inl, inr, Bool, true, false, ◌==◌, min,
  max, ltb, Bool-cases, ==→≡, some, none, Option, length, arith, All,
}
use sententia.CommandLog.{term_at}
use sententia.CommandLog.Whole.{term_at-past}
use sententia.Message.{AppendEntries}
use sententia.Replicator.{Replicator, apply_committed}
use sententia.Replicator.Replay.{IsReplica}
use sententia.Replicator.Appending.{append_records-Kept}
use sententia.Replicator.Matching.{append_records-Agreed}
use sententia.Replicator.Placing.{Stored, Consecutive}
use sententia.Replicator.Majority.{apply_loop-Steady}
use sententia.Replicator.Following.{observe_commit-log}
use sententia.Replicator.Follower.{
  append_records, observe_commit, response, conclude, match_previous, handle_append_entries,
}

observed :
    (c : ℕ) (s : Replicator)
    → s.commit_index ≤ s.log.last_seq
    → (observe_commit c s).commit_index ≡ max s.commit_index (min c s.log.last_seq)
unfolding observe_commit
observed c s h = elim (Bool-cases (ltb s.commit_index c)) [
  | inl later ↦ rw later (ground (arith, later, h))
  | inr early ↦ rw early (ground (arith, early))
]

-- What the end of the handler says of the loop.
concluded :
    (c : ℕ) (end : Bool × Replicator)
    → end.1.commit_index ≤ end.1.log.last_seq
    → (conclude c end).1.ok ≡ true
    → (end.0 ≡ true)
      × ((conclude c end).0.log ≡ end.1.log)
      × ((conclude c end).0.commit_index ≡ max end.1.commit_index (min c end.1.log.last_seq))
unfolding conclude response apply_committed
concluded c (false, s) h ok = ground (arith, ok)
concluded c (true, s) h ok = (
  refl,
  (apply_loop-Steady _ _).log ∙ observe_commit-log c s,
  (apply_loop-Steady _ _).commit_index ∙ observed c s h,
)

-- The log has the previous entry and the records of a message, and the commit point has moved to the
-- one of the message or the end of the log.
pub record Succeeds (msg : AppendEntries) (s s' : Replicator) : Type 0 where
  pub previous : term_at msg.prev_seq s'.log ≡ some msg.prev_term
  pub records : All (Stored s.log s'.log) msg.entries
  pub commit_index : s'.commit_index ≡ max s.commit_index (min msg.commit_seq s'.log.last_seq)

module _ (msg : AppendEntries) (s : Replicator) where
  matches_previous :
      (local : ℕ)
      → (local == msg.prev_term) ≡ true
      → match_previous (some local) msg s ≡ conclude msg.commit_seq (append_records msg.entries s)
  matches_previous local h = rw h refl

  other_previous :
      (local : ℕ)
      → (local == msg.prev_term) ≡ false
      → (match_previous (some local) msg s).1.ok ≡ false
  unfolding response
  other_previous local h = rw h refl

  handles_current :
      ltb msg.term s.term ≡ false
      → handle_append_entries msg s ≡ match_previous (term_at msg.prev_seq s.log) msg s
  unfolding handle_append_entries
  handles_current h = rw h refl

  refuses_stale : ltb msg.term s.term ≡ true → (handle_append_entries msg s).1.ok ≡ false
  unfolding handle_append_entries response
  refuses_stale h = rw h refl

module _ (instrument : ℕ) (msg : AppendEntries) (s : Replicator) (r : IsReplica instrument s)
    (b : s.log.last_seq + length msg.entries + 1 < 2 ^ 64)
    (c : Consecutive msg.prev_seq msg.entries) where
  previous_known :
      (local : ℕ) → term_at msg.prev_seq s.log ≡ some local → msg.prev_seq ≤ s.log.last_seq
  previous_known local e = elim (Bool-cases (ltb s.log.last_seq msg.prev_seq)) [
    | inl past ↦
        ground (arith, sym e ∙ term_at-past msg.prev_seq s.log r.whole (ground (arith, past)))
    | inr within ↦ ground (arith, within)
  ]

  loop-Succeeds :
      term_at msg.prev_seq s.log ≡ some msg.prev_term
      → (conclude msg.commit_seq (append_records msg.entries s)).1.ok ≡ true
      → Succeeds msg s (conclude msg.commit_seq (append_records msg.entries s)).0
  loop-Succeeds e ok =
      let kept = append_records-Kept instrument msg.entries s r b in
      let (went, logs, commit) =
        concluded msg.commit_seq (append_records msg.entries s) kept.replica.committed ok in
      let agreed =
        append_records-Agreed instrument msg.prev_seq msg.entries s r b (previous_known _ e) c
          went in
      record {
        previous = rw logs (agreed.before msg.prev_seq (omega arith) ∙ e);
        records = rw logs agreed.stored;
        commit_index = rw (logs, commit, kept.commit_index) refl;
      }

  matched-Succeeds :
      (previous : Option ℕ)
      → term_at msg.prev_seq s.log ≡ previous
      → (match_previous previous msg s).1.ok ≡ true
      → Succeeds msg s (match_previous previous msg s).0
  unfolding response
  matched-Succeeds none e ok = ground (arith, ok)
  matched-Succeeds (some local) e ok = elim (Bool-cases (local == msg.prev_term)) [
    | inl same ↦
        subst (λ t. t.1.ok ≡ true → Succeeds msg s t.0) (sym (matches_previous msg s local same))
          (loop-Succeeds (e ∙ ap some (==→≡ local msg.prev_term same))) ok
    | inr other ↦ ground (arith, sym ok ∙ other_previous msg s local other)
  ]

  -- A success answers a message that is not of an old term. After it the log of the replica has the
  -- term before the records of the message. At the number of each record it has that record, with its
  -- command, or still the entry that it had there before, if that is of the record's term. The commit
  -- point is that of the message, or the end of the log if that is less, unless it was further before.
  -- The records have consecutive numbers, and the log is whole and stays short of 2^64 entries.
  pub handle_append_entries-Succeeds :
      (handle_append_entries msg s).1.ok ≡ true
      → (ltb msg.term s.term ≡ false) × Succeeds msg s (handle_append_entries msg s).0
  handle_append_entries-Succeeds ok = elim (Bool-cases (ltb msg.term s.term)) [
    | inl stale ↦ ground (arith, sym ok ∙ refuses_stale msg s stale)
    | inr current ↦ (
      current,
      subst (λ t. t.1.ok ≡ true → Succeeds msg s t.0) (sym (handles_current msg s current))
          (matched-Succeeds (term_at msg.prev_seq s.log) refl) ok,
    )
  ]
