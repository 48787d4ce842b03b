-- ===== src/Replicator/Matching.antt =====
-- What the loop of `handleAppendEntries` in src/replication/replicator.cpp leaves in the log.
use sententia.Prelude.{
  ℕ, ◌+◌, ◌^◌, ◌≤◌, ◌<◌, ◌≡◌, refl, sym, ap, ◌∙◌, subst, inl, inr, true, false, some, List, [], ◌∷◌,
  length, arith, All,
}
use sententia.CommandLog.{LogEntry, CommandLog, at, term_at}
use sententia.Message.{LogRecord}
use sententia.Replicator.{Replicator}
use sententia.Replicator.Replay.{IsReplica}
use sententia.Replicator.Appending.{append_record-Kept}
use sententia.Replicator.Follower.{goes_on, refuses, append_record, append_records}
use sententia.Replicator.Placing.{Stored, Consecutive, append_record-Placed}

later_Stored :
    (old log log' : CommandLog) (x : LogRecord)
    → at x.seq log' ≡ at x.seq log
    → Stored old log x
    → Stored old log' x
later_Stored old log log' x same (inl new) = inl (same ∙ new)
later_Stored old log log' x same (inr (y, was, term, now)) = inr (y, was, term, same ∙ now)

earlier_Stored :
    (k p : ℕ) (old log log' : CommandLog) (xs : List LogRecord)
    → ((j : ℕ) (y : LogEntry) → k < j → at (j + 1) log ≡ some y → at (j + 1) old ≡ some y)
    → k < p
    → Consecutive p xs
    → All (Stored log log') xs
    → All (Stored old log') xs
earlier_Stored k p old log log' [] above h c all = tt
earlier_Stored k p old log log' (x ∷ xs) above h c (head, tail) =
    (first head, earlier_Stored k (p + 1) old log log' xs above (omega (arith, h)) c.1 tail)
  where
    first : Stored log log' x → Stored old log' x
    first (inl new) = inl new
    first (inr (y, was, term, now)) =
        inr
          (y, ap (λ n. at n old) c.0 ∙ above p y h (ap (λ n. at n log) (sym c.0) ∙ was), term, now)

-- After a loop that does not refuse, the log has stored the records, and has the terms that it had up to
-- the number before them.
pub record Agreed (p : ℕ) (xs : List LogRecord) (s s' : Replicator) : Type 0 where
  pub stored : All (Stored s.log s'.log) xs
  pub same : (j : ℕ) → j < p → at (j + 1) s'.log ≡ at (j + 1) s.log
  pub before : (k : ℕ) → k ≤ p → term_at k s'.log ≡ term_at k s.log

loop-refuses :
    (x : LogRecord) (xs : List LogRecord) (s : Replicator)
    → (append_record x s).0 ≡ refuses
    → (append_records (x ∷ xs) s).0 ≡ false
unfolding append_records
loop-refuses x xs s h = rw h refl

loop-next :
    (x : LogRecord) (xs : List LogRecord) (s : Replicator)
    → (append_record x s).0 ≡ goes_on
    → append_records (x ∷ xs) s ≡ append_records xs (append_record x s).1
unfolding append_records
loop-next x xs s h = rw h refl

pub append_records-Agreed :
    (instrument p : ℕ) (xs : List LogRecord) (s : Replicator)
    → IsReplica instrument s
    → s.log.last_seq + length xs + 1 < 2 ^ 64
    → p ≤ s.log.last_seq
    → Consecutive p xs
    → (append_records xs s).0 ≡ true
    → Agreed p xs s (append_records xs s).1
unfolding append_records
append_records-Agreed instrument p [] s r b h c ok = record {
  stored = tt;
  same = λ j lt. refl;
  before = λ k lt. refl;
}
append_records-Agreed instrument p (x ∷ xs) s r b h c ok =
    elim (append_record-Placed instrument p x s r (omega (arith, b)) h c.0) [
      | inl refused ↦ ground (arith, sym ok ∙ loop-refuses x xs s refused)
      | inr placed ↦
          let s' = (append_record x s).1 in
          let kept = append_record-Kept instrument x s r (omega (arith, b)) in
          let next = loop-next x xs s placed.verdict in
          let rest =
            append_records-Agreed instrument (p + 1) xs s' kept.replica
              (omega (arith, b, kept.growth)) (omega (arith, placed.reaches, c.0)) c.1
              (ap (λ t. t.0) (sym next) ∙ ok) in
          let end = (append_records xs s').1.log in
          subst (λ t. Agreed p (x ∷ xs) s t.1) (sym next)
            (record {
              stored = (
                later_Stored s.log s'.log end x
                    (ap (λ n. at n end) c.0
                      ∙ rest.same p (omega arith)
                      ∙ ap (λ n. at n s'.log) (sym c.0))
                    placed.stored,
                earlier_Stored p (p + 1) s.log s'.log end xs placed.above (omega arith) c.1
                    rest.stored,
              );
              same = λ j lt. rest.same j (omega (arith, lt)) ∙ placed.same j lt;
              before = λ k lt.
                  rest.before k (omega (arith, lt)) ∙ placed.below k (omega (arith, lt, c.0));
            })
    ]
