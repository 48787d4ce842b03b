-- ===== src/Replicator/Placing.antt =====
-- What a round of the loop of `handleAppendEntries` in src/replication/replicator.cpp leaves in the log.
use sententia.Prelude.{
  ℕ, ◌+◌, ◌^◌, ◌≤◌, ◌<◌, ◌≡◌, refl, sym, ap, ◌∙◌, subst, ◌⊎◌, inl, inr, true, ◌==◌, ltb, leb,
  Bool-cases, ==→≡, some, none, Option, List, [], ◌∷◌, arith, inc64, get_elem?, get_elem?-end,
  get_elem?-append, get_elem?-take,
}
use sententia.CommandLog.{LogEntry, CommandLog, at, term_at, push, entry_term}
use sententia.CommandLog.Whole.{
  length-whole, push-IsWhole, append_at-next, term_at-whole, term_at-past, term_at-elem, same_terms,
  at-elem, at-past, at-whole,
}
use sententia.Message.{LogRecord}
use sententia.Replicator.{Replicator}
use sententia.Replicator.Replay.{IsReplica}
use sententia.Replicator.Appending.{drop_tail-Kept, drop_tail-log}
use sententia.Replicator.Follower.{
  Verdict, goes_on, refuses, append_new, drop_tail, place, append_record,
}

abbrev pub entry_of : LogRecord → LogEntry
entry_of x = record { seq = x.seq; term = x.term; command = x.command }

-- The log has the record, its command included, at its number, or it still has there what it had
-- before, under the term of the record.
abbrev pub Stored : CommandLog → CommandLog → LogRecord → Type 0
Stored old log x =
    (at x.seq log ≡ some (entry_of x))
    ⊎ ((y : LogEntry) × (at x.seq old ≡ some y) × (y.term ≡ x.term) × (at x.seq log ≡ some y))

-- Records with consecutive numbers after `p`.
abbrev pub Consecutive : ℕ → List LogRecord → Type 0
Consecutive p [] = Unit
Consecutive p (x ∷ xs) = (x.seq ≡ p + 1) × Consecutive (p + 1) xs

-- What the loop does with a record that comes right after some number of the log, or in front of it.
pub record Placed (k : ℕ) (x : LogRecord) (s : Replicator) (result : Verdict × Replicator)
    : Type 0 where
  pub verdict : result.0 ≡ goes_on
  pub stored : Stored s.log result.1.log x
  pub reaches : x.seq ≤ result.1.log.last_seq
  pub below : (j : ℕ) → j < x.seq → term_at j result.1.log ≡ term_at j s.log
  pub same : (j : ℕ) → j < k → at (j + 1) result.1.log ≡ at (j + 1) s.log
  pub above :
      (j : ℕ) (y : LogEntry) → k < j → at (j + 1) result.1.log ≡ some y → at (j + 1) s.log ≡ some y

-- A record for the end of the log.
pushed-Placed :
    (instrument k : ℕ) (x : LogRecord) (s : Replicator)
    → IsReplica instrument s
    → s.log.last_seq + 1 < 2 ^ 64
    → s.log.last_seq ≡ k
    → x.seq ≡ k + 1
    → Placed k x s (append_new x s)
unfolding append_new
pushed-Placed instrument k x s r b l e =
    let next : (x.seq == inc64 s.log.last_seq) ≡ true = ground (arith, b, l, e) in
    let whole = push-IsWhole x.seq x.term x.command s.log r.whole (omega (arith, l, e)) in
    let len = length-whole s.log r.whole in
    rw (append_at-next x.seq x.term x.command s.log next) (record {
      verdict = refl;
      stored = inl (
          ap (λ n. at n (push x.seq x.term x.command s.log)) e
          ∙ at-elem k _ whole
          ∙ get_elem?-end k s.log.entries _ (omega (arith, l, len)));
      reaches = omega arith;
      below = λ j h.
          same_terms k s.log _ r.whole whole
            (λ i lt. get_elem?-append i s.log.entries _ (omega (arith, lt, l, len))) j
            (omega (arith, h, e));
      same = λ j h.
          at-elem j _ whole
          ∙ get_elem?-append j s.log.entries _ (omega (arith, h, l, len))
          ∙ sym (at-elem j s.log r.whole);
      above = λ j y h found. ground (
        arith,
        sym found ∙ at-past (j + 1) (push x.seq x.term x.command s.log) (omega (arith, h, e)),
      );
    })

-- A record that conflicts with an entry past the commit point.
conflict-Placed :
    (instrument k : ℕ) (x : LogRecord) (s : Replicator)
    → IsReplica instrument s
    → s.log.last_seq + 1 < 2 ^ 64
    → s.commit_index ≤ k
    → k < s.log.last_seq
    → x.seq ≡ k + 1
    → Placed k x s (append_new x (drop_tail (k + 1) s))
conflict-Placed instrument k x s r b c l e =
    let d = drop_tail-Kept instrument k s r b c l in
    let (entries, last) = drop_tail-log instrument k s r b c l in
    let p =
      pushed-Placed instrument k x (drop_tail (k + 1) s) d.replica (omega (arith, last, l, b)) last
        e in
    record {
      verdict = p.verdict;
      stored = fresh p.stored;
      reaches = p.reaches;
      below = λ j h.
          p.below j h
          ∙ same_terms k s.log (drop_tail (k + 1) s).log r.whole d.replica.whole
              (λ i lt. ap (λ xs. get_elem? xs i) entries ∙ get_elem?-take i k s.log.entries lt) j
              (omega (arith, h, e));
      same = λ j h.
          p.same j h
          ∙ at-elem j _ d.replica.whole
          ∙ ap (λ xs. get_elem? xs j) entries
          ∙ get_elem?-take j k s.log.entries h
          ∙ sym (at-elem j s.log r.whole);
      above = λ j y h found. ground (
        arith,
        sym (p.above j y h found)
            ∙ at-past (j + 1) (drop_tail (k + 1) s).log (omega (arith, h, last)),
      );
    }
  where
    fresh :
        Stored (drop_tail (k + 1) s).log (append_new x (drop_tail (k + 1) s)).1.log x
        → Stored s.log (append_new x (drop_tail (k + 1) s)).1.log x
    fresh (inl new) = inl new
    fresh (inr (y, old, term, now)) = ground (
      arith,
      sym old
          ∙ at-past x.seq (drop_tail (k + 1) s).log
              (omega (arith, e, (drop_tail-log instrument k s r b c l).1)),
    )

-- An entry that is there under the term of the record.
unchanged :
    {instrument : ℕ} (k term : ℕ) (x : LogRecord) (s : Replicator)
    → IsReplica instrument s
    → k < s.log.last_seq
    → x.seq ≡ k + 1
    → term_at x.seq s.log ≡ some term
    → term ≡ x.term
    → (y : LogEntry) × (at x.seq s.log ≡ some y) × (y.term ≡ x.term) × (at x.seq s.log ≡ some y)
unchanged k term x s r h e f same =
    let (y, here, found, _) = at-whole k s.log r.whole h in
    let at_x : at x.seq s.log ≡ some y = ap (λ n. at n s.log) e ∙ here in
    let own : some term ≡ some y.term =
      sym f ∙ ap (λ n. term_at n s.log) e ∙ term_at-elem k s.log r.whole ∙ ap entry_term found in
    (y, at_x, ground (arith, own, same), at_x)

place-Placed :
    (instrument k : ℕ) (found : Option ℕ) (x : LogRecord) (s : Replicator)
    → IsReplica instrument s
    → s.log.last_seq + 1 < 2 ^ 64
    → k ≤ s.log.last_seq
    → x.seq ≡ k + 1
    → term_at x.seq s.log ≡ found
    → ((place found x s).0 ≡ refuses) ⊎ Placed k x s (place found x s)
place-Placed instrument k none x s r b h e f = elim (Bool-cases (ltb k s.log.last_seq)) [
  | inl held ↦
      let (y, term, _) = term_at-whole k s.log r.whole (ground (arith, held)) in
      ground (arith, sym f ∙ ap (λ n. term_at n s.log) e ∙ term)
  | inr end ↦ inr (pushed-Placed instrument k x s r b (ground (arith, end, h)) e)
]
place-Placed instrument k (some term) x s r b h e f = elim (Bool-cases (leb x.seq s.log.last_seq)) [
  | inl known ↦ elim (Bool-cases (term == x.term)) [
    | inl same ↦ inr (
        rw (known, same)
          (record {
            verdict = refl;
            stored =
                inr (unchanged k term x s r (ground (arith, known, e)) e f (==→≡ term x.term same));
            reaches = ground (arith, known);
            below = λ j lt. refl;
            same = λ j lt. refl;
            above = λ j y lt found. found;
          }))
    | inr other ↦ elim (Bool-cases (leb x.seq s.commit_index)) [
      | inl fixed ↦ inl (rw (known, other, fixed) refl)
      | inr free ↦ inr (
          rw (known, other, free)
            (subst (λ n. Placed k x s (append_new x (drop_tail n s))) (sym e)
              (conflict-Placed instrument k x s r b (ground (arith, free, e))
                (ground (arith, known, e)) e)))
    ]
  ]
  | inr past ↦ ground (arith, sym f ∙ term_at-past x.seq s.log r.whole (ground (arith, past)))
]

pub append_record-Placed :
    (instrument k : ℕ) (x : LogRecord) (s : Replicator)
    → IsReplica instrument s
    → s.log.last_seq + 1 < 2 ^ 64
    → k ≤ s.log.last_seq
    → x.seq ≡ k + 1
    → ((append_record x s).0 ≡ refuses) ⊎ Placed k x s (append_record x s)
unfolding append_record
append_record-Placed instrument k x s r b h e =
    place-Placed instrument k (term_at x.seq s.log) x s r b h e refl
