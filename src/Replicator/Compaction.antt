-- ===== src/Replicator/Compaction.antt =====
-- `compactLog` of src/replication/replicator.cpp, and a rebuild after it.
use sententia.Prelude.{
  ℕ, zero, suc, ◌+◌, ◌-◌, ◌≡◌, ◌≢◌, refl, sym, ap, ◌∙◌, inl, inr, true, false, ◌==◌, min, leb,
  Bool-cases, ==→≡, if◌then◌else◌, List, [], ◌∷◌, length, arith, drop,
}
use sententia.CommandLog.{LogEntry, CommandLog, pop_front, truncate_through}
use sententia.CommandLog.Chain.{Chain}
use sententia.CommandLog.Whole.{IsWhole}
use sententia.Replicator.{Replicator, is_primary}
use sententia.Replicator.Replay.{IsReplica}
use sententia.Replicator.Commit.{compact_log}

drop-nil : (n : ℕ) → drop {A = LogEntry} n [] ≡ []
drop-nil zero = refl
drop-nil (suc n) = refl

pop_front-drop :
    (n t b : ℕ) (xs : List LogEntry) (l : ℕ) → Chain b xs l → (pop_front n t xs).1 ≡ drop (n - b) xs
unfolding pop_front
pop_front-drop n t b [] l c = sym (drop-nil (n - b))
pop_front-drop n t b (x ∷ xs) l c = elim (Bool-cases (leb x.seq n)) [
  | inl gone ↦
      let more : n - b ≡ suc (n - (b + 1)) = ground (arith, gone, c.0) in
      rw (gone, more) (pop_front-drop n x.seq (b + 1) xs l c.1)
  | inr kept ↦ let no_more : n - b ≡ 0 = ground (arith, kept, c.0) in rw (kept, no_more) refl
]

pub nonempty {ℓ} : {A : Type ℓ} (xs : List A) → xs ≢ [] → (length xs == 0) ≡ false
nonempty [] h = ground (arith, h)
nonempty (x ∷ xs) h = ground arith

-- The log after the early returns.
compacted :
    (s : Replicator)
    → is_primary s.role ≡ true
    → s.backups ≢ []
    → (compact_log s).log ≡ (
        if min s.commit_index s.last_applied == 0
        then s.log
        else truncate_through (min s.commit_index s.last_applied) s.log)
unfolding compact_log
compacted s p n = elim (Bool-cases (min s.commit_index s.last_applied == 0)) [
  | inl nothing ↦ rw (p, nonempty s.backups n, nothing) refl
  | inr more ↦ rw (p, nonempty s.backups n, more) refl
]

pub dropped :
    (n : ℕ) (log : CommandLog)
    → IsWhole log
    → ((if n == 0 then log else truncate_through n log).entries ≡ drop n log.entries)
      × ((if n == 0 then log else truncate_through n log).last_seq ≡ log.last_seq)
unfolding truncate_through
dropped n log w = elim (Bool-cases (n == 0)) [
  | inl nothing ↦ let zero_safe : n ≡ 0 = ==→≡ n 0 nothing in rw zero_safe (refl, refl)
  | inr more ↦
      let exact : n - 0 ≡ n = omega arith in
      rw more (
        pop_front-drop n log.truncated_through 0 log.entries log.last_seq w.chain ∙ rw exact refl,
        refl,
      )
]

-- A primary with a backup drops the entries up to its commit point or the last that it has applied,
-- whichever is less, and these only. What its backups have acknowledged has no part in this. The log
-- is whole before.
pub compact_log-drop :
    (instrument : ℕ) (s : Replicator)
    → IsReplica instrument s
    → is_primary s.role ≡ true
    → s.backups ≢ []
    → ((compact_log s).log.entries ≡ drop (min s.commit_index s.last_applied) s.log.entries)
      × ((compact_log s).log.last_seq ≡ s.log.last_seq)
compact_log-drop instrument s r p n =
    let (entries, last) = dropped (min s.commit_index s.last_applied) s.log r.whole in
    let e = compacted s p n in (ap (λ l. l.entries) e ∙ entries, ap (λ l. l.last_seq) e ∙ last)
