-- ===== src/Replicator/Majority.antt =====
-- `advanceCommitIndex` of src/replication/replicator.cpp finds the highest number that a majority
-- holds.
use sententia.Prelude.{
  ℕ, zero, suc, ◌-◌, ◌≤◌, ◌<◌, ◌≡◌, ◌≢◌, refl, ◌⊎◌, inl, inr, true, false, Option, none, some, ltb,
  leb, Bool-cases, Option-cases, arith, length, length-append, inc64,
}
use sententia.CommandLog.{at, term_at}
use sententia.Replicator.{
  Replicator, majority, is_primary, apply_entry, apply_loop, apply_committed,
}
use sententia.Replicator.Applying.{apply-done, apply-next, apply-missing}
use sententia.Replicator.Commit.{
  sort_desc, zeros, known, matches, candidate, has_term, advance_commit_index,
}
use sententia.Replicator.Holders.{
  holders, holders-sort, length-sort, sort-IsDescending, nth-holders, holders-zeros, length-zeros,
  holders-append,
}

-- How many nodes hold the log up to `n`, as far as the replicator knows.
abbrev pub held_by : Replicator → ℕ → ℕ
held_by s n = holders n (known s)

held_by-matches : (s : Replicator) (n : ℕ) → 0 < n → holders n (matches s) ≡ held_by s n
unfolding matches
held_by-matches s n h = omega (
  arith,
  holders-append n (known s) (zeros (s.cluster_size - length (known s))),
  holders-zeros n (s.cluster_size - length (known s)) h,
)

enough : (s : Replicator) → s.cluster_size ≤ length (matches s)
unfolding matches
enough s = omega (
  arith,
  length-append (known s) (zeros (s.cluster_size - length (known s))),
  length-zeros (s.cluster_size - length (known s)),
)

-- The candidate is the highest number that a majority holds.
candidate-lem :
    (s : Replicator)
    → 0 < s.cluster_size
    → (majority s ≤ holders (candidate s) (matches s))
      × ((n : ℕ) → candidate s < n → holders n (matches s) < majority s)
unfolding candidate
candidate-lem s h =
    let (v, found, held, highest, bounded) =
      nth-holders (majority s - 1) (sort_desc (matches s)) (sort-IsDescending (matches s))
        (omega (arith, h, enough s, length-sort (matches s))) in
    rw found (
      omega (arith, held, holders-sort v (matches s)),
      λ n lt. omega (arith, highest n lt, holders-sort n (matches s)),
    )

-- Applying entries changes neither the log nor the commit point, and finds no divergence.
pub record Steady (s s' : Replicator) : Type 0 where
  pub log : s'.log ≡ s.log
  pub commit_index : s'.commit_index ≡ s.commit_index
  pub checksum_mismatches : s'.stats.checksum_mismatches ≡ s.stats.checksum_mismatches

same-Steady : (s : Replicator) → Steady s s
same-Steady s = record { log = refl; commit_index = refl; checksum_mismatches = refl }

pub apply_loop-Steady : (fuel : ℕ) (s : Replicator) → Steady s (apply_loop fuel s)
unfolding apply_loop apply_entry
apply_loop-Steady zero s = same-Steady s
apply_loop-Steady (suc fuel) s = elim (Bool-cases (ltb s.last_applied s.commit_index)) [
  | inl more ↦ elim (Option-cases (at (inc64 s.last_applied) s.log)) [
    | inl missing ↦ rw (apply-missing fuel s more missing) (same-Steady s)
    | inr (x, here) ↦ rw (apply-next fuel s {x = x} more here) (
        let t = apply_loop-Steady fuel (apply_entry x s) in
        record {
          log = t.log;
          commit_index = t.commit_index;
          checksum_mismatches = t.checksum_mismatches;
        })
  ]
  | inr done ↦ rw (apply-done fuel s done) (same-Steady s)
]

-- A number that the log has under the current term, and that a majority of the cluster holds.
pub record Commits (s : Replicator) (n : ℕ) : Type 0 where
  pub later : s.commit_index < n
  pub own_term : term_at n s.log ≡ some s.term
  pub held : majority s ≤ held_by s n
  pub highest : (m : ℕ) → n < m → held_by s m < majority s

-- Why a commit point may stay: no later number is held by a majority, or the highest one is of an
-- other term.
abbrev pub Stays : Replicator → Type 0
Stays s =
    ((m : ℕ) → s.commit_index < m → held_by s m < majority s)
    ⊎ ((n : ℕ) × (s.commit_index < n)
        × (majority s ≤ held_by s n)
        × ((m : ℕ) → n < m → held_by s m < majority s)
        × (term_at n s.log ≢ some s.term))

has_term-own : (o : Option ℕ) (term : ℕ) → has_term o term ≡ true → o ≡ some term
has_term-own none term h = ground (arith, h)
has_term-own (some t) term h = ground (arith, h)

has_term-other : (o : Option ℕ) (term : ℕ) → has_term o term ≡ false → o ≢ some term
has_term-other none term h e = ground (arith, h, e)
has_term-other (some t) term h e = ground (arith, h, e)

module _ (s : Replicator) (size : 0 < s.cluster_size) (leads : is_primary s.role ≡ true) where
  highest_later : (m : ℕ) → candidate s < m → held_by s m < majority s
  highest_later m lt =
      omega (arith, (candidate-lem s size).1 m lt, held_by-matches s m (omega (arith, lt)))

  held_later : leb (candidate s) s.commit_index ≡ false → majority s ≤ held_by s (candidate s)
  held_later h =
      omega (arith, (candidate-lem s size).0, held_by-matches s (candidate s) (ground (arith, h)))

  -- A primary moves its commit point to the highest number that a majority of its cluster holds, as
  -- far as it knows, if the log has that number under the current term. Otherwise nothing changes, and
  -- this only when no number past the commit point is held by a majority, or the highest one that is
  -- has not the current term. The cluster has at least one node.
  pub advance_commit_index-Commits :
      ((advance_commit_index s ≡ s) × Stays s)
      ⊎ ((n : ℕ) × Commits s n × ((advance_commit_index s).commit_index ≡ n))
  unfolding advance_commit_index apply_committed
  advance_commit_index-Commits = elim (Bool-cases (leb (candidate s) s.commit_index)) [
    | inl early ↦
        inl (rw (leads, early) refl, inl λ m lt. highest_later m (ground (arith, early, lt)))
    | inr later ↦ elim (Bool-cases (has_term (term_at (candidate s) s.log) s.term)) [
      | inl own ↦ inr (
        candidate s,
        record {
          later = ground (arith, later);
          own_term = has_term-own _ _ own;
          held = held_later later;
          highest = highest_later;
        },
        rw (leads, later, own) (apply_loop-Steady _ _).commit_index,
      )
      | inr other ↦ inl (
        rw (leads, later, other) refl,
        inr (
          candidate s,
          ground (arith, later),
          held_later later,
          highest_later,
          has_term-other _ _ other,
        ),
      )
    ]
  ]

pub advance-log :
    (s : Replicator)
    → ((advance_commit_index s).log ≡ s.log)
      × ((advance_commit_index s).stats.checksum_mismatches ≡ s.stats.checksum_mismatches)
unfolding advance_commit_index apply_committed
advance-log s = elim (Bool-cases (is_primary s.role)) [
  | inl leads ↦ elim (Bool-cases (leb (candidate s) s.commit_index)) [
    | inl early ↦ rw (leads, early) (refl, refl)
    | inr later ↦ elim (Bool-cases (has_term (term_at (candidate s) s.log) s.term)) [
      | inl own ↦
          rw (leads, later, own)
            ((apply_loop-Steady _ _).log, (apply_loop-Steady _ _).checksum_mismatches)
      | inr other ↦ rw (leads, later, other) (refl, refl)
    ]
  ]
  | inr backs ↦ rw backs (refl, refl)
]
