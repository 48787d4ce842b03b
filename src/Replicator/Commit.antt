-- ===== src/Replicator/Commit.antt =====
-- How src/replication/replicator.cpp finds the commit point, and what it drops behind it.
use sententia.Prelude.{
  ℕ, zero, suc, ◌-◌, min, Bool, false, not, ◌||◌, Option, none, some, List, [], ◌∷◌, ◌++◌, ◌==◌,
  ltb, leb, if◌then◌else◌, inc64, length, get_elem?,
}
use sententia.CommandLog.{CommandLog, term_at, truncate_through}
use sententia.Replicator.{
  ReplicationStats, BackupState, Replicator, is_primary, majority, value_or, apply_committed,
}

-- `std::sort` with `std::greater`
unfoldable pub insert_desc : ℕ → List ℕ → List ℕ
insert_desc n [] = n ∷ []
insert_desc n (x ∷ xs) = let rest = insert_desc n xs in if ltb n x then x ∷ rest else n ∷ x ∷ xs

unfoldable pub sort_desc : List ℕ → List ℕ
sort_desc [] = []
sort_desc (x ∷ xs) = insert_desc x (sort_desc xs)

abbrev pub match_points : List BackupState → List ℕ
match_points [] = []
match_points (b ∷ bs) = b.match_seq ∷ match_points bs

unfoldable pub zeros : ℕ → List ℕ
zeros zero = []
zeros (suc n) = 0 ∷ zeros n

-- The own log's head, and the match points of the backups.
abbrev pub known : Replicator → List ℕ
known s = s.log.last_seq ∷ match_points s.backups

-- The same, filled with zeros up to the size of the cluster.
unfoldable pub matches : Replicator → List ℕ
matches s = known s ++ zeros (s.cluster_size - length (known s))

unfoldable pub candidate : Replicator → ℕ
candidate s = value_or 0 (get_elem? (sort_desc (matches s)) (majority s - 1))

abbrev pub has_term : Option ℕ → ℕ → Bool
has_term none term = false
has_term (some t) term = t == term

unfoldable pub advance_commit_index : Replicator → Replicator
advance_commit_index s =
    if not (is_primary s.role)
    then s
    else if leb (candidate s) s.commit_index
    then s
    else if not (has_term (term_at (candidate s) s.log) s.term)
    then s
    else apply_committed (record s {
      commit_index = candidate s;
      stats = record s.stats { commit_advances = inc64 s.stats.commit_advances };
    })

-- `if (log_.size() != before)`
abbrev pub count_truncation : CommandLog → Replicator → ReplicationStats
count_truncation log s =
    if length log.entries == length s.log.entries
    then s.stats
    else record s.stats { log_truncations = inc64 s.stats.log_truncations }

unfoldable pub compact_log : Replicator → Replicator
compact_log s =
    let safe = min s.commit_index s.last_applied in
    if not (is_primary s.role) || length s.backups == 0
    then s
    else if safe == 0
    then s
    else let log = truncate_through safe s.log in
      record s { log = log; stats = count_truncation log s }
