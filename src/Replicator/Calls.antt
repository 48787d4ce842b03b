-- ===== src/Replicator/Calls.antt =====
-- Every public operation of src/replication/replicator.cpp that changes its state, `compactLog` too.
use sententia.Prelude.{
  ℕ, ◌+◌, ◌-◌, ◌^◌, ◌≤◌, ◌<◌, ◌≡◌, refl, ap, Bool, true, false, not, ◌||◌, ◌==◌, min, max,
  if◌then◌else◌, length, drop, arith,
}
use sententia.CommandLog.{truncate_through}
use sententia.Network.{Network}
use sententia.Replicator.{Replicator, is_primary, is_synchronous}
use sententia.Replicator.Replay.{IsReplica}
use sententia.Replicator.Following.{Follows}
use sententia.Replicator.Commit.{compact_log, count_truncation}
use sententia.Replicator.Compaction.{dropped}
use sententia.Replicator.Sending.{World}
use sententia.Replicator.Window.{submit-window}
use sententia.Replicator.Operations.{
  Operation, submitted, received, peer_up, peer_down, ticked, committed_applied, role_set, term_set,
  window_set, size_set, growth, operate, operate-Follows,
}

pub data Call : Type 0 where
  operation : Operation → Call
  compaction : Call

abbrev pub call_growth : Call → ℕ
call_growth (operation o) = growth o
call_growth compaction = 0

-- How many entries another node offers.
abbrev pub offered : Call → ℕ
offered (operation (submitted cmd)) = 0
offered (operation o) = growth o
offered compaction = 0

abbrev pub uncommitted : Replicator → ℕ
uncommitted s = s.log.last_seq - s.commit_index

abbrev pub compacted_to : Replicator → ℕ
compacted_to s =
    if not (is_primary s.role) || length s.backups == 0
    then 0
    else min s.commit_index s.last_applied

-- The first `n` entries are gone, and but for a counter nothing else has changed.
pub record Compacts (n : ℕ) (s s' : Replicator) : Type 0 where
  pub entries : s'.log.entries ≡ drop n s.log.entries
  pub last_seq : s'.log.last_seq ≡ s.log.last_seq
  pub others : s' ≡ record s { log = s'.log; stats = s'.stats }

compact_log-Compacts :
    (instrument : ℕ) (s : Replicator)
    → IsReplica instrument s
    → Compacts (compacted_to s) s (compact_log s)
unfolding compact_log
compact_log-Compacts instrument s r =
    at_tests (not (is_primary s.role) || length s.backups == 0) (n == 0) (dropped n s.log r.whole)
  where
    n : ℕ
    n = min s.commit_index s.last_applied

    at_tests :
        (idle nothing : Bool)
        → ((if nothing then s.log else truncate_through n s.log).entries ≡ drop n s.log.entries)
          × ((if nothing then s.log else truncate_through n s.log).last_seq ≡ s.log.last_seq)
        → Compacts (if idle then 0 else n) s (
            if idle
            then s
            else if nothing
            then s
            else let log = truncate_through n s.log in
              record s { log = log; stats = count_truncation log s })
    at_tests true nothing cut = record { entries = refl; last_seq = refl; others = refl }
    at_tests false true cut = record { entries = cut.0; last_seq = cut.1; others = refl }
    at_tests false false cut = record { entries = cut.0; last_seq = cut.1; others = refl }

-- What a call leaves of a replica.
abbrev pub Effect : ℕ → Call → Replicator → Replicator → Type 0
Effect instrument (operation o) s s' = Follows instrument (growth o) s s'
Effect instrument compaction s s' = Compacts (compacted_to s) s s'

module _ (net : Network) where
  unfoldable pub perform : Call → World net → World net
  perform (operation o) r = operate net o r
  perform compaction (s, w) = (compact_log s, w)

  followed :
      (instrument n window : ℕ) (s s' : Replicator)
      → Follows instrument n s s'
      → uncommitted s' ≤ max window (uncommitted s + n)
  followed instrument n window s s' f = omega (arith, f.growth, f.commit_index)

  -- After any operation a synchronous replica has no more entries past its commit point than its window
  -- allowed, or than it had before together with those that a leader's append brought: neither a
  -- command nor a change of role or window takes them further. The log is whole before the operation,
  -- and stays short of 2^64 entries.
  pub perform-uncommitted :
      (instrument : ℕ) (c : Call) (s : Replicator) (w : net.State)
      → IsReplica instrument s
      → s.log.last_seq + call_growth c + 1 < 2 ^ 64
      → is_synchronous s.mode ≡ true
      → uncommitted (perform c (s, w)).0 ≤ max s.sync_window (uncommitted s + offered c)
  unfolding perform operate
  perform-uncommitted instrument (operation (submitted cmd)) s w r b m =
      omega (arith, submit-window net instrument cmd s w r (omega (arith, b)) m)
  perform-uncommitted instrument (operation (received from msg)) s w r b m =
      followed instrument _ s.sync_window s _
        (operate-Follows instrument net (received from msg) s w r b)
  perform-uncommitted instrument (operation (peer_up id)) s w r b m =
      followed instrument _ s.sync_window s _ (operate-Follows instrument net (peer_up id) s w r b)
  perform-uncommitted instrument (operation (peer_down id)) s w r b m =
      followed instrument _ s.sync_window s _
        (operate-Follows instrument net (peer_down id) s w r b)
  perform-uncommitted instrument (operation ticked) s w r b m =
      followed instrument _ s.sync_window s _ (operate-Follows instrument net ticked s w r b)
  perform-uncommitted instrument (operation committed_applied) s w r b m =
      followed instrument _ s.sync_window s _
        (operate-Follows instrument net committed_applied s w r b)
  perform-uncommitted instrument (operation (role_set role)) s w r b m =
      followed instrument _ s.sync_window s _
        (operate-Follows instrument net (role_set role) s w r b)
  perform-uncommitted instrument (operation (term_set n)) s w r b m =
      followed instrument _ s.sync_window s _ (operate-Follows instrument net (term_set n) s w r b)
  perform-uncommitted instrument (operation (window_set n)) s w r b m =
      followed instrument _ s.sync_window s _
        (operate-Follows instrument net (window_set n) s w r b)
  perform-uncommitted instrument (operation (size_set n)) s w r b m =
      followed instrument _ s.sync_window s _ (operate-Follows instrument net (size_set n) s w r b)
  perform-uncommitted instrument compaction s w r b m =
      let c = compact_log-Compacts instrument s r in
      omega (arith, c.last_seq, ap (λ t. t.commit_index) c.others)
