-- ===== src/Replicator/Follower.antt =====
-- `handleAppendEntries` of src/replication/replicator.cpp. It returns the response that it sends.
use sententia.Prelude.{
  ℕ, min, Bool, true, false, not, Option, none, some, List, [], ◌∷◌, ltb, leb, ◌==◌, if◌then◌else◌,
  inc64,
}
use sententia.CommandLog.{term_at, append_at, truncate_from}
use sententia.Engine.Snapshot.{state_checksum}
use sententia.Message.{LogRecord, AppendEntries, AppendResponse}
use sententia.Replicator.{Replicator, apply_committed, rebuild_from_log}

-- How the loop goes on after a record: with the next one, past the loop, or with a `return`.
pub data Verdict : Type 0 where
  goes_on breaks refuses : Verdict

abbrev pub count_gap : Replicator → Replicator
count_gap s = record s { stats = record s.stats { gaps_detected = inc64 s.stats.gaps_detected } }

unfoldable pub append_new : LogRecord → Replicator → Verdict × Replicator
append_new r s =
    let (appended, log) = append_at r.seq r.term r.command s.log in
    if appended
    then (
      goes_on,
      record s {
        log = log;
        stats = record s.stats { entries_received = inc64 s.stats.entries_received };
      },
    )
    else (breaks, count_gap s)

abbrev pub cut : ℕ → Replicator → Replicator
cut seq s = record s {
  log = truncate_from seq s.log;
  stats = record s.stats {
    conflicting_entries_truncated = inc64 s.stats.conflicting_entries_truncated;
  };
}

-- The divergent tail goes, and the engine is rebuilt from what is left.
unfoldable pub drop_tail : ℕ → Replicator → Replicator
drop_tail seq s = rebuild_from_log (cut seq s)

abbrev pub place : Option ℕ → LogRecord → Replicator → Verdict × Replicator
place none r s = append_new r s
place (some existing) r s =
    if not (leb r.seq s.log.last_seq)
    then append_new r s
    else if existing == r.term
    then (goes_on, s)
    else if leb r.seq s.commit_index
    then (refuses, s)
    else append_new r (drop_tail r.seq s)

unfoldable pub append_record : LogRecord → Replicator → Verdict × Replicator
append_record r s = place (term_at r.seq s.log) r s

-- `false` is the `return` of a refusal.
abbrev pub go_on : Verdict → (Replicator → Bool × Replicator) → Replicator → Bool × Replicator
go_on goes_on rest s = rest s
go_on breaks rest s = (true, s)
go_on refuses rest s = (false, s)

unfoldable pub append_records : List LogRecord → Replicator → Bool × Replicator
append_records [] s = (true, s)
append_records (r ∷ rs) s =
    let (verdict, s') = append_record r s in go_on verdict (append_records rs) s'

unfoldable pub observe_commit : ℕ → Replicator → Replicator
observe_commit commit_seq s =
    if ltb s.commit_index commit_seq
    then record s {
      commit_index = min commit_seq s.log.last_seq;
      stats = record s.stats { commit_advances = inc64 s.stats.commit_advances };
    }
    else s

unfoldable pub response : Bool → ℕ → Replicator → AppendResponse
response ok last_log_seq s = record {
  term = s.term;
  node_id = s.self;
  last_log_seq = last_log_seq;
  ok = ok;
  last_applied = s.last_applied;
  state_checksum = state_checksum s.engine;
}

-- After the loop. A refusal leaves `lastLogSeq` at its default.
unfoldable pub conclude : ℕ → Bool × Replicator → Replicator × AppendResponse
conclude commit_seq (false, s) = (s, response false 0 s)
conclude commit_seq (true, s) =
    let s' = apply_committed (observe_commit commit_seq s) in (s', response true s'.log.last_seq s')

abbrev pub count_stale : Replicator → Replicator
count_stale s = record s {
  stats = record s.stats { stale_term_rejections = inc64 s.stats.stale_term_rejections };
}

abbrev pub count_mismatch : Replicator → Replicator
count_mismatch s = record s {
  stats = record s.stats { log_match_rejections = inc64 s.stats.log_match_rejections };
}

abbrev pub refuse : Replicator → Replicator × AppendResponse
refuse s = (s, response false s.log.last_seq s)

-- The check of the entry before the message's, by the term of ours.
abbrev pub match_previous : Option ℕ → AppendEntries → Replicator → Replicator × AppendResponse
match_previous none msg s = refuse (count_gap s)
match_previous (some local) msg s =
    if not (local == msg.prev_term)
    then refuse (count_mismatch s)
    else conclude msg.commit_seq (append_records msg.entries s)

unfoldable pub handle_append_entries : AppendEntries → Replicator → Replicator × AppendResponse
handle_append_entries msg s =
    if ltb msg.term s.term
    then refuse (count_stale s)
    else match_previous (term_at msg.prev_seq s.log) msg s
