-- ===== src/Replicator/Sending.antt =====
-- `sendAppend` of src/replication/replicator.cpp, over any network. It takes and returns the
-- replicator with the network's state, and returns the backup.
use sententia.Prelude.{
  ℕ, max, Bool, true, false, not, List, [], ◌∷◌, ltb, if◌then◌else◌, inc64, add64, sub64, length,
}
use sententia.CommandLog.{LogEntry, is_empty, term_at, range, can_serve_from}
use sententia.Message.{LogRecord, AppendEntries, append_entries, max_entries_per_append}
use sententia.Network.{Network, SendResult, sent, not_connected, would_overflow}
use sententia.Replicator.{BackupState, Replicator, value_or}

abbrev pub append_message : ℕ → List LogRecord → Replicator → AppendEntries
append_message prev entries s = record {
  term = s.term;
  leader_id = s.self;
  prev_seq = prev;
  prev_term = value_or 0 (term_at prev s.log);
  commit_seq = s.commit_index;
  entries = entries;
}

abbrev pub records : List LogEntry → List LogRecord
records [] = []
records (e ∷ es) = record { seq = e.seq; term = e.term; command = e.command } ∷ records es

abbrev pub last_of : ℕ → List LogEntry → ℕ
last_of seq [] = seq
last_of seq (e ∷ es) = last_of e.seq es

abbrev count_probe : Replicator → Replicator
count_probe s = record s { stats = record s.stats { probes_sent = inc64 s.stats.probes_sent } }

abbrev pub count_batch : List LogEntry → Replicator → Replicator
count_batch entries s =
    if ltb 1 (length entries)
    then record s { stats = record s.stats { catch_up_batches = inc64 s.stats.catch_up_batches } }
    else s

abbrev pub next_for : BackupState → ℕ
next_for b = inc64 (max b.match_seq b.last_sent)

module _ (net : Network) where
  abbrev pub World : Type 0
  World = Replicator × net.State

  abbrev pub dispatch : ℕ → AppendEntries → World → SendResult × World
  dispatch to msg (s, w) =
      let (result, w') = net.send to (append_entries msg) w in (result, (s, w'))

  unfoldable pub send_probe : BackupState → World → BackupState × World
  send_probe b (s, w) =
      (b, (dispatch b.id (append_message s.log.last_seq [] s) (count_probe s, w)).1)

  unfoldable pub told : BackupState → SendResult × World → BackupState × World
  told b (sent, (s, w)) = (record b { last_commit_sent = s.commit_index }, (s, w))
  told b (not_connected, r) = (b, r)
  told b (would_overflow, r) = (b, r)

  unfoldable pub advertise_commit : BackupState → World → BackupState × World
  advertise_commit b (s, w) =
      if ltb b.last_commit_sent s.commit_index
      then told b (dispatch b.id (append_message s.log.last_seq [] s) (s, w))
      else (b, (s, w))

  unfoldable pub delivered : List LogEntry → BackupState → SendResult × World → BackupState × World
  delivered entries b (sent, (s, w)) = (
    record b { last_sent = last_of 0 entries; last_commit_sent = s.commit_index },
    (
      record s {
        stats = record s.stats { entries_sent = add64 s.stats.entries_sent (length entries) };
      },
      w,
    ),
  )
  delivered entries b (not_connected, r) = (b, r)
  delivered entries b (would_overflow, r) = (b, r)

  unfoldable pub send_entries : ℕ → List LogEntry → BackupState → World → BackupState × World
  send_entries from entries b (s, w) =
      delivered entries b (
        dispatch b.id (append_message (sub64 from 1) (records entries) s)
          (count_batch entries s, w))

  unfoldable pub send_append : Bool → BackupState → World → BackupState × World
  send_append true b (s, w) = send_probe b (s, w)
  send_append false b (s, w) =
      let from = next_for b in
      let entries = range from max_entries_per_append s.log in
      if ltb s.log.last_seq from
      then advertise_commit b (s, w)
      else if not (can_serve_from from s.log)
      then (b, (s, w))
      else if is_empty entries
      then (b, (s, w))
      else send_entries from entries b (s, w)

  -- A pass over the backups that sends to those of a test.
  unfoldable pub send_each :
      (BackupState → World → Bool) → List BackupState → World → List BackupState × World
  send_each test [] r = ([], r)
  send_each test (b ∷ bs) r =
      let (b', r') = if test b r then send_append false b r else (b, r) in
      let (bs', r'') = send_each test bs r' in (b' ∷ bs', r'')

  unfoldable pub send_all : (BackupState → World → Bool) → World → World
  send_all test (s, w) =
      let (bs, (s', w')) = send_each test s.backups (s, w) in (record s' { backups = bs }, w')
