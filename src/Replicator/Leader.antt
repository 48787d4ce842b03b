-- ===== src/Replicator/Leader.antt =====
-- What a primary does, in src/replication/replicator.cpp, over any network: its calls and messages.
use sententia.Prelude.{
  ℕ, Bool, true, false, not, ◌&&◌, ◌||◌, List, [], ◌∷◌, ◌==◌, ltb, leb, if◌then◌else◌, inc64, sub64,
  length,
}
use sententia.Types.{Command}
use sententia.CommandLog.{append}
use sententia.Message.{AppendResponse, Message, append_entries, append_response}
use sententia.Network.{Network}
use sententia.Replicator.{
  SubmitStatus, accepted, busy, not_primary, no_backup, SubmitResult, BackupState, is_primary,
  is_synchronous,
}
use sententia.Replicator.Follower.{handle_append_entries}
use sententia.Replicator.Commit.{advance_commit_index}
use sententia.Replicator.Backups.{find_backup, put_backup, heard, has_news, check_divergence}
use sententia.Replicator.Sending.{World, send_append, send_all}

module _ (net : Network) where
  unfoldable pub on_peer_up : ℕ → World net → World net
  on_peer_up id (s, w) =
      if not (is_primary s.role)
      then (s, w)
      else let (b, (s', w')) =
          send_append net true
            (record (find_backup id s.backups) { id = id; probing = true; last_sent = 0 }) (s, w) in
        (record s' { backups = put_backup b s.backups }, w')

  unfoldable pub any_saturated : List BackupState → net.State → Bool
  any_saturated [] w = false
  any_saturated (b ∷ bs) w = net.is_saturated b.id w || any_saturated bs w

  abbrev pub reject_submit : SubmitStatus → World net → SubmitResult × World net
  reject_submit status (s, w) = (
    record { status = status; seq = 0 },
    (
      record s {
        stats = record s.stats { submit_rejected_busy = inc64 s.stats.submit_rejected_busy };
      },
      w,
    ),
  )

  -- `submit` past its checks.
  unfoldable pub accept_command : Command → World net → SubmitResult × World net
  accept_command cmd (s, w) =
      let (seq, log) = append cmd s.term s.log in
      let appended = record s {
        log = log;
        stats = record s.stats { submitted = inc64 s.stats.submitted };
      } in
      let advanced = if s.cluster_size == 1 then advance_commit_index appended else appended in
      (record { status = accepted; seq = seq }, send_all net (λ b r. not b.probing) (advanced, w))

  unfoldable pub submit : Command → World net → SubmitResult × World net
  submit cmd (s, w) =
      if not (is_primary s.role)
      then (record { status = not_primary; seq = 0 }, (s, w))
      else if is_synchronous s.mode && length s.backups == 0
      then reject_submit no_backup (s, w)
      else if is_synchronous s.mode && leb s.sync_window (sub64 s.log.last_seq s.commit_index)
      then reject_submit busy (s, w)
      else if any_saturated s.backups w
      then reject_submit busy (s, w)
      else accept_command cmd (s, w)

  unfoldable pub tick : World net → World net
  tick (s, w) =
      if not (is_primary s.role)
      then (s, w)
      else send_all net (λ b r. not b.probing && not (net.is_saturated b.id r.1) && has_news b r.0)
          (s, w)

  -- More to send, or a new commit point to tell.
  unfoldable pub follow_up : BackupState → World net → World net
  follow_up b (s, w) =
      if has_news b s
      then (let (b', (s', w')) = send_append net false b (s, w) in
          (record s' { backups = put_backup b' s'.backups }, w'))
      else (s, w)

  unfoldable pub handle_append_response : ℕ → AppendResponse → World net → World net
  handle_append_response from msg (s, w) =
      if ltb s.term msg.term
      then (
        record s {
          stats = record s.stats { stale_term_rejections = inc64 s.stats.stale_term_rejections };
        },
        w,
      )
      else let b = heard msg (find_backup from s.backups) in
        follow_up b (
          check_divergence b (advance_commit_index (record s { backups = put_backup b s.backups })),
          w,
        )

  unfoldable pub on_message : ℕ → Message → World net → World net
  on_message from (append_entries msg) (s, w) =
      let (s', answer) = handle_append_entries msg s in
      (s', (net.send from (append_response answer) w).1)
  on_message from (append_response msg) r = handle_append_response from msg r
  on_message from _ r = r
