-- ===== src/Replicator/Backups.antt =====
-- What a primary of src/replication/replicator.cpp keeps of its backups: a map by id.
use sententia.Prelude.{
  ℕ, Bool, true, false, not, ◌&&◌, ◌||◌, List, [], ◌∷◌, ◌==◌, ltb, if◌then◌else◌, inc64,
}
use sententia.Engine.Snapshot.{state_checksum}
use sententia.Message.{AppendResponse}
use sententia.Replicator.{Role, primary, backup, BackupState, Replicator, is_primary}

abbrev forgotten : List BackupState → List BackupState
forgotten [] = []
forgotten (b ∷ bs) =
    record b {
      probing = true;
      last_sent = 0;
      last_applied = 0;
      match_seq = 0;
      last_commit_sent = 0;
    }
    ∷ forgotten bs

abbrev pub same_role : Role → Role → Bool
same_role primary r = is_primary r
same_role backup r = not (is_primary r)

unfoldable pub set_role : Role → Replicator → Replicator
set_role role s = if same_role role s.role then s else record s {
  role = role;
  stats = record s.stats { role_changes = inc64 s.stats.role_changes };
  backups = forgotten s.backups;
}

-- A default `BackupState` with its id.
abbrev pub fresh_backup : ℕ → BackupState
fresh_backup id = record {
  id = id;
  match_seq = 0;
  last_commit_sent = 0;
  last_applied = 0;
  last_sent = 0;
  last_checksum = 0;
  probing = true;
}

-- `backups_[id]`, with a fresh one where there is none.
unfoldable pub find_backup : ℕ → List BackupState → BackupState
find_backup id [] = fresh_backup id
find_backup id (b ∷ bs) = let rest = find_backup id bs in if b.id == id then b else rest

unfoldable pub put_backup : BackupState → List BackupState → List BackupState
put_backup b [] = b ∷ []
put_backup b (x ∷ xs) =
    let rest = put_backup b xs in
    if x.id == b.id then b ∷ xs else if ltb b.id x.id then b ∷ x ∷ xs else x ∷ rest

unfoldable pub erase_backup : ℕ → List BackupState → List BackupState
erase_backup id [] = []
erase_backup id (b ∷ bs) = let rest = erase_backup id bs in if b.id == id then bs else b ∷ rest

unfoldable pub on_peer_down : ℕ → Replicator → Replicator
on_peer_down id s = record s { backups = erase_backup id s.backups }

-- What a response says of its backup.
unfoldable pub heard : AppendResponse → BackupState → BackupState
heard msg b = record b {
  last_applied = msg.last_applied;
  match_seq = if msg.ok then msg.last_log_seq else b.match_seq;
  last_checksum = msg.state_checksum;
  probing = false;
  last_sent =
      if not msg.ok || ltb b.last_sent msg.last_applied then msg.last_applied else b.last_sent;
}

abbrev pub check_divergence : BackupState → Replicator → Replicator
check_divergence b s =
    if b.last_applied == s.last_applied && not (b.last_checksum == state_checksum s.engine)
    then record s {
      stats = record s.stats { checksum_mismatches = inc64 s.stats.checksum_mismatches };
    }
    else s

abbrev pub has_news : BackupState → Replicator → Bool
has_news b s = ltb b.last_sent s.log.last_seq || ltb b.last_commit_sent s.commit_index
