-- ===== src/Examples/Replicator.antt =====
-- Runs of src/replication/replicator.cpp: three entries, of which one is committed.
use sententia.Prelude.{
  ℕ, max, ◌+◌, ◌≤◌, ◌≡◌, ◌≢◌, refl, ◌⊎◌, true, false, ltb, List, [], ◌∷◌, ◌++◌, take, arith,
}
use sententia.Types.{Command, cancel_order}
use sententia.CommandLog.{
  LogEntry, new_log, append, append_at, term_at, at, first_seq, truncate_from, pop_back,
}
use sententia.Engine.{new_engine}
use sententia.Engine.Snapshot.{state_checksum}
use sententia.Message.{Message, AppendEntries, AppendResponse}
use sententia.Network.{Network, sent}
use sententia.Replicator.{
  primary, backup, synchronous, asynchronous, Replicator, BackupState, new_replicator,
  apply_committed, apply_loop, apply_entry, rebuild_from_log, replay_loop,
}
use sententia.Replicator.Replay.{replay, replay-instrument, IsReplica}
use sententia.Replicator.Applying.{Ran, apply_committed-Ran}
use sententia.Replicator.Follower.{
  append_new, drop_tail, append_record, append_records, conclude, response, handle_append_entries,
}
use sententia.Replicator.Success.{Succeeds, handle_append_entries-Succeeds}
use sententia.Replicator.Commit.{
  sort_desc, insert_desc, zeros, matches, candidate, advance_commit_index, compact_log,
}
use sententia.Replicator.Majority.{Commits, Stays, advance_commit_index-Commits}
use sententia.Replicator.Backups.{fresh_backup}
use sententia.Replicator.Sending.{send_all, send_each}
use sententia.Replicator.Leader.{
  tick, submit, accept_command, any_saturated, handle_append_response,
}
use sententia.Replicator.Submitting.{Ready, Refuses}
use sententia.Replicator.Window.{Accepts, submit-Accepts}
use sententia.Replicator.Calls.{operation, uncommitted, offered, perform, perform-uncommitted}
use sententia.Replicator.Operations.{Operation, submitted, size_set, ticked, operate, operate_all}
use sententia.Replicator.Agreement.{node_after, nodes_agree, no_false_divergence}
use sententia.Replicator.Lost.{rebuild-compact_log}

-- A network that carries everything, and its record of what was sent.
abbrev carrier : Network
carrier = record {
  State = List (ℕ × Message);
  send = λ to msg w. (sent, (to, msg) ∷ w);
  is_saturated = λ to w. false;
}

abbrev command : Command
command = cancel_order (record { id = 3 })

abbrev entry : ℕ → ℕ → LogEntry
entry seq term = record { seq = seq; term = term; command = command }

abbrev three : List LogEntry
three = entry 1 1 ∷ entry 2 1 ∷ entry 3 2 ∷ []

abbrev peer : ℕ → ℕ → BackupState
peer id match_seq = record (fresh_backup id) { match_seq = match_seq; probing = false }

-- The primary of three nodes in term 2. One backup has all three entries.
abbrev leading : Replicator
leading =
    record (new_replicator 1 primary synchronous (replay (take 1 three) (new_engine 7))
      (record new_log { entries = three; last_seq = 3 })) {
        last_applied = 1;
        commit_index = 1;
        term = 2;
        cluster_size = 3;
        sync_window = 2;
        backups = peer 2 3 ∷ peer 3 0 ∷ [];
      }

abbrev following : Replicator
following = record leading { self = 2; role = backup; backups = [] }

leading-IsReplica : IsReplica 7 leading
leading-IsReplica = record {
  whole = record { chain = (refl, (refl, (refl, refl))); no_snapshot = refl; no_truncation = refl };
  no_base = refl;
  applied = omega arith;
  committed = omega arith;
  engine = refl;
}

following-IsReplica : IsReplica 7 following
following-IsReplica = record {
  whole = record { chain = (refl, (refl, (refl, refl))); no_snapshot = refl; no_truncation = refl };
  no_base = refl;
  applied = omega arith;
  committed = omega arith;
  engine = refl;
}

-- A node alone takes a command, and another one takes it after a tick.
abbrev history : List Operation
history = size_set 1 ∷ submitted command ∷ []

abbrev alone : ℕ → List Operation → Replicator
alone self os = node_after carrier 7 self primary asynchronous [] os

level : (alone 1 history).last_applied ≡ (alone 2 (history ++ ticked ∷ [])).last_applied
unfolding operate_all operate submit accept_command any_saturated append advance_commit_index
    candidate sort_desc insert_desc matches zeros term_at at first_seq apply_committed apply_loop
    apply_entry send_all send_each tick
level = refl

agrees :
    take (alone 1 history).last_applied (alone 1 history).log.entries
    ≡ take (alone 1 history).last_applied (alone 2 (history ++ ticked ∷ [])).log.entries
unfolding operate_all operate submit accept_command any_saturated append advance_commit_index
    candidate sort_desc insert_desc matches zeros term_at at first_seq apply_committed apply_loop
    apply_entry send_all send_each tick
agrees = refl

nodes_agree_example :
    ((alone 1 history).engine ≡ (alone 2 (history ++ ticked ∷ [])).engine)
    × (state_checksum (alone 1 history).engine
        ≡ state_checksum (alone 2 (history ++ ticked ∷ [])).engine)
nodes_agree_example =
    nodes_agree carrier carrier 7 1 2 primary primary asynchronous asynchronous [] [] history
      (history ++ ticked ∷ []) (omega arith) (omega arith) level agrees

advance_commit_index-Commits_example :
    ((advance_commit_index leading ≡ leading) × Stays leading)
    ⊎ ((n : ℕ) × Commits leading n × ((advance_commit_index leading).commit_index ≡ n))
advance_commit_index-Commits_example = advance_commit_index-Commits leading (omega arith) refl

advance_run : (advance_commit_index leading).commit_index ≡ 3
unfolding advance_commit_index candidate sort_desc insert_desc matches zeros term_at at first_seq
    apply_committed apply_loop apply_entry
advance_run = refl

-- A leader of term 3 replaces the last entry and adds another one.
abbrev replacing : AppendEntries
replacing = record {
  term = 3;
  leader_id = 3;
  prev_seq = 2;
  prev_term = 1;
  commit_seq = 3;
  entries =
      record { seq = 3; term = 3; command = command }
      ∷ record { seq = 4; term = 3; command = command }
      ∷ [];
}

replacing_ok : (handle_append_entries replacing following).1.ok ≡ true
unfolding handle_append_entries append_records append_record append_new append_at term_at at
    first_seq drop_tail truncate_from pop_back rebuild_from_log replay_loop conclude response
replacing_ok = refl

handle_append_entries-Succeeds_example :
    (ltb 3 2 ≡ false) × Succeeds replacing following (handle_append_entries replacing following).0
handle_append_entries-Succeeds_example =
    handle_append_entries-Succeeds 7 replacing following following-IsReplica (omega arith)
      (refl, (refl, tt)) replacing_ok

submit-Accepts_example :
    ((¬ Ready carrier (leading, [])) × Refuses carrier command (leading, []))
    ⊎ (Ready carrier (leading, []) × Accepts carrier command (leading, []))
submit-Accepts_example = submit-Accepts carrier command (leading, [])

-- With one entry committed of two the window of two has room for one more.
abbrev roomy : Replicator
roomy = record leading { commit_index = 2 }

roomy-IsReplica : IsReplica 7 roomy
roomy-IsReplica = record {
  whole = record { chain = (refl, (refl, (refl, refl))); no_snapshot = refl; no_truncation = refl };
  no_base = refl;
  applied = omega arith;
  committed = omega arith;
  engine = refl;
}

perform-uncommitted_example :
    uncommitted (perform carrier (operation (submitted command)) (roomy, [])).0
    ≤ max roomy.sync_window (uncommitted roomy + offered (operation (submitted command)))
perform-uncommitted_example =
    perform-uncommitted carrier 7 (operation (submitted command)) roomy [] roomy-IsReplica
      (omega arith) refl

abbrev report : AppendResponse
report = record {
  term = 2;
  node_id = 2;
  last_log_seq = 3;
  ok = true;
  last_applied = 1;
  state_checksum = state_checksum following.engine;
}

no_false_divergence_example :
    (handle_append_response carrier 2 report (leading, [])).0.stats.checksum_mismatches ≡ 0
no_false_divergence_example =
    no_false_divergence 7 carrier 2 report leading following [] leading-IsReplica
      following-IsReplica (omega arith) refl refl refl

apply_committed-Ran_example : Ran 7 2 roomy (apply_committed roomy)
apply_committed-Ran_example = apply_committed-Ran 7 roomy roomy-IsReplica (omega arith)

leading-instrument : leading.engine.instrument ≡ 7
unfolding new_engine
leading-instrument = replay-instrument _ _

two_backups : leading.backups ≢ []
two_backups h = ground (arith, h)

rebuild-compact_log_example :
    ((rebuild_from_log (compact_log leading)).engine ≡ new_engine 7)
    × ((rebuild_from_log (compact_log leading)).last_applied ≡ 0)
    × ((rebuild_from_log (compact_log leading)).commit_index ≡ 0)
rebuild-compact_log_example =
    rebuild-compact_log 7 leading leading-IsReplica refl two_backups (omega arith)
