-- ===== src/Replicator/Replay.antt =====
-- The engine of a replica of src/replication/replicator.cpp as the replay of its log.
use sententia.Prelude.{
  ℕ, suc, ◌+◌, ◌≤◌, ◌<◌, ◌≡◌, refl, sym, ◌∙◌, some, none, List, [], ◌∷◌, ◌++◌, arith, get_elem?,
  take, take-suc,
}
use sententia.Types.{Command}
use sententia.CommandLog.{LogEntry, at}
use sententia.CommandLog.Whole.{IsWhole, at-whole}
use sententia.Engine.{MatchingEngine, new_engine}
use sententia.Engine.Instrument.{apply-instrument}
use sententia.Replicator.{run_command, Replicator}

-- The engine after some entries.
unfoldable pub replay : List LogEntry → MatchingEngine → MatchingEngine
replay [] e = e
replay (x ∷ xs) e = replay xs (run_command x.command e)

pub replay-append :
    (xs ys : List LogEntry) (e : MatchingEngine) → replay (xs ++ ys) e ≡ replay ys (replay xs e)
unfolding replay
replay-append [] ys e = refl
replay-append (x ∷ xs) ys e = replay-append xs ys (run_command x.command e)

-- One more entry is one more command.
pub replay-suc :
    (n m : ℕ) (xs : List LogEntry) (x : LogEntry) (e : MatchingEngine)
    → m ≡ suc n
    → get_elem? xs n ≡ some x
    → replay (take m xs) e ≡ run_command x.command (replay (take n xs) e)
unfolding replay
replay-suc n m xs x e p h = rw (p, take-suc n xs x h) (replay-append (take n xs) (x ∷ []) e)

pub run_command-instrument :
    (c : Command) (e : MatchingEngine) → (run_command c e).instrument ≡ e.instrument
unfolding run_command
run_command-instrument c e = apply-instrument c (e, [])

pub replay-instrument :
    (xs : List LogEntry) (e : MatchingEngine) → (replay xs e).instrument ≡ e.instrument
unfolding replay
replay-instrument [] e = refl
replay-instrument (x ∷ xs) e =
    replay-instrument xs (run_command x.command e) ∙ run_command-instrument x.command e

-- A replica whose log is whole: its engine is the replay of the entries that it says it has applied.
pub record IsReplica (instrument : ℕ) (s : Replicator) : Type 0 where
  pub whole : IsWhole s.log
  pub no_base : s.snapshot_base ≡ none
  pub applied : s.last_applied ≤ s.log.last_seq
  pub committed : s.commit_index ≤ s.log.last_seq
  pub engine : s.engine ≡ replay (take s.last_applied s.log.entries) (new_engine instrument)

-- One round of either loop: the entry after the last applied one is run.
pub next_entry :
    (instrument : ℕ) (s : Replicator)
    → IsReplica instrument s
    → s.last_applied < s.log.last_seq
    → (x : LogEntry) × (at (s.last_applied + 1) s.log ≡ some x)
      × (x.seq ≡ s.last_applied + 1)
      × (run_command x.command s.engine
          ≡ replay (take (s.last_applied + 1) s.log.entries) (new_engine instrument))
next_entry instrument s r h =
    let (x, here, found, e) = at-whole s.last_applied s.log r.whole h in
    (
      x,
      here,
      e,
      rw r.engine (
          sym (
            replay-suc s.last_applied (s.last_applied + 1) s.log.entries x (new_engine instrument)
              (omega arith) found)),
    )
