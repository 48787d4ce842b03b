-- ===== src/Replicator/Submitting.antt =====
-- `submit` of src/replication/replicator.cpp, over any network.
use sententia.Prelude.{
  ◌≡◌, ◌≢◌, refl, ◌⊎◌, inl, inr, true, false, ◌&&◌, ◌==◌, leb, sub64, inc64, Bool-cases, length,
  arith,
}
use sententia.Types.{Command}
use sententia.Network.{Network}
use sententia.Replicator.{
  SubmitStatus, accepted, busy, not_primary, no_backup, Replicator, ReplicationStats, is_primary,
  is_synchronous,
}
use sententia.Replicator.Sending.{World}
use sententia.Replicator.Leader.{any_saturated, accept_command, submit}

abbrev rejected : Replicator → ReplicationStats
rejected s = record s.stats { submit_rejected_busy = inc64 s.stats.submit_rejected_busy }

module _ (net : Network) where
  -- When a primary takes a command: with a backup and room in the window if it is synchronous, and
  -- with no backup's queue full.
  pub record Ready (r : World net) : Type 0 where
    pub leads : is_primary r.0.role ≡ true
    pub backed : (is_synchronous r.0.mode && length r.0.backups == 0) ≡ false
    pub room :
        (is_synchronous r.0.mode && leb r.0.sync_window (sub64 r.0.log.last_seq r.0.commit_index))
        ≡ false
    pub flowing : any_saturated net r.0.backups r.1 ≡ false

  -- Why a command is refused, with the status and the counters: the first test that fails decides.
  pub data Refusal (r : World net) : SubmitStatus → ReplicationStats → Type 0 where
    backs : is_primary r.0.role ≡ false → Refusal r not_primary r.0.stats
    alone :
        is_primary r.0.role ≡ true
        → (is_synchronous r.0.mode && length r.0.backups == 0) ≡ true
        → Refusal r no_backup (rejected r.0)
    full :
        is_primary r.0.role ≡ true
        → (is_synchronous r.0.mode && length r.0.backups == 0) ≡ false
        → (is_synchronous r.0.mode && leb r.0.sync_window (sub64 r.0.log.last_seq r.0.commit_index))
          ≡ true
        → Refusal r busy (rejected r.0)
    slow :
        is_primary r.0.role ≡ true
        → (is_synchronous r.0.mode && length r.0.backups == 0) ≡ false
        → (is_synchronous r.0.mode && leb r.0.sync_window (sub64 r.0.log.last_seq r.0.commit_index))
          ≡ false
        → any_saturated net r.0.backups r.1 ≡ true
        → Refusal r busy (rejected r.0)

  -- A command is refused where the primary is not ready, and changes the counters at most.
  abbrev pub Refuses : Command → World net → Type 0
  Refuses cmd (s, w) =
      (status : SubmitStatus) × (stats : ReplicationStats) × Refusal (s, w) status stats
      × (submit net cmd (s, w)
          ≡ (record { status = status; seq = 0 }, (record s { stats = stats }, w)))

  -- Who refuses is not ready, and does not say that the command was taken.
  pub Refusal-unready :
      {r : World net} {status : SubmitStatus} {stats : ReplicationStats}
      → Refusal r status stats
      → (¬ Ready r) × (status ≢ accepted)
  Refusal-unready (backs h) = ((λ ready. ground (arith, h, ready.leads)), (λ e. ground (arith, e)))
  Refusal-unready (alone l h) =
      ((λ ready. ground (arith, h, ready.backed)), (λ e. ground (arith, e)))
  Refusal-unready (full l b h) =
      ((λ ready. ground (arith, h, ready.room)), (λ e. ground (arith, e)))
  Refusal-unready (slow l b f h) =
      ((λ ready. ground (arith, h, ready.flowing)), (λ e. ground (arith, e)))

  pub submit-cases :
      (cmd : Command) (r : World net)
      → Refuses cmd r ⊎ (Ready r × (submit net cmd r ≡ accept_command net cmd r))
  unfolding submit
  submit-cases cmd (s, w) = elim (Bool-cases (is_primary s.role)) [
    | inl leads ↦ elim (Bool-cases (is_synchronous s.mode && length s.backups == 0)) [
      | inl lonely ↦ inl (no_backup, rejected s, alone leads lonely, rw (leads, lonely) refl)
      | inr backed ↦
          elim (Bool-cases
            (is_synchronous s.mode && leb s.sync_window (sub64 s.log.last_seq s.commit_index))) [
              | inl held ↦
                  inl (busy, rejected s, full leads backed held, rw (leads, backed, held) refl)
              | inr room ↦ elim (Bool-cases (any_saturated net s.backups w)) [
                | inl jammed ↦ inl (
                  busy,
                  rejected s,
                  slow leads backed room jammed,
                  rw (leads, backed, room, jammed) refl,
                )
                | inr flowing ↦ inr (
                  record { leads = leads; backed = backed; room = room; flowing = flowing },
                  rw (leads, backed, room, flowing) refl,
                )
              ]
            ]
    ]
    | inr follows ↦ inl (not_primary, s.stats, backs follows, rw follows refl)
  ]
