-- ===== src/Replicator/Window.antt =====
-- `submit` of src/replication/replicator.cpp on a replica: the log, the sequence number, the window.
use sententia.Prelude.{
  ℕ, ◌+◌, ◌-◌, ◌^◌, ◌≤◌, ◌<◌, ◌≡◌, max, refl, ap, ◌∙◌, ◌⊎◌, inl, inr, true, false, ◌==◌, leb, sub64,
  sub64-exact, inc64, Bool-cases, arith,
}
use sententia.Types.{Command}
use sententia.CommandLog.{append, push}
use sententia.Network.{Network}
use sententia.Replicator.{accepted, Replicator, is_synchronous}
use sententia.Replicator.Replay.{IsReplica}
use sententia.Replicator.Sending.{World}
use sententia.Replicator.Commit.{advance_commit_index}
use sententia.Replicator.Majority.{advance-log}
use sententia.Replicator.Sent.{send_all-Alike}
use sententia.Replicator.Stepping.{submit-Follows}
use sententia.Replicator.Submitting.{Ready, Refuses, Refusal-unready, submit-cases}
use sententia.Replicator.Leader.{accept_command, submit}

module _ (net : Network) where
  -- The command is the last entry of the log, under the current term and the number that is returned.
  abbrev pub Accepts : Command → World net → Type 0
  Accepts cmd (s, w) =
      ((submit net cmd (s, w)).0 ≡ record { status = accepted; seq = inc64 s.log.last_seq })
      × ((submit net cmd (s, w)).1.0.log ≡ push (inc64 s.log.last_seq) s.term cmd s.log)

  accept_command-log :
      (cmd : Command) (s : Replicator) (w : net.State)
      → (accept_command net cmd (s, w)).1.0.log ≡ push (inc64 s.log.last_seq) s.term cmd s.log
  unfolding accept_command append
  accept_command-log cmd s w = elim (Bool-cases (s.cluster_size == 1)) [
    | inl alone ↦
        rw alone ((send_all-Alike net _ (advance_commit_index _, w)).log ∙ (advance-log _).0)
    | inr several ↦ rw several (send_all-Alike net _ (_, w)).log
  ]

  accept_command-result :
      (cmd : Command) (s : Replicator) (w : net.State)
      → (accept_command net cmd (s, w)).0 ≡ record { status = accepted; seq = inc64 s.log.last_seq }
  unfolding accept_command append
  accept_command-result cmd s w = refl

  -- A command is taken exactly by a primary that is ready: with a backup and room in its window if it
  -- is synchronous, and with no backup's queue full. It is then the last entry of the log, under the
  -- current term and the number that is returned. Otherwise the first test that fails decides the
  -- status, which is another one; the state stays, but for the counter of refusals, which grows by one
  -- where the node is a primary; and nothing is sent.
  pub submit-Accepts :
      (cmd : Command) (r : World net)
      → ((¬ Ready net r) × Refuses net cmd r) ⊎ (Ready net r × Accepts cmd r)
  submit-Accepts cmd (s, w) = elim (submit-cases net cmd (s, w)) [
    | inl (status, stats, why, e) ↦ inl ((Refusal-unready net why).0, (status, stats, why, e))
    | inr (ready, e) ↦ inr (
      ready,
      (
        ap (λ t. t.0) e ∙ accept_command-result cmd s w,
        ap (λ t. t.1.0.log) e ∙ accept_command-log cmd s w,
      ),
    )
  ]

  -- A command that a synchronous primary takes does not raise the number of entries past its commit
  -- point over its window, nor over what it was.
  pub submit-window :
      (instrument : ℕ) (cmd : Command) (s : Replicator) (w : net.State)
      → IsReplica instrument s
      → s.log.last_seq + 1 + 1 < 2 ^ 64
      → is_synchronous s.mode ≡ true
      → (submit net cmd (s, w)).1.0.log.last_seq - (submit net cmd (s, w)).1.0.commit_index
        ≤ max s.sync_window (s.log.last_seq - s.commit_index)
  submit-window instrument cmd s w r b m =
      let f = submit-Follows instrument net cmd s w r b in
      elim (submit-Accepts cmd (s, w)) [
        | inl (unready, (status, stats, why, e)) ↦ rw e (omega arith)
        | inr (ready, (result, log)) ↦
            let room : leb s.sync_window (sub64 s.log.last_seq s.commit_index) ≡ false =
              ground (arith, m, ready.room) in
            let exact = sub64-exact s.log.last_seq s.commit_index r.committed in
            let fits : s.log.last_seq - s.commit_index < s.sync_window =
              ground (arith, room, exact) in
            let grown : (submit net cmd (s, w)).1.0.log.last_seq ≡ s.log.last_seq + 1 =
              ap (λ l. l.last_seq) log ∙ omega (arith, b) in
            omega (arith, grown, fits, f.commit_index)
      ]
