-- ===== src/Storage/Entries.antt =====
-- Entries of the log as src/storage/durable_state.cpp writes them, and its recovery from them.
use sententia.Prelude.{
  ℕ, ◌+◌, ◌^◌, ◌≤◌, ◌<◌, ◌≡◌, refl, sym, ap, true, false, some, List, [], ◌∷◌, ==-refl, ==-refl-of,
  leb, length, append-nil, arith, inc64,
}
use sententia.Wire.Decode.{Completes, bind-Completes, u64-ReadsBack}
use sententia.Message.RoundTrip.{FitsCommand, command-ReadsBack}
use sententia.CommandLog.{LogEntry, CommandLog, append_at, push}
use sententia.Replicator.{run_command}
use sententia.Wal.{WalRecord}
use sententia.Storage.DurableState.{
  encode_log_entry, decode_log_entry, entry_decoder, finish_entry, record_of, recover_records,
  Progress,
}

abbrev pub FitsEntry : LogEntry → Type 0
FitsEntry x = (x.seq < 2 ^ 64) × (x.term < 2 ^ 64) × FitsCommand x.command

finish-Completes : (x : LogEntry) → Completes (λ out. out) (finish_entry x) x
unfolding finish_entry
finish-Completes x = record {
  printed = [];
  writes = λ out. sym (append-nil out);
  reads = λ before. rw (append-nil before, append-nil before, ==-refl (length before)) refl;
}

entry-Completes : (x : LogEntry) → FitsEntry x → Completes (encode_log_entry x) entry_decoder x
unfolding encode_log_entry entry_decoder
entry-Completes x (seq, term, command) = bind-Completes _ (u64-ReadsBack x.seq seq) (
    bind-Completes _ (u64-ReadsBack x.term term)
      (bind-Completes _ (command-ReadsBack x.command command) (finish-Completes x)))

-- An entry whose numbers fit their fields is read back from its bytes.
pub decode_log_entry-encode_log_entry :
    (x : LogEntry) → FitsEntry x → decode_log_entry (encode_log_entry x []) ≡ some x
unfolding decode_log_entry
decode_log_entry-encode_log_entry x f =
    let h = entry-Completes x f in rw (h.writes []) (ap (λ r. r.0) (h.reads []))

append_at-next :
    (x : LogEntry) (log : CommandLog)
    → x.seq < 2 ^ 64
    → x.seq ≡ log.last_seq + 1
    → append_at x.seq x.term x.command log ≡ (true, push x.seq x.term x.command log)
unfolding append_at
append_at-next x log small next =
    let fit : x.seq ≡ inc64 log.last_seq = omega (arith, small, next) in
    ground (arith, fit, ==-refl-of (inc64 log.last_seq) x.seq fit)

module _ (start : ℕ) (x : LogEntry) (fits : FitsEntry x) (rs : List WalRecord) (p : Progress) where
  pub skip_old :
      x.seq ≤ start → recover_records start (record_of x ∷ rs) p ≡ recover_records start rs p
  unfolding recover_records
  skip_old h =
      let old : leb x.seq start ≡ true = ground (arith, h) in
      ground (arith, decode_log_entry-encode_log_entry x fits, old)

  pub run_next :
      start < x.seq
      → x.seq ≡ p.1.last_seq + 1
      → recover_records start (record_of x ∷ rs) p
        ≡ recover_records start rs
            (run_command x.command p.0, push x.seq x.term x.command p.1, inc64 p.2)
  unfolding recover_records
  run_next h next =
      let new : leb x.seq start ≡ false = ground (arith, h) in
      let fitting = append_at-next x p.1 fits.0 next in
      ground (arith, decode_log_entry-encode_log_entry x fits, new, fitting)
