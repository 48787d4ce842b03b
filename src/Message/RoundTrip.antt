-- ===== src/Message/RoundTrip.antt =====
-- Every message of src/net/message.cpp is read back from its bytes.
use sententia.Prelude.{
  ℕ, ◌%◌, ◌^◌, ◌≤◌, ◌<◌, ◌≡◌, refl, ap, sym, subst, Bool, true, false, some, List, [], ◌∷◌, ◌==◌,
  ==-refl, ltb, if◌then◌else◌, length, All, append-nil, arith,
}
use sententia.Types.{
  Side, buy, sell, OrderType, limit, market, TimeInForce, good_till_cancel, immediate_or_cancel,
  NewOrder, CancelOrder, Command, new_order, cancel_order,
}
use sententia.Wire.{put_u32, get_u32}
use sententia.Wire.Reading.{IsInt64}
use sententia.Wire.Decode.{
  ◌>>=◌, pure, fail, ReadsBack, Completes, pure-ReadsBack, bind-ReadsBack, bind-Completes,
  u8-ReadsBack, u16-ReadsBack, u32-ReadsBack, u64-ReadsBack, i64-ReadsBack, str-ReadsBack,
}
use sententia.Message.{
  Message, LogRecord, AppendEntries, hello, heartbeat, command_forward, event_ack, append_entries,
  append_response, request_vote, vote_response, type_of, max_address_len, max_entries_per_append,
  side_byte, type_byte, tif_byte, side_of, order_type_of, tif_of, bool_byte, checked_order,
  encode_command, decode_command, decode_new_order, decode_cancel, encode_record, encode_records,
  decode_record, decode_records, encode_body, finish, finish_flag, decoder, decode_body,
  decode_hello, decode_heartbeat, decode_command_forward, decode_event_ack, decode_append_entries,
  decode_append_response, decode_request_vote, decode_vote_response,
}

pub not_above : {a b : ℕ} → a ≤ b → ltb b a ≡ false
not_above h = ground arith

-- The numbers of a command fit their fields.
abbrev pub FitsCommand : Command → Type 0
FitsCommand (new_order n) =
    (n.id < 2 ^ 64) × (n.instrument < 2 ^ 32) × IsInt64 n.price × (n.quantity < 2 ^ 64)
FitsCommand (cancel_order c) = c.id < 2 ^ 64

abbrev pub FitsRecord : LogRecord → Type 0
FitsRecord e = (e.seq < 2 ^ 64) × (e.term < 2 ^ 64) × FitsCommand e.command

abbrev pub Fits : Message → Type 0
Fits (hello m) =
    (m.node_id < 2 ^ 32)
    × (m.protocol_version < 2 ^ 16)
    × (length m.advertised_address ≤ max_address_len)
Fits (heartbeat m) = (m.node_id < 2 ^ 32) × (m.counter < 2 ^ 64)
Fits (command_forward m) =
    (m.origin_node_id < 2 ^ 32) × (m.origin_seq < 2 ^ 64) × FitsCommand m.command
Fits (event_ack m) =
    (m.node_id < 2 ^ 32) × (m.through_event_seq < 2 ^ 64) × (m.state_checksum < 2 ^ 64)
Fits (append_entries m) =
    (m.term < 2 ^ 64)
    × (m.leader_id < 2 ^ 32)
    × (m.prev_seq < 2 ^ 64)
    × (m.prev_term < 2 ^ 64)
    × (m.commit_seq < 2 ^ 64)
    × (length m.entries ≤ max_entries_per_append)
    × All FitsRecord m.entries
Fits (append_response m) =
    (m.term < 2 ^ 64)
    × (m.node_id < 2 ^ 32)
    × (m.last_log_seq < 2 ^ 64)
    × (m.last_applied < 2 ^ 64)
    × (m.state_checksum < 2 ^ 64)
Fits (request_vote m) = (m.term < 2 ^ 64) × (m.candidate_id < 2 ^ 32) × (m.last_log_seq < 2 ^ 64)
Fits (vote_response m) = (m.term < 2 ^ 64) × (m.voter_id < 2 ^ 32)

pub side_back : (s : Side) → (ltb 1 (side_byte s) ≡ false) × (side_of (side_byte s) ≡ s)
side_back buy = (refl, refl)
side_back sell = (refl, refl)

type_back : (t : OrderType) → (ltb 1 (type_byte t) ≡ false) × (order_type_of (type_byte t) ≡ t)
type_back limit = (refl, refl)
type_back market = (refl, refl)

tif_back : (t : TimeInForce) → (ltb 1 (tif_byte t) ≡ false) × (tif_of (tif_byte t) ≡ t)
tif_back good_till_cancel = (refl, refl)
tif_back immediate_or_cancel = (refl, refl)

checked_back :
    (n : NewOrder)
    → checked_order n.id n.instrument
        (side_byte n.side)
        (type_byte n.kind)
        (tif_byte n.tif)
        n.price
        n.quantity
      ≡ pure (new_order n)
checked_back n =
    let (s, side) = side_back n.side in
    let (k, kind) = type_back n.kind in
    let (t, tif) = tif_back n.tif in
    rw (s, k, t) (ap (λ (c : Command). pure c) (rw (side, kind, tif) refl))

order-ReadsBack :
    (n : NewOrder)
    → FitsCommand (new_order n)
    → ReadsBack (encode_command (new_order n)) decode_command (new_order n)
unfolding encode_command decode_command decode_new_order
order-ReadsBack n (id, instrument, price, quantity) = bind-ReadsBack _ (u8-ReadsBack 0) (
    bind-ReadsBack _ (u64-ReadsBack n.id id) (
      bind-ReadsBack _ (u32-ReadsBack n.instrument instrument) (
        bind-ReadsBack _ (u8-ReadsBack (side_byte n.side)) (
          bind-ReadsBack _ (u8-ReadsBack (type_byte n.kind)) (
            bind-ReadsBack _ (u8-ReadsBack (tif_byte n.tif)) (
              bind-ReadsBack _ (i64-ReadsBack n.price price) (
                bind-ReadsBack _ (u64-ReadsBack n.quantity quantity) (
                  subst (λ get. ReadsBack (λ out. out) get (new_order n)) (sym (checked_back n))
                    (pure-ReadsBack (new_order n))))))))))

cancel-ReadsBack :
    (c : CancelOrder)
    → c.id < 2 ^ 64
    → ReadsBack (encode_command (cancel_order c)) decode_command (cancel_order c)
unfolding encode_command decode_command decode_cancel
cancel-ReadsBack c id =
    bind-ReadsBack _ (u8-ReadsBack 1)
      (bind-ReadsBack _ (u64-ReadsBack c.id id) (pure-ReadsBack (cancel_order c)))

-- A command that was written is read back.
pub command-ReadsBack :
    (c : Command) → FitsCommand c → ReadsBack (encode_command c) decode_command c
command-ReadsBack (new_order n) fits = order-ReadsBack n fits
command-ReadsBack (cancel_order c) fits = cancel-ReadsBack c fits

record-ReadsBack : (e : LogRecord) → FitsRecord e → ReadsBack (encode_record e) decode_record e
unfolding encode_record decode_record
record-ReadsBack e (seq, term, command) = bind-ReadsBack _ (u64-ReadsBack e.seq seq) (
    bind-ReadsBack _ (u64-ReadsBack e.term term)
      (bind-ReadsBack _ (command-ReadsBack e.command command) (pure-ReadsBack e)))

records-ReadsBack :
    (es : List LogRecord)
    → All FitsRecord es
    → ReadsBack (encode_records es) (decode_records (length es)) es
unfolding encode_records decode_records
records-ReadsBack [] fits = pure-ReadsBack []
records-ReadsBack (e ∷ es) fits =
    bind-ReadsBack _ (record-ReadsBack e fits.0)
      (bind-ReadsBack _ (records-ReadsBack es fits.1) (pure-ReadsBack (e ∷ es)))

finish-Completes : (m : Message) → Completes (λ out. out) (finish m) m
unfolding finish
finish-Completes m = record {
  printed = [];
  writes = λ out. sym (append-nil out);
  reads = λ before. rw (append-nil before, append-nil before, ==-refl (length before)) refl;
}

pub flag_back : (b : Bool) → ((bool_byte b == 1) ≡ b) × (ltb 1 (bool_byte b) ≡ false)
flag_back true = (refl, refl)
flag_back false = (refl, refl)

flag-Completes :
    (b : Bool) (m' m : Message) → m' ≡ m → Completes (λ out. out) (finish_flag (bool_byte b) m') m
unfolding finish_flag finish ◌>>=◌ pure
flag-Completes b m' m e = record {
  printed = [];
  writes = λ out. sym (append-nil out);
  reads = λ before.
      rw (append-nil before, append-nil before, ==-refl (length before), (flag_back b).1)
        (ap
          (λ n. (some n, record { data_bytes = before; position = length before; failed = false }))
          e);
}

entries-ReadsBack :
    (es : List LogRecord)
    → length es ≤ max_entries_per_append
    → All FitsRecord es
    → ReadsBack
        (encode_records es)
        (if ltb max_entries_per_append (length es) then fail else decode_records (length es))
        es
entries-ReadsBack es few fits = rw (not_above few) (records-ReadsBack es fits)

entries-Completes :
    (m : AppendEntries)
    → length m.entries ≤ max_entries_per_append
    → All FitsRecord m.entries
    → Completes
        (λ out. encode_records m.entries (put_u32 (length m.entries % 2 ^ 32) out))
        (get_u32 >>= λ count.
          (if ltb max_entries_per_append count then fail else decode_records count) >>= λ entries.
          finish (append_entries (record m { entries = entries })))
        (append_entries m)
entries-Completes m few fits =
    let small : length m.entries % 2 ^ 32 ≡ length m.entries = omega (arith, few) in
    rw small (
      bind-Completes _ (u32-ReadsBack (length m.entries) (omega (arith, few))) (
        bind-Completes _ (entries-ReadsBack m.entries few fits)
          (finish-Completes (append_entries m))))

-- The body of every message that fits is read back by the decoder of its type.
pub body-Completes : (m : Message) → Fits m → Completes (encode_body m) (decoder (type_of m)) m
unfolding encode_body decoder decode_hello decode_heartbeat decode_command_forward decode_event_ack
    decode_append_entries decode_append_response decode_request_vote decode_vote_response
body-Completes (hello m) (a, b, c) = bind-Completes _ (u32-ReadsBack m.node_id a) (
    bind-Completes _ (u16-ReadsBack m.protocol_version b) (
      bind-Completes _ (str-ReadsBack m.advertised_address max_address_len c (omega arith))
        (finish-Completes (hello m))))
body-Completes (heartbeat m) (a, b) =
    bind-Completes _ (u32-ReadsBack m.node_id a)
      (bind-Completes _ (u64-ReadsBack m.counter b) (finish-Completes (heartbeat m)))
body-Completes (command_forward m) (a, b, c) = bind-Completes _ (u32-ReadsBack m.origin_node_id a) (
    bind-Completes _ (u64-ReadsBack m.origin_seq b)
      (bind-Completes _ (command-ReadsBack m.command c) (finish-Completes (command_forward m))))
body-Completes (event_ack m) (a, b, c) = bind-Completes _ (u32-ReadsBack m.node_id a) (
    bind-Completes _ (u64-ReadsBack m.through_event_seq b)
      (bind-Completes _ (u64-ReadsBack m.state_checksum c) (finish-Completes (event_ack m))))
body-Completes (request_vote m) (a, b, c) = bind-Completes _ (u64-ReadsBack m.term a) (
    bind-Completes _ (u32-ReadsBack m.candidate_id b)
      (bind-Completes _ (u64-ReadsBack m.last_log_seq c) (finish-Completes (request_vote m))))
body-Completes (vote_response m) (a, b) = bind-Completes _ (u64-ReadsBack m.term a) (
    bind-Completes _ (u32-ReadsBack m.voter_id b) (
      bind-Completes _ (u8-ReadsBack (bool_byte m.granted)) (
        flag-Completes m.granted _ (vote_response m)
          (ap (λ g. vote_response (record m { granted = g })) (flag_back m.granted).0))))
body-Completes (append_response m) (a, b, c, d, e) = bind-Completes _ (u64-ReadsBack m.term a) (
    bind-Completes _ (u32-ReadsBack m.node_id b) (
      bind-Completes _ (u64-ReadsBack m.last_log_seq c) (
        bind-Completes _ (u8-ReadsBack (bool_byte m.ok)) (
          bind-Completes _ (u64-ReadsBack m.last_applied d) (
            bind-Completes _ (u64-ReadsBack m.state_checksum e) (
              flag-Completes m.ok _ (append_response m)
                (ap (λ g. append_response (record m { ok = g })) (flag_back m.ok).0)))))))
body-Completes (append_entries m) (a, b, c, d, e, few, fits) =
    bind-Completes _ (u64-ReadsBack m.term a) (
      bind-Completes _ (u32-ReadsBack m.leader_id b) (
        bind-Completes _ (u64-ReadsBack m.prev_seq c) (
          bind-Completes _ (u64-ReadsBack m.prev_term d)
            (bind-Completes _ (u64-ReadsBack m.commit_seq e) (entries-Completes m few fits)))))

-- Every message whose numbers fit their fields is read back from its body, under its type.
pub decode_body-encode_body :
    (m : Message) → Fits m → decode_body (type_of m) (encode_body m []) ≡ some m
unfolding decode_body
decode_body-encode_body m fits =
    let h = body-Completes m fits in rw (h.writes []) (ap (λ r. r.0) (h.reads []))
