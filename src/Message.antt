-- ===== src/Message.antt =====
-- include/sententia/net/message.hpp and src/net/message.cpp: what nodes tell one another, as bytes.
-- The writer's calls stand in the order of the source, `w ▷ put_u64 x` for `w.u64(x)`.
pub mod RoundTrip
pub mod Framed
pub mod Delivered
use sententia.Prelude.{
  ℕ, zero, suc, ◌+◌, ◌-◌, ◌%◌, ◌^◌, Bool, true, false, not, ◌&&◌, ◌||◌, Option, none, some, List,
  [], ◌∷◌, ◌++◌, ◌==◌, ltb, if◌then◌else◌, length, set,
}
use sententia.Prelude.Int.{ℤ}
use sententia.Types.{
  Side, buy, sell, OrderType, limit, market, TimeInForce, good_till_cancel, immediate_or_cancel,
  NewOrder, CancelOrder, Command, new_order, cancel_order,
}
use sententia.Election.{RequestVote, VoteResponse}
use sententia.Wire.{
  WireReader, new_reader, byte, put_u8, put_u16, put_u32, put_u64, put_i64, put_str, get_u8,
  get_u16, get_u32, get_u64, get_i64, get_str,
}
use sententia.Wire.Decode.{Decode, ◌>>=◌, pure, fail}

pub record Hello : Type 0 where
  pub node_id : ℕ
  pub protocol_version : ℕ
  pub advertised_address : List ℕ

pub record Heartbeat : Type 0 where
  pub node_id : ℕ
  pub counter : ℕ

pub record CommandForward : Type 0 where
  pub origin_node_id : ℕ
  pub origin_seq : ℕ
  pub command : Command

pub record EventAck : Type 0 where
  pub node_id : ℕ
  pub through_event_seq : ℕ
  pub state_checksum : ℕ

pub record LogRecord : Type 0 where
  pub seq : ℕ
  pub term : ℕ
  pub command : Command

pub record AppendEntries : Type 0 where
  pub term : ℕ
  pub leader_id : ℕ
  pub prev_seq : ℕ
  pub prev_term : ℕ
  pub commit_seq : ℕ
  pub entries : List LogRecord

pub record AppendResponse : Type 0 where
  pub term : ℕ
  pub node_id : ℕ
  pub last_log_seq : ℕ
  pub ok : Bool
  pub last_applied : ℕ
  pub state_checksum : ℕ

pub data Message : Type 0 where
  hello : Hello → Message
  heartbeat : Heartbeat → Message
  command_forward : CommandForward → Message
  event_ack : EventAck → Message
  append_entries : AppendEntries → Message
  append_response : AppendResponse → Message
  request_vote : RequestVote → Message
  vote_response : VoteResponse → Message

-- The number of the message's `MessageType`.
abbrev pub type_of : Message → ℕ
type_of (hello m) = 1
type_of (heartbeat m) = 2
type_of (command_forward m) = 3
type_of (event_ack m) = 4
type_of (append_entries m) = 10
type_of (append_response m) = 11
type_of (request_vote m) = 20
type_of (vote_response m) = 21

abbrev pub max_address_len : ℕ
max_address_len = 256

abbrev pub max_entries_per_append : ℕ
max_entries_per_append = 512

infixl 20 ◌▷◌
abbrev pub ◌▷◌ : List ℕ → (List ℕ → List ℕ) → List ℕ
w ▷ put = put w

abbrev pub side_byte : Side → ℕ
side_byte buy = 0
side_byte sell = 1

abbrev pub type_byte : OrderType → ℕ
type_byte limit = 0
type_byte market = 1

abbrev pub tif_byte : TimeInForce → ℕ
tif_byte good_till_cancel = 0
tif_byte immediate_or_cancel = 1

unfoldable pub encode_command : Command → List ℕ → List ℕ
encode_command (new_order n) w =
    w
    ▷ put_u8 0
    ▷ put_u64 n.id
    ▷ put_u32 n.instrument
    ▷ put_u8 (side_byte n.side)
    ▷ put_u8 (type_byte n.kind)
    ▷ put_u8 (tif_byte n.tif)
    ▷ put_i64 n.price
    ▷ put_u64 n.quantity
encode_command (cancel_order c) w = w ▷ put_u8 1 ▷ put_u64 c.id

-- The casts of a checked byte to its enum.
abbrev pub side_of : ℕ → Side
side_of b = if b == 0 then buy else sell

abbrev pub order_type_of : ℕ → OrderType
order_type_of b = if b == 0 then limit else market

abbrev pub tif_of : ℕ → TimeInForce
tif_of b = if b == 0 then good_till_cancel else immediate_or_cancel

-- The check of the three enum bytes, and the order.
abbrev pub checked_order : ℕ → ℕ → ℕ → ℕ → ℕ → ℤ → ℕ → Decode Command
checked_order id instrument side kind tif price quantity =
    if ltb 1 side || ltb 1 kind || ltb 1 tif
    then fail
    else pure (
        new_order (record {
          id = id;
          instrument = instrument;
          side = side_of side;
          kind = order_type_of kind;
          tif = tif_of tif;
          price = price;
          quantity = quantity;
        }))

unfoldable pub decode_new_order : Decode Command
decode_new_order = do
  id ← get_u64
  instrument ← get_u32
  side ← get_u8
  kind ← get_u8
  tif ← get_u8
  price ← get_i64
  quantity ← get_u64
  checked_order id instrument side kind tif price quantity

unfoldable pub decode_cancel : Decode Command
decode_cancel = do id ← get_u64; pure (cancel_order (record { id = id }))

unfoldable pub decode_command : Decode Command
decode_command = do
  tag ← get_u8
  if tag == 0 then decode_new_order else if tag == 1 then decode_cancel else fail

unfoldable pub encode_record : LogRecord → List ℕ → List ℕ
encode_record e w = w ▷ put_u64 e.seq ▷ put_u64 e.term ▷ encode_command e.command

unfoldable pub encode_records : List LogRecord → List ℕ → List ℕ
encode_records [] w = w
encode_records (e ∷ es) w = w ▷ encode_record e ▷ encode_records es

abbrev pub bool_byte : Bool → ℕ
bool_byte b = if b then 1 else 0

-- `BodyVisitor`
unfoldable pub encode_body : Message → List ℕ → List ℕ
encode_body (hello m) w =
    w ▷ put_u32 m.node_id ▷ put_u16 m.protocol_version ▷ put_str m.advertised_address
encode_body (heartbeat m) w = w ▷ put_u32 m.node_id ▷ put_u64 m.counter
encode_body (command_forward m) w =
    w ▷ put_u32 m.origin_node_id ▷ put_u64 m.origin_seq ▷ encode_command m.command
encode_body (event_ack m) w =
    w ▷ put_u32 m.node_id ▷ put_u64 m.through_event_seq ▷ put_u64 m.state_checksum
encode_body (request_vote m) w =
    w ▷ put_u64 m.term ▷ put_u32 m.candidate_id ▷ put_u64 m.last_log_seq
encode_body (vote_response m) w =
    w ▷ put_u64 m.term ▷ put_u32 m.voter_id ▷ put_u8 (bool_byte m.granted)
encode_body (append_entries m) w =
    w
    ▷ put_u64 m.term
    ▷ put_u32 m.leader_id
    ▷ put_u64 m.prev_seq
    ▷ put_u64 m.prev_term
    ▷ put_u64 m.commit_seq
    ▷ put_u32 (length m.entries % 2 ^ 32)
    ▷ encode_records m.entries
encode_body (append_response m) w =
    w
    ▷ put_u64 m.term
    ▷ put_u32 m.node_id
    ▷ put_u64 m.last_log_seq
    ▷ put_u8 (bool_byte m.ok)
    ▷ put_u64 m.last_applied
    ▷ put_u64 m.state_checksum

-- The loop that writes the length over its placeholder.
unfoldable pub patch : ℕ → ℕ → List ℕ → List ℕ
patch frame_start len out =
    set
      (set (set (set out (frame_start + 8) (byte 0 len)) (frame_start + 9) (byte 1 len))
        (frame_start + 10) (byte 2 len))
      (frame_start + 11) (byte 3 len)

unfoldable pub encode : Message → List ℕ → List ℕ
encode m out =
    let header = out ▷ put_u32 0x544E4553 ▷ put_u16 1 ▷ put_u16 (type_of m) ▷ put_u32 0 in
    let whole = encode_body m header in
    patch (length out) ((length whole - length header) % 2 ^ 32) whole

-- `!r.ok() || !r.exhausted()`
unfoldable pub finish : Message → Decode Message
finish m r = if r.failed || not (r.position == length r.data_bytes) then (none, r) else (some m, r)

unfoldable pub decode_record : Decode LogRecord
decode_record = do
  seq ← get_u64
  term ← get_u64
  command ← decode_command
  pure (record { seq = seq; term = term; command = command })

unfoldable pub decode_records : ℕ → Decode (List LogRecord)
decode_records zero = pure []
decode_records (suc count) = do e ← decode_record; es ← decode_records count; pure (e ∷ es)

unfoldable pub decode_hello : Decode Message
decode_hello = do
  node_id ← get_u32
  version ← get_u16
  address ← get_str max_address_len
  finish (
      hello
        (record { node_id = node_id; protocol_version = version; advertised_address = address }))

unfoldable pub decode_heartbeat : Decode Message
decode_heartbeat = do
  node_id ← get_u32
  counter ← get_u64
  finish (heartbeat (record { node_id = node_id; counter = counter }))

unfoldable pub decode_command_forward : Decode Message
decode_command_forward = do
  node_id ← get_u32
  seq ← get_u64
  command ← decode_command
  finish
      (command_forward (record { origin_node_id = node_id; origin_seq = seq; command = command }))

unfoldable pub decode_event_ack : Decode Message
decode_event_ack = do
  node_id ← get_u32
  through ← get_u64
  checksum ← get_u64
  finish (
      event_ack
        (record { node_id = node_id; through_event_seq = through; state_checksum = checksum }))

unfoldable pub decode_append_entries : Decode Message
decode_append_entries = do
  term ← get_u64
  leader_id ← get_u32
  prev_seq ← get_u64
  prev_term ← get_u64
  commit_seq ← get_u64
  count ← get_u32
  entries ← (if ltb max_entries_per_append count then fail else decode_records count)
  finish (
      append_entries (record {
        term = term;
        leader_id = leader_id;
        prev_seq = prev_seq;
        prev_term = prev_term;
        commit_seq = commit_seq;
        entries = entries;
      }))

-- `finish`, and the check of a byte that stands for a truth value.
unfoldable pub finish_flag : ℕ → Message → Decode Message
finish_flag flag m = do done ← finish m; if ltb 1 flag then fail else pure done

unfoldable pub decode_append_response : Decode Message
decode_append_response = do
  term ← get_u64
  node_id ← get_u32
  last_log_seq ← get_u64
  ok ← get_u8
  last_applied ← get_u64
  checksum ← get_u64
  finish_flag ok (
      append_response (record {
        term = term;
        node_id = node_id;
        last_log_seq = last_log_seq;
        ok = ok == 1;
        last_applied = last_applied;
        state_checksum = checksum;
      }))

unfoldable pub decode_request_vote : Decode Message
decode_request_vote = do
  term ← get_u64
  candidate_id ← get_u32
  last_log_seq ← get_u64
  finish (
      request_vote
        (record { term = term; candidate_id = candidate_id; last_log_seq = last_log_seq }))

unfoldable pub decode_vote_response : Decode Message
decode_vote_response = do
  term ← get_u64
  voter_id ← get_u32
  granted ← get_u8
  finish_flag granted
      (vote_response (record { term = term; voter_id = voter_id; granted = granted == 1 }))

-- The `switch` on the type; a number of no message is none of its cases.
unfoldable pub decoder : ℕ → Decode Message
decoder kind =
    if kind == 1
    then decode_hello
    else if kind == 2
    then decode_heartbeat
    else if kind == 3
    then decode_command_forward
    else if kind == 4
    then decode_event_ack
    else if kind == 10
    then decode_append_entries
    else if kind == 11
    then decode_append_response
    else if kind == 20
    then decode_request_vote
    else if kind == 21
    then decode_vote_response
    else fail

unfoldable pub decode_body : ℕ → List ℕ → Option Message
decode_body kind bytes = (decoder kind (new_reader bytes)).0
