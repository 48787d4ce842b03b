-- ===== src/Message/Framed.antt =====
-- The bytes of a message of src/net/message.cpp are one frame, whatever the buffer held before.
use sententia.Prelude.{
  ℕ, suc, ◌+◌, ◌-◌, ◌*◌, ◌%◌, ◌^◌, ◌≤◌, ◌<◌, ◌≡◌, refl, ap, sym, ◌∙◌, false, some, List, [], ◌∷◌,
  ◌++◌, ltb, length, length-append, set, take, drop, append_assoc, arith,
}
use sententia.Wire.{byte, put_u16, put_u32, put_u64}
use sententia.Wire.Decode.{u16_read, u32_read}
use sententia.Types.{Command, new_order, cancel_order}
use sententia.Message.{
  Message, hello, heartbeat, command_forward, event_ack, append_entries, append_response,
  request_vote, vote_response, LogRecord, type_of, ◌▷◌, encode_command, encode_record,
  encode_records, encode_body, encode, patch, decode_body,
}
use sententia.Wire.Sizes.{put_sizes}
use sententia.Framing.{Frame, max_payload, read_header, check_header, header_size}
use sententia.Framing.Parsing.{parse, complete, drop-drop}
use sententia.Message.RoundTrip.{Fits, body-Completes, decode_body-encode_body}

set-append : (xs ys : List ℕ) (k v : ℕ) → set (xs ++ ys) (length xs + k) v ≡ xs ++ set ys k v
set-append [] ys k v = ap (λ n. set ys n v) (omega arith)
set-append (x ∷ xs) ys k v =
    ap (λ n. set (x ∷ xs ++ ys) n v) {x = suc (length xs) + k} {y = suc (length xs + k)}
      (omega arith)
    ∙ ap (λ l. x ∷ l) (set-append xs ys k v)

-- The header of a frame, as it stands once its length is there.
abbrev pub header_bytes : ℕ → ℕ → List ℕ
header_bytes kind len =
    put_u32 0x544E4553 [] ++ (put_u16 1 [] ++ (put_u16 kind [] ++ put_u32 len []))

-- The length lands on the placeholder.
patch-append :
    (out body : List ℕ) (kind len : ℕ)
    → patch (length out) len (out ++ (header_bytes kind 0 ++ body))
      ≡ out ++ (header_bytes kind len ++ body)
unfolding patch put_u32 put_u16
patch-append out body kind len =
    rw
      (
        set-append out _ 8 (byte 0 len),
        set-append out _ 9 (byte 1 len),
        set-append out _ 10 (byte 2 len),
        set-append out _ 11 (byte 3 len),
      )
      refl

header-append :
    (out : List ℕ) (kind len : ℕ)
    → (out ▷ put_u32 0x544E4553 ▷ put_u16 1 ▷ put_u16 kind ▷ put_u32 len)
      ≡ out ++ header_bytes kind len
unfolding put_u32 put_u16
header-append out kind len = simp append_assoc

-- A message that fits is appended as its header, with the length of its body, and its body.
pub encode_lem :
    (m : Message) (out : List ℕ)
    → Fits m
    → encode m out
      ≡ out ++ (header_bytes (type_of m) (length (encode_body m []) % 2 ^ 32) ++ encode_body m [])
unfolding encode
encode_lem m out fits =
    let body = encode_body m [] in
    let header = out ++ header_bytes (type_of m) 0 in
    let h = body-Completes m fits in
    let whole : encode_body m header ≡ header ++ body =
      h.writes header ∙ ap (λ l. header ++ l) (sym (h.writes [])) in
    let size : length (header ++ body) - length header ≡ length body =
      omega (arith, length-append header body) in
    rw
      (
        header-append out (type_of m) 0,
        whole,
        size,
        append_assoc out (header_bytes (type_of m) 0) body,
      )
      (patch-append out body (type_of m) (length body % 2 ^ 32))

length-encode_command : (c : Command) (w : List ℕ) → length (encode_command c w) ≤ length w + 33
unfolding encode_command
length-encode_command (new_order n) w = omega put_sizes
length-encode_command (cancel_order c) w = omega put_sizes

length-encode_records :
    (es : List LogRecord) (w : List ℕ) → length (encode_records es w) ≤ length w + 49 * length es
unfolding encode_records encode_record
length-encode_records [] w = omega arith
length-encode_records (e ∷ es) w = omega (
  put_sizes,
  length-encode_records es (encode_record e w),
  length-encode_command e.command (w ▷ put_u64 e.seq ▷ put_u64 e.term),
)

-- The body of a message that fits is far below the largest payload that a reader takes.
pub length-encode_body : (m : Message) → Fits m → length (encode_body m []) ≤ max_payload
unfolding encode_body
length-encode_body (hello m) fits = omega put_sizes
length-encode_body (heartbeat m) fits = omega put_sizes
length-encode_body (command_forward m) fits = omega (put_sizes, length-encode_command m.command _)
length-encode_body (event_ack m) fits = omega put_sizes
length-encode_body (append_entries m) fits = omega (put_sizes, length-encode_records m.entries _)
length-encode_body (append_response m) fits = omega put_sizes
length-encode_body (request_vote m) fits = omega put_sizes
length-encode_body (vote_response m) fits = omega put_sizes

-- The header of a frame is read back.
read_header_back :
    (kind len : ℕ) (rest : List ℕ)
    → kind < 2 ^ 16
    → len < 2 ^ 32
    → read_header (header_bytes kind len ++ rest)
      ≡ record { magic = 0x544E4553; version = 1; raw_type = kind; size = len }
unfolding read_header
read_header_back kind len rest hk hl =
    let magic = put_u32 0x544E4553 [] in
    let version = put_u16 1 [] in
    let tag = put_u16 kind [] in
    let size = put_u32 len [] in
    rw
      (
        append_assoc magic (version ++ (tag ++ size)) rest,
        append_assoc version (tag ++ size) rest,
        append_assoc tag size rest,
        u32_read 0x544E4553 [] (version ++ (tag ++ (size ++ rest))) (omega arith),
        u16_read 1 magic (tag ++ (size ++ rest)) (omega arith),
        u16_read kind (magic ++ version) (size ++ rest) hk,
        u32_read len (magic ++ version ++ tag) rest hl,
      )
      refl

type_fits : (m : Message) → type_of m < 2 ^ 16
type_fits (hello m) = omega arith
type_fits (heartbeat m) = omega arith
type_fits (command_forward m) = omega arith
type_fits (event_ack m) = omega arith
type_fits (append_entries m) = omega arith
type_fits (append_response m) = omega arith
type_fits (request_vote m) = omega arith
type_fits (vote_response m) = omega arith

abbrev pub frame_of : Message → Frame
frame_of m = record { kind = type_of m; payload = encode_body m [] }

take-append : (xs ys : List ℕ) → take (length xs) (xs ++ ys) ≡ xs
take-append [] ys = refl
take-append (x ∷ xs) ys = ap (λ l. x ∷ l) (take-append xs ys)

drop-append : (xs ys : List ℕ) → drop (length xs) (xs ++ ys) ≡ ys
drop-append [] ys = refl
drop-append (x ∷ xs) ys = drop-append xs ys

length-header :
    (kind len : ℕ) (rest : List ℕ) → length (header_bytes kind len ++ rest) ≡ 12 + length rest
unfolding put_u32 put_u16
length-header kind len rest = omega arith

drop-header :
    (kind len : ℕ) (rest : List ℕ) → drop header_size (header_bytes kind len ++ rest) ≡ rest
unfolding put_u32 put_u16
drop-header kind len rest = refl

parse-frame :
    (kind : ℕ) (body rest : List ℕ)
    → kind < 2 ^ 16
    → length body ≤ max_payload
    → parse (header_bytes kind (length body) ++ (body ++ rest))
      ≡ complete (record { kind = kind; payload = body }) rest
unfolding parse check_header
parse-frame kind body rest hk hb =
    let whole = body ++ rest in
    let size = length body in
    let long : ltb (length (header_bytes kind size ++ whole)) header_size ≡ false =
      ground (arith, length-header kind size whole) in
    let fits : ltb max_payload size ≡ false = ground (arith, hb) in
    let arrived : ltb (length (header_bytes kind size ++ whole)) (header_size + size) ≡ false =
      ground (arith, length-header kind size whole, length-append body rest) in
    rw
      (
        read_header_back kind size whole hk (omega (arith, hb)),
        long,
        fits,
        arrived,
        drop-drop size header_size (header_bytes kind size ++ whole),
        drop-header kind size whole,
        take-append body rest,
        drop-append body rest,
      )
      refl

-- The bytes of a message that fits, with any bytes behind them, start with one frame, and the frame
-- decodes to the message.
pub parse-encode :
    (m : Message) (rest : List ℕ)
    → Fits m
    → (parse (encode m [] ++ rest) ≡ complete (frame_of m) rest)
      × (decode_body (frame_of m).kind (frame_of m).payload ≡ some m)
parse-encode m rest fits =
    let body = encode_body m [] in
    let small : length body % 2 ^ 32 ≡ length body = omega (arith, length-encode_body m fits) in
    (
      rw
          (
            encode_lem m [] fits,
            small,
            append_assoc (header_bytes (type_of m) (length body)) body rest,
          )
          (parse-frame (type_of m) body rest (type_fits m) (length-encode_body m fits)),
      decode_body-encode_body m fits,
    )
