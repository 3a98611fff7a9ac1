-- ===== src/WebSocket/Reader.antt =====
-- `WsReader`: the data of the frames from the server; pings are answered through the writer.
use tg_ws_keenetic.Base.{
  ℕ, zero, suc, ◌+◌, ◌-◌, ◌*◌, ◌/◌, ◌%◌, min, Bool, false, not, ◌&&◌, ◌||◌, Option, none, some, [],
  ◌∷◌, ltb, leb, ◌==◌, if◌then◌else◌, length, get_or, take, Result, ok, err, ErrorKind, ◌>>◌,
  reject,
}
use tg_ws_keenetic.Base.Bytes.{Bytes}
use tg_ws_keenetic.Base.Wires.{Reader, Writer}
use tg_ws_keenetic.WebSocket.Writer.{WsWriter, max_message, control}

pub record WsReader : Type 0 where
  pub remaining : ℕ
  pub fragmented : Bool
  pub message_len : ℕ

-- `WsReader::new`.
abbrev pub new_reader : WsReader
new_reader = record { remaining = 0; fragmented = false; message_len = 0 }

-- The bytes of the length that follow the first two bytes of a header.
abbrev pub extra : ℕ → ℕ
extra b = if b % 128 == 126 then 2 else if b % 128 == 127 then 8 else 0

abbrev pub from_be : ℕ → Bytes → ℕ
from_be n [] = n
from_be n (b ∷ bs) = from_be (n * 256 + b) bs

-- The length of a frame, which must be written in its shortest form.
unfoldable pub frame_length : ℕ → Bytes → Result ℕ
frame_length b more =
    let n = if extra b == 0 then b % 128 else from_be 0 more in
    let noncanonical = ((b % 128 == 126) && ltb n 126) || ((b % 128 == 127) && ltb n 65536) in
    reject noncanonical ErrorKind.invalid_data
    >> (reject (ltb max_message n) ErrorKind.invalid_data >> ok n)

-- A data frame of so many bytes begins, or is refused; the message's length is updated before it
-- is tested.
unfoldable pub begin_data : Bool → ℕ → ℕ → WsReader → Result (Unit {0}) × WsReader
begin_data fin opcode n st =
    let continues = (opcode == 0) && st.fragmented in
    let starts = (opcode == 2) && not st.fragmented in
    let message_len = if starts then n else st.message_len + n in
    if not (continues || starts)
    then (err ErrorKind.invalid_data, st)
    else if ltb max_message message_len
    then (err ErrorKind.invalid_data, record st { message_len = message_len })
    else (ok tt, record { remaining = n; fragmented = not fin; message_len = message_len })

module _ (r : Reader) (w : Writer) where
  abbrev pub Side : Type 0
  Side = WsWriter × w.Inner

  -- The answer, `none` when the rounds are used up, and the two sides' states.
  abbrev pub Chunk : Type 0
  Chunk = Option (Result Bytes) × WsReader × r.Inner × Side

  abbrev pub Again : Type 0
  Again = WsReader → r.Inner → Side → Chunk

  abbrev pub refuse : ErrorKind → WsReader → r.Inner → Side → Chunk
  refuse kind st s side = (some (err kind), st, s, side)

  -- `read` of the data of a frame.
  unfoldable pub data_read : WsReader → Side → Result Bytes × r.Inner → Chunk
  data_read st side (err kind, s) = refuse kind st s side
  data_read st side (ok [], s) = refuse ErrorKind.unexpected_eof st s side
  data_read st side (ok (b ∷ bs), s) =
      (some (ok (b ∷ bs)), record st { remaining = st.remaining - length (b ∷ bs) }, s, side)

  -- `w.control(..)` on a writer: the answer and the writer's state.
  abbrev pub replied_with : Bytes → ℕ → Bytes → Side → Result (Unit {0}) × Side
  replied_with mask opcode bs (ws, out) =
      let (answer, ws', out') = control w mask opcode bs ws out in (answer, (ws', out'))

  unfoldable pub ponged : Again → WsReader → r.Inner → Result (Unit {0}) × Side → Chunk
  ponged again st s (err kind, side) = refuse kind st s side
  ponged again st s (ok _, side) = again st s side

  -- A control frame's payload has been read. A closing frame is answered where the writer is free,
  -- and whether that succeeds does not matter.
  unfoldable pub control_read :
      Again → Bytes → Bool → ℕ → ℕ → WsReader → Side → Result Bytes × r.Inner → Chunk
  unfolding ponged
  control_read again mask free opcode n st side (err kind, s) = refuse kind st s side
  control_read again mask free opcode n st side (ok bs, s) =
      let closing = if free then (replied_with mask 8 (take (min n 2) bs) side).1 else side in
      let pong = ponged again st s (replied_with mask 10 bs side) in
      let next = again st s side in
      if opcode == 8
      then if n == 1
        then refuse ErrorKind.invalid_data st s side
        else (some (ok []), st, s, closing)
      else if opcode == 9
      then pong
      else next

  unfoldable pub data_begun : Again → r.Inner → Side → Result (Unit {0}) × WsReader → Chunk
  data_begun again s side (err kind, st) = refuse kind st s side
  data_begun again s side (ok _, st) = again st s side

  unfoldable pub length_known :
      Again → Bytes → Bool → ℕ → WsReader → r.Inner → Side → Result ℕ → Chunk
  unfolding control_read data_begun begin_data
  length_known again mask free a st s side (err kind) = refuse kind st s side
  length_known again mask free a st s side (ok n) =
      let opcode = a % 16 in
      let fin = leb 128 a in
      let controlled = control_read again mask free opcode n st side (r.read_exact s n) in
      let begun = data_begun again s side (begin_data fin opcode n st) in
      if leb 8 opcode
      then if not fin || ltb 125 n || ltb 10 opcode
        then refuse ErrorKind.invalid_data st s side
        else controlled
      else begun

  unfoldable pub extra_read :
      Again → Bytes → Bool → ℕ → ℕ → WsReader → Side → Result Bytes × r.Inner → Chunk
  unfolding length_known frame_length
  extra_read again mask free a b st side (err kind, s) = refuse kind st s side
  extra_read again mask free a b st side (ok more, s) =
      length_known again mask free a st s side (frame_length b more)

  -- The first two bytes are known. No byte is read where the length has none of its own.
  unfoldable pub start_known : Again → Bytes → Bool → ℕ → ℕ → WsReader → Side → r.Inner → Chunk
  unfolding extra_read length_known frame_length
  start_known again mask free a b st side s =
      let longer = extra_read again mask free a b st side (r.read_exact s (extra b)) in
      let short = length_known again mask free a st s side (frame_length b []) in
      if not (a / 16 % 8 == 0) || leb 128 b
      then refuse ErrorKind.invalid_data st s side
      else if extra b == 0
      then short
      else longer

  unfoldable pub second_read :
      Again → Bytes → Bool → ℕ → WsReader → Side → Result Bytes × r.Inner → Chunk
  unfolding start_known
  second_read again mask free a st side (err kind, s) = refuse kind st s side
  second_read again mask free a st side (ok b, s) =
      start_known again mask free a (get_or b 0 0) st side s

  unfoldable pub first_read :
      Again → Bytes → Bool → WsReader → Side → Result Bytes × r.Inner → Chunk
  unfolding second_read
  first_read again mask free st side (err kind, s) = refuse kind st s side
  first_read again mask free st side (ok a, s) =
      second_read again mask free (get_or a 0 0) st side (r.read_exact s 1)

  -- `masks` are the writer's random masks, one for each round.
  unfoldable pub chunk_rounds : ℕ → (ℕ → Bytes) → Bool → ℕ → Again
  unfolding data_read first_read
  chunk_rounds zero masks free room st s side = (none, st, s, side)
  chunk_rounds (suc rounds) masks free room st s side =
      let again = chunk_rounds rounds masks free room in
      if ltb 0 st.remaining
      then data_read st side (r.read s (min room st.remaining))
      else first_read again (masks rounds) free st side (r.read_exact s 1)

  unfoldable pub chunk : (ℕ → Bytes) → Bool → ℕ → Again
  unfolding chunk_rounds
  chunk masks free room st s side =
      let read = chunk_rounds (length (r.unread s) + 1) masks free room st s side in
      if room == 0 then refuse ErrorKind.invalid_data st s side else read
