-- ===== src/WebSocket/Writer.antt =====
-- `WsWriter`: masked frames whose payload is written in parts.
use tg_ws_keenetic.Base.{
  ℕ, ◌+◌, ◌-◌, ◌*◌, ◌/◌, ◌%◌, ◌^◌, ◌||◌, not, [], ◌∷◌, ◌++◌, ltb, leb, ◌==◌, if◌then◌else◌, length,
  get_or, Result, ok, err, ErrorKind,
}
use tg_ws_keenetic.Base.Bytes.{Bytes, to_be_u16}
use tg_ws_keenetic.Base.Wires.{Writer}
use tg_ws_keenetic.Crypto.{xor_from}

abbrev pub max_message : ℕ
max_message = 16 * 1024 * 1024 + 4

pub record WsWriter : Type 0 where
  pub remaining : ℕ
  pub mask : Bytes
  pub offset : ℕ

abbrev pub to_be_u64 : ℕ → Bytes
to_be_u64 x =
    x / 2 ^ 56 % 256
    ∷ x / 2 ^ 48 % 256
    ∷ x / 2 ^ 40 % 256
    ∷ x / 2 ^ 32 % 256
    ∷ x / 2 ^ 24 % 256
    ∷ x / 2 ^ 16 % 256
    ∷ x / 2 ^ 8 % 256
    ∷ x % 256
    ∷ []

-- The header before the mask. `0x80 | n` is `128 + n` for `n` below 128.
unfoldable pub frame_header : ℕ → ℕ → Bytes
frame_header opcode length =
    if ltb length 126
    then (0x80 + opcode) ∷ (0x80 + length) ∷ []
    else if leb length 65535
    then (0x80 + opcode) ∷ (0x80 + 126) ∷ to_be_u16 length
    else (0x80 + opcode) ∷ (0x80 + 127) ∷ to_be_u64 length

-- `mask[(offset + i) & 3]` for the byte `i` of the data.
abbrev pub masked : Bytes → ℕ → Bytes → Bytes
masked mask offset bs = xor_from (λ i. get_or mask (i % 4) 0) offset bs

module _ (w : Writer) where
  open w use {Inner, write_all, flush}

  abbrev pub Outcome : Type 0
  Outcome = Result (Unit {0}) × WsWriter × Inner

  unfoldable pub began : ℕ → WsWriter → Result (Unit {0}) × Inner → Outcome
  began length ws (err e, s) = (err e, ws, s)
  began length ws (ok _, s) = (ok tt, record ws { remaining = length }, s)

  -- `begin`, with the four bytes that the random generator gives for the mask.
  unfoldable pub begin : Bytes → ℕ → ℕ → WsWriter → Inner → Outcome
  unfolding frame_header began
  begin random opcode length ws s =
      let fresh : WsWriter = record ws { mask = random; offset = 0 } in
      let started = began length fresh (write_all s (frame_header opcode length ++ random)) in
      if not (ws.remaining == 0) || ltb max_message length
      then (err ErrorKind.invalid_data, ws, s)
      else started

  unfoldable pub begin_binary : Bytes → ℕ → WsWriter → Inner → Outcome
  unfolding begin
  begin_binary random length ws s = begin random 2 length ws s

  unfoldable pub flushed : WsWriter → Inner → Outcome
  flushed ws s =
      let (answer, s') = flush s in if ws.remaining == 0 then (answer, ws, s') else (ok tt, ws, s)

  unfoldable pub after_payload : ℕ → WsWriter → Result (Unit {0}) × Inner → Outcome
  unfolding flushed
  after_payload n ws (err e, s) = (err e, ws, s)
  after_payload n ws (ok _, s) =
      flushed (record ws { offset = ws.offset + n; remaining = ws.remaining - n }) s

  unfoldable pub payload : Bytes → WsWriter → Inner → Outcome
  unfolding after_payload
  payload bs ws s =
      let sent = after_payload (length bs) ws (write_all s (masked ws.mask ws.offset bs)) in
      if ltb ws.remaining (length bs) then (err ErrorKind.invalid_data, ws, s) else sent

  unfoldable pub then_payload : Bytes → Outcome → Outcome
  unfolding payload
  then_payload bs (err e, ws, s) = (err e, ws, s)
  then_payload bs (ok _, ws, s) = payload bs ws s

  unfoldable pub binary : Bytes → Bytes → WsWriter → Inner → Outcome
  unfolding begin_binary then_payload
  binary random bs ws s = then_payload bs (begin_binary random (length bs) ws s)

  unfoldable pub control : Bytes → ℕ → Bytes → WsWriter → Inner → Outcome
  unfolding begin then_payload
  control random opcode bs ws s =
      let sent = then_payload bs (begin random opcode (length bs) ws s) in
      if ltb 125 (length bs) then (err ErrorKind.invalid_data, ws, s) else sent
