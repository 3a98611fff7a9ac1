-- ===== src/Proxy/Uploads.antt =====
-- `upload_ws` of `src/proxy.rs`: the client's data for the WebSocket, one frame for what each read
-- delivers or, where the other side asks for it, one frame for each MTProto packet.
-- The writer is this direction's alone from the beginning of a frame to its end, as under its lock;
-- control frames that the other direction writes between two frames are not modelled here.
pub mod Bodies
pub mod Frames
pub mod Headers
pub mod Packets
use tg_ws_keenetic.Base.{
  ℕ, zero, suc, ◌+◌, ◌-◌, ◌*◌, ◌/◌, ◌%◌, ◌^◌, ◌≤◌, ◌<◌, min, max, bit_xor, ◌≡◌, refl, sym, ap, ◌∙◌,
  ◌≢◌, ◌↔◌, ◌⊎◌, inl, inr, Bool, true, false, not, ◌&&◌, ◌||◌, Option, none, some, List, [], ◌∷◌,
  ◌++◌, append_assoc, append-nil, arith, ltb, leb, ◌==◌, if◌then◌else◌, ltb→lt, lt→ltb, leb→le,
  ==_iff, tests, Bool-cases, and-true, either, not-true, or-false, Option-cases, some_inj, length,
  get_elem?, get_or, take, drop, replicate, All, length-append, length-take, length-drop,
  length-replicate, take-append-drop, take_at, drop_at, take-append, slice-append, slice-take,
  get_or-drop, get_or-append, take_all, drop_all, drop_nil, drop-drop, Result, ok, err, ErrorKind,
  ◌>>=◌, ◌>>◌, reject, ok_inj,
}
use tg_ws_keenetic.Base.Bytes.{
  Bytes, IsByte, to_le_u16, to_be_u16, to_le_u32, from_le_u32, bytes_eq, bytes_eq→eq, bytes_eq_refl,
  bytes_eq_iff,
}
use mathlib.Core.Path.{subst, ap₂}
use tg_ws_keenetic.Base.Wires.{Reader, Writer}
use tg_ws_keenetic.Crypto.{
  Primitives, Protocol, xor_from, CryptoContext, build_context, ClientHandshake, secret_key,
}
use tg_ws_keenetic.Crypto.Stream.{
  xor_from_cancel, xor_from_shift, xor_from-append, length-xor_from, length-apply_keystream,
  apply_keystream-append,
}
use tg_ws_keenetic.Framing.{header_len, packet_length}
use tg_ws_keenetic.WebSocket.Writer.{WsWriter, Outcome, begin_binary, payload, binary}
use tg_ws_keenetic.Proxy.Bridges.{Ciphers, recode}

module _ (p : Primitives) where
  -- `decrypt.apply_keystream(..)` alone, and `encrypt.apply_keystream(..)` with what is counted.
  unfoldable pub decipher : Bytes → Ciphers p → Bytes × Ciphers p
  decipher bs c =
      let (plain, decrypt) = p.apply_keystream c.decrypt bs in
      (plain, record c { decrypt = decrypt })

  unfoldable pub encipher : Bytes → Ciphers p → Bytes × Ciphers p
  encipher bs c =
      let (coded, encrypt) = p.apply_keystream c.encrypt bs in
      (coded, record c { encrypt = encrypt; counted = c.counted + length bs })

module _ (p : Primitives) (r : Reader) (w : Writer) where
  pub record Upload : Type 0 where
    pub source : r.Inner
    pub writer : WsWriter
    pub sink : w.Inner
    pub ciphers : Ciphers p

  -- The answer, `none` when the rounds are used up, and the state.
  abbrev pub Uploaded : Type 0
  Uploaded = Option (Result (Unit {0})) × Upload

  abbrev pub Again : Type 0
  Again = Upload → Uploaded

  -- What follows an operation on the writer, where that goes well.
  unfoldable pub after_writer : Again → Upload → Outcome w → Uploaded
  after_writer again u (err kind, ws, t) = (some (err kind), record u { writer = ws; sink = t })
  after_writer again u (ok _, ws, t) = again (record u { writer = ws; sink = t })

  -- Without packets: each read is a frame.
  unfoldable pub after_read : Bytes → Again → Upload → Result Bytes × r.Inner → Uploaded
  unfolding after_writer recode
  after_read mask again u (err kind, s) = (some (err kind), record u { source = s })
  after_read mask again u (ok [], s) = (some (ok tt), record u { source = s })
  after_read mask again u (ok (b ∷ bs), s) =
      let (coded, ciphers) = recode p (b ∷ bs) u.ciphers in
      after_writer again (record u { source = s; ciphers = ciphers })
        (binary w mask coded u.writer u.sink)

  -- The body of a packet, of which so many bytes remain.
  unfoldable pub body_part_read : (ℕ → Again) → ℕ → Upload → Result Bytes × r.Inner → Uploaded
  unfolding after_writer recode
  body_part_read again remaining u (err kind, s) = (some (err kind), record u { source = s })
  body_part_read again remaining u (ok [], s) =
      (some (err ErrorKind.unexpected_eof), record u { source = s })
  body_part_read again remaining u (ok (b ∷ bs), s) =
      let (coded, ciphers) = recode p (b ∷ bs) u.ciphers in
      after_writer (again (remaining - length (b ∷ bs)))
        (record u { source = s; ciphers = ciphers }) (payload w coded u.writer u.sink)

  unfoldable pub body_rounds : ℕ → ℕ → Again → ℕ → Again
  unfolding body_part_read
  body_rounds zero buffer_size next remaining u = if remaining == 0 then next u else (none, u)
  body_rounds (suc rounds) buffer_size next remaining u =
      let rest =
        body_part_read (body_rounds rounds buffer_size next) remaining u
          (r.read u.source (min remaining buffer_size)) in
      if remaining == 0 then next u else rest

  -- The header is deciphered and states so many bytes of body: the frame begins with the header.
  unfoldable pub send_header : ℕ → Again → Bytes → ℕ → Again
  unfolding after_writer encipher body_rounds
  send_header buffer_size next header remaining u =
      let (coded, ciphers) = encipher p header u.ciphers in
      after_writer (body_rounds remaining buffer_size next remaining)
        (record u { ciphers = ciphers }) (payload w coded u.writer u.sink)

  unfoldable pub after_length :
      Bytes → ℕ → Again → Bytes → Upload → Result (Option (ℕ × ℕ)) → Uploaded
  unfolding send_header after_writer
  after_length mask buffer_size next header u (err kind) = (some (err kind), u)
  after_length mask buffer_size next header u (ok none) = (some (err ErrorKind.invalid_data), u)
  after_length mask buffer_size next header u (ok (some (_, remaining))) =
      after_writer (send_header buffer_size next header remaining) u
        (begin_binary w mask (length header + remaining) u.writer u.sink)

  unfoldable pub header_read :
      Bytes → ℕ → Protocol → Again → Bytes → Upload → Result Bytes × r.Inner → Uploaded
  unfolding after_length decipher
  header_read mask buffer_size protocol next first u (err kind, s) =
      (some (err kind), record u { source = s })
  header_read mask buffer_size protocol next first u (ok bs, s) =
      let (more, ciphers) = decipher p bs u.ciphers in
      after_length mask buffer_size next (first ++ more)
        (record u { source = s; ciphers = ciphers }) (packet_length (first ++ more) protocol)

  -- The first byte of a packet was read; the rest of its header is read where it has more.
  unfoldable pub first_byte_read :
      Bytes → ℕ → Protocol → Again → Upload → Result Bytes × r.Inner → Uploaded
  unfolding header_read after_length decipher
  first_byte_read mask buffer_size protocol next u (err kind, s) =
      (some (err kind), record u { source = s })
  first_byte_read mask buffer_size protocol next u (ok [], s) =
      (some (ok tt), record u { source = s })
  first_byte_read mask buffer_size protocol next u (ok (b ∷ bs), s) =
      let (first, ciphers) = decipher p (b ∷ []) u.ciphers in
      let begun : Upload = record u { source = s; ciphers = ciphers } in
      let size = header_len (get_or first 0 0) protocol in
      let longer =
        header_read mask buffer_size protocol next first begun (r.read_exact s (size - 1)) in
      let short = after_length mask buffer_size next first begun (packet_length first protocol) in
      if ltb 1 size then longer else short

  -- `masks` are the random masks of the frames.
  unfoldable pub upload_rounds : ℕ → (ℕ → Bytes) → Protocol → Bool → ℕ → Again
  unfolding after_read first_byte_read
  upload_rounds zero masks protocol packetized buffer_size u = (none, u)
  upload_rounds (suc rounds) masks protocol packetized buffer_size u =
      let again = upload_rounds rounds masks protocol packetized buffer_size in
      let raw = after_read (masks rounds) again u (r.read u.source buffer_size) in
      let packet =
        first_byte_read (masks rounds) buffer_size protocol again u (r.read u.source 1) in
      if not packetized then raw else packet

  unfoldable pub upload_ws : (ℕ → Bytes) → Protocol → Bool → ℕ → Again
  unfolding upload_rounds
  upload_ws masks protocol packetized buffer_size u =
      upload_rounds (length (r.unread u.source) + 1) masks protocol packetized buffer_size u
