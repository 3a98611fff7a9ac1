-- ===== src/Proxy/Bridges.antt =====
-- `copy_crypto`, `copy_plain` and `download_ws` of `src/proxy.rs`: one direction of a bridge, which
-- deciphers what it reads and enciphers it for the other side. A timeout around a write shows as an
-- error of it; the rounds of a loop are those that the bytes to come can fill, and one.
pub mod Streams
mod Runs
pub mod Copies
pub mod Downloads
use tg_ws_keenetic.Base.{
  ℕ, zero, suc, ◌+◌, ◌-◌, ◌*◌, ◌/◌, ◌%◌, ◌^◌, ◌≤◌, ◌<◌, min, max, bit_xor, ◌≡◌, refl, sym, ap, ◌∙◌,
  ◌≢◌, ◌↔◌, ◌⊎◌, inl, inr, Bool, true, false, not, ◌&&◌, ◌||◌, Option, none, some, List, [], ◌∷◌,
  ◌++◌, append_assoc, append-nil, arith, ltb, leb, ◌==◌, if◌then◌else◌, ltb→lt, lt→ltb, leb→le,
  ==_iff, tests, Bool-cases, and-true, either, not-true, or-false, Option-cases, some_inj, length,
  get_elem?, get_or, take, drop, replicate, All, length-append, length-take, length-drop,
  length-replicate, take-append-drop, take_at, drop_at, take-append, slice-append, slice-take,
  get_or-drop, get_or-append, take_all, drop_all, drop_nil, drop-drop, Result, ok, err, ErrorKind,
  ◌>>=◌, ◌>>◌, reject, ok_inj,
}
use tg_ws_keenetic.Base.Bytes.{
  Bytes, IsByte, to_le_u16, to_be_u16, to_le_u32, from_le_u32, bytes_eq, bytes_eq→eq, bytes_eq_refl,
  bytes_eq_iff,
}
use mathlib.Core.Path.{subst, ap₂}
use tg_ws_keenetic.Base.Wires.{Reader, Writer}
use tg_ws_keenetic.Crypto.{
  Primitives, Protocol, xor_from, CryptoContext, build_context, ClientHandshake, secret_key,
}
use tg_ws_keenetic.Crypto.Stream.{
  xor_from_cancel, xor_from_shift, xor_from-append, length-xor_from, length-apply_keystream,
  apply_keystream-append,
}
use tg_ws_keenetic.WebSocket.Reader.{WsReader, Side, Chunk, chunk}

module _ (p : Primitives) where
  open p use {AesCtr, apply_keystream}

  -- The two ciphers of a direction, and the bytes that `stats` was told of.
  pub record Ciphers : Type 0 where
    pub decrypt : AesCtr
    pub encrypt : AesCtr
    pub counted : ℕ

  -- `decrypt.apply_keystream(..)`, `encrypt.apply_keystream(..)` and `stats.add_up(n)` or `add_down`.
  unfoldable pub recode : Bytes → Ciphers → Bytes × Ciphers
  recode bs c =
      let (plain, decrypt) = apply_keystream c.decrypt bs in
      let (coded, encrypt) = apply_keystream c.encrypt plain in
      (coded, record { decrypt = decrypt; encrypt = encrypt; counted = c.counted + length bs })

module _ (w : Writer) where
  unfoldable pub then_flush : Result (Unit {0}) × w.Inner → Result (Unit {0}) × w.Inner
  then_flush (err kind, t) = (err kind, t)
  then_flush (ok _, t) = w.flush t

  -- `write_all` and `flush`.
  unfoldable pub write_flush : w.Inner → Bytes → Result (Unit {0}) × w.Inner
  unfolding then_flush
  write_flush t bs = then_flush (w.write_all t bs)

module _ (p : Primitives) (r : Reader) (w : Writer) where
  -- The answer, `none` when the rounds are used up, and what became of the two sides.
  abbrev pub Copied : Type 0
  Copied = Option (Result (Unit {0})) × r.Inner × w.Inner × Ciphers p

  abbrev pub Again : Type 0
  Again = r.Inner → w.Inner → Ciphers p → Copied

  unfoldable pub after_sent : Again → r.Inner → Ciphers p → Result (Unit {0}) × w.Inner → Copied
  after_sent again s c (err kind, t) = (some (err kind), s, t, c)
  after_sent again s c (ok _, t) = again s t c

  unfoldable pub after_read : Again → w.Inner → Ciphers p → Result Bytes × r.Inner → Copied
  unfolding after_sent recode write_flush
  after_read again t c (err kind, s) = (some (err kind), s, t, c)
  after_read again t c (ok [], s) = (some (ok tt), s, t, c)
  after_read again t c (ok (b ∷ bs), s) =
      let (coded, c') = recode p (b ∷ bs) c in after_sent again s c' (write_flush w t coded)

  unfoldable pub copy_rounds : ℕ → ℕ → Again
  unfolding after_read
  copy_rounds zero buffer_size s t c = (none, s, t, c)
  copy_rounds (suc rounds) buffer_size s t c =
      after_read (copy_rounds rounds buffer_size) t c (r.read s buffer_size)

  unfoldable pub copy_crypto : ℕ → Again
  unfolding copy_rounds
  copy_crypto buffer_size s t c = copy_rounds (length (r.unread s) + 1) buffer_size s t c

  -- `copy_plain`, between a client that is not let in and the host that it is shown.
  abbrev pub Passed : Type 0
  Passed = Option (Result (Unit {0})) × r.Inner × w.Inner

  unfoldable pub after_passed :
      (r.Inner → w.Inner → Passed) → r.Inner → Result (Unit {0}) × w.Inner → Passed
  after_passed again s (err kind, t) = (some (err kind), s, t)
  after_passed again s (ok _, t) = again s t

  unfoldable pub after_plain_read :
      (r.Inner → w.Inner → Passed) → w.Inner → Result Bytes × r.Inner → Passed
  unfolding after_passed write_flush
  after_plain_read again t (err kind, s) = (some (err kind), s, t)
  after_plain_read again t (ok [], s) = (some (ok tt), s, t)
  after_plain_read again t (ok (b ∷ bs), s) = after_passed again s (write_flush w t (b ∷ bs))

  unfoldable pub plain_rounds : ℕ → ℕ → r.Inner → w.Inner → Passed
  unfolding after_plain_read
  plain_rounds zero buffer_size s t = (none, s, t)
  plain_rounds (suc rounds) buffer_size s t =
      after_plain_read (plain_rounds rounds buffer_size) t (r.read s buffer_size)

  unfoldable pub copy_plain : ℕ → r.Inner → w.Inner → Passed
  unfolding plain_rounds
  copy_plain buffer_size s t = plain_rounds (length (r.unread s) + 1) buffer_size s t

-- `download_ws`: `v` is the stream behind the WebSocket writer, which answers pings, and `w` the
-- client's.
module _ (p : Primitives) (r : Reader) (v w : Writer) where
  pub record Download : Type 0 where
    pub reader : WsReader
    pub source : r.Inner
    pub side : Side r v
    pub client : w.Inner
    pub ciphers : Ciphers p

  abbrev pub Downloaded : Type 0
  Downloaded = Option (Result (Unit {0})) × Download

  unfoldable pub after_client_write :
      (Download → Downloaded) → Download → Result (Unit {0}) × w.Inner → Downloaded
  after_client_write again d (err kind, t) = (some (err kind), record d { client = t })
  after_client_write again d (ok _, t) = again (record d { client = t })

  unfoldable pub after_chunk : (Download → Downloaded) → Download → Chunk r v → Downloaded
  unfolding after_client_write recode write_flush
  after_chunk again d (none, reader, source, side) =
      (none, record d { reader = reader; source = source; side = side })
  after_chunk again d (some (err kind), reader, source, side) =
      (some (err kind), record d { reader = reader; source = source; side = side })
  after_chunk again d (some (ok []), reader, source, side) =
      (some (ok tt), record d { reader = reader; source = source; side = side })
  after_chunk again d (some (ok (b ∷ bs)), reader, source, side) =
      let (coded, ciphers) = recode p (b ∷ bs) d.ciphers in
      after_client_write again
        (record d { reader = reader; source = source; side = side; ciphers = ciphers })
        (write_flush w d.client coded)

  -- `masks` and `free` of each round are those of `chunk`.
  unfoldable pub download_rounds : ℕ → (ℕ → ℕ → Bytes) → (ℕ → Bool) → ℕ → Download → Downloaded
  unfolding after_chunk
  download_rounds zero masks free buffer_size d = (none, d)
  download_rounds (suc rounds) masks free buffer_size d =
      after_chunk (download_rounds rounds masks free buffer_size) d
        (chunk r v (masks rounds) (free rounds) buffer_size d.reader d.source d.side)

  unfoldable pub download_ws : (ℕ → ℕ → Bytes) → (ℕ → Bool) → ℕ → Download → Downloaded
  unfolding download_rounds
  download_ws masks free buffer_size d =
      download_rounds (length (r.unread d.source) + 1) masks free buffer_size d
