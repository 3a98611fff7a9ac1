-- ===== src/Framing/Headers.antt =====
-- The length headers that a client writes, read by `packet_length`.
use tg_ws_keenetic.Base.{
  ℕ, ◌+◌, ◌*◌, ◌/◌, ◌%◌, ◌^◌, ◌<◌, ◌≡◌, ◌||◌, some, [], ◌∷◌, ◌++◌, arith, ltb, ◌==◌, if◌then◌else◌,
  Bool-cases, inl, inr, length, ok, err, ErrorKind,
}
use tg_ws_keenetic.Base.Bytes.{Bytes}
use tg_ws_keenetic.Crypto.{Protocol, abridged, intermediate, padded_intermediate}
use tg_ws_keenetic.Framing.{packet_length}

-- MTProto's transports, with a bit that asks for a quick acknowledgement: a number of words in one
-- byte, or in three behind the byte 127; or four bytes with the number of bytes. The lowest byte of
-- a number stands first.
abbrev pub header : Protocol → ℕ → ℕ → Bytes
header abridged ack n =
    let words = n / 4 in
    if ltb words 127
    then (words + ack * 128) ∷ []
    else (127 + ack * 128) ∷ words % 256 ∷ words / 256 % 256 ∷ words / 65536 ∷ []
header _ ack n = n % 256 ∷ n / 256 % 256 ∷ n / 65536 % 256 ∷ (n / 16777216 + ack * 128) ∷ []

-- The lengths that a header can state.
abbrev pub Fits : Protocol → ℕ → Type 0
Fits abridged n = (n % 4 ≡ 0) × (n < 2 ^ 26)
Fits _ n = n < 2 ^ 31

-- A header of any transport, with the bit for a quick acknowledgement or without it, and whatever
-- follows it: `packet_length` answers the header's length and the length that it states, and an
-- error for no bytes and for more than 16 MiB.
pub packet_length-header :
    (protocol : Protocol) (ack n : ℕ) (rest : Bytes)
    → ack < 2
    → Fits protocol n
    → packet_length (header protocol ack n ++ rest) protocol ≡ (
        if (n == 0) || ltb (16 * 1024 * 1024) n
        then err ErrorKind.invalid_data
        else ok (some (length (header protocol ack n), n)))
unfolding packet_length
packet_length-header abridged ack n rest a (h, k) = elim (Bool-cases (ltb (n / 4) 127)) [
  | inl short ↦
      let e : (n / 4 + ack * 128) % 128 * 4 ≡ n = ground arith in simp short (ground (arith, e))
  | inr long ↦ simp long (ground arith)
]
packet_length-header intermediate ack n rest a h = ground arith
packet_length-header padded_intermediate ack n rest a h = ground arith
