-- ===== src/H2/Packets.antt =====
-- `src/cf_h2.rs`: packets from the native client into HTTP bodies (`read_packet`,
-- `strip_padded_body`) and replies back to it (`write_encrypted_reply`).
-- The random bytes of a padded reply are an argument, and so is the answer of the reservation.
pub mod Padding
pub mod Replies
pub mod Requests
mod Runs
use tg_ws_keenetic.Base.{
  ℕ, zero, suc, ◌+◌, ◌-◌, ◌*◌, ◌/◌, ◌%◌, ◌&&◌, ◌||◌, not, Option, none, some, List, [], ◌∷◌, ◌++◌,
  ltb, leb, ◌==◌, if◌then◌else◌, length, get_or, take, drop, replicate, max, min, Result, ok, err,
  ErrorKind, ◌>>=◌, ◌>>◌, reject,
}
use tg_ws_keenetic.Base.Bytes.{Bytes, to_le_u32, from_le_u32, bytes_eq}
use tg_ws_keenetic.Base.Wires.{Reader, Writer}
use tg_ws_keenetic.Crypto.{Protocol, abridged, intermediate, padded_intermediate, Primitives}
use tg_ws_keenetic.Framing.{header_len, packet_length}
use tg_ws_keenetic.H2.Budget.{checked_add}

abbrev pub max_packet : ℕ
max_packet = 4 * 1024 * 1024

abbrev pub max_plain_padding : ℕ
max_plain_padding = 256

abbrev pub max_encrypted_padding : ℕ
max_encrypted_padding = 15

abbrev pub max_padded_packet : ℕ
max_padded_packet = max_packet + max_plain_padding

-- The length of the packet in a padded body, and the padding that it may have.
unfoldable pub padded_length : ℕ → Bytes → Result (ℕ × ℕ)
padded_length usize_max body =
    if bytes_eq (take 8 body) (replicate 8 0)
    then (reject (ltb (length body) 20) ErrorKind.invalid_data
        >> elim (checked_add usize_max 20 (
            from_le_u32 (get_or body 16 0) (get_or body 17 0) (get_or body 18 0)
              (get_or body 19 0))) [
                | none ↦ err ErrorKind.invalid_data
                | some n ↦ ok (n, max_plain_padding)
              ])
    else ok (24 + (length body - 24) / 16 * 16, max_encrypted_padding)

unfoldable pub cut_padding : Bytes → ℕ × ℕ → Result Bytes
cut_padding body (packet_length, max_padding) =
    reject
      (ltb packet_length 24
        || ltb (length body) packet_length
        || ltb max_padding (length body - packet_length))
      ErrorKind.invalid_data
    >> ok (take packet_length body)

unfoldable pub strip_padded_body : ℕ → Bytes → Result Bytes
unfolding padded_length cut_padding
strip_padded_body usize_max body =
    reject (ltb (length body) 24) ErrorKind.invalid_data
    >> (padded_length usize_max body >>= cut_padding body)

-- The prefix of a reply and its padding.
unfoldable pub reply_frame : Protocol → ℕ → Bytes → Result (Bytes × Bytes)
reply_frame abridged n random =
    let words = n / 4 in
    if ltb words 0x7f
    then ok (words ∷ [], [])
    else if leb words 0xffffff
    then ok (0x7f ∷ take 3 (to_le_u32 words), [])
    else err ErrorKind.invalid_data
reply_frame intermediate n random = ok (to_le_u32 n, [])
reply_frame padded_intermediate n random =
    let padding_length = get_or random 0 0 % 16 in
    ok (to_le_u32 (n + padding_length), take padding_length (drop 1 random))

unfoldable pub checked_frame : Protocol → ℕ → Bytes → Result (Bytes × Bytes)
unfolding reply_frame
checked_frame protocol n random =
    reject ((n == 0) || ltb max_packet n || not (n % 4 == 0)) ErrorKind.invalid_data
    >> reply_frame protocol n random

-- `chunks(size)`, on fuel.
unfoldable pub chunks_from : ℕ → ℕ → Bytes → List Bytes
chunks_from zero size bs = []
chunks_from (suc fuel) size [] = []
chunks_from (suc fuel) size (b ∷ bs) =
    take size (b ∷ bs) ∷ chunks_from fuel size (drop size (b ∷ bs))

-- A chunk takes at least one byte, so the length is enough.
abbrev pub chunks : ℕ → Bytes → List Bytes
chunks size bs = chunks_from (length bs) size bs

abbrev pub chunked : ℕ → List Bytes → List Bytes
chunked size [] = []
chunked size (part ∷ parts) = chunks size part ++ chunked size parts

module _ (p : Primitives) (w : Writer) where
  open p use {AesCtr, apply_keystream}
  open w use {Inner, write_all, flush}

  abbrev pub Sent : Type 0
  Sent = Result (Unit {0}) × AesCtr × Inner

  unfoldable pub send_piece : Bytes → Sent → Sent
  send_piece piece (err e, c, s) = (err e, c, s)
  send_piece piece (ok _, c, s) =
      let (encrypted, c') = apply_keystream c piece in
      let (answer, s') = write_all s encrypted in (answer, c', s')

  unfoldable pub send_pieces : List Bytes → Sent → Sent
  unfolding send_piece
  send_pieces [] o = o
  send_pieces (piece ∷ pieces) o = send_pieces pieces (send_piece piece o)

  unfoldable pub send_padding : Bytes → Sent → Sent
  unfolding send_piece
  send_padding padding o = if ltb 0 (length padding) then send_piece padding o else o

  unfoldable pub flush_sent : Sent → Sent
  flush_sent (err e, c, s) = (err e, c, s)
  flush_sent (ok _, c, s) = let (answer, s') = flush s in (answer, c, s')

  unfoldable pub send_framed : ℕ → List Bytes → AesCtr → Inner → Bytes × Bytes → Sent
  unfolding send_piece send_pieces send_padding flush_sent
  send_framed chunk_size parts c s (prefix, padding) = flush_sent (
      send_padding padding
        (send_pieces (chunked chunk_size parts) (send_piece prefix (ok tt, c, s))))

  unfoldable pub after_frame : ℕ → List Bytes → AesCtr → Inner → Result (Bytes × Bytes) → Sent
  unfolding send_framed
  after_frame chunk_size parts c s (err e) = (err e, c, s)
  after_frame chunk_size parts c s (ok frame) = send_framed chunk_size parts c s frame

  unfoldable pub write_encrypted_reply :
      ℕ → List Bytes → Protocol → ℕ → Bytes → AesCtr → Inner → Sent
  unfolding after_frame checked_frame
  write_encrypted_reply body_length parts protocol buffer_size random c s =
      after_frame (min (max buffer_size 1) body_length) parts c s
        (checked_frame protocol body_length random)

abbrev pub maximum : Protocol → ℕ
maximum padded_intermediate = max_padded_packet
maximum _ = max_packet

unfoldable pub checked_body : Bytes → Result Bytes
checked_body body =
    reject (ltb max_packet (length body) || not (length body % 4 == 0)) ErrorKind.invalid_data
    >> ok body

unfoldable pub body_of : ℕ → Protocol → Bytes → Result Bytes
unfolding strip_padded_body checked_body
body_of usize_max padded_intermediate plain = strip_padded_body usize_max plain >>= checked_body
body_of usize_max _ plain = checked_body plain

module _ (p : Primitives) (r : Reader) where
  open p use {AesCtr, apply_keystream}
  open r use {Inner, read_exact}

  abbrev pub Received {ℓ} : Type ℓ → Type ℓ
  Received A = Result A × AesCtr × Inner

  unfoldable pub deciphered : AesCtr → Result Bytes × Inner → Received Bytes
  deciphered c (err e, s) = (err e, c, s)
  deciphered c (ok d, s) = let (plain, c') = apply_keystream c d in (ok plain, c', s)

  -- Read so many bytes and decipher them.
  unfoldable pub receive : ℕ → AesCtr → Inner → Received Bytes
  unfolding deciphered
  receive n c s = deciphered c (read_exact s n)

-- `read_packet` with the reservation's answer on each length as an argument.
module _ (p : Primitives) (r : Reader) {C : Type 0} (reserve : ℕ → Result C) (usize_max : ℕ) where
  open p use {AesCtr}
  open r use {Inner}

  abbrev pub beside : C → Bytes → Result (Bytes × C)
  beside capacity body = ok (body, capacity)

  abbrev pub of_length : ℕ → C → Result (ℕ × C)
  of_length n capacity = ok (n, capacity)

  unfoldable pub after_body_read : Protocol → C → Received p r Bytes → Received p r (Bytes × C)
  unfolding body_of
  after_body_read protocol capacity (err e, c, s) = (err e, c, s)
  after_body_read protocol capacity (ok plain, c, s) =
      (body_of usize_max protocol plain >>= beside capacity, c, s)

  unfoldable pub admit_length : Protocol → Option (ℕ × ℕ) → Result (ℕ × C)
  admit_length protocol none = err ErrorKind.unexpected_eof
  admit_length protocol (some (size, n)) =
      reject (ltb n 24 || ltb (maximum protocol) n) ErrorKind.invalid_data
      >> (reserve n >>= of_length n)

  -- The length that the header states, within the bounds, with its reservation.
  unfoldable pub admitted_length : Protocol → Bytes → Result (ℕ × C)
  unfolding admit_length
  admitted_length protocol header = packet_length header protocol >>= admit_length protocol

  unfoldable pub read_body : Protocol → AesCtr → Inner → Result (ℕ × C) → Received p r (Bytes × C)
  unfolding receive after_body_read
  read_body protocol c s (err e) = (err e, c, s)
  read_body protocol c s (ok (n, capacity)) = after_body_read protocol capacity (receive p r n c s)

  unfoldable pub after_rest : Protocol → Bytes → Received p r Bytes → Received p r (Bytes × C)
  unfolding read_body admitted_length
  after_rest protocol first (err e, c, s) = (err e, c, s)
  after_rest protocol first (ok rest, c, s) =
      read_body protocol c s (admitted_length protocol (first ++ rest))

  unfoldable pub after_first : Protocol → Received p r Bytes → Received p r (Bytes × C)
  unfolding after_rest receive read_body admitted_length
  after_first protocol (err e, c, s) = (err e, c, s)
  after_first protocol (ok first, c, s) =
      let n = header_len (get_or first 0 0) protocol in
      let longer = after_rest protocol first (receive p r (n - 1) c s) in
      let short = read_body protocol c s (admitted_length protocol first) in
      if ltb 1 n then longer else short

  unfoldable pub read_packet : Protocol → AesCtr → Inner → Received p r (Bytes × C)
  unfolding after_first receive
  read_packet protocol c s = after_first protocol (receive p r 1 c s)
