-- ===== src/Framing.antt =====
-- src/framing.rs: the length header of an MTProto packet in each of the three transports.
pub mod Lengths
pub mod Headers
mod Runs
use tg_ws_keenetic.Base.{
  ℕ, ◌+◌, ◌*◌, ◌%◌, ◌^◌, ◌||◌, Option, none, some, [], ◌∷◌, length, get_or, ltb, ◌==◌, not,
  if◌then◌else◌, Result, ok, err, ErrorKind,
}
use tg_ws_keenetic.Base.Bytes.{Bytes, from_le_u32}
use tg_ws_keenetic.Crypto.{Protocol, abridged}

abbrev pub max_packet_payload : ℕ
max_packet_payload = 16 * 1024 * 1024

unfoldable pub header_len : ℕ → Protocol → ℕ
header_len first abridged = if not (first % 128 == 0x7f) then 1 else 4
header_len first _ = 4

-- The length that a complete header of `header_size` bytes states.
unfoldable pub stated_length : Bytes → ℕ → Protocol → ℕ
stated_length header header_size abridged =
    if header_size == 1
    then get_or header 0 0 % 128 * 4
    else (get_or header 1 0 + get_or header 2 0 * 256 + get_or header 3 0 * 65536) * 4
stated_length header header_size _ =
    from_le_u32 (get_or header 0 0) (get_or header 1 0) (get_or header 2 0) (get_or header 3 0)
    % 2 ^ 31

unfoldable pub packet_length : Bytes → Protocol → Result (Option (ℕ × ℕ))
unfolding header_len stated_length
packet_length [] protocol = ok none
packet_length (first ∷ rest) protocol =
    let header = first ∷ rest in
    let header_size = header_len first protocol in
    let payload = stated_length header header_size protocol in
    if ltb (length header) header_size
    then ok none
    else if payload == 0 || ltb max_packet_payload payload
    then err ErrorKind.invalid_data
    else ok (some (header_size, payload))
