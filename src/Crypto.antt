-- ===== src/Crypto.antt =====
-- src/crypto.rs: the transports, the client's and the relay's 64-byte handshakes, and the four
-- cipher streams of a connection.
pub mod Stream
pub mod Handshakes
pub mod Context
mod Runs
use tg_ws_keenetic.Base.{
  ℕ, ◌+◌, ◌*◌, ◌≡◌, ◌<◌, Bool, ◌||◌, Option, none, some, List, [], ◌∷◌, ◌++◌, length, take, drop,
  get_or, replicate, ◌==◌, if◌then◌else◌, Result, ok, err, ErrorKind, bit_xor,
}
use tg_ws_keenetic.Base.Bytes.{Bytes, to_le_u16, bytes_eq}
use tg_ws_keenetic.Base.Int.{ℤ, i16_bits, i16_of_bits}
use mathlib.Core.List.{reverse}

pub data Protocol : Type 0 where
  abridged intermediate padded_intermediate : Protocol

unfoldable pub tag : Protocol → Bytes
tag abridged = 0xef ∷ 0xef ∷ 0xef ∷ 0xef ∷ []
tag intermediate = 0xee ∷ 0xee ∷ 0xee ∷ 0xee ∷ []
tag padded_intermediate = 0xdd ∷ 0xdd ∷ 0xdd ∷ 0xdd ∷ []

pub record ClientHandshake : Type 0 where
  pub dc_index : ℤ
  pub protocol : Protocol
  pub prekey_iv : Bytes

-- `data` with the key bytes from position `i` on applied to it.
abbrev pub xor_from : (ℕ → ℕ) → ℕ → Bytes → Bytes
xor_from key i [] = []
xor_from key i (b ∷ bs) = bit_xor b (key i) ∷ xor_from key (i + 1) bs

-- AES-256-CTR of the crates `aes` and `ctr`, and SHA-256 of `sha2`. A cipher is at a position of
-- its key stream; applying it to data combines the data with the key bytes from there on, and
-- moves the position by the length of the data.
pub record Primitives : Type 1 where
  pub AesCtr : Type 0
  pub new : Bytes → Bytes → AesCtr
  pub apply_keystream : AesCtr → Bytes → Bytes × AesCtr
  pub sha256 : Bytes → Bytes
  pub key_byte : AesCtr → ℕ → ℕ
  pub apply_combines :
      (c : AesCtr) (bs : Bytes) → (apply_keystream c bs).0 ≡ xor_from (key_byte c) 0 bs
  pub apply_moves :
      (c : AesCtr) (bs : Bytes) (i : ℕ)
      → key_byte ((apply_keystream c bs).1) i ≡ key_byte c (length bs + i)
  pub key_byte-IsByte : (c : AesCtr) (i : ℕ) → key_byte c i < 256

-- The transport that the four bytes at 56 name.
unfoldable pub protocol_of : Bytes → Option Protocol
unfolding tag
protocol_of t =
    if bytes_eq t (tag abridged)
    then some abridged
    else if bytes_eq t (tag intermediate)
    then some intermediate
    else if bytes_eq t (tag padded_intermediate)
    then some padded_intermediate
    else none

-- The prefixes that a relay handshake must not have: HTTP methods, transport tags and TLS.
unfoldable pub reserved : Bytes → Bool
reserved handshake =
    let start = take 4 handshake in
    (get_or handshake 0 0 == 0xef)
    || bytes_eq start (b'H' ∷ b'E' ∷ b'A' ∷ b'D' ∷ [])
    || bytes_eq start (b'P' ∷ b'O' ∷ b'S' ∷ b'T' ∷ [])
    || bytes_eq start (b'G' ∷ b'E' ∷ b'T' ∷ b' ' ∷ [])
    || bytes_eq start (b'O' ∷ b'P' ∷ b'T' ∷ b'I' ∷ [])
    || bytes_eq start (0xee ∷ 0xee ∷ 0xee ∷ 0xee ∷ [])
    || bytes_eq start (0xdd ∷ 0xdd ∷ 0xdd ∷ 0xdd ∷ [])
    || bytes_eq start (0x16 ∷ 0x03 ∷ 0x01 ∷ 0x02 ∷ [])
    || bytes_eq (take 4 (drop 4 handshake)) (replicate 4 0)

-- `OsRng.fill_bytes` until the block is not reserved. The blocks drawn are given; `none` means that
-- every one of them was reserved.
unfoldable pub draw_unreserved : List Bytes → Option Bytes
draw_unreserved [] = none
draw_unreserved (block ∷ blocks) =
    let again = draw_unreserved blocks in if reserved block then again else some block

-- The answer on the deciphered handshake.
unfoldable pub read_plain : Bytes → Bytes → Result ClientHandshake
read_plain prekey_iv plain = elim (protocol_of (take 4 (drop 56 plain))) [
  | none ↦ err ErrorKind.permission_denied
  | some protocol ↦ ok (record {
    dc_index = i16_of_bits (get_or plain 60 0 + get_or plain 61 0 * 256);
    protocol = protocol;
    prekey_iv = prekey_iv;
  })
]

module _ (p : Primitives) where
  open p use {AesCtr, new, apply_keystream, sha256}

  unfoldable pub secret_key : Bytes → Bytes → Bytes
  secret_key prekey secret = sha256 (prekey ++ secret)

  unfoldable pub parse_client_handshake : Bytes → Bytes → Result ClientHandshake
  parse_client_handshake handshake secret =
      let prekey_iv = take 48 (drop 8 handshake) in
      let key = secret_key (take 32 prekey_iv) secret in
      read_plain prekey_iv (apply_keystream (new key (drop 32 prekey_iv)) handshake).0

  -- The handshake with bytes 56 to 63 enciphered under the key that bytes 8 to 55 hold.
  unfoldable pub seal_relay_handshake : Bytes → Protocol → ℤ → Bytes
  unfolding tag
  seal_relay_handshake handshake protocol dc_index =
      let plaintext =
        take 56 handshake
        ++ (tag protocol ++ (to_le_u16 (i16_bits dc_index) ++ drop 62 handshake)) in
      let cipher = new (take 32 (drop 8 handshake)) (take 16 (drop 40 handshake)) in
      take 56 handshake ++ drop 56 (apply_keystream cipher plaintext).0

  unfoldable pub generate_relay_handshake : List Bytes → Protocol → ℤ → Option Bytes
  unfolding seal_relay_handshake
  generate_relay_handshake blocks protocol dc_index = elim (draw_unreserved blocks) [
    | none ↦ none
    | some handshake ↦ some (seal_relay_handshake handshake protocol dc_index)
  ]

  pub record CryptoContext : Type 0 where
    pub client_decrypt : AesCtr
    pub client_encrypt : AesCtr
    pub upstream_encrypt : AesCtr
    pub upstream_decrypt : AesCtr

  unfoldable pub build_context : ClientHandshake → Bytes → Bytes → CryptoContext
  unfolding secret_key
  build_context client secret relay_handshake =
      let reversed = reverse client.prekey_iv in
      let relay_reversed = reverse (take 48 (drop 8 relay_handshake)) in
      let skipped = replicate 64 0 in
      record {
        client_decrypt =
            (apply_keystream
              (new (secret_key (take 32 client.prekey_iv) secret) (drop 32 client.prekey_iv))
              skipped).1;
        client_encrypt = new (secret_key (take 32 reversed) secret) (drop 32 reversed);
        upstream_encrypt =
            (apply_keystream
              (new (take 32 (drop 8 relay_handshake)) (take 16 (drop 40 relay_handshake)))
              skipped).1;
        upstream_decrypt = new (take 32 relay_reversed) (drop 32 relay_reversed);
      }
