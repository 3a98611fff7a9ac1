-- ===== src/Framing/Lengths.antt =====
-- What `packet_length` answers, on every header, complete or not.
use tg_ws_keenetic.Base.{
  ℕ, ◌+◌, ◌≤◌, ◌<◌, ◌≡◌, refl, ◌↔◌, ◌⊎◌, none, some, [], ◌∷◌, ◌++◌, arith, length, length-append,
  ok,
}
use tg_ws_keenetic.Base.Bytes.{Bytes}
use tg_ws_keenetic.Crypto.{Protocol, abridged, intermediate, padded_intermediate}
use tg_ws_keenetic.Framing.{header_len, packet_length, max_packet_payload}

-- `packet_length` asks for more bytes exactly while the header is shorter than `header_len` of its
-- first byte.
pub packet_length_waits :
    (first : ℕ) (rest : Bytes) (protocol : Protocol)
    → (packet_length (first ∷ rest) protocol ≡ ok none)
      ↔ (length (first ∷ rest) < header_len first protocol)
unfolding packet_length
packet_length_waits first rest protocol = (λ e. ground arith, λ h. ground arith)

-- A length that `packet_length` returns comes with the header length of the first byte, which the
-- header has, and is from 1 to 16 MiB.
pub packet_length_bounds :
    (first : ℕ) (rest : Bytes) (protocol : Protocol) (size payload : ℕ)
    → packet_length (first ∷ rest) protocol ≡ ok (some (size, payload))
    → (size ≡ header_len first protocol)
      × (size ≤ length (first ∷ rest))
      × (0 < payload)
      × (payload ≤ max_packet_payload)
unfolding packet_length
packet_length_bounds first rest protocol size payload e = ground arith

pub header_len_cases :
    (first : ℕ) (p : Protocol) → (header_len first p ≡ 1) ⊎ (header_len first p ≡ 4)
unfolding header_len
header_len_cases first p = ground arith

-- Once the header is complete, the bytes that follow it do not change the answer.
pub packet_length-append :
    (first : ℕ) (rest more : Bytes) (protocol : Protocol)
    → header_len first protocol ≤ length (first ∷ rest)
    → packet_length (first ∷ rest ++ more) protocol ≡ packet_length (first ∷ rest) protocol
unfolding packet_length
packet_length-append first (a ∷ b ∷ c ∷ rest) more p h = ground arith
packet_length-append first [] more p h = ground arith
packet_length-append first (a ∷ []) more p h = ground (arith, length-append (a ∷ []) more)
packet_length-append first (a ∷ b ∷ []) more p h = ground (arith, length-append (a ∷ b ∷ []) more)

-- A quick-ack bit, the top bit of the first byte of an abridged header and of the last byte of the
-- others, does not change the answer.
abbrev pub with_ack : Protocol → Bytes → Bytes
with_ack abridged (first ∷ rest) = (first + 128) ∷ rest
with_ack abridged [] = []
with_ack p (a ∷ b ∷ c ∷ d ∷ rest) = a ∷ b ∷ c ∷ (d + 128) ∷ rest
with_ack p header = header

pub packet_length-with_ack :
    (header : Bytes) (protocol : Protocol)
    → packet_length (with_ack protocol header) protocol ≡ packet_length header protocol
unfolding packet_length
packet_length-with_ack [] abridged = refl
packet_length-with_ack (a ∷ rest) abridged = ground arith
packet_length-with_ack [] intermediate = refl
packet_length-with_ack (a ∷ []) intermediate = refl
packet_length-with_ack (a ∷ b ∷ []) intermediate = refl
packet_length-with_ack (a ∷ b ∷ c ∷ []) intermediate = refl
packet_length-with_ack (a ∷ b ∷ c ∷ d ∷ rest) intermediate = ground arith
packet_length-with_ack [] padded_intermediate = refl
packet_length-with_ack (a ∷ []) padded_intermediate = refl
packet_length-with_ack (a ∷ b ∷ []) padded_intermediate = refl
packet_length-with_ack (a ∷ b ∷ c ∷ []) padded_intermediate = refl
packet_length-with_ack (a ∷ b ∷ c ∷ d ∷ rest) padded_intermediate = ground arith
