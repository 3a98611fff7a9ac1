-- ===== src/H2/Packets/Runs.antt =====
-- Runs of the packets' paths and the theorems at concrete inputs.
use tg_ws_keenetic.Base.{ℕ, ◌+◌, ◌%◌, ◌≡◌, refl, List, [], ◌∷◌, ◌++◌, arith, replicate, Result, ok}
use tg_ws_keenetic.Base.Bytes.{Bytes}
use tg_ws_keenetic.Memory.{kept, text, toy, exact}
use tg_ws_keenetic.Crypto.{xor_from, abridged, padded_intermediate}
use tg_ws_keenetic.Framing.{header_len, packet_length}
use tg_ws_keenetic.H2.Packets.{chunks_from, write_encrypted_reply, read_packet}
use tg_ws_keenetic.H2.Packets.Replies.{joined, IsReply, write_encrypted_reply-IsReply}
use tg_ws_keenetic.H2.Packets.Requests.{IsPacket, read_packet-IsPacket}

abbrev encrypted_packet : Bytes
encrypted_packet = replicate 40 1

abbrev plain_packet : Bytes
plain_packet = replicate 8 0 ++ (replicate 8 5 ++ (4 ∷ 0 ∷ 0 ∷ 0 ∷ 9 ∷ 9 ∷ 9 ∷ 9 ∷ []))

abbrev reply_parts : List Bytes
reply_parts = (1 ∷ 2 ∷ 3 ∷ []) ∷ (4 ∷ 5 ∷ 6 ∷ 7 ∷ 8 ∷ []) ∷ []

abbrev random_bytes : Bytes
random_bytes = 0x32 ∷ replicate 15 9

-- Two bytes of padding, since the first random byte ends in 2; the buffer takes two bytes at a time.
abbrev reply_wire : Bytes
reply_wire =
    xor_from (λ i. (0 + i) % 256) 0 (10 ∷ 0 ∷ 0 ∷ 0 ∷ 1 ∷ 2 ∷ 3 ∷ 4 ∷ 5 ∷ 6 ∷ 7 ∷ 8 ∷ 9 ∷ 9 ∷ [])

reply_written :
    write_encrypted_reply toy kept 8 reply_parts padded_intermediate 2 random_bytes 0 []
    ≡ (ok tt, 14, reply_wire)
unfolding write_encrypted_reply chunks_from
reply_written = refl

write_encrypted_reply-IsReply_example :
    IsReply toy kept padded_intermediate 0 [] reply_wire (joined reply_parts)
write_encrypted_reply-IsReply_example =
    write_encrypted_reply-IsReply toy kept reply_parts padded_intermediate 2 random_bytes 0 14 []
      reply_wire (omega arith) reply_written

abbrev request_wire : Bytes
request_wire = xor_from (λ i. (0 + i) % 256) 0 (6 ∷ replicate 24 3) ++ (b'x' ∷ [])

abbrev always : ℕ → Result ℕ
always n = ok n

request_read :
    read_packet toy text always 4294967295 abridged 0 request_wire
    ≡ (ok (replicate 24 3, 24), 25, b'x' ∷ [])
unfolding read_packet exact header_len packet_length
request_read = refl

read_packet-IsPacket_example :
    IsPacket toy text always 4294967295 abridged 0 request_wire (b'x' ∷ []) (replicate 24 3) 24
read_packet-IsPacket_example =
    read_packet-IsPacket toy text always 4294967295 abridged 0 25 request_wire (b'x' ∷ [])
      (replicate 24 3) 24 request_read
