-- ===== src/Crypto/Runs.antt =====
-- Runs of the handshakes and the theorems at concrete inputs, over a toy cipher.
use tg_ws_keenetic.Base.{
  ◌+◌, ◌*◌, ◌≡◌, refl, false, some, [], ◌∷◌, ◌++◌, arith, length, get_or, take, drop, replicate, ok,
}
use tg_ws_keenetic.Base.Bytes.{Bytes}
use tg_ws_keenetic.Base.Int.{pos, negsuc, i16_of_bits}
use tg_ws_keenetic.Crypto.{
  Protocol, ClientHandshake, reserved, protocol_of, draw_unreserved, parse_client_handshake,
  generate_relay_handshake, CryptoContext, build_context,
}
use tg_ws_keenetic.Crypto.Handshakes.{
  opened, client_init, generate_relay_handshake_reads, parse-client_init,
}
use tg_ws_keenetic.Memory.{toy}
use tg_ws_keenetic.Crypto.Context.{upstream_reads}

abbrev some_block : Bytes
some_block = replicate 64 7

abbrev refused_block : Bytes
refused_block = replicate 64 0xee

abbrev some_secret : Bytes
some_secret = replicate 16 9

abbrev some_wire : Bytes
some_wire = replicate 56 7 ++ 0xd0 ∷ 0xaf ∷ 0xae ∷ 0xad ∷ 0xbf ∷ 0xbb ∷ 0x42 ∷ 0x41 ∷ []

second_draw :
    generate_relay_handshake toy (refused_block ∷ some_block ∷ []) Protocol.abridged (negsuc 3)
    ≡ some some_wire
unfolding generate_relay_handshake draw_unreserved reserved
second_draw = refl

generate_relay_handshake_reads_example :
    (length some_wire ≡ 64)
    × (reserved some_wire ≡ false)
    × (protocol_of (take 4 (drop 56 (opened toy some_wire))) ≡ some Protocol.abridged)
    × (i16_of_bits (get_or (opened toy some_wire) 60 0 + get_or (opened toy some_wire) 61 0 * 256)
        ≡ negsuc 3)
generate_relay_handshake_reads_example =
    generate_relay_handshake_reads toy (refused_block ∷ some_block ∷ []) Protocol.abridged
      (negsuc 3) some_wire (omega arith) (omega arith) second_draw

parse-client_init_example :
    parse_client_handshake toy
      (client_init toy some_block some_secret Protocol.intermediate (pos 10001))
      some_secret
    ≡ ok (record {
      dc_index = pos 10001;
      protocol = Protocol.intermediate;
      prekey_iv = replicate 48 7;
    })
parse-client_init_example =
    parse-client_init toy some_block some_secret Protocol.intermediate (pos 10001) refl
      (omega arith)

abbrev some_client : ClientHandshake
some_client = record { dc_index = pos 2; protocol = Protocol.abridged; prekey_iv = replicate 48 5 }

upstream_reads_example :
    (toy.apply_keystream (toy.new (take 32 (drop 8 some_wire)) (take 16 (drop 40 some_wire))) (
      some_wire
      ++ (toy.apply_keystream
          (CryptoContext.upstream_encrypt (build_context toy some_client some_secret some_wire))
          (1 ∷ 2 ∷ [])).0)).0
    ≡ opened toy some_wire ++ 1 ∷ 2 ∷ []
upstream_reads_example = upstream_reads toy some_client some_secret some_wire (1 ∷ 2 ∷ []) refl
