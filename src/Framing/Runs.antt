-- ===== src/Framing/Runs.antt =====
-- Runs of `packet_length`, and the theorems at concrete inputs.
use tg_ws_keenetic.Base.{◌≡◌, refl, some, arith, [], ◌∷◌, ok}
use tg_ws_keenetic.Crypto.{Protocol}
use tg_ws_keenetic.Framing.{packet_length}
use tg_ws_keenetic.Base.Bytes.{Bytes}
use tg_ws_keenetic.Framing.Headers.{packet_length-header}

extended : packet_length (0xff ∷ 128 ∷ 0 ∷ 0 ∷ []) Protocol.abridged ≡ ok (some (4, 512))
unfolding packet_length
extended = refl

abbrev asked : Bytes
asked = 0xff ∷ 128 ∷ 0 ∷ 0 ∷ 7 ∷ []

packet_length-header_example : packet_length asked Protocol.abridged ≡ ok (some (4, 512))
packet_length-header_example =
    packet_length-header Protocol.abridged 1 512 (7 ∷ []) (omega arith) (refl, omega arith)
