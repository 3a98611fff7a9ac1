-- ===== src/Crypto/Handshakes.antt =====
-- The relay's handshake is readable by the peer it is made for, and the client's by the proxy.
use tg_ws_keenetic.Base.{
  ℕ, ◌+◌, ◌*◌, ◌/◌, ◌%◌, ◌≡◌, refl, sym, ap, ◌∙◌, inl, inr, false, some, List, [], ◌∷◌, ◌++◌, arith,
  Bool-cases, Option-cases, length, get_or, take, drop, All, length-append, length-take,
  length-drop, take-append-drop, take_at, slice-append, slice-take, get_or-drop, drop_at, ok,
}
use tg_ws_keenetic.Base.Bytes.{Bytes, to_le_u16}
use tg_ws_keenetic.Base.Int.{ℤ, IsI16, i16_bits, i16_of_bits, i16_of_bits-i16_bits, i16_bits-lt}
use tg_ws_keenetic.Crypto.{
  Primitives, Protocol, tag, reserved, protocol_of, draw_unreserved, secret_key, read_plain,
  parse_client_handshake, seal_relay_handshake, generate_relay_handshake,
}
use mathlib.Core.Path.{ap₂, subst}
use tg_ws_keenetic.Crypto.Stream.{drop-xor_from, xor_from_cancel, length-xor_from}

protocol_of-tag : (p : Protocol) → protocol_of (tag p) ≡ some p
unfolding protocol_of
protocol_of-tag Protocol.abridged = refl
protocol_of-tag Protocol.intermediate = refl
protocol_of-tag Protocol.padded_intermediate = refl

reserved_start : (h t u : Bytes) → length h ≡ 56 → reserved (h ++ t) ≡ reserved (h ++ u)
unfolding reserved
reserved_start (a ∷ b ∷ c ∷ d ∷ e ∷ f ∷ g ∷ i ∷ h) t u l = refl
reserved_start h t u l = absurd (omega arith)

-- Enciphering the bytes from 56 on, with the cipher started at byte 0, can be undone by the same
-- cipher applied to the whole.
module _ (p : Primitives) where
  open p use {AesCtr, apply_keystream, key_byte, apply_combines}

  abbrev seal : AesCtr → Bytes → Bytes → Bytes
  seal c start tail = start ++ drop 56 (apply_keystream c (start ++ tail)).0

  open_sealed :
      (c : AesCtr) (start tail : Bytes)
      → length start ≡ 56
      → drop 56 (apply_keystream c (seal c start tail)).0 ≡ tail
  open_sealed c start tail l =
      rw
        (
          apply_combines c (seal c start tail),
          apply_combines c (start ++ tail),
          drop-xor_from (key_byte c) 56 0,
          drop_at start _ 56 l,
          drop-xor_from (key_byte c) 56 0,
          drop_at start tail 56 l,
        )
        (xor_from_cancel (key_byte c) (0 + 56) tail)

  length-seal :
      (c : AesCtr) (start tail : Bytes)
      → length start ≡ 56
      → length (seal c start tail) ≡ 56 + length tail
  length-seal c start tail l =
      rw
        (
          length-append,
          apply_combines c (start ++ tail),
          drop-xor_from (key_byte c) 56 0,
          length-xor_from,
        )
        (rw (drop_at start tail 56 l) (omega arith))

draw_unreserved_sound :
    (blocks : List Bytes) (block : Bytes)
    → All (λ b. length b ≡ 64) blocks
    → draw_unreserved blocks ≡ some block
    → (reserved block ≡ false) × (length block ≡ 64)
unfolding draw_unreserved
draw_unreserved_sound [] block h e = cc
draw_unreserved_sound (b ∷ bs) block (hb, h) e = elim (Bool-cases (reserved b)) [
  | inl r ↦ draw_unreserved_sound bs block h (rw r at e)
  | inr r ↦ ground (arith, r, hb)
]

-- One block that is not reserved is enough for the loop to end.
draw_unreserved_total :
    (front : List Bytes) (block : Bytes) (back : List Bytes)
    → reserved block ≡ false
    → (found : Bytes) × (draw_unreserved (front ++ block ∷ back) ≡ some found)
unfolding draw_unreserved
draw_unreserved_total [] block back h = (block, rw h)
draw_unreserved_total (b ∷ bs) block back h = elim (Bool-cases (reserved b)) [
  | inl r ↦ rw r (draw_unreserved_total bs block back h)
  | inr r ↦ (b, rw r)
]

length-tag : (p : Protocol) → length (tag p) ≡ 4
unfolding tag
length-tag Protocol.abridged = refl
length-tag Protocol.intermediate = refl
length-tag Protocol.padded_intermediate = refl

reserved_of_start : (h w : Bytes) → length h ≡ 64 → take 56 w ≡ take 56 h → reserved w ≡ reserved h
reserved_of_start h w l e =
    let ls : length (take 56 h) ≡ 56 = omega (arith, length-take 56 h) in
    ap reserved (sym (take-append-drop 56 w) ∙ ap (λ t. t ++ drop 56 w) e)
    ∙ reserved_start (take 56 h) (drop 56 w) (drop 56 h) ls
    ∙ ap reserved (take-append-drop 56 h)

after_tag :
    (p : Protocol) (a b : ℕ) (rest : Bytes)
    → (get_or (tag p ++ a ∷ b ∷ rest) 4 0 ≡ a) × (get_or (tag p ++ a ∷ b ∷ rest) 5 0 ≡ b)
unfolding tag
after_tag Protocol.abridged a b rest = (refl, refl)
after_tag Protocol.intermediate a b rest = (refl, refl)
after_tag Protocol.padded_intermediate a b rest = (refl, refl)

-- What stands behind byte 56 of a plaintext that ends in a tag, an index and two more bytes.
read_tail :
    (plain : Bytes) (protocol : Protocol) (dc_index : ℤ) (rest : Bytes)
    → IsI16 dc_index
    → drop 56 plain ≡ tag protocol ++ (to_le_u16 (i16_bits dc_index) ++ rest)
    → (protocol_of (take 4 (drop 56 plain)) ≡ some protocol)
      × (i16_of_bits (get_or plain 60 0 + get_or plain 61 0 * 256) ≡ dc_index)
read_tail plain protocol dc_index rest hd e =
    let bits = i16_bits dc_index in
    let low : get_or plain 60 0 ≡ bits % 256 =
      sym (get_or-drop 56 4 plain 0)
      ∙ ap (λ t. get_or t 4 0) e
      ∙ (after_tag protocol (bits % 256) (bits / 256 % 256) rest).0 in
    let high : get_or plain 61 0 ≡ bits / 256 % 256 =
      sym (get_or-drop 56 5 plain 0)
      ∙ ap (λ t. get_or t 5 0) e
      ∙ (after_tag protocol (bits % 256) (bits / 256 % 256) rest).1 in
    let both : get_or plain 60 0 + get_or plain 61 0 * 256 ≡ bits =
      omega (arith, low, high, i16_bits-lt dc_index hd) in
    (
      rw (e, take_at (tag protocol) _ 4 (length-tag protocol)) (protocol_of-tag protocol),
      ap i16_of_bits both ∙ i16_of_bits-i16_bits dc_index hd,
    )

read_plain_lem :
    (prekey_iv plain : Bytes) (protocol : Protocol) (dc_index : ℤ)
    → protocol_of (take 4 (drop 56 plain)) ≡ some protocol
    → i16_of_bits (get_or plain 60 0 + get_or plain 61 0 * 256) ≡ dc_index
    → read_plain prekey_iv plain
      ≡ ok (record { dc_index = dc_index; protocol = protocol; prekey_iv = prekey_iv })
unfolding read_plain
read_plain_lem prekey_iv plain protocol dc_index t i = rw (t, read_plain) (rw i)

module _ (p : Primitives) where
  open p use {AesCtr, new, apply_keystream}

  -- What the holder of the other end of the relay link reads from the handshake: the bytes
  -- deciphered under the key that they carry.
  abbrev pub opened : Bytes → Bytes
  opened wire = (apply_keystream (new (take 32 (drop 8 wire)) (take 16 (drop 40 wire))) wire).0

  seal_relay_handshake_lem :
      (handshake : Bytes) (protocol : Protocol) (dc_index : ℤ)
      → length handshake ≡ 64
      → (take 56 (seal_relay_handshake p handshake protocol dc_index) ≡ take 56 handshake)
        × (length (seal_relay_handshake p handshake protocol dc_index) ≡ 64)
        × (drop 56 (opened (seal_relay_handshake p handshake protocol dc_index))
            ≡ tag protocol ++ (to_le_u16 (i16_bits dc_index) ++ drop 62 handshake))
  unfolding seal_relay_handshake
  seal_relay_handshake_lem handshake protocol dc_index l =
      let start = take 56 handshake in
      let tail = tag protocol ++ (to_le_u16 (i16_bits dc_index) ++ drop 62 handshake) in
      let cipher = new (take 32 (drop 8 handshake)) (take 16 (drop 40 handshake)) in
      let wire = seal p cipher start tail in
      let ls : length start ≡ 56 = omega (arith, length-take 56 handshake) in
      let lt : length tail ≡ 8 = omega (
        arith,
        length-drop 62 handshake,
        length-append (tag protocol) (to_le_u16 (i16_bits dc_index) ++ drop 62 handshake),
        length-tag protocol,
      ) in
      let key : take 32 (drop 8 wire) ≡ take 32 (drop 8 handshake) =
        slice-append 8 32 start _ (omega arith) ∙ slice-take 8 32 56 handshake (omega arith) in
      let iv : take 16 (drop 40 wire) ≡ take 16 (drop 40 handshake) =
        slice-append 40 16 start _ (omega arith) ∙ slice-take 40 16 56 handshake (omega arith) in
      (
        take_at start _ 56 ls,
        length-seal p cipher start tail ls ∙ omega arith,
        ap₂ (λ k i. drop 56 (apply_keystream (new k i) wire).0) key iv
            ∙ open_sealed p cipher start tail ls,
      )

  -- The relay handshake is 64 bytes long and not reserved, and its other end reads from it the
  -- transport and the data-centre index that it was made with. Every block drawn is 64 bytes long.
  pub generate_relay_handshake_reads :
      (blocks : List Bytes) (protocol : Protocol) (dc_index : ℤ) (wire : Bytes)
      → All (λ b. length b ≡ 64) blocks
      → IsI16 dc_index
      → generate_relay_handshake p blocks protocol dc_index ≡ some wire
      → (length wire ≡ 64)
        × (reserved wire ≡ false)
        × (protocol_of (take 4 (drop 56 (opened wire))) ≡ some protocol)
        × (i16_of_bits (get_or (opened wire) 60 0 + get_or (opened wire) 61 0 * 256) ≡ dc_index)
  unfolding generate_relay_handshake
  generate_relay_handshake_reads blocks protocol dc_index wire hb hd e =
      elim (Option-cases (draw_unreserved blocks)) [
        | inl d ↦ cc (rw (d, generate_relay_handshake) at e)
        | inr (block, d) ↦
            let made : seal_relay_handshake p block protocol dc_index ≡ wire =
              cc (rw (d, generate_relay_handshake) at e) in
            let (fresh, l) = draw_unreserved_sound blocks block hb d in
            let sealed = seal_relay_handshake p block protocol dc_index in
            let (start, len, tail) = seal_relay_handshake_lem block protocol dc_index l in
            let (tagged, indexed) = read_tail (opened sealed) protocol dc_index _ hd tail in
            subst
              (λ w.
                (length w ≡ 64)
                × (reserved w ≡ false)
                × (protocol_of (take 4 (drop 56 (opened w))) ≡ some protocol)
                × (i16_of_bits (get_or (opened w) 60 0 + get_or (opened w) 61 0 * 256) ≡ dc_index))
              made (len, reserved_of_start block sealed l start ∙ fresh, tagged, indexed)
      ]

  -- What a Telegram client sends first: 56 random bytes, then the transport tag, the data-centre
  -- index and two more bytes, enciphered under a key made of bytes 8 to 39 and the shared secret.
  abbrev pub client_init : Bytes → Bytes → Protocol → ℤ → Bytes
  client_init block secret protocol dc_index =
      let prekey_iv = take 48 (drop 8 block) in
      let cipher = new (secret_key p (take 32 prekey_iv) secret) (drop 32 prekey_iv) in
      seal p cipher (take 56 block)
        (tag protocol ++ (to_le_u16 (i16_bits dc_index) ++ drop 62 block))

  -- The proxy reads from a client's handshake, made with the same secret, the client's transport,
  -- its data-centre index and the random bytes that the keys of the connection are made of.
  pub parse-client_init :
      (block secret : Bytes) (protocol : Protocol) (dc_index : ℤ)
      → length block ≡ 64
      → IsI16 dc_index
      → parse_client_handshake p (client_init block secret protocol dc_index) secret
        ≡ ok (record {
          dc_index = dc_index;
          protocol = protocol;
          prekey_iv = take 48 (drop 8 block);
        })
  unfolding parse_client_handshake
  parse-client_init block secret protocol dc_index l hd =
      let start = take 56 block in
      let tail = tag protocol ++ (to_le_u16 (i16_bits dc_index) ++ drop 62 block) in
      let ls : length start ≡ 56 = omega (arith, length-take 56 block) in
      let prekey = take 48 (drop 8 block) in
      let cipher = new (secret_key p (take 32 prekey) secret) (drop 32 prekey) in
      let wire = seal p cipher start tail in
      let same : take 48 (drop 8 wire) ≡ prekey =
        slice-append 8 48 start _ (omega arith) ∙ slice-take 8 48 56 block (omega arith) in
      let plain = (apply_keystream cipher wire).0 in
      let (tagged, indexed) =
        read_tail plain protocol dc_index (drop 62 block) hd (open_sealed p cipher start tail ls) in
      ap
        (λ k.
          read_plain k (apply_keystream (new (secret_key p (take 32 k) secret) (drop 32 k)) wire).0)
        same
      ∙ read_plain_lem prekey plain protocol dc_index tagged indexed
