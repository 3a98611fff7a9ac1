-- ===== src/Crypto/Context.antt =====
-- The streams of a connection stand where the handshakes leave them.
use tg_ws_keenetic.Base.{ℕ, ◌+◌, ◌≡◌, sym, ap, ◌∙◌, ◌++◌, length, take, drop, replicate}
use tg_ws_keenetic.Base.Bytes.{Bytes}
use tg_ws_keenetic.Crypto.{
  Primitives, ClientHandshake, xor_from, secret_key, CryptoContext, build_context,
}
use tg_ws_keenetic.Crypto.Stream.{xor_from_cancel, xor_from_shift, apply_keystream-append}
use tg_ws_keenetic.Crypto.Handshakes.{opened}

module _ (p : Primitives) where
  open p use {AesCtr, new, apply_keystream, key_byte, apply_combines, apply_moves}

  -- Two copies of one cipher, moved over data of one length, undo one another.
  same_position :
      (c : AesCtr) (xs ys data' : Bytes)
      → length xs ≡ length ys
      → (apply_keystream
          (apply_keystream c xs).1
          (apply_keystream (apply_keystream c ys).1 data').0).0
        ≡ data'
  same_position c xs ys data' l =
      let a = (apply_keystream c xs).1 in
      let b = (apply_keystream c ys).1 in
      apply_combines a (apply_keystream b data').0
      ∙ ap (xor_from (key_byte a) 0) (apply_combines b data')
      ∙ xor_from_shift (key_byte a) (key_byte b) 0 0 (xor_from (key_byte b) 0 data') aligned
      ∙ xor_from_cancel (key_byte b) 0 data'
    where
      aligned :
          (n : ℕ)
          → key_byte ((apply_keystream c xs).1) (0 + n)
            ≡ key_byte ((apply_keystream c ys).1) (0 + n)
      aligned n =
          apply_moves c xs (0 + n)
          ∙ ap (λ k. key_byte c (k + (0 + n))) l
          ∙ sym (apply_moves c ys (0 + n))

  -- The other end of the relay link, which deciphers the handshake and all that follows as one
  -- stream, reads the handshake and then exactly the data that the proxy enciphers.
  pub upstream_reads :
      (client : ClientHandshake) (secret wire payload : Bytes)
      → length wire ≡ 64
      → (apply_keystream (new (take 32 (drop 8 wire)) (take 16 (drop 40 wire))) (
          wire
          ++ (apply_keystream
              (CryptoContext.upstream_encrypt (build_context p client secret wire))
              payload).0)).0
        ≡ opened p wire ++ payload
  unfolding build_context
  upstream_reads client secret wire payload l =
      let c = new (take 32 (drop 8 wire)) (take 16 (drop 40 wire)) in
      let sent = (apply_keystream (apply_keystream c (replicate 64 0)).1 payload).0 in
      apply_keystream-append p c wire sent
      ∙ ap (λ t. opened p wire ++ t) (same_position c wire (replicate 64 0) payload l)

  -- What the client enciphers behind its handshake the proxy deciphers with `client_decrypt`.
  pub client_decrypt_reads :
      (client : ClientHandshake) (secret relay handshake payload : Bytes)
      → length handshake ≡ 64
      → (apply_keystream
          (CryptoContext.client_decrypt (build_context p client secret relay))
          (apply_keystream
            (apply_keystream
              (new (secret_key p (take 32 client.prekey_iv) secret) (drop 32 client.prekey_iv))
              handshake).1
            payload).0).0
        ≡ payload
  unfolding build_context
  client_decrypt_reads client secret relay handshake payload l =
      same_position
        (new (secret_key p (take 32 client.prekey_iv) secret) (drop 32 client.prekey_iv))
        (replicate 64 0) handshake payload (sym l)
