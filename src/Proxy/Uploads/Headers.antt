-- ===== src/Proxy/Uploads/Headers.antt =====
-- The header of a packet, which is deciphered before its frame begins.
use tg_ws_keenetic.Base.{
  ℕ, ◌+◌, ◌<◌, ◌≡◌, refl, sym, ap, ◌∙◌, true, Option, none, some, List, [], ◌++◌, arith, length,
  Result, ok, err,
}
use tg_ws_keenetic.Base.Bytes.{Bytes}
use mathlib.Core.Path.{subst}
use tg_ws_keenetic.Base.Wires.{Reader, Writer}
use tg_ws_keenetic.Crypto.{Primitives, Protocol, xor_from}
use tg_ws_keenetic.Crypto.Stream.{length-xor_from}
use tg_ws_keenetic.Framing.{packet_length}
use tg_ws_keenetic.WebSocket.Writer.{Outcome, begin, begin_binary, payload}
use tg_ws_keenetic.WebSocket.Written.{IsInFrame, InFrame, payload-InFrame, begin-InFrame}
use tg_ws_keenetic.Proxy.Bridges.Streams.{IsAt, apply_keystream-IsAt, recoded}
use tg_ws_keenetic.Proxy.Uploads.{
  encipher, Upload, Again, after_writer, body_rounds, send_header, after_length,
}
use tg_ws_keenetic.Proxy.Uploads.Frames.{Piece, raws, IsUploaded}
use tg_ws_keenetic.Proxy.Uploads.Bodies.{Ends, Goes, body_rounds-Ends}

module _ (p : Primitives) (r : Reader) (w : Writer) (protocol : Protocol) (u0 : Upload p r w) where
  -- The header was read and deciphered, and nothing of it written.
  pub record IsHeader (pieces : List Piece) (u1 : Upload p r w) (raw header : Bytes)
      (u : Upload p r w) : Type 0 where
    pub before : IsUploaded p r w protocol true u0 pieces u1
    pub read : r.unread u1.source ≡ raw ++ r.unread u.source
    pub plain : header ≡ xor_from (p.key_byte u0.ciphers.decrypt) (length (raws pieces)) raw
    pub decrypts : IsAt p u0.ciphers.decrypt (length (raws pieces) + length raw) u.ciphers.decrypt
    pub encrypts : IsAt p u0.ciphers.encrypt (length (raws pieces)) u.ciphers.encrypt
    pub told : u.ciphers.counted ≡ u1.ciphers.counted

  module _ (buffer_size left : ℕ) (next : Again p r w) (g : Goes p r w protocol u0 true next left)
      (pieces : List Piece) (u1 : Upload p r w) (mask raw header : Bytes) where
    send_header-Ends :
        (size remaining : ℕ) (u : Upload p r w)
        → IsHeader pieces u1 raw header u
        → packet_length header protocol ≡ ok (some (size, remaining))
        → size ≡ length header
        → IsInFrame w (w.written u1.sink) 2 (length header + remaining) mask [] u.writer u.sink
        → length (r.unread u.source) < left
        → Ends p r w protocol u0 true (send_header p r w buffer_size next header remaining u)
    unfolding send_header
    send_header-Ends size remaining u h stated full inside l =
        sent (payload w (encipher p header u.ciphers).0 u.writer u.sink) refl
      where
        d : p.AesCtr
        d = u0.ciphers.decrypt

        c : p.AesCtr
        c = u0.ciphers.encrypt

        n : ℕ
        n = length (raws pieces)

        moved : Upload p r w
        moved = record u { ciphers = (encipher p header u.ciphers).1 }

        same_size : length header ≡ length raw
        same_size = ap length h.plain ∙ length-xor_from (p.key_byte d) n raw

        coded :
            ((p.apply_keystream u.ciphers.encrypt header).0 ≡ xor_from (p.key_byte c) n header)
            × IsAt p c (n + length header) (p.apply_keystream u.ciphers.encrypt header).1
        coded = apply_keystream-IsAt p c u.ciphers.encrypt n header h.encrypts

        sent :
            (a : Outcome w)
            → payload w (encipher p header u.ciphers).0 u.writer u.sink ≡ a
            → Ends p r w protocol u0 true (
                after_writer p r w (body_rounds p r w remaining buffer_size next remaining) moved a)
        sent (err kind, ws, t) q = unfold after_writer in tt
        sent (ok _, ws, t) q =
            unfold after_writer in
            body_rounds-Ends p r w protocol u0 remaining buffer_size next left g pieces u1 mask raw
              remaining (record moved { writer = ws; sink = t }) (omega arith)
              (record {
                before = h.before;
                read = h.read;
                inside =
                    subst
                      (λ x.
                        IsInFrame w (w.written u1.sink) 2 (x + remaining) mask (recoded p d c n raw)
                          ws t)
                      same_size
                      (subst
                        (λ x.
                          IsInFrame w (w.written u1.sink) 2 (length header + remaining) mask x ws t)
                        (unfold encipher in (coded.0 ∙ ap (xor_from (p.key_byte c) n) h.plain))
                        (subst
                          (InFrame w (w.written u1.sink) 2 (length header + remaining) mask
                            (encipher p header u.ciphers).0)
                          q
                          (payload-InFrame w (w.written u1.sink) 2 (length header + remaining) mask
                            [] (encipher p header u.ciphers).0 u.writer u.sink inside)));
                aligned = record {
                  decrypts = unfold encipher in h.decrypts;
                  encrypts =
                      unfold encipher in
                      subst (λ x. IsAt p c (n + x) (p.apply_keystream u.ciphers.encrypt header).1)
                        same_size coded.1;
                };
                told = unfold encipher in omega (arith, h.told, same_size);
                stated = (
                  size,
                  remaining,
                  ap (λ x. packet_length x protocol) (sym h.plain) ∙ stated,
                  omega (arith, full, same_size),
                );
              })
              l

    pub after_length-Ends :
        (u : Upload p r w) (o : Result (Option (ℕ × ℕ)))
        → IsHeader pieces u1 raw header u
        → packet_length header protocol ≡ o
        → ((size remaining : ℕ) → o ≡ ok (some (size, remaining)) → size ≡ length header)
        → w.written u.sink ≡ w.written u1.sink
        → length (r.unread u.source) < left
        → Ends p r w protocol u0 true (after_length p r w mask buffer_size next header u o)
    unfolding after_length
    after_length-Ends u (err kind) h e f same l = tt
    after_length-Ends u (ok none) h e f same l = tt
    after_length-Ends u (ok (some (size, remaining))) h e f same l =
        begun (begin_binary w mask (length header + remaining) u.writer u.sink) refl
      where
        begun :
            (a : Outcome w)
            → begin_binary w mask (length header + remaining) u.writer u.sink ≡ a
            → Ends p r w protocol u0 true
                (after_writer p r w (send_header p r w buffer_size next header remaining) u a)
        begun (err kind, ws, t) q = unfold after_writer in tt
        begun (ok unit, ws, t) q =
            let q' : begin w mask 2 (length header + remaining) u.writer u.sink ≡ (ok unit, ws, t) =
              unfold begin_binary in q in
            unfold after_writer in
            send_header-Ends size remaining (record u { writer = ws; sink = t })
              (record {
                before = h.before;
                read = h.read;
                plain = h.plain;
                decrypts = h.decrypts;
                encrypts = h.encrypts;
                told = h.told;
              })
              e (f size remaining refl)
              (subst (λ x. IsInFrame w x 2 (length header + remaining) mask [] ws t) same
                (subst (InFrame w (w.written u.sink) 2 (length header + remaining) mask []) q'
                  (begin-InFrame w mask 2 (length header + remaining) u.writer u.sink)))
              l
