-- ===== src/Proxy/Uploads/Frames.antt =====
-- The frames that an upload has written, and the packet that it is in.
use tg_ws_keenetic.Base.{
  ℕ, ◌+◌, ◌≤◌, ◌≡◌, refl, sym, ap, ◌∙◌, Bool, true, false, some, List, [], ◌∷◌, ◌++◌, append_assoc,
  append-nil, arith, length, length-append, ok, ok_inj,
}
use tg_ws_keenetic.Base.Bytes.{Bytes}
use mathlib.Core.Path.{subst}
use tg_ws_keenetic.Base.Wires.{Reader, Writer}
use tg_ws_keenetic.Crypto.{Primitives, Protocol, xor_from}
use tg_ws_keenetic.Framing.{packet_length}
use tg_ws_keenetic.Framing.Lengths.{packet_length_bounds, packet_length-append}
use tg_ws_keenetic.WebSocket.Frames.{frame}
use tg_ws_keenetic.Proxy.Bridges.Streams.{recoded, IsAligned}
use tg_ws_keenetic.Proxy.Uploads.{Upload}

-- What became one frame: its mask, and the bytes that the client sent for it.
abbrev pub Piece : Type 0
Piece = Bytes × Bytes

abbrev pub raws : List Piece → Bytes
raws [] = []
raws ((mask, raw) ∷ pieces) = raw ++ raws pieces

-- A whole packet, or, without packets, at least one byte.
abbrev pub Whole : Protocol → Bool → Bytes → Type 0
Whole protocol true plain =
    (size : ℕ) × (body : ℕ) × (packet_length plain protocol ≡ ok (some (size, body)))
    × (size + body ≡ length plain)
Whole protocol false plain = 1 ≤ length plain

pub packet_length_more :
    (xs ys : Bytes) (protocol : Protocol) (size body : ℕ)
    → packet_length xs protocol ≡ ok (some (size, body))
    → packet_length (xs ++ ys) protocol ≡ ok (some (size, body))
packet_length_more [] ys protocol size body e =
    unfold packet_length in absurd (cc (ok_inj (unfold packet_length in e)))
packet_length_more (x ∷ xs) ys protocol size body e =
    let (same, fits, more, most) = packet_length_bounds x xs protocol size body e in
    packet_length-append x xs ys protocol (omega (arith, same, fits)) ∙ e

raws-append : (xs ys : List Piece) → raws (xs ++ ys) ≡ raws xs ++ raws ys
raws-append [] ys = refl
raws-append ((mask, raw) ∷ xs) ys =
    ap (λ t. raw ++ t) (raws-append xs ys) ∙ sym (append_assoc raw (raws xs) (raws ys))

module _ (p : Primitives) (d e : p.AesCtr) where
  -- The frames of the pieces whose first byte is at position `n` of the ciphers.
  abbrev pub frames : ℕ → List Piece → Bytes
  frames n [] = []
  frames n ((mask, raw) ∷ pieces) =
      frame 2 mask (recoded p d e n raw) ++ frames (n + length raw) pieces

  abbrev pub AllWhole : Protocol → Bool → ℕ → List Piece → Type 0
  AllWhole protocol packetized n [] = Unit {0}
  AllWhole protocol packetized n ((mask, raw) ∷ pieces) =
      Whole protocol packetized (xor_from (p.key_byte d) n raw)
      × AllWhole protocol packetized (n + length raw) pieces

  frames-append :
      (n : ℕ) (xs ys : List Piece)
      → frames n (xs ++ ys) ≡ frames n xs ++ frames (n + length (raws xs)) ys
  frames-append n [] ys = ap (λ k. frames k ys) (omega arith)
  frames-append n ((mask, raw) ∷ xs) ys =
      let k : n + length raw + length (raws xs) ≡ n + length (raw ++ raws xs) =
        omega (arith, length-append raw (raws xs)) in
      ap (λ t. frame 2 mask (recoded p d e n raw) ++ t)
        (frames-append (n + length raw) xs ys
          ∙ ap (λ j. frames (n + length raw) xs ++ frames j ys) k)
      ∙ sym (append_assoc (frame 2 mask (recoded p d e n raw)) (frames (n + length raw) xs) _)

  AllWhole-append :
      (protocol : Protocol) (packetized : Bool) (n : ℕ) (xs ys : List Piece)
      → AllWhole protocol packetized n xs
      → AllWhole protocol packetized (n + length (raws xs)) ys
      → AllWhole protocol packetized n (xs ++ ys)
  AllWhole-append protocol packetized n [] ys h k =
      subst (λ j. AllWhole protocol packetized j ys) (omega arith) k
  AllWhole-append protocol packetized n ((mask, raw) ∷ xs) ys (w, h) k = (
    w,
    AllWhole-append protocol packetized (n + length raw) xs ys h (
        subst (λ j. AllWhole protocol packetized j ys) (omega (arith, length-append raw (raws xs)))
          k),
  )

module _ (p : Primitives) (r : Reader) (w : Writer) (protocol : Protocol) (packetized : Bool)
    (u0 : Upload p r w) where
  -- So many pieces were read, and written as a frame each, in order, and their bytes counted.
  pub record IsUploaded (pieces : List Piece) (u : Upload p r w) : Type 0 where
    pub read : r.unread u0.source ≡ raws pieces ++ r.unread u.source
    pub wrote :
        w.written u.sink
        ≡ w.written u0.sink ++ frames p u0.ciphers.decrypt u0.ciphers.encrypt 0 pieces
    pub aligned : IsAligned p u0.ciphers.decrypt u0.ciphers.encrypt (length (raws pieces)) u.ciphers
    pub told : u.ciphers.counted ≡ u0.ciphers.counted + length (raws pieces)
    pub whole : AllWhole p u0.ciphers.decrypt u0.ciphers.encrypt protocol packetized 0 pieces

  pub IsUploaded-more :
      (pieces : List Piece) (mask raw : Bytes) (u u' : Upload p r w)
      → IsUploaded pieces u
      → r.unread u.source ≡ raw ++ r.unread u'.source
      → w.written u'.sink
        ≡ w.written u.sink
          ++ frame 2 mask
              (recoded p u0.ciphers.decrypt u0.ciphers.encrypt (length (raws pieces)) raw)
      → IsAligned p u0.ciphers.decrypt u0.ciphers.encrypt
          (length (raws pieces) + length raw)
          u'.ciphers
      → u'.ciphers.counted ≡ u.ciphers.counted + length raw
      → Whole protocol packetized
          (xor_from (p.key_byte u0.ciphers.decrypt) (length (raws pieces)) raw)
      → IsUploaded (pieces ++ ((mask, raw) ∷ [])) u'
  IsUploaded-more pieces mask raw u u' h rd wr al co wh =
      let d = u0.ciphers.decrypt in
      let e = u0.ciphers.encrypt in
      let all : raws (pieces ++ ((mask, raw) ∷ [])) ≡ raws pieces ++ raw =
        raws-append pieces ((mask, raw) ∷ []) ∙ ap (λ t. raws pieces ++ t) (append-nil raw) in
      let size : length (raws (pieces ++ ((mask, raw) ∷ []))) ≡ length (raws pieces) + length raw =
        ap length all ∙ length-append (raws pieces) raw in
      let start : length (raws pieces) ≡ 0 + length (raws pieces) = omega arith in
      record {
        read =
            h.read
            ∙ ap (λ t. raws pieces ++ t) rd
            ∙ sym (append_assoc (raws pieces) raw (r.unread u'.source))
            ∙ ap (λ t. t ++ r.unread u'.source) (sym all);
        wrote =
            wr
            ∙ ap (λ t. t ++ frame 2 mask (recoded p d e (length (raws pieces)) raw)) h.wrote
            ∙ append_assoc (w.written u0.sink) (frames p d e 0 pieces) _
            ∙ ap (λ t. w.written u0.sink ++ t)
                (ap (λ k. frames p d e 0 pieces ++ frame 2 mask (recoded p d e k raw)) start
                  ∙ ap (λ t. frames p d e 0 pieces ++ t)
                      (sym
                        (append-nil (frame 2 mask (recoded p d e (0 + length (raws pieces)) raw))))
                  ∙ sym (frames-append p d e 0 pieces ((mask, raw) ∷ [])));
        aligned = subst (λ k. IsAligned p d e k u'.ciphers) (sym size) al;
        told = omega (arith, co, h.told, size);
        whole =
            AllWhole-append p d e protocol packetized 0 pieces ((mask, raw) ∷ []) h.whole
              (subst (λ k. Whole protocol packetized (xor_from (p.key_byte d) k raw)) start wh, tt);
      }
