-- ===== src/H2/Packets/Replies.antt =====
-- What the native client reads of a reply.
use tg_ws_keenetic.Base.{
  ℕ, zero, suc, ◌+◌, ◌/◌, ◌%◌, ◌≤◌, ◌<◌, min, max, ◌≡◌, refl, sym, ap, ◌∙◌, ◌≢◌, inl, inr, true,
  false, not, ◌||◌, some, List, [], ◌∷◌, ◌++◌, append_assoc, append-nil, arith, ltb, leb, ◌==◌,
  Bool-cases, length, get_or, take, drop, length-append, length-take, length-drop, take-append-drop,
  Result, ok, err, ok_inj,
}
use tg_ws_keenetic.Base.Bytes.{Bytes, to_le_u32}
use mathlib.Core.Path.{ap₂, subst}
use tg_ws_keenetic.Base.Wires.{Writer}
use tg_ws_keenetic.Crypto.{
  xor_from, Protocol, abridged, intermediate, padded_intermediate, Primitives,
}
use tg_ws_keenetic.Crypto.Stream.{xor_from_shift, xor_from-append}
use tg_ws_keenetic.Framing.{packet_length}
use tg_ws_keenetic.H2.Packets.{
  max_packet, reply_frame, chunks_from, chunks, chunked, Sent, send_piece, send_pieces,
  send_padding, flush_sent, send_framed, checked_frame, after_frame, write_encrypted_reply,
}

abbrev pub joined : List Bytes → Bytes
joined [] = []
joined (part ∷ parts) = part ++ joined parts

pub joined-append : (xs ys : List Bytes) → joined (xs ++ ys) ≡ joined xs ++ joined ys
joined-append [] ys = refl
joined-append (x ∷ xs) ys =
    ap (λ t. x ++ t) (joined-append xs ys) ∙ sym (append_assoc x (joined xs) (joined ys))

joined-chunks_from :
    (fuel size : ℕ) (bs : Bytes)
    → 0 < size
    → length bs ≤ fuel
    → joined (chunks_from fuel size bs) ≡ bs
unfolding chunks_from
joined-chunks_from zero size [] z h = refl
joined-chunks_from zero size (b ∷ bs) z h = absurd (omega arith)
joined-chunks_from (suc fuel) size [] z h = refl
joined-chunks_from (suc fuel) size (b ∷ bs) z h =
    ap (λ t. take size (b ∷ bs) ++ t)
      (joined-chunks_from fuel size (drop size (b ∷ bs)) z
        (omega (arith, length-drop size (b ∷ bs))))
    ∙ take-append-drop size (b ∷ bs)

joined-chunked :
    (size : ℕ) (parts : List Bytes) → 0 < size → joined (chunked size parts) ≡ joined parts
joined-chunked size [] z = refl
joined-chunked size (part ∷ parts) z =
    joined-append (chunks size part) (chunked size parts)
    ∙ ap₂ (λ x y. x ++ y) (joined-chunks_from (length part) size part z (omega arith))
        (joined-chunked size parts z)

abbrev States : Protocol → ℕ → Bytes → Bytes × Bytes → Type 0
States protocol n more (prefix, padding) =
    (packet_length (prefix ++ more) protocol ≡ ok (some (length prefix, n + length padding)))
    × (length padding < 16)

-- The header that a reply begins with states the length of the body with its padding.
reply_frame-packet_length :
    (protocol : Protocol) (n : ℕ) (random prefix padding more : Bytes)
    → 0 < n
    → n ≤ max_packet
    → n % 4 ≡ 0
    → 16 ≤ length random
    → reply_frame protocol n random ≡ ok (prefix, padding)
    → (packet_length (prefix ++ more) protocol ≡ ok (some (length prefix, n + length padding)))
      × (length padding < 16)
unfolding reply_frame packet_length
reply_frame-packet_length abridged n random prefix padding more z u m l e =
    elim (Bool-cases (ltb (n / 4) 0x7f)) [
      | inl t ↦
          subst (States abridged n more) (ok_inj (sym (one_byte t) ∙ e))
            (ground (arith, t), omega arith)
      | inr f ↦
          subst (States abridged n more) (ok_inj (sym (short f) ∙ e))
            (ground (arith, f), omega arith)
    ]
  where
    one_byte : ltb (n / 4) 0x7f ≡ true → reply_frame abridged n random ≡ ok (n / 4 ∷ [], [])
    one_byte t = rw t refl

    short :
        ltb (n / 4) 0x7f ≡ false
        → reply_frame abridged n random ≡ ok (0x7f ∷ take 3 (to_le_u32 (n / 4)), [])
    short f = let small : leb (n / 4) 0xffffff ≡ true = ground arith in rw (f, small) refl
reply_frame-packet_length intermediate n random prefix padding more z u m l e =
    subst (States intermediate n more) (ok_inj e) (ground arith, omega arith)
reply_frame-packet_length padded_intermediate n random prefix padding more z u m l e =
    subst (States padded_intermediate n more) (ok_inj e) (ground (arith, size), omega (arith, size))
  where
    size : length (take (get_or random 0 0 % 16) (drop 1 random)) ≡ get_or random 0 0 % 16
    size = omega (arith, length-take (get_or random 0 0 % 16) (drop 1 random), length-drop 1 random)

checked_frame-ok :
    (protocol : Protocol) (n : ℕ) (random : Bytes) (frame : Bytes × Bytes)
    → checked_frame protocol n random ≡ ok frame
    → (0 < n) × (n ≤ max_packet) × (n % 4 ≡ 0) × (reply_frame protocol n random ≡ ok frame)
unfolding checked_frame
checked_frame-ok protocol n random frame e =
    elim (Bool-cases ((n == 0) || ltb max_packet n || not (n % 4 == 0))) [
      | inl t ↦ cc (simp t at e)
      | inr f ↦ (ground (arith, f), ground (arith, f), ground (arith, f), simp f at e)
    ]

module _ (p : Primitives) (w : Writer) where
  open p use {AesCtr, apply_keystream, key_byte, apply_combines, apply_moves}
  open w use {Inner, write_all, flush, written, write_all_writes, flush_keeps}

  -- All that has been sent well is the plain bytes under the key bytes from the cipher's place on.
  record IsSent (c : AesCtr) (s : Inner) (plain : Bytes) (c' : AesCtr) (s' : Inner) : Type 0 where
    wire : written s' ≡ written s ++ xor_from (key_byte c) 0 plain
    place : (i : ℕ) → key_byte c' i ≡ key_byte c (length plain + i)

  abbrev SentWell : AesCtr → Inner → Bytes → Sent p w → Type 0
  SentWell c s plain (err e, c', s') = Unit
  SentWell c s plain (ok _, c', s') = IsSent c s plain c' s'

  send_piece-SentWell :
      (c : AesCtr) (s : Inner) (plain piece : Bytes) (o : Sent p w)
      → SentWell c s plain o
      → SentWell c s (plain ++ piece) (send_piece p w piece o)
  unfolding send_piece
  send_piece-SentWell c s plain piece (err e, c', s') h = tt
  send_piece-SentWell c s plain piece (ok _, c', s') h =
      answered (write_all s' (apply_keystream c' piece).0).0
        (write_all s' (apply_keystream c' piece).0).1 refl
    where
      enciphered : (apply_keystream c' piece).0 ≡ xor_from (key_byte c) (0 + length plain) piece
      enciphered =
          apply_combines c' piece
          ∙ xor_from_shift (key_byte c') (key_byte c) 0 (0 + length plain) piece (λ n.
            let e : 0 + n ≡ n = omega arith in
            let e' : length plain + n ≡ 0 + length plain + n = omega arith in
            ap (key_byte c') e ∙ h.place n ∙ ap (key_byte c) e')

      answered :
          (a : Result (Unit {0})) (s'' : Inner)
          → write_all s' (apply_keystream c' piece).0 ≡ (a, s'')
          → SentWell c s (plain ++ piece) (a, (apply_keystream c' piece).1, s'')
      answered (err e) s'' q = tt
      answered (ok _) s'' q = record {
        wire =
            write_all_writes s' (apply_keystream c' piece).0 s'' q
            ∙ ap₂ (λ x y. x ++ y) h.wire enciphered
            ∙ append_assoc (written s) _ _
            ∙ ap (λ t. written s ++ t) (sym (xor_from-append (key_byte c) 0 plain piece));
        place = λ i.
            apply_moves c' piece i
            ∙ h.place (length piece + i)
            ∙ ap (key_byte c) (omega (arith, length-append plain piece));
      }

  send_pieces-SentWell :
      (c : AesCtr) (s : Inner) (plain : Bytes) (pieces : List Bytes) (o : Sent p w)
      → SentWell c s plain o
      → SentWell c s (plain ++ joined pieces) (send_pieces p w pieces o)
  unfolding send_pieces
  send_pieces-SentWell c s plain [] o h = subst (λ d. SentWell c s d o) (sym (append-nil plain)) h
  send_pieces-SentWell c s plain (piece ∷ pieces) o h =
      subst (λ d. SentWell c s d (send_pieces p w pieces (send_piece p w piece o)))
        (append_assoc plain piece (joined pieces))
        (send_pieces-SentWell c s (plain ++ piece) pieces (send_piece p w piece o)
          (send_piece-SentWell c s plain piece o h))

  send_padding-SentWell :
      (c : AesCtr) (s : Inner) (plain padding : Bytes) (o : Sent p w)
      → SentWell c s plain o
      → SentWell c s (plain ++ padding) (send_padding p w padding o)
  unfolding send_padding
  send_padding-SentWell c s plain [] o h = subst (λ d. SentWell c s d o) (sym (append-nil plain)) h
  send_padding-SentWell c s plain (b ∷ bs) o h =
      let t : ltb 0 (suc (length bs)) ≡ true = ground arith in
      rw t (send_piece-SentWell c s plain (b ∷ bs) o h)

  flush_sent-SentWell :
      (c : AesCtr) (s : Inner) (plain : Bytes) (o : Sent p w)
      → SentWell c s plain o
      → SentWell c s plain (flush_sent p w o)
  unfolding flush_sent
  flush_sent-SentWell c s plain (err e, c', s') h = tt
  flush_sent-SentWell c s plain (ok _, c', s') h =
      answered (flush s').0 (flush s').1 (flush_keeps s')
    where
      answered :
          (a : Result (Unit {0})) (s'' : Inner)
          → written s'' ≡ written s'
          → SentWell c s plain (a, c', s'')
      answered (err e) s'' q = tt
      answered (ok _) s'' q = record { wire = q ∙ h.wire; place = h.place }

  send_framed-SentWell :
      (size : ℕ) (parts : List Bytes) (c : AesCtr) (s : Inner) (prefix padding : Bytes)
      → 0 < size
      → SentWell c s
          (prefix ++ (joined parts ++ padding))
          (send_framed p w size parts c s (prefix, padding))
  unfolding send_framed
  send_framed-SentWell size parts c s prefix padding z =
      subst (λ d. SentWell c s d (send_framed p w size parts c s (prefix, padding))) whole
        (flush_sent-SentWell c s _ _ (
          send_padding-SentWell c s _ padding _ (
            send_pieces-SentWell c s _ (chunked size parts) _ (
              send_piece-SentWell c s [] prefix (ok tt, c, s)
                (record {
                  wire = sym (append-nil (written s));
                  place = λ i. ap (key_byte c) (omega arith);
                })))))
    where
      whole :
          ((([] ++ prefix) ++ joined (chunked size parts)) ++ padding)
          ≡ prefix ++ (joined parts ++ padding)
      whole =
          ap (λ t. (prefix ++ t) ++ padding) (joined-chunked size parts z)
          ∙ append_assoc prefix (joined parts) padding

  -- What the client finds behind what had been written: a packet whose header states the length of
  -- the body with less than 16 bytes of padding, the body, and the padding, under the cipher.
  pub record IsReply (protocol : Protocol) (c : AesCtr) (s s' : Inner) (body : Bytes) : Type 0 where
    pub prefix : Bytes
    pub padding : Bytes
    pub wire : written s' ≡ written s ++ (apply_keystream c (prefix ++ (body ++ padding))).0
    pub header :
        (more : Bytes)
        → packet_length (prefix ++ more) protocol
          ≡ ok (some (length prefix, length body + length padding))
    pub short : length padding < 16

  framed :
      (parts : List Bytes) (protocol : Protocol) (size : ℕ) (random : Bytes)
      → (c c' : AesCtr) (s s' : Inner) → (length (joined parts) ≢ 0 → 0 < size)
      → 16 ≤ length random
      → (o : Result (Bytes × Bytes)) → checked_frame protocol (length (joined parts)) random ≡ o
      → after_frame p w size parts c s o ≡ (ok tt, c', s')
      → IsReply protocol c s s' (joined parts)
  unfolding after_frame
  framed parts protocol size random c c' s s' z l (err k) q e = cc (ap (λ t. t.0) e)
  framed parts protocol size random c c' s s' z l (ok (prefix, padding)) q e =
      let n = length (joined parts) in
      let (some_bytes, fits, whole, q') = checked_frame-ok protocol n random (prefix, padding) q in
      let sent : IsSent c s (prefix ++ (joined parts ++ padding)) c' s' =
        subst (SentWell c s (prefix ++ (joined parts ++ padding))) e
          (send_framed-SentWell size parts c s prefix padding (z (omega arith))) in
      record {
        prefix = prefix;
        padding = padding;
        wire = sent.wire ∙ ap (λ t. written s ++ t) (sym (apply_combines c _));
        header = λ more.
            (reply_frame-packet_length protocol n random prefix padding more some_bytes fits whole l
              q').0;
        short =
            (reply_frame-packet_length protocol n random prefix padding [] some_bytes fits whole l
              q').1;
      }

  -- With 16 random bytes at hand, a reply that is written well, and whose parts make up the length
  -- given, is a packet for the client: behind what had been written, under the cipher, a header that
  -- states the length of the body with less than 16 bytes of padding, the body, and that padding.
  pub write_encrypted_reply-IsReply :
      (parts : List Bytes) (protocol : Protocol) (buffer_size : ℕ) (random : Bytes)
      → (c c' : AesCtr) (s s' : Inner) → 16 ≤ length random
      → write_encrypted_reply p w (length (joined parts)) parts protocol buffer_size random c s
        ≡ (ok tt, c', s')
      → IsReply protocol c s s' (joined parts)
  unfolding write_encrypted_reply
  write_encrypted_reply-IsReply parts protocol buffer_size random c c' s s' l e =
      framed parts protocol (min (max buffer_size 1) (length (joined parts))) random c c' s s'
        (λ h. omega arith) l (checked_frame protocol (length (joined parts)) random) refl e
