-- ===== src/Proxy/Uploads/Bodies.antt =====
-- A packet inside its frame, from its header to the end of its body.
use tg_ws_keenetic.Base.{
  ℕ, zero, suc, ◌+◌, ◌-◌, ◌≤◌, ◌<◌, min, ◌≡◌, refl, sym, ap, ◌∙◌, Bool, true, none, some, List, [],
  ◌∷◌, ◌++◌, append_assoc, arith, ◌==◌, either, length, length-append, Result, ok, err,
}
use tg_ws_keenetic.Base.Bytes.{Bytes}
use mathlib.Core.Path.{subst}
use tg_ws_keenetic.Base.Wires.{Reader, Writer}
use tg_ws_keenetic.Crypto.{Primitives, Protocol, xor_from}
use tg_ws_keenetic.Crypto.Stream.{xor_from-append, length-xor_from}
use tg_ws_keenetic.Framing.{packet_length}
use tg_ws_keenetic.WebSocket.Writer.{Outcome, payload}
use tg_ws_keenetic.WebSocket.Written.{IsInFrame, InFrame, payload-InFrame}
use tg_ws_keenetic.Proxy.Bridges.{recode}
use tg_ws_keenetic.Proxy.Bridges.Streams.{recoded, recoded-append, IsAligned, recode-IsAligned}
use tg_ws_keenetic.Proxy.Uploads.{
  Upload, Uploaded, Again, after_writer, body_part_read, body_rounds,
}
use tg_ws_keenetic.Proxy.Uploads.Frames.{
  Piece, raws, packet_length_more, IsUploaded, IsUploaded-more,
}

module _ (p : Primitives) (r : Reader) (w : Writer) (protocol : Protocol) (u0 : Upload p r w) where
  abbrev pub Ends : Bool → Uploaded p r w → Type 0
  Ends packetized (none, u) = ⊥
  Ends packetized (some (err kind), u) = Unit
  Ends packetized (some (ok _), u) =
      (pieces : List Piece) × IsUploaded p r w protocol packetized u0 pieces u

  abbrev pub Goes : Bool → Again p r w → ℕ → Type 0
  Goes packetized again rounds =
      (pieces : List Piece) (u : Upload p r w)
      → IsUploaded p r w protocol packetized u0 pieces u
      → length (r.unread u.source) < rounds
      → Ends packetized (again u)

  -- Between the frames of `pieces` and the end of the next one, of which `raw` was read and written.
  pub record IsInPacket (pieces : List Piece) (u1 : Upload p r w) (mask raw : Bytes) (remaining : ℕ)
      (u : Upload p r w) : Type 0 where
    pub before : IsUploaded p r w protocol true u0 pieces u1
    pub read : r.unread u1.source ≡ raw ++ r.unread u.source
    pub inside :
        IsInFrame w
          (w.written u1.sink)
          2
          (length raw + remaining)
          mask
          (recoded p u0.ciphers.decrypt u0.ciphers.encrypt (length (raws pieces)) raw)
          u.writer
          u.sink
    pub aligned :
        IsAligned p u0.ciphers.decrypt u0.ciphers.encrypt
          (length (raws pieces) + length raw)
          u.ciphers
    pub told : u.ciphers.counted ≡ u1.ciphers.counted + length raw
    pub stated :
        (size : ℕ) × (body : ℕ) × (packet_length
            (xor_from (p.key_byte u0.ciphers.decrypt) (length (raws pieces)) raw)
            protocol
          ≡ ok (some (size, body)))
        × (size + body ≡ length raw + remaining)

  packet_complete :
      (pieces : List Piece) (u1 : Upload p r w) (mask raw : Bytes) (u : Upload p r w)
      → IsInPacket pieces u1 mask raw 0 u
      → IsUploaded p r w protocol true u0 (pieces ++ ((mask, raw) ∷ [])) u
  packet_complete pieces u1 mask raw u h =
      let d = u0.ciphers.decrypt in
      let e = u0.ciphers.encrypt in
      let n = length (raws pieces) in
      let size : length raw + 0 ≡ length (recoded p d e n raw) = omega (
        arith,
        length-xor_from (p.key_byte d) n raw,
        length-xor_from (p.key_byte e) n (xor_from (p.key_byte d) n raw),
      ) in
      let (s, b, q, sum) = h.stated in
      IsUploaded-more p r w protocol true u0 pieces mask raw u1 u h.before h.read
        (subst (λ k. IsInFrame w (w.written u1.sink) 2 k mask (recoded p d e n raw) u.writer u.sink)
          size h.inside).wire
        h.aligned h.told (s, b, q, omega (arith, sum, length-xor_from (p.key_byte d) n raw))

  body_part_read-Ends :
      (next : Again p r w) (rounds left : ℕ) (again : ℕ → Again p r w)
      → ((pieces : List Piece) (u1 : Upload p r w) (mask raw : Bytes) (remaining : ℕ)
            (u : Upload p r w)
          → remaining ≤ rounds
          → IsInPacket pieces u1 mask raw remaining u
          → length (r.unread u.source) < left
          → Ends true (again remaining u))
      → (pieces : List Piece) (u1 : Upload p r w) (mask raw : Bytes) (remaining : ℕ)
        (u : Upload p r w)
      → remaining ≤ suc rounds
      → IsInPacket pieces u1 mask raw remaining u
      → length (r.unread u.source) < left
      → (o : Result Bytes × r.Inner)
      → ((bs : Bytes) (s : r.Inner)
          → o ≡ (ok bs, s)
          → (r.unread u.source ≡ bs ++ r.unread s) × (length bs ≤ remaining))
      → Ends true (body_part_read p r w again remaining u o)
  unfolding body_part_read
  body_part_read-Ends next rounds left again g pieces u1 mask raw remaining u k h l (err kind, s)
        e =
      tt
  body_part_read-Ends next rounds left again g pieces u1 mask raw remaining u k h l (ok [], s) e =
      tt
  body_part_read-Ends next rounds left again g pieces u1 mask raw remaining u k h l (ok (b ∷ bs), s)
        e =
      sent (payload w (recode p (b ∷ bs) u.ciphers).0 u.writer u.sink) refl
    where
      d : p.AesCtr
      d = u0.ciphers.decrypt

      c : p.AesCtr
      c = u0.ciphers.encrypt

      n : ℕ
      n = length (raws pieces)

      moved : Upload p r w
      moved = record u { source = s; ciphers = (recode p (b ∷ bs) u.ciphers).1 }

      laws :
          ((recode p (b ∷ bs) u.ciphers).0 ≡ recoded p d c (n + length raw) (b ∷ bs))
          × IsAligned p d c (n + length raw + length (b ∷ bs)) (recode p (b ∷ bs) u.ciphers).1
          × ((recode p (b ∷ bs) u.ciphers).1.counted ≡ u.ciphers.counted + length (b ∷ bs))
      laws = recode-IsAligned p d c (n + length raw) (b ∷ bs) u.ciphers h.aligned

      sent :
          (a : Outcome w)
          → payload w (recode p (b ∷ bs) u.ciphers).0 u.writer u.sink ≡ a
          → Ends true (after_writer p r w (again (remaining - length (b ∷ bs))) moved a)
      sent (err kind, ws, t) q = unfold after_writer in tt
      sent (ok _, ws, t) q =
          let (taken, fits) = e (b ∷ bs) s refl in
          let fit : length (b ∷ bs) ≤ remaining = fits in
          let inside : IsInFrame w (w.written u1.sink) 2 (length raw + remaining) mask
              (recoded p d c n raw ++ (recode p (b ∷ bs) u.ciphers).0) ws t =
            subst
              (InFrame w (w.written u1.sink) 2 (length raw + remaining) mask
                (recoded p d c n raw ++ (recode p (b ∷ bs) u.ciphers).0))
              q
              (payload-InFrame w (w.written u1.sink) 2 (length raw + remaining) mask
                (recoded p d c n raw) (recode p (b ∷ bs) u.ciphers).0 u.writer u.sink h.inside) in
          let whole : recoded p d c n raw ++ (recode p (b ∷ bs) u.ciphers).0
              ≡ recoded p d c n (raw ++ (b ∷ bs)) =
            ap (λ x. recoded p d c n raw ++ x) laws.0 ∙ sym (recoded-append p d c n raw (b ∷ bs)) in
          let total : length raw + remaining
              ≡ length (raw ++ (b ∷ bs)) + (remaining - length (b ∷ bs)) =
            omega (arith, length-append raw (b ∷ bs), fit) in
          let (size, body, stated, sum) = h.stated in
          unfold after_writer in
          g pieces u1 mask (raw ++ (b ∷ bs)) (remaining - length (b ∷ bs))
            (record moved { writer = ws; sink = t }) (omega (arith, k))
            (record {
              before = h.before;
              read =
                  h.read ∙ ap (λ x. raw ++ x) taken ∙ sym (append_assoc raw (b ∷ bs) (r.unread s));
              inside =
                  subst
                    (λ x.
                      IsInFrame w (w.written u1.sink) 2 x mask (recoded p d c n (raw ++ (b ∷ bs)))
                        ws t)
                    total
                    (subst
                      (λ x. IsInFrame w (w.written u1.sink) 2 (length raw + remaining) mask x ws t)
                      whole inside);
              aligned =
                  subst (λ x. IsAligned p d c x (recode p (b ∷ bs) u.ciphers).1)
                    (omega (arith, length-append raw (b ∷ bs))) laws.1;
              told = omega (arith, laws.2, h.told, length-append raw (b ∷ bs));
              stated = (
                size,
                body,
                ap (λ x. packet_length x protocol) (xor_from-append (p.key_byte d) n raw (b ∷ bs))
                    ∙ packet_length_more (xor_from (p.key_byte d) n raw)
                        (xor_from (p.key_byte d) (n + length raw) (b ∷ bs)) protocol size body
                        stated,
                omega (arith, sum, total),
              );
            })
            (omega (arith, l, ap length taken, length-append bs (r.unread s)))

  pub body_rounds-Ends :
      (rounds buffer_size : ℕ) (next : Again p r w) (left : ℕ)
      → Goes true next left
      → (pieces : List Piece) (u1 : Upload p r w) (mask raw : Bytes) (remaining : ℕ)
        (u : Upload p r w)
      → remaining ≤ rounds
      → IsInPacket pieces u1 mask raw remaining u
      → length (r.unread u.source) < left
      → Ends true (body_rounds p r w rounds buffer_size next remaining u)
  unfolding body_rounds
  body_rounds-Ends zero buffer_size next left g pieces u1 mask raw remaining u k h l =
      let none_left : remaining ≡ 0 = omega (arith, k) in
      either (Ends true) (remaining == 0)
        (λ _.
          g (pieces ++ ((mask, raw) ∷ [])) u
            (packet_complete pieces u1 mask raw u
              (subst (λ x. IsInPacket pieces u1 mask raw x u) none_left h))
            l)
        (λ more. absurd (ground arith))
  body_rounds-Ends (suc rounds) buffer_size next left g pieces u1 mask raw remaining u k h l =
      either (Ends true) (remaining == 0)
        (λ done.
          let none_left : remaining ≡ 0 = ground arith in
          g (pieces ++ ((mask, raw) ∷ [])) u
            (packet_complete pieces u1 mask raw u
              (subst (λ x. IsInPacket pieces u1 mask raw x u) none_left h))
            l)
        (λ more.
          body_part_read-Ends next rounds left (body_rounds p r w rounds buffer_size next)
            (body_rounds-Ends rounds buffer_size next left g) pieces u1 mask raw remaining u k h l
            (r.read u.source (min remaining buffer_size))
            (λ bs s e. (
              r.read_takes u.source (min remaining buffer_size) bs s e,
              omega (arith, r.read_fits u.source (min remaining buffer_size) bs s e),
            )))
