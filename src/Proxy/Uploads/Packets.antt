-- ===== src/Proxy/Uploads/Packets.antt =====
-- What an upload has written when it ends: a frame for each packet, or for each read.
use tg_ws_keenetic.Base.{
  ℕ, zero, suc, ◌+◌, ◌-◌, ◌≤◌, ◌<◌, ◌≡◌, refl, sym, ap, ◌∙◌, Bool, true, false, some, List, [], ◌∷◌,
  ◌++◌, append-nil, arith, ltb, either, length, get_or, length-append, Result, ok, err,
}
use tg_ws_keenetic.Base.Bytes.{Bytes}
use mathlib.Core.Path.{subst, ap₂}
use tg_ws_keenetic.Base.Wires.{Reader, Writer}
use tg_ws_keenetic.Crypto.{Primitives, Protocol}
use tg_ws_keenetic.Crypto.Stream.{length-xor_from, length-apply_keystream}
use tg_ws_keenetic.Framing.{header_len, packet_length}
use tg_ws_keenetic.Framing.Lengths.{packet_length_bounds}
use tg_ws_keenetic.WebSocket.Writer.{Outcome, binary}
use tg_ws_keenetic.WebSocket.Frames.{frame}
use tg_ws_keenetic.WebSocket.Written.{binary_writes}
use tg_ws_keenetic.Proxy.Bridges.{recode}
use tg_ws_keenetic.Proxy.Bridges.Streams.{
  IsAt, apply_keystream-IsAt, IsAt-start, recoded, IsAligned, recode-IsAligned,
}
use tg_ws_keenetic.Proxy.Uploads.{
  decipher, Upload, Again, after_writer, after_read, header_read, first_byte_read, upload_rounds,
  upload_ws,
}
use tg_ws_keenetic.Framing.Lengths.{header_len_cases}
use tg_ws_keenetic.Proxy.Uploads.Frames.{Piece, raws, IsUploaded, IsUploaded-more}
use tg_ws_keenetic.Proxy.Uploads.Bodies.{Ends, Goes}
use tg_ws_keenetic.Proxy.Uploads.Headers.{IsHeader, after_length-Ends}

-- The header length that is stated for a header of just that length.
stated_size :
    (first : ℕ) (rest : Bytes) (protocol : Protocol)
    → length (first ∷ rest) ≡ header_len first protocol
    → (size remaining : ℕ) → packet_length (first ∷ rest) protocol ≡ ok (some (size, remaining))
    → size ≡ length (first ∷ rest)
stated_size first rest protocol l size remaining e =
    (packet_length_bounds first rest protocol size remaining e).0 ∙ sym l

module _ (p : Primitives) (r : Reader) (w : Writer) (protocol : Protocol) (u0 : Upload p r w) where
  raw_read-Ends :
      (mask : Bytes) (again : Again p r w) (rounds : ℕ) (pieces : List Piece) (u : Upload p r w)
      → Goes p r w protocol u0 false again rounds
      → IsUploaded p r w protocol false u0 pieces u
      → length (r.unread u.source) < suc rounds
      → (o : Result Bytes × r.Inner)
      → ((bs : Bytes) (s : r.Inner) → o ≡ (ok bs, s) → r.unread u.source ≡ bs ++ r.unread s)
      → Ends p r w protocol u0 false (after_read p r w mask again u o)
  unfolding after_read
  raw_read-Ends mask again rounds pieces u g h l (err kind, s) e = tt
  raw_read-Ends mask again rounds pieces u g h l (ok [], s) e = (
    pieces,
    record {
      read = h.read ∙ ap (λ x. raws pieces ++ x) (e [] s refl);
      wrote = h.wrote;
      aligned = h.aligned;
      told = h.told;
      whole = h.whole;
    },
  )
  raw_read-Ends mask again rounds pieces u g h l (ok (b ∷ bs), s) e =
      sent (binary w mask (recode p (b ∷ bs) u.ciphers).0 u.writer u.sink) refl
    where
      d : p.AesCtr
      d = u0.ciphers.decrypt

      c : p.AesCtr
      c = u0.ciphers.encrypt

      n : ℕ
      n = length (raws pieces)

      moved : Upload p r w
      moved = record u { source = s; ciphers = (recode p (b ∷ bs) u.ciphers).1 }

      laws :
          ((recode p (b ∷ bs) u.ciphers).0 ≡ recoded p d c n (b ∷ bs))
          × IsAligned p d c (n + length (b ∷ bs)) (recode p (b ∷ bs) u.ciphers).1
          × ((recode p (b ∷ bs) u.ciphers).1.counted ≡ u.ciphers.counted + length (b ∷ bs))
      laws = recode-IsAligned p d c n (b ∷ bs) u.ciphers h.aligned

      taken : r.unread u.source ≡ (b ∷ bs) ++ r.unread s
      taken = e (b ∷ bs) s refl

      sent :
          (a : Outcome w)
          → binary w mask (recode p (b ∷ bs) u.ciphers).0 u.writer u.sink ≡ a
          → Ends p r w protocol u0 false (after_writer p r w again moved a)
      sent (err kind, ws, t) q = unfold after_writer in tt
      sent (ok tt, ws, t) q =
          unfold after_writer in
          g (pieces ++ ((mask, b ∷ bs) ∷ [])) (record moved { writer = ws; sink = t })
            (IsUploaded-more p r w protocol false u0 pieces mask (b ∷ bs) u
              (record moved { writer = ws; sink = t }) h taken
              ((binary_writes w mask (recode p (b ∷ bs) u.ciphers).0 u.writer ws u.sink t q).0
                ∙ ap (λ x. w.written u.sink ++ frame 2 mask x) laws.0)
              laws.1 laws.2 (omega (arith, length-xor_from (p.key_byte d) n (b ∷ bs))))
            (omega (arith, l, ap length taken, length-append bs (r.unread s)))

  module _ (mask : Bytes) (buffer_size rounds : ℕ) (again : Again p r w)
      (g : Goes p r w protocol u0 true again rounds) (pieces : List Piece) (u : Upload p r w)
      (h : IsUploaded p r w protocol true u0 pieces u) where
    header_read-Ends :
        (b : ℕ) (first : Bytes) (begun : Upload p r w)
        → IsHeader p r w protocol u0 pieces u (b ∷ []) first begun
        → (x : ℕ) → first ≡ x ∷ []
        → 1 < header_len x protocol
        → w.written begun.sink ≡ w.written u.sink
        → length (r.unread begun.source) < rounds
        → (o : Result Bytes × r.Inner)
        → ((bs : Bytes) (s : r.Inner)
            → o ≡ (ok bs, s)
            → (r.unread begun.source ≡ bs ++ r.unread s) × (length bs ≡ header_len x protocol - 1))
        → Ends p r w protocol u0 true
            (header_read p r w mask buffer_size protocol again first begun o)
    unfolding header_read decipher
    header_read-Ends b first begun k x one long same l (err kind, s) e = tt
    header_read-Ends b first begun k x one long same l (ok bs, s) e =
        let d = u0.ciphers.decrypt in
        let n = length (raws pieces) in
        let (taken, fills) = e bs s refl in
        let (plain, moved) = apply_keystream-IsAt p d begun.ciphers.decrypt (n + 1) bs k.decrypts in
        let more = (p.apply_keystream begun.ciphers.decrypt bs).0 in
        let read : Upload p r w = record begun {
          source = s;
          ciphers = record begun.ciphers {
            decrypt = (p.apply_keystream begun.ciphers.decrypt bs).1;
          };
        } in
        let sizes : length (x ∷ more) ≡ header_len x protocol =
          omega (arith, length-apply_keystream p begun.ciphers.decrypt bs, fills, long) in
        after_length-Ends p r w protocol u0 buffer_size rounds again g pieces u mask (b ∷ bs)
          (first ++ more) read (packet_length (first ++ more) protocol)
          (record {
            before = k.before;
            read = k.read ∙ ap (λ y. b ∷ y) taken;
            plain = ap₂ (λ y z. y ++ z) k.plain plain;
            decrypts =
                subst (λ y. IsAt p d y (p.apply_keystream begun.ciphers.decrypt bs).1) (omega arith)
                  moved;
            encrypts = k.encrypts;
            told = k.told;
          })
          refl
          (λ size remaining q.
            subst
              (λ y.
                packet_length (y ++ more) protocol ≡ ok (some (size, remaining))
                → size ≡ length (y ++ more))
              (sym one) (stated_size x more protocol sizes size remaining) q)
          same (omega (arith, l, ap length taken, length-append bs (r.unread s)))

    first_byte_read-Ends :
        length (r.unread u.source) < suc rounds
        → (o : Result Bytes × r.Inner)
        → ((bs : Bytes) (s : r.Inner)
            → o ≡ (ok bs, s)
            → (r.unread u.source ≡ bs ++ r.unread s) × (length bs ≤ 1))
        → Ends p r w protocol u0 true (first_byte_read p r w mask buffer_size protocol again u o)
    unfolding first_byte_read decipher
    first_byte_read-Ends l (err kind, s) e = tt
    first_byte_read-Ends l (ok [], s) e = (
      pieces,
      record {
        read = h.read ∙ ap (λ x. raws pieces ++ x) (e [] s refl).0;
        wrote = h.wrote;
        aligned = h.aligned;
        told = h.told;
        whole = h.whole;
      },
    )
    first_byte_read-Ends l (ok (b ∷ c ∷ bs), s) e =
        absurd (omega (arith, (e (b ∷ c ∷ bs) s refl).1))
    first_byte_read-Ends l (ok (b ∷ []), s) e =
        let d = u0.ciphers.decrypt in
        let n = length (raws pieces) in
        let taken = (e (b ∷ []) s refl).0 in
        let (plain, moved) =
          apply_keystream-IsAt p d u.ciphers.decrypt n (b ∷ []) h.aligned.decrypts in
        let first = (p.apply_keystream u.ciphers.decrypt (b ∷ [])).0 in
        let begun : Upload p r w = record u {
          source = s;
          ciphers = record u.ciphers { decrypt = (p.apply_keystream u.ciphers.decrypt (b ∷ [])).1 };
        } in
        let k : IsHeader p r w protocol u0 pieces u (b ∷ []) first begun = record {
          before = h;
          read = taken;
          plain = plain;
          decrypts = moved;
          encrypts = h.aligned.encrypts;
          told = refl;
        } in
        let x = get_or first 0 0 in
        let one : first ≡ x ∷ [] =
          single first (length-apply_keystream p u.ciphers.decrypt (b ∷ [])) in
        let less : length (r.unread s) < rounds = omega (arith, l, ap length taken) in
        either (Ends p r w protocol u0 true) (ltb 1 (header_len x protocol))
          (λ long.
            header_read-Ends b first begun k x one (ground arith) refl less
              (r.read_exact s (header_len x protocol - 1))
              (λ bs s' q. (
                r.read_exact_takes s (header_len x protocol - 1) bs s' q,
                r.read_exact_fills s (header_len x protocol - 1) bs s' q,
              )))
          (λ short.
            let sizes : length (x ∷ []) ≡ header_len x protocol =
              ground (arith, header_len_cases x protocol) in
            after_length-Ends p r w protocol u0 buffer_size rounds again g pieces u mask (b ∷ [])
              first begun (packet_length first protocol) k refl
              (λ size remaining q.
                subst
                  (λ y. packet_length y protocol ≡ ok (some (size, remaining)) → size ≡ length y)
                  (sym one) (stated_size x [] protocol sizes size remaining) q)
              refl less)
      where
        single : (bs : Bytes) → length bs ≡ 1 → bs ≡ get_or bs 0 0 ∷ []
        single [] k = absurd (omega arith)
        single (x ∷ []) k = refl
        single (x ∷ y ∷ bs) k = absurd (omega arith)

  upload_rounds-Ends :
      (rounds : ℕ) (masks : ℕ → Bytes) (packetized : Bool) (buffer_size : ℕ)
      → Goes p r w protocol u0 packetized
          (upload_rounds p r w rounds masks protocol packetized buffer_size)
          rounds
  unfolding upload_rounds
  upload_rounds-Ends zero masks packetized n pieces u h l = absurd (omega arith)
  upload_rounds-Ends (suc rounds) masks false n pieces u h l =
      raw_read-Ends (masks rounds) (upload_rounds p r w rounds masks protocol false n) rounds pieces
        u (upload_rounds-Ends rounds masks false n) h l (r.read u.source n)
        (λ bs s e. r.read_takes u.source n bs s e)
  upload_rounds-Ends (suc rounds) masks true n pieces u h l =
      first_byte_read-Ends (masks rounds) n rounds
        (upload_rounds p r w rounds masks protocol true n) (upload_rounds-Ends rounds masks true n)
        pieces u h l (r.read u.source 1)
        (λ bs s e. (r.read_takes u.source 1 bs s e, r.read_fits u.source 1 bs s e))

-- An upload always comes to an end of its loop. Where that is the end of the client's data and not
-- an error, all that was read was written in order, as binary frames around its pieces, deciphered
-- and enciphered as a whole, and its length was counted. Where packets are asked for, each piece is
-- one whole MTProto packet, of the length that its header states.
pub upload_ws-Ends :
    (p : Primitives) (r : Reader) (w : Writer) (masks : ℕ → Bytes) (protocol : Protocol)
    (packetized : Bool)
    → (buffer_size : ℕ) (u : Upload p r w)
    → Ends p r w protocol u packetized (upload_ws p r w masks protocol packetized buffer_size u)
unfolding upload_ws
upload_ws-Ends p r w masks protocol packetized n u =
    upload_rounds-Ends p r w protocol u (length (r.unread u.source) + 1) masks packetized n [] u
      (record {
        read = refl;
        wrote = sym (append-nil (w.written u.sink));
        aligned = record {
          decrypts = IsAt-start p u.ciphers.decrypt;
          encrypts = IsAt-start p u.ciphers.encrypt;
        };
        told = omega arith;
        whole = tt;
      })
      (omega arith)
