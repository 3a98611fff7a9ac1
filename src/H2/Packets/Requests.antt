-- ===== src/H2/Packets/Requests.antt =====
-- What `read_packet` takes from the native client.
use tg_ws_keenetic.Base.{
  ℕ, ◌+◌, ◌-◌, ◌≤◌, ◌≡◌, refl, sym, ap, ◌∙◌, ◌⊎◌, inl, inr, false, ◌||◌, Option, none, some, [],
  ◌∷◌, ◌++◌, append_assoc, arith, ltb, Bool-cases, length, drop, length-append, drop_at, Result, ok,
  err, ErrorKind, ◌>>=◌, ok_inj,
}
use tg_ws_keenetic.Base.Bytes.{Bytes}
use mathlib.Core.Path.{ap₂, subst}
use tg_ws_keenetic.Base.Wires.{Reader}
use tg_ws_keenetic.Crypto.{
  xor_from, Protocol, abridged, intermediate, padded_intermediate, Primitives,
}
use tg_ws_keenetic.Crypto.Stream.{xor_from_shift, xor_from-append, length-xor_from}
use tg_ws_keenetic.Framing.{header_len, packet_length}
use tg_ws_keenetic.Framing.Lengths.{packet_length_bounds, packet_length-append, header_len_cases}
use tg_ws_keenetic.H2.Packets.Padding.{IsBody, body_of-IsBody}
use tg_ws_keenetic.H2.Packets.{
  maximum, deciphered, receive, body_of, after_body_read, beside, of_length, admit_length,
  admitted_length, read_body, after_rest, after_first, read_packet,
}

Result-cases {κ} :
    {T : Type κ} (r : Result T) → ((k : ErrorKind) × (r ≡ err k)) ⊎ ((t : T) × (r ≡ ok t))
Result-cases (err k) = inl (k, refl)
Result-cases (ok t) = inr (t, refl)

-- 4 MiB, and room for the padding of a padded transport.
abbrev pub largest : Protocol → ℕ
largest abridged = 4194304
largest intermediate = 4194304
largest padded_intermediate = 4194304 + 256

maximum_is : (protocol : Protocol) → maximum protocol ≡ largest protocol
maximum_is abridged = refl
maximum_is intermediate = refl
maximum_is padded_intermediate = refl

module _ (p : Primitives) (r : Reader) where
  open p use {AesCtr, apply_keystream, key_byte, apply_combines, apply_moves}
  open r use {Inner, read_exact, unread, read_exact_takes, read_exact_fills}

  -- Some bytes have been taken, and deciphered from the cipher's place on.
  record IsReceived (c : AesCtr) (s : Inner) (plain : Bytes) (c' : AesCtr) (s' : Inner)
      : Type 0 where
    taken : Bytes
    wire : unread s ≡ taken ++ unread s'
    under : plain ≡ xor_from (key_byte c) 0 taken
    place : (i : ℕ) → key_byte c' i ≡ key_byte c (length taken + i)

  IsReceived-append :
      (c c' c'' : AesCtr) (s s' s'' : Inner) (xs ys : Bytes)
      → IsReceived c s xs c' s'
      → IsReceived c' s' ys c'' s''
      → IsReceived c s (xs ++ ys) c'' s''
  IsReceived-append c c' c'' s s' s'' xs ys h k = record {
    taken = h.taken ++ k.taken;
    wire = h.wire ∙ ap (λ t. h.taken ++ t) k.wire ∙ sym (append_assoc h.taken k.taken (unread s''));
    under =
        ap₂ (λ x y. x ++ y) h.under
          (k.under
            ∙ xor_from_shift (key_byte c') (key_byte c) 0 (0 + length h.taken) k.taken (λ n.
              let e : 0 + n ≡ n = omega arith in
              let e' : length h.taken + n ≡ 0 + length h.taken + n = omega arith in
              ap (key_byte c') e ∙ h.place n ∙ ap (key_byte c) e'))
        ∙ sym (xor_from-append (key_byte c) 0 h.taken k.taken);
    place = λ i.
        k.place i
        ∙ h.place (length k.taken + i)
        ∙ ap (key_byte c) (omega (arith, length-append h.taken k.taken));
  }

  receive-IsReceived :
      (n : ℕ) (c c' : AesCtr) (s s' : Inner) (plain : Bytes)
      → receive p r n c s ≡ (ok plain, c', s')
      → IsReceived c s plain c' s' × (length plain ≡ n)
  unfolding receive deciphered
  receive-IsReceived n c c' s s' plain e = found (read_exact s n).0 (read_exact s n).1 refl e
    where
      found :
          (a : Result Bytes) (t : Inner)
          → read_exact s n ≡ (a, t)
          → deciphered p r c (a, t) ≡ (ok plain, c', s')
          → IsReceived c s plain c' s' × (length plain ≡ n)
      found (err k) t q e = cc (ap (λ x. x.0) e)
      found (ok d) t q e =
          let same : (apply_keystream c d).0 ≡ plain = ok_inj (ap (λ x. x.0) e) in
          let moved : (apply_keystream c d).1 ≡ c' = ap (λ x. x.1) e in
          let left : t ≡ s' = ap (λ x. x.2) e in
          (
            record {
              taken = d;
              wire = read_exact_takes s n d t q ∙ ap (λ x. d ++ unread x) left;
              under = sym same ∙ apply_combines c d;
              place = λ i. ap (λ x. key_byte x i) (sym moved) ∙ apply_moves c d i;
            },
            ap length (sym same ∙ apply_combines c d)
                ∙ length-xor_from (key_byte c) 0 d
                ∙ read_exact_fills s n d t q,
          )

  module _ {C : Type 0} (reserve : ℕ → Result C) (usize_max : ℕ) where
    -- A packet taken from the client: its bytes are deciphered as one stream, its header states
    -- its length, which is within the bounds and reserved, and the body is what follows the header,
    -- without the padding of a padded transport.
    pub record IsPacket (protocol : Protocol) (c : AesCtr) (s s' : Inner) (body : Bytes)
        (capacity : C) : Type 0 where
      pub taken : Bytes
      pub size : ℕ
      pub payload : ℕ
      pub wire : unread s ≡ taken ++ unread s'
      pub extent : length taken ≡ size + payload
      pub header : packet_length (apply_keystream c taken).0 protocol ≡ ok (some (size, payload))
      pub bounds : (24 ≤ payload) × (payload ≤ largest protocol)
      pub reserved : reserve payload ≡ ok capacity
      pub content : IsBody protocol (drop size (apply_keystream c taken).0) body

    Admits : Protocol → Bytes → ℕ → C → ℕ → Type 0
    Admits protocol header n capacity size =
        (packet_length header protocol ≡ ok (some (size, n)))
        × ((24 ≤ n) × (n ≤ maximum protocol))
        × (reserve n ≡ ok capacity)

    admitted_length-ok :
        (protocol : Protocol) (header : Bytes) (n : ℕ) (capacity : C)
        → admitted_length p r reserve usize_max protocol header ≡ ok (n, capacity)
        → (size : ℕ) × Admits protocol header n capacity size
    unfolding admitted_length admit_length Admits
    admitted_length-ok protocol header n capacity e = found (packet_length header protocol) refl e
      where
        reserved_for :
            (size m : ℕ)
            → packet_length header protocol ≡ ok (some (size, m))
            → (ltb m 24 || ltb (maximum protocol) m) ≡ false
            → (a : Result C) → reserve m ≡ a
            → (a >>= of_length p r reserve usize_max m) ≡ ok (n, capacity)
            → (size : ℕ) × Admits protocol header n capacity size
        reserved_for size m q f (err k) qa e = cc e
        reserved_for size m q f (ok k) qa e =
            let same : m ≡ n = ap (λ x. x.0) (ok_inj e) in
            let same' : k ≡ capacity = ap (λ x. x.1) (ok_inj e) in
            (
              size,
              (
                q ∙ ap (λ x. ok (some (size, x))) same,
                (ground (arith, f, same), ground (arith, f, same)),
                ap reserve (sym same) ∙ qa ∙ ap ok same',
              ),
            )

        found :
            (a : Result (Option (ℕ × ℕ)))
            → packet_length header protocol ≡ a
            → (a >>= admit_length p r reserve usize_max protocol) ≡ ok (n, capacity)
            → (size : ℕ) × Admits protocol header n capacity size
        found (err k) q e = cc e
        found (ok none) q e = cc e
        found (ok (some (size, m))) q e = elim (Bool-cases (ltb m 24 || ltb (maximum protocol) m)) [
          | inl t ↦ cc (simp t at e)
          | inr f ↦ reserved_for size m q f (reserve m) refl (simp f at e)
        ]

    read_body-IsPacket :
        (protocol : Protocol) (first : ℕ) (rest : Bytes) (c c' c'' : AesCtr) (s s' s'' : Inner)
        → (body : Bytes) (capacity : C) → IsReceived c s (first ∷ rest) c' s'
        → length (first ∷ rest) ≡ header_len first protocol
        → (a : Result (ℕ × C)) → admitted_length p r reserve usize_max protocol (first ∷ rest) ≡ a
        → read_body p r reserve usize_max protocol c' s' a ≡ (ok (body, capacity), c'', s'')
        → IsPacket protocol c s s'' body capacity
    unfolding read_body after_body_read Admits
    read_body-IsPacket protocol first rest c c' c'' s s' s'' body capacity h l (err k) q e =
        cc (ap (λ x. x.0) e)
    read_body-IsPacket protocol first rest c c' c'' s s' s'' body capacity h l (ok (n, k)) q e =
        received (receive p r n c' s').0 (receive p r n c' s').1 (receive p r n c' s').2 refl e
      where
        received :
            (a : Result Bytes) (d : AesCtr) (t : Inner)
            → receive p r n c' s' ≡ (a, d, t)
            → after_body_read p r reserve usize_max protocol k (a, d, t)
              ≡ (ok (body, capacity), c'', s'')
            → IsPacket protocol c s s'' body capacity
        received (err k) d t qr e = cc (ap (λ x. x.0) e)
        received (ok plain) d t qr e =
            packet (body_of usize_max protocol plain) refl (ap (λ x. x.0) e)
          where
            packet :
                (b : Result Bytes)
                → body_of usize_max protocol plain ≡ b
                → (b >>= beside p r reserve usize_max k) ≡ ok (body, capacity)
                → IsPacket protocol c s s'' body capacity
            packet (err k) qb eb = cc eb
            packet (ok made) qb eb =
                let (size, (states, within, kept)) =
                  admitted_length-ok protocol (first ∷ rest) n k q in
                let (of_body, many) = receive-IsReceived n c' d s' t plain qr in
                let all = IsReceived-append c c' d s s' t (first ∷ rest) plain h of_body in
                let (here, enough, positive, most) =
                  packet_length_bounds first rest protocol size n states in
                let whole : (apply_keystream c all.taken).0 ≡ (first ∷ rest) ++ plain =
                  apply_combines c all.taken ∙ sym all.under in
                let capacity_same : k ≡ capacity = ap (λ x. x.1) (ok_inj eb) in
                record {
                  taken = all.taken;
                  size = size;
                  payload = n;
                  wire = all.wire ∙ ap (λ x. all.taken ++ unread x) (ap (λ x. x.2) e);
                  extent = omega (
                    arith,
                    ap length all.under,
                    length-xor_from (key_byte c) 0 all.taken,
                    length-append (first ∷ rest) plain,
                    many,
                    l,
                    here,
                  );
                  header =
                      ap (λ x. packet_length x protocol) whole
                      ∙ packet_length-append first rest plain protocol (omega (arith, here, enough))
                      ∙ states;
                  bounds = (within.0, subst (λ m. n ≤ m) (maximum_is protocol) within.1);
                  reserved = kept ∙ ap ok capacity_same;
                  content =
                      body_of-IsBody usize_max protocol (drop size (apply_keystream c all.taken).0)
                        body
                        (ap (λ x. body_of usize_max protocol (drop size x)) whole
                          ∙ ap (body_of usize_max protocol)
                              (drop_at (first ∷ rest) plain size (l ∙ sym here))
                          ∙ qb
                          ∙ ap ok (ap (λ x. x.0) (ok_inj eb)));
                }

    after_first-IsPacket :
        (protocol : Protocol) (first : ℕ) (c c' c'' : AesCtr) (s s' s'' : Inner)
        → (body : Bytes) (capacity : C) → IsReceived c s (first ∷ []) c' s'
        → after_first p r reserve usize_max protocol (ok (first ∷ []), c', s')
          ≡ (ok (body, capacity), c'', s'')
        → IsPacket protocol c s s'' body capacity
    unfolding after_first after_rest
    after_first-IsPacket protocol first c c' c'' s s' s'' body capacity h e =
        elim (Bool-cases (ltb 1 (header_len first protocol))) [
          | inr f ↦
              read_body-IsPacket protocol first [] c c' c'' s s' s'' body capacity h
                (ground (arith, f, header_len_cases first protocol)) _ refl (simp f at e)
          | inl t ↦
              longer (receive p r (header_len first protocol - 1) c' s').0
                (receive p r (header_len first protocol - 1) c' s').1
                (receive p r (header_len first protocol - 1) c' s').2 refl (simp t at e)
        ]
      where
        longer :
            (a : Result Bytes) (d : AesCtr) (t : Inner)
            → receive p r (header_len first protocol - 1) c' s' ≡ (a, d, t)
            → after_rest p r reserve usize_max protocol (first ∷ []) (a, d, t)
              ≡ (ok (body, capacity), c'', s'')
            → IsPacket protocol c s s'' body capacity
        longer (err k) d t q e = cc (ap (λ x. x.0) e)
        longer (ok rest) d t q e =
            let (more, many) =
              receive-IsReceived (header_len first protocol - 1) c' d s' t rest q in
            read_body-IsPacket protocol first rest c d c'' s t s'' body capacity
              (IsReceived-append c c' d s s' t (first ∷ []) rest h more)
              (ground (arith, many, header_len_cases first protocol)) _ refl e

    -- What `read_packet` accepts from the client is one packet: the bytes that it takes, deciphered
    -- as one stream, are a header and as many bytes as it states, a number within the bounds that
    -- has been reserved before they are read, and the body is those bytes, at most 4 MiB in words of
    -- four bytes, without the padding of a padded transport: that of a plaintext packet, which
    -- states its length, has at most 256 bytes, and that of an encrypted one, of whole blocks,
    -- at most 15.
    pub read_packet-IsPacket :
        (protocol : Protocol) (c c' : AesCtr) (s s' : Inner) (body : Bytes) (capacity : C)
        → read_packet p r reserve usize_max protocol c s ≡ (ok (body, capacity), c', s')
        → IsPacket protocol c s s' body capacity
    unfolding read_packet
    read_packet-IsPacket protocol c c' s s' body capacity e =
        first_byte (receive p r 1 c s).0 (receive p r 1 c s).1 (receive p r 1 c s).2 refl e
      where
        first_byte :
            (a : Result Bytes) (d : AesCtr) (t : Inner)
            → receive p r 1 c s ≡ (a, d, t)
            → after_first p r reserve usize_max protocol (a, d, t) ≡ (ok (body, capacity), c', s')
            → IsPacket protocol c s s' body capacity
        first_byte (err k) d t q e = cc (ap (λ x. x.0) (unfold after_first in e))
        first_byte (ok (b ∷ [])) d t q e =
            after_first-IsPacket protocol b c d c' s t s' body capacity
              (receive-IsReceived 1 c d s t (b ∷ []) q).0 e
        first_byte (ok []) d t q e = absurd (omega (arith, (receive-IsReceived 1 c d s t [] q).1))
        first_byte (ok (a ∷ b ∷ bs)) d t q e =
            absurd (omega (arith, (receive-IsReceived 1 c d s t (a ∷ b ∷ bs) q).1))
