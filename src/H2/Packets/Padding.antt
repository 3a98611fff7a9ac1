-- ===== src/H2/Packets/Padding.antt =====
-- Padding is cut off a packet exactly.
use tg_ws_keenetic.Base.{
  ℕ, ◌+◌, ◌-◌, ◌*◌, ◌/◌, ◌%◌, ◌≤◌, ◌≡◌, ◌≢◌, ◌⊎◌, inl, inr, refl, sym, ap, ◌∙◌, Bool, true, false,
  not, ◌||◌, none, some, ◌==◌, ltb, leb, if◌then◌else◌, Bool-cases, ◌++◌, arith, length, get_or,
  take, drop, replicate, length-append, length-take, length-drop, take-append-drop, take_at,
  take-append, get_or-append, Result, ok, err, ErrorKind, ◌>>=◌, ok_inj, passed,
}
use tg_ws_keenetic.Base.Bytes.{Bytes, from_le_u32, bytes_eq, bytes_eq→eq, bytes_eq_refl}
use tg_ws_keenetic.Crypto.{Protocol, abridged, intermediate, padded_intermediate}
use tg_ws_keenetic.H2.Packets.{
  max_packet, max_plain_padding, max_encrypted_padding, padded_length, cut_padding,
  strip_padded_body, checked_body, body_of,
}

abbrev pub starts_plain : Bytes → Bool
starts_plain packet = bytes_eq (take 8 packet) (replicate 8 0)

abbrev stated : Bytes → ℕ
stated body =
    20 + from_le_u32 (get_or body 16 0) (get_or body 17 0) (get_or body 18 0) (get_or body 19 0)

-- An encrypted packet, whose length is 24 and a multiple of 16, with at most 15 bytes of padding,
-- comes out of its padded body.
pub strip_padded_body-encrypted :
    (usize_max blocks : ℕ) (packet padding : Bytes)
    → starts_plain packet ≡ false
    → length packet ≡ 24 + blocks * 16
    → length padding ≤ max_encrypted_padding
    → strip_padded_body usize_max (packet ++ padding) ≡ ok packet
unfolding strip_padded_body padded_length cut_padding
strip_padded_body-encrypted usize_max blocks packet padding k l h =
    let whole = length-append packet padding in
    let start : take 8 (packet ++ padding) ≡ take 8 packet =
      take-append 8 packet padding (omega arith) in
    let n : 24 + (length (packet ++ padding) - 24) / 16 * 16 ≡ length packet =
      omega (arith, whole, l) in
    rw (start, k, n) (ground (arith, whole, take_at packet padding (length packet) refl))

-- A plaintext packet, which states its length, with at most 256 bytes of padding, comes out of its
-- padded body, where the length is a `usize`.
pub strip_padded_body-plain :
    (usize_max : ℕ) (packet padding : Bytes)
    → starts_plain packet ≡ true
    → length packet ≡ stated packet
    → 24 ≤ length packet
    → length packet ≤ usize_max
    → length padding ≤ max_plain_padding
    → strip_padded_body usize_max (packet ++ padding) ≡ ok packet
unfolding strip_padded_body padded_length cut_padding
strip_padded_body-plain usize_max packet padding k l m u h =
    let whole = length-append packet padding in
    let start : take 8 (packet ++ padding) ≡ take 8 packet =
      take-append 8 packet padding (omega arith) in
    let at : (i : ℕ) → i + 1 ≤ 24 → get_or (packet ++ padding) i 0 ≡ get_or packet i 0 =
      λ i q. get_or-append i packet padding 0 (omega arith) in
    let n : stated (packet ++ padding) ≡ length packet =
      rw (at 16 (omega arith), at 17 (omega arith), at 18 (omega arith), at 19 (omega arith))
        (sym l) in
    rw (start, k, n) (ground (arith, whole, take_at packet padding (length packet) refl))

-- A padded body as MTProto has it: a packet, and padding behind it. A plaintext packet, which begins
-- with eight zeros, states its length, and its padding has at most 256 bytes; an encrypted one has
-- whole blocks of 16 bytes behind the first 24, and its padding at most 15.
pub record IsPadded (raw packet : Bytes) : Type 0 where
  pub padding : Bytes
  pub parts : raw ≡ packet ++ padding
  pub long : 24 ≤ length packet
  pub cut :
      ((take 8 raw ≡ replicate 8 0) × (length packet ≡ stated raw) × (length padding ≤ 256))
      ⊎ ((take 8 raw ≢ replicate 8 0)
          × ((blocks : ℕ) × (length packet ≡ 24 + blocks * 16))
          × (length padding ≤ 15))

-- What `padded_length` says of a body that is long enough.
abbrev Lengths : Bytes → ℕ → ℕ → Type 0
Lengths raw n most =
    ((take 8 raw ≡ replicate 8 0) × (n ≡ stated raw) × (most ≡ 256))
    ⊎ ((take 8 raw ≢ replicate 8 0) × ((blocks : ℕ) × (n ≡ 24 + blocks * 16)) × (most ≡ 15))

padded_length-Lengths :
    (usize_max : ℕ) (raw : Bytes) (n most : ℕ)
    → padded_length usize_max raw ≡ ok (n, most)
    → Lengths raw n most
unfolding padded_length
padded_length-Lengths usize_max raw n most e = elim (Bool-cases (starts_plain raw)) [
  | inl plain ↦
      let (_, e1) =
        passed (ltb (length raw) 20) ErrorKind.invalid_data _ (n, most) (simp plain at e) in
      let (says, up_to) = plainly (leb (stated raw) usize_max) e1 in
      inl (bytes_eq→eq _ _ plain, says, up_to)
  | inr other ↦
      let e1 = ok_inj (simp other at e) in
      inr (
        λ same. cc (
          sym (bytes_eq_refl (replicate 8 0)) ∙ ap (λ t. bytes_eq t (replicate 8 0)) (sym same),
          other,
        ),
        ((length raw - 24) / 16, sym (ap (λ x. x.0) e1)),
        sym (ap (λ x. x.1) e1),
      )
]
  where
    plainly :
        (c : Bool)
        → ◌≡◌ {A = Result (ℕ × ℕ)}
            (elim (if c then some (stated raw) else none) [
              | none ↦ err ErrorKind.invalid_data
              | some n ↦ ok (n, max_plain_padding)
            ])
            (ok (n, most))
        → (n ≡ stated raw) × (most ≡ 256)
    plainly true q = (sym (ap (λ x. x.0) (ok_inj q)), sym (ap (λ x. x.1) (ok_inj q)))
    plainly false q = cc q

cut_padding-IsPadded :
    (raw packet : Bytes) (n most : ℕ)
    → Lengths raw n most
    → cut_padding raw (n, most) ≡ ok packet
    → IsPadded raw packet
unfolding cut_padding
cut_padding-IsPadded raw packet n most h e =
    let (fits, e1) =
      passed (ltb n 24 || ltb (length raw) n || ltb most (length raw - n)) ErrorKind.invalid_data
        (ok (take n raw)) packet e in
    let same : take n raw ≡ packet = ok_inj e1 in
    let l : length packet ≡ n = ground (arith, fits, ap length same, length-take n raw) in
    let whole : raw ≡ packet ++ drop n raw =
      sym (take-append-drop n raw) ∙ ap (λ t. t ++ drop n raw) same in
    let rest : length (drop n raw) ≤ most = ground (arith, fits, length-drop n raw) in
    record {
      padding = drop n raw;
      parts = whole;
      long = ground (arith, fits, l);
      cut = elim h [
        | inl (plain, states, m) ↦ inl (plain, l ∙ states, omega (arith, rest, m))
        | inr (other, (blocks, b), m) ↦ inr (other, (blocks, l ∙ b), omega (arith, rest, m))
      ];
    }

strip_padded_body-IsPadded :
    (usize_max : ℕ) (raw packet : Bytes)
    → strip_padded_body usize_max raw ≡ ok packet
    → IsPadded raw packet
unfolding strip_padded_body
strip_padded_body-IsPadded usize_max raw packet e =
    let (_, e1) = passed (ltb (length raw) 24) ErrorKind.invalid_data _ packet e in
    with_length (padded_length usize_max raw) refl e1
  where
    with_length :
        (o : Result (ℕ × ℕ))
        → padded_length usize_max raw ≡ o
        → (o >>= cut_padding raw) ≡ ok packet
        → IsPadded raw packet
    with_length (err kind) q f = cc f
    with_length (ok (n, most)) q f =
        cut_padding-IsPadded raw packet n most (padded_length-Lengths usize_max raw n most q) f

-- The body of a packet, of at most 4 MiB in words of four bytes, from what follows its header.
abbrev pub IsBody : Protocol → Bytes → Bytes → Type 0
IsBody protocol raw body =
    Contents protocol × (length body ≤ 4 * 1024 * 1024) × (length body % 4 ≡ 0)
  where
    Contents : Protocol → Type 0
    Contents padded_intermediate = IsPadded raw body
    Contents _ = raw ≡ body

checked_body-ok :
    (made body : Bytes)
    → checked_body made ≡ ok body
    → (made ≡ body) × (length body ≤ 4 * 1024 * 1024) × (length body % 4 ≡ 0)
unfolding checked_body
checked_body-ok made body e =
    let (fits, e1) =
      passed (ltb max_packet (length made) || not (length made % 4 == 0)) ErrorKind.invalid_data
        (ok made) body e in
    let same : made ≡ body = ok_inj e1 in
    (same, ground (arith, fits, ap length same), ground (arith, fits, ap length same))

pub body_of-IsBody :
    (usize_max : ℕ) (protocol : Protocol) (raw body : Bytes)
    → body_of usize_max protocol raw ≡ ok body
    → IsBody protocol raw body
unfolding body_of
body_of-IsBody usize_max abridged raw body e = checked_body-ok raw body e
body_of-IsBody usize_max intermediate raw body e = checked_body-ok raw body e
body_of-IsBody usize_max padded_intermediate raw body e =
    stripped (strip_padded_body usize_max raw) refl e
  where
    stripped :
        (o : Result Bytes)
        → strip_padded_body usize_max raw ≡ o
        → (o >>= checked_body) ≡ ok body
        → IsBody padded_intermediate raw body
    stripped (err kind) q f = cc f
    stripped (ok made) q f =
        let (same, small, words) = checked_body-ok made body f in
        (strip_padded_body-IsPadded usize_max raw body (q ∙ ap ok same), small, words)
