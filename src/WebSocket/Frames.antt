-- ===== src/WebSocket/Frames.antt =====
-- What a peer reads from the frames that `WsWriter` writes.
use tg_ws_keenetic.Base.{
  ℕ, ◌+◌, ◌-◌, ◌*◌, ◌/◌, ◌%◌, ◌^◌, ◌≤◌, ◌<◌, bit_xor, ◌≡◌, refl, sym, ap, ◌∙◌, inl, inr, true, ◌||◌,
  Option, none, some, [], ◌∷◌, ◌++◌, append_assoc, arith, ltb, leb, ◌==◌, if◌then◌else◌, ltb→lt,
  Bool-cases, length, get_or, take, drop, length-append, take_at, drop_at,
}
use tg_ws_keenetic.Base.Bytes.{Bytes}
use tg_ws_keenetic.Crypto.{xor_from}
use tg_ws_keenetic.Crypto.Stream.{length-xor_from}
use tg_ws_keenetic.Base.Bits.{bit_xor_cancel}
use tg_ws_keenetic.WebSocket.Writer.{max_message, frame_header, masked}

-- RFC 6455: the mask's four bytes combine with the data in turn.
abbrev pub unmasked : ℕ → ℕ → ℕ → ℕ → Bytes → Bytes
unmasked a b c d [] = []
unmasked a b c d (x ∷ xs) = bit_xor x a ∷ unmasked b c d a xs

-- A final frame with a mask, as opcode, payload and what follows it; `none` for other
-- frames, and where the length is not written in the shortest form.
abbrev pub unmask : ℕ → ℕ → Bytes → Option (ℕ × Bytes × Bytes)
unmask opcode n (a ∷ b ∷ c ∷ d ∷ rest) =
    if leb n (length rest) then some (opcode, unmasked a b c d (take n rest), drop n rest) else none
unmask opcode n _ = none

unfoldable pub read_frame : Bytes → Option (ℕ × Bytes × Bytes)
read_frame (first ∷ second ∷ rest) =
    if ltb first 128 || ltb 143 first || ltb second 128
    then none
    else if ltb second (128 + 126)
    then unmask (first - 128) (second - 128) rest
    else if second == 128 + 126
    then (let n = get_or rest 0 0 * 256 + get_or rest 1 0 in
        if ltb n 126 then none else unmask (first - 128) n (drop 2 rest))
    else (let n =
          get_or rest 0 0 * 2 ^ 56
          + get_or rest 1 0 * 2 ^ 48
          + get_or rest 2 0 * 2 ^ 40
          + get_or rest 3 0 * 2 ^ 32
          + get_or rest 4 0 * 2 ^ 24
          + get_or rest 5 0 * 2 ^ 16
          + get_or rest 6 0 * 2 ^ 8
          + get_or rest 7 0 in
        if ltb n 65536 then none else unmask (first - 128) n (drop 8 rest))
read_frame _ = none

read_frame_short :
    (opcode n : ℕ) (rest : Bytes)
    → opcode < 16
    → n < 126
    → read_frame ((128 + opcode) ∷ (128 + n) ∷ rest) ≡ unmask opcode n rest
unfolding read_frame
read_frame_short opcode n rest ho hn =
    let eo : 128 + opcode - 128 ≡ opcode = omega arith in
    let en : 128 + n - 128 ≡ n = omega arith in
    ground (arith, ap (λ o. unmask o (128 + n - 128) rest) eo, ap (λ m. unmask opcode m rest) en)

read_frame_middle :
    (opcode n a b : ℕ) (rest : Bytes)
    → opcode < 16
    → a * 256 + b ≡ n
    → 126 ≤ n
    → read_frame ((128 + opcode) ∷ (128 + 126) ∷ a ∷ b ∷ rest) ≡ unmask opcode n rest
unfolding read_frame
read_frame_middle opcode n a b rest ho e hn =
    let eo : 128 + opcode - 128 ≡ opcode = omega arith in
    ground (arith, ap (λ o. unmask o (a * 256 + b) rest) eo, ap (λ m. unmask opcode m rest) e)

abbrev from_be_u64 : ℕ → ℕ → ℕ → ℕ → ℕ → ℕ → ℕ → ℕ → ℕ
from_be_u64 a b c d e f g h =
    a * 2 ^ 56 + b * 2 ^ 48 + c * 2 ^ 40 + d * 2 ^ 32 + e * 2 ^ 24 + f * 2 ^ 16 + g * 2 ^ 8 + h

read_frame_long :
    (opcode n a b c d e f g h : ℕ) (rest : Bytes)
    → opcode < 16
    → from_be_u64 a b c d e f g h ≡ n
    → 65536 ≤ n
    → read_frame ((128 + opcode) ∷ (128 + 127) ∷ a ∷ b ∷ c ∷ d ∷ e ∷ f ∷ g ∷ h ∷ rest)
      ≡ unmask opcode n rest
unfolding read_frame
read_frame_long opcode n a b c d e f g h rest ho q hn =
    let eo : 128 + opcode - 128 ≡ opcode = omega arith in
    ground (
      arith,
      ap (λ o. unmask o (from_be_u64 a b c d e f g h) rest) eo,
      ap (λ m. unmask opcode m rest) q,
    )

read_frame-frame_header :
    (opcode n : ℕ) (rest : Bytes)
    → opcode < 16
    → n ≤ max_message
    → read_frame (frame_header opcode n ++ rest) ≡ unmask opcode n rest
unfolding frame_header
read_frame-frame_header opcode n rest ho hn = elim (Bool-cases (ltb n 126)) [
  | inl s ↦ rw s (read_frame_short opcode n rest ho (ltb→lt n 126 s))
  | inr s ↦ elim (Bool-cases (leb n 65535)) [
    | inl m ↦
        rw (s, m)
          (read_frame_middle opcode n (n / 256 % 256) (n % 256) rest ho (ground (arith, m))
            (ground (arith, s)))
    | inr m ↦
        rw (s, m)
          (read_frame_long opcode n _ _ _ _ _ _ _ _ rest ho (omega arith) (ground (arith, m)))
  ]
]

abbrev pub frame : ℕ → Bytes → Bytes → Bytes
frame opcode mask bs = frame_header opcode (length bs) ++ (mask ++ masked mask 0 bs)

-- The key bytes of a mask come again after four.
unmasked-xor_from :
    (key : ℕ → ℕ) (i : ℕ) (bs : Bytes)
    → ((n : ℕ) → key (n + 4) ≡ key n)
    → unmasked (key i) (key (i + 1)) (key (i + 2)) (key (i + 3)) (xor_from key i bs) ≡ bs
unmasked-xor_from key i [] h = refl
unmasked-xor_from key i (x ∷ xs) h =
    let e2 : i + 2 ≡ i + 1 + 1 = omega arith in
    let e3 : i + 3 ≡ i + 1 + 2 = omega arith in
    let e4 : i + 4 ≡ i + 1 + 3 = omega arith in
    let last : key i ≡ key (i + 1 + 3) = sym (h i) ∙ ap key e4 in
    let more = unmasked-xor_from key (i + 1) xs h in
    rw (bit_xor_cancel x (key i), ap key e2, ap key e3, last) (ap (λ t. x ∷ t) more)

unmask-masked :
    (opcode : ℕ) (mask bs rest : Bytes)
    → length mask ≡ 4
    → unmask opcode (length bs) (mask ++ (masked mask 0 bs ++ rest)) ≡ some (opcode, bs, rest)
unmask-masked opcode (a ∷ b ∷ c ∷ d ∷ []) bs rest h =
    let mask = a ∷ b ∷ c ∷ d ∷ [] in
    let key : ℕ → ℕ = λ i. get_or mask (i % 4) 0 in
    let periodic : (n : ℕ) → key (n + 4) ≡ key n =
      λ n. let e : (n + 4) % 4 ≡ n % 4 = omega arith in ap (λ j. get_or mask j 0) e in
    let body = masked mask 0 bs in
    let lb : length body ≡ length bs = length-xor_from key 0 bs in
    let enough : leb (length bs) (length (body ++ rest)) ≡ true =
      ground (arith, length-append body rest, lb) in
    rw (enough, take_at body rest (length bs) lb, drop_at body rest (length bs) lb)
      (ap (λ t. some (opcode, t, rest)) (unmasked-xor_from key 0 bs periodic))
unmask-masked opcode [] bs rest h = absurd (omega arith)
unmask-masked opcode (a ∷ []) bs rest h = absurd (omega arith)
unmask-masked opcode (a ∷ b ∷ []) bs rest h = absurd (omega arith)
unmask-masked opcode (a ∷ b ∷ c ∷ []) bs rest h = absurd (omega arith)
unmask-masked opcode (a ∷ b ∷ c ∷ d ∷ e ∷ m) bs rest h = absurd (omega arith)

-- A peer reads a frame back, whatever follows it.
pub read_frame-frame :
    (opcode : ℕ) (mask bs rest : Bytes)
    → opcode < 16
    → length mask ≡ 4
    → length bs ≤ max_message
    → read_frame (frame opcode mask bs ++ rest) ≡ some (opcode, bs, rest)
read_frame-frame opcode mask bs rest ho hm hn =
    ap read_frame (
      append_assoc (frame_header opcode (length bs)) _ rest
      ∙ ap (λ t. frame_header opcode (length bs) ++ t) (append_assoc mask _ rest))
    ∙ read_frame-frame_header opcode (length bs) _ ho hn
    ∙ unmask-masked opcode mask bs rest hm
