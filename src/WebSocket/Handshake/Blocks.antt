-- ===== src/WebSocket/Handshake/Blocks.antt =====
-- The header block is read to its blank line and not a byte further.
use tg_ws_keenetic.Base.{
  ℕ, ◌≤◌, ◌<◌, ◌≡◌, refl, sym, ap, ◌∙◌, inl, inr, true, false, [], ◌∷◌, ◌++◌, append_assoc,
  append-nil, arith, ◌==◌, ◌-◌, ◌*◌, leb, and-true, drop_at, take-append-drop, Bool-cases, either,
  length, take, length-append, take_at, Result, ok, err,
}
use tg_ws_keenetic.Base.Bytes.{Bytes, bytes_eq, bytes_eq→eq}
use mathlib.Core.Path.{subst}
use tg_ws_keenetic.Base.Text.{split}
use tg_ws_keenetic.WebSocket.Handshake.{header_limit, is_complete, read_block}

-- The bytes before the rest are a block: it is complete, within the limit, and nothing shorter that
-- has the bytes read before is complete.
abbrev pub IsBlock : Bytes → Bytes → Bytes → Bytes → Type 0
IsBlock before input block rest =
    (part : Bytes) × (block ≡ before ++ part)
    × (input ≡ part ++ rest)
    × (is_complete block ≡ true)
    × (length block ≤ header_limit)
    × ((n : ℕ) → length before ≤ n → n < length block → is_complete (take n block) ≡ false)

abbrev pub Reads : Bytes → Bytes → Result Bytes × Bytes → Type 0
Reads before input (err kind, rest) = Unit
Reads before input (ok block, rest) = IsBlock before input block rest

complete_already :
    (before input : Bytes)
    → is_complete before ≡ true
    → length before ≤ header_limit
    → IsBlock before input before input
complete_already before input e l =
    ([], sym (append-nil before), refl, e, l, λ n k m. absurd (omega (arith, k, m)))

one_more :
    (before more : Bytes) (b : ℕ)
    → is_complete before ≡ false
    → (o : Result Bytes × Bytes) → Reads (before ++ (b ∷ [])) more o
    → Reads before (b ∷ more) o
one_more before more b e (err kind, rest) h = tt
one_more before more b e (ok block, rest) (part, same, split, complete, fits, shorter) =
    (b ∷ part, whole, ap (λ t. b ∷ t) split, complete, fits, minimal)
  where
    whole : block ≡ before ++ (b ∷ part)
    whole = same ∙ append_assoc before (b ∷ []) part

    minimal : (n : ℕ) → length before ≤ n → n < length block → is_complete (take n block) ≡ false
    minimal n k m = elim (Bool-cases (n == length before)) [
      | inl here ↦
          let at : n ≡ length before = ground arith in
          ap (λ t. is_complete t) (ap (take n) whole ∙ take_at before (b ∷ part) n (sym at)) ∙ e
      | inr later ↦ shorter n (ground (arith, length-append before (b ∷ []))) m
    ]

read_block-Reads :
    (input before : Bytes)
    → length before ≤ header_limit
    → Reads before input (read_block before input)
unfolding read_block
read_block-Reads [] before l =
    either (Reads before []) (is_complete before) (λ e. complete_already before [] e l)
      (λ _. either (Reads before []) (length before == header_limit) (λ _. tt) (λ _. tt))
read_block-Reads (b ∷ more) before l =
    either (Reads before (b ∷ more)) (is_complete before)
      (λ e. complete_already before (b ∷ more) e l)
      (λ e.
        either (Reads before (b ∷ more)) (length before == header_limit) (λ _. tt)
          (λ room. one_more before more b e (read_block (before ++ (b ∷ [])) more) (
            read_block-Reads more (before ++ (b ∷ []))
              (ground (arith, length-append before (b ∷ []))))))

pub read_block-IsBlock :
    (input block rest : Bytes)
    → read_block [] input ≡ (ok block, rest)
    → IsBlock [] input block rest
read_block-IsBlock input block rest e =
    subst (Reads [] input) e (read_block-Reads input [] (omega arith))

-- A block of headers in the terms of its bytes: its end is the first blank line.
pub record IsHead (bytes block rest : Bytes) : Type 0 where
  pub split : bytes ≡ block ++ rest
  pub fits : length block ≤ 16 * 1024
  pub lead : Bytes
  pub ends : block ≡ lead ++ (13 ∷ 10 ∷ 13 ∷ 10 ∷ [])
  pub earliest :
      (front back : Bytes) → block ≡ front ++ ((13 ∷ 10 ∷ 13 ∷ 10 ∷ []) ++ back) → back ≡ []

is_complete-blank : (front : Bytes) → is_complete (front ++ (13 ∷ 10 ∷ 13 ∷ 10 ∷ [])) ≡ true
unfolding is_complete
is_complete-blank front =
    let blank : Bytes = 13 ∷ 10 ∷ 13 ∷ 10 ∷ [] in
    let whole = length-append front blank in
    let enough : leb 4 (length (front ++ blank)) ≡ true = ground (arith, whole) in
    let n : length (front ++ blank) - 4 ≡ length front = omega (arith, whole) in
    rw (enough, n) (ap (λ t. bytes_eq t blank) (drop_at front blank (length front) refl))

blank_ends :
    (block : Bytes)
    → is_complete block ≡ true
    → block ≡ take (length block - 4) block ++ (13 ∷ 10 ∷ 13 ∷ 10 ∷ [])
unfolding is_complete
blank_ends block e =
    let (_, same) = and-true (leb 4 (length block)) _ e in
    sym (take-append-drop (length block - 4) block)
    ∙ ap (λ t. take (length block - 4) block ++ t) (bytes_eq→eq _ _ same)

pub IsBlock-IsHead :
    (bytes block rest : Bytes) → IsBlock [] bytes block rest → IsHead bytes block rest
IsBlock-IsHead bytes block rest (part, same, whole, complete, fits, shorter) = record {
  split = whole ∙ ap (λ t. t ++ rest) (sym same);
  fits = fits;
  lead = take (length block - 4) block;
  ends = blank_ends block complete;
  earliest = nothing_behind;
}
  where
    nothing_behind :
        (front back : Bytes) → block ≡ front ++ ((13 ∷ 10 ∷ 13 ∷ 10 ∷ []) ++ back) → back ≡ []
    nothing_behind front [] e = refl
    nothing_behind front (x ∷ xs) e =
        let blank : Bytes = 13 ∷ 10 ∷ 13 ∷ 10 ∷ [] in
        let e' : block ≡ (front ++ blank) ++ (x ∷ xs) =
          e ∙ sym (append_assoc front blank (x ∷ xs)) in
        let n = length (front ++ blank) in
        let cut : take n block ≡ front ++ blank =
          ap (take n) e' ∙ take_at (front ++ blank) (x ∷ xs) n refl in
        let less : n < length block =
          omega (arith, ap length e', length-append (front ++ blank) (x ∷ xs)) in
        let unfinished = shorter n (omega arith) less in
        cc (sym (is_complete-blank front) ∙ ap is_complete (sym cut) ∙ unfinished)
