-- ===== src/H2/Posts/ReplyIds.antt =====
-- `replay_id` against its specification, and the copy of a short body into an array.
use tg_ws_keenetic.Base.{
  ℕ, zero, suc, ◌+◌, ◌-◌, ◌≤◌, min, ◌≡◌, refl, sym, ap, ◌∙◌, List, [], ◌∷◌, ◌++◌, append_assoc,
  append-nil, arith, ◌==◌, either, length, take, drop, replicate, length-append, length-take,
  length-replicate, take-append-drop, take_at, drop_at, take_all, drop-drop,
}
use tg_ws_keenetic.Base.Bytes.{Bytes}
use tg_ws_keenetic.H2.Packets.Replies.{joined}
use tg_ws_keenetic.H2.Posts.Replies.{ReplyId, copied, copy_at, fill, replay_id}

abbrev zeros : ℕ → Bytes
zeros n = replicate n 0

-- An array of `n` bytes that is filled from the front.
abbrev pub array : ℕ → Bytes → Bytes
array n done = done ++ zeros (n - length done)

drop-replicate : (k n : ℕ) → drop {A = ℕ} k (zeros n) ≡ zeros (n - k)
drop-replicate zero n = let e : n ≡ n - 0 = omega arith in ap zeros e
drop-replicate (suc k) zero = let e : 0 ≡ 0 - suc k = omega arith in ap zeros e
drop-replicate (suc k) (suc n) =
    let e : n - k ≡ suc n - suc k = omega arith in drop-replicate k n ∙ ap zeros e

length-array : (n : ℕ) (done : Bytes) → length done ≤ n → length (array n done) ≡ n
length-array n done h = omega (
  arith,
  length-append done (zeros (n - length done)),
  length-replicate {A = ℕ} (n - length done) 0,
)

copy_at-array :
    (n : ℕ) (done part : Bytes) → copy_at (length done) part (array n done) ≡ array n (done ++ part)
copy_at-array n done part =
    let rest = zeros (n - length done) in
    let front : take (length done) (done ++ rest) ≡ done = take_at done rest (length done) refl in
    let less : n - length done - length part ≡ n - length (done ++ part) =
      omega (arith, length-append done part) in
    let back : drop (length done + length part) (done ++ rest) ≡ zeros (n - length (done ++ part)) =
      sym (drop-drop (length part) (length done) (done ++ rest))
      ∙ ap (drop (length part)) (drop_at done rest (length done) refl)
      ∙ drop-replicate (length part) (n - length done)
      ∙ ap zeros less in
    rw (front, back) (sym (append_assoc done part _))

-- The parts copied one behind the other are their bytes in order.
pub copied-joined :
    (parts : List Bytes) (n : ℕ) (done : Bytes)
    → copied parts (length done) (array n done) ≡ array n (done ++ joined parts)
copied-joined [] n done = ap (array n) (sym (append-nil done))
copied-joined (part ∷ parts) n done =
    let here : copied parts (length done + length part) (copy_at (length done) part (array n done))
        ≡ copied parts (length (done ++ part)) (array n (done ++ part)) =
      rw (copy_at-array n done part, length-append done part) refl in
    here
    ∙ copied-joined parts n (done ++ part)
    ∙ ap (array n) (append_assoc done part (joined parts))

-- The identity of a body: its first bytes, and how many these are.
abbrev pub identity : ℕ → Bytes → ReplyId
identity n bs = record { bytes = array n bs; filled = length bs }

-- One part, of which so many bytes are copied.
copied_part :
    (n c : ℕ) (done part : Bytes) (id : ReplyId)
    → c ≤ length part
    → id ≡ record {
      bytes = copy_at (length done) (take c part) (array n done);
      filled = length done + c;
    }
    → id ≡ identity n (done ++ take c part)
copied_part n c done part id h e =
    let filled : length done + c ≡ length (done ++ take c part) =
      omega (arith, length-append done (take c part), length-take c part) in
    e ∙ rw (copy_at-array n done (take c part), filled) refl

-- Where the array is full behind a part, and where it is not.
full_part :
    (n c : ℕ) (done part more : Bytes)
    → length done + c ≡ n
    → c ≤ length part
    → done ++ take c part ≡ take n (done ++ (part ++ more))
full_part n c done part more e h =
    let size : length (done ++ take c part) ≡ n =
      omega (arith, length-append done (take c part), length-take c part) in
    let split : done ++ (part ++ more) ≡ (done ++ take c part) ++ (drop c part ++ more) =
      ap (λ p. done ++ (p ++ more)) (sym (take-append-drop c part))
      ∙ ap (λ t. done ++ t) (append_assoc (take c part) (drop c part) more)
      ∙ sym (append_assoc done (take c part) (drop c part ++ more)) in
    sym (ap (take n) split ∙ take_at (done ++ take c part) (drop c part ++ more) n size)

fill-identity :
    (parts : List Bytes) (n : ℕ) (done : Bytes)
    → length done ≤ n
    → fill parts (identity n done) ≡ identity n (take n (done ++ joined parts))
unfolding fill
fill-identity [] n done h =
    ap (identity n)
      (sym (append-nil done) ∙ sym (take_all n (done ++ []) (omega (arith, length-append done []))))
fill-identity (part ∷ parts) n done h =
    let c = min (length part) (length (array n done) - length done) in
    let size = length-array n done h in
    let id : ReplyId = record {
      bytes = copy_at (length done) (take c part) (array n done);
      filled = length done + c;
    } in
    let next : id ≡ identity n (done ++ take c part) =
      copied_part n c done part id (omega arith) refl in
    either (λ r. r ≡ identity n (take n (done ++ joined (part ∷ parts))))
      (length done + c == length (array n done))
      (λ full.
        next
        ∙ ap (identity n)
            (full_part n c done part (joined parts) (ground (arith, size)) (omega arith)))
      (λ more.
        let whole_part : take c part ≡ part = take_all c part (ground (arith, size)) in
        let short : length (done ++ take c part) ≤ n =
          ground (arith, size, length-append done (take c part), length-take c part) in
        ap (fill parts) next
        ∙ fill-identity parts n (done ++ take c part) short
        ∙ ap (λ t. identity n (take n t))
            (append_assoc done (take c part) (joined parts)
              ∙ ap (λ t. done ++ (t ++ joined parts)) whole_part))

-- The identity of a reply is that of its whole body: the first 24 bytes, zeros behind them where
-- there are fewer, and their number, however the body is split into parts.
pub replay_id-joined : (parts : List Bytes) → replay_id parts ≡ identity 24 (take 24 (joined parts))
unfolding replay_id
replay_id-joined parts = fill-identity parts 24 [] (omega arith)
