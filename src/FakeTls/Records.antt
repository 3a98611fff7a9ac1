-- ===== src/FakeTls/Records.antt =====
-- What the bytes of a stream hold for `FakeTlsStream`: their payload, record by record.
use tg_ws_keenetic.Base.{
  ℕ, suc, ◌+◌, ◌-◌, ◌≤◌, ◌<◌, ◌≡◌, refl, sym, ap, ◌∙◌, ◌⊎◌, inl, inr, true, false, Option, none,
  some, [], ◌∷◌, ◌++◌, append_assoc, append-nil, arith, ◌==◌, if◌then◌else◌, Option-cases, length,
  length-append,
}
use tg_ws_keenetic.Base.Bytes.{Bytes}
use tg_ws_keenetic.FakeTls.Reader.{ReadState, open_record}

-- One byte of the stream: the payload that it is, if it is any, and the state behind it.
unfoldable pub feed : ReadState → ℕ → Option (Bytes × ReadState)
feed st b =
    if st.eof
    then some ([], st)
    else if st.remaining == 0
    then (let header = st.header ++ b ∷ [] in
        if length header == 5
        then elim (open_record st header) [ none ↦ none | some opened ↦ some ([], opened) ]
        else some ([], record st { header = header }))
    else if st.ccs
    then (if b == 1 then some ([], record st { remaining = 0; ccs = false }) else none)
    else some (b ∷ [], record st { remaining = st.remaining - 1 })

abbrev pub prepend : Bytes → Option Bytes → Option Bytes
prepend d none = none
prepend d (some bs) = some (d ++ bs)

-- The payload of all bytes from a state on; `none` if a record among them is refused.
unfoldable pub decode : ReadState → Bytes → Option Bytes
decode st [] = some []
decode st (b ∷ bs) = elim (feed st b) [ none ↦ none | some (d, st') ↦ prepend d (decode st' bs) ]

-- The state between two polls.
pub record IsBetween (st : ReadState) : Type 0 where
  pub partial : length st.header < 5
  pub one : (st.ccs ≡ false) ⊎ (st.remaining ≡ 1)

pub prepend-prepend :
    (xs ys : Bytes) (o : Option Bytes) → prepend xs (prepend ys o) ≡ prepend (xs ++ ys) o
prepend-prepend xs ys none = refl
prepend-prepend xs ys (some zs) = ap some (sym (append_assoc xs ys zs))

pub prepend_nil : (o : Option Bytes) → prepend [] o ≡ o
prepend_nil none = refl
prepend_nil (some zs) = refl

pub decode_step :
    (st st' : ReadState) (b : ℕ) (d bs : Bytes)
    → feed st b ≡ some (d, st')
    → decode st (b ∷ bs) ≡ prepend d (decode st' bs)
unfolding decode
decode_step st st' b d bs e = rw (e, decode)

pub decode_eof : (st : ReadState) (bs : Bytes) → st.eof ≡ true → decode st bs ≡ some []
unfolding decode
decode_eof st [] h = refl
decode_eof st (b ∷ bs) h =
    decode_step st st b [] bs (unfold feed in rw h) ∙ prepend_nil _ ∙ decode_eof st bs h

-- Bytes of an application record.
pub decode_body :
    (st : ReadState) (d rest : Bytes)
    → st.eof ≡ false
    → st.ccs ≡ false
    → length d ≤ st.remaining
    → decode st (d ++ rest)
      ≡ prepend d (decode (record st { remaining = st.remaining - length d }) rest)
decode_body st [] rest he hc l =
    let z : st.remaining ≡ st.remaining - 0 = omega arith in
    ap (λ n. decode (record st { remaining = n }) rest) z ∙ sym (prepend_nil _)
decode_body st (b ∷ d) rest he hc l =
    let st' : ReadState = record st { remaining = st.remaining - 1 } in
    let z : st.remaining - 1 - length d ≡ st.remaining - suc (length d) = omega arith in
    decode_step st st' b (b ∷ []) (d ++ rest) (unfold feed in ground arith)
    ∙ ap (prepend (b ∷ [])) (decode_body st' d rest he hc (omega arith))
    ∙ prepend-prepend (b ∷ []) d _
    ∙ ap (λ n. prepend (b ∷ d) (decode (record st { remaining = n }) rest)) z

-- Bytes of a header that they do not complete.
pub decode_partial :
    (st : ReadState) (d rest : Bytes)
    → st.eof ≡ false
    → st.remaining ≡ 0
    → length st.header + length d < 5
    → decode st (d ++ rest) ≡ decode (record st { header = st.header ++ d }) rest
decode_partial st [] rest he hr l =
    ap (λ h. decode (record st { header = h }) rest) (sym (append-nil st.header))
decode_partial st (b ∷ d) rest he hr l =
    let st' : ReadState = record st { header = st.header ++ b ∷ [] } in
    let ls : length (st.header ++ b ∷ []) ≡ length st.header + 1 =
      length-append st.header (b ∷ []) in
    decode_step st st' b [] (d ++ rest) (unfold feed in ground (arith, ls))
    ∙ prepend_nil _
    ∙ decode_partial st' d rest he hr (omega (arith, ls))
    ∙ ap (λ h. decode (record st { header = h }) rest) (append_assoc st.header (b ∷ []) d)

unfoldable pub after_open : Option ReadState → Bytes → Option Bytes
after_open none rest = none
after_open (some opened) rest = decode opened rest

-- Bytes that complete a header.
pub decode_complete :
    (st : ReadState) (b : ℕ) (d rest : Bytes)
    → st.eof ≡ false
    → st.remaining ≡ 0
    → length st.header + length (b ∷ d) ≡ 5
    → decode st (b ∷ d ++ rest) ≡ after_open (open_record st (st.header ++ b ∷ d)) rest
unfolding after_open open_record
decode_complete st b [] rest he hr l =
    let ls : length (st.header ++ b ∷ []) ≡ length st.header + 1 =
      length-append st.header (b ∷ []) in
    elim (Option-cases (open_record st (st.header ++ b ∷ []))) [
      | inl o ↦ rw o (unfold decode feed in ground (arith, ls, o))
      | inr (opened, o) ↦ rw o (
          decode_step st opened b [] rest (unfold feed in ground (arith, ls, o))
          ∙ prepend_nil (decode opened rest))
    ]
decode_complete st b (c ∷ d) rest he hr l =
    let st' : ReadState = record st { header = st.header ++ b ∷ [] } in
    let ls : length (st.header ++ b ∷ []) ≡ length st.header + 1 =
      length-append st.header (b ∷ []) in
    decode_step st st' b [] (c ∷ d ++ rest) (unfold feed in ground (arith, ls))
    ∙ prepend_nil _
    ∙ decode_complete st' c d rest he hr (omega (arith, ls))
    ∙ ap (λ h. after_open (open_record st h) rest) (append_assoc st.header (b ∷ []) (c ∷ d))

pub open_record-IsBetween :
    (st opened : ReadState) (header : Bytes)
    → st.ccs ≡ false
    → open_record st header ≡ some opened
    → IsBetween opened
unfolding open_record
open_record-IsBetween st opened header hc e = ground arith
