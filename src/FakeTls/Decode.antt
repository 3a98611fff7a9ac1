-- ===== src/FakeTls/Decode.antt =====
-- What the reading half delivers, against a decoder that takes one byte at a time.
use tg_ws_keenetic.Base.{
  ℕ, zero, suc, ◌+◌, ◌-◌, ◌≤◌, ◌<◌, min, ◌≡◌, refl, sym, ap, ◌∙◌, inl, inr, true, false, ◌||◌,
  Option, [], ◌∷◌, ◌++◌, arith, ◌==◌, Bool-cases, Option-cases, length, length-append, ok, err,
}
use tg_ws_keenetic.Base.Bytes.{Bytes}
use mathlib.Core.Path.{subst}
use tg_ws_keenetic.Base.Polls.{Poll, ready, pending, AsyncRead}
use tg_ws_keenetic.FakeTls.Reader.{
  ReadState, open_record, Outcome, after_ccs, after_body, begin_record, after_header, read_rounds,
  poll_read_record,
}
use tg_ws_keenetic.FakeTls.Records.{
  feed, prepend, decode, IsBetween, prepend_nil, decode_step, decode_eof, decode_body,
  decode_partial, after_open, decode_complete, open_record-IsBetween,
}

module _ (r : AsyncRead) (room : ℕ) where
  open r use {
    Inner, poll_read, unread, poll_read_takes, poll_read_fits, poll_read_ends, poll_read_waits,
  }

  -- An outcome accounts for the payload `o` that was to come: what it delivers, which fits the room,
  -- is followed by what is still to come. An error ends the stream.
  abbrev pub Accounts : Option Bytes → Outcome r → Type 0
  Accounts o (ready (ok d), st, s) =
      (o ≡ prepend d (decode st (unread s))) × (length d ≤ room) × IsBetween st
  Accounts o (pending, st, s) = (o ≡ decode st (unread s)) × IsBetween st
  Accounts o (ready (err e), st, s) = Unit

  abbrev Continues : (ReadState → Inner → Outcome r) → Type 0
  Continues again =
      (st : ReadState) (s : Inner)
      → IsBetween st
      → st.eof ≡ false
      → Accounts (decode st (unread s)) (again st s)

  after_ccs-Accounts :
      (again : ReadState → Inner → Outcome r) (st : ReadState) (s : Inner) (polled : Poll Bytes)
      (s' : Inner)
      → Continues again
      → IsBetween st
      → st.eof ≡ false
      → st.ccs ≡ true
      → 0 < st.remaining
      → poll_read s 1 ≡ (polled, s')
      → Accounts (decode st (unread s)) (after_ccs r again st (polled, s'))
  unfolding after_ccs
  after_ccs-Accounts again st s pending s' ih w he hc hr e =
      (ap (decode st) (sym (poll_read_waits s 1 s' e)), w)
  after_ccs-Accounts again st s (ready (err k)) s' ih w he hc hr e = tt
  after_ccs-Accounts again st s (ready (ok [])) s' ih w he hc hr e = tt
  after_ccs-Accounts again st s (ready (ok (b ∷ c ∷ d))) s' ih w he hc hr e =
      absurd (omega (arith, poll_read_fits s 1 (b ∷ c ∷ d) s' e))
  after_ccs-Accounts again st s (ready (ok (b ∷ []))) s' ih w he hc hr e =
      elim (Bool-cases (b == 1)) [
        | inl t ↦
            let st' : ReadState = record st { remaining = 0; ccs = false } in
            let same : decode st (unread s) ≡ decode st' (unread s') =
              ap (decode st) (poll_read_takes s 1 (b ∷ []) s' e)
              ∙ decode_step st st' b [] (unread s') (unfold feed in ground arith)
              ∙ prepend_nil _ in
            let next : IsBetween st' = record { partial = w.partial; one = inl refl } in
            rw t (subst (λ o. Accounts o (again st' s')) (sym same) (ih st' s' next he))
        | inr f ↦ rw f tt
      ]

  after_body-Accounts :
      (asked : ℕ) (st : ReadState) (s : Inner) (polled : Poll Bytes) (s' : Inner)
      → IsBetween st
      → st.eof ≡ false
      → st.ccs ≡ false
      → asked ≤ st.remaining
      → asked ≤ room
      → poll_read s asked ≡ (polled, s')
      → Accounts (decode st (unread s)) (after_body r st (polled, s'))
  unfolding after_body
  after_body-Accounts asked st s pending s' w he hc hr hs e =
      (ap (decode st) (sym (poll_read_waits s asked s' e)), w)
  after_body-Accounts asked st s (ready (err k)) s' w he hc hr hs e = tt
  after_body-Accounts asked st s (ready (ok [])) s' w he hc hr hs e = tt
  after_body-Accounts asked st s (ready (ok (b ∷ d))) s' w he hc hr hs e =
      let fits : length (b ∷ d) ≤ asked = poll_read_fits s asked (b ∷ d) s' e in
      (
        ap (decode st) (poll_read_takes s asked (b ∷ d) s' e)
            ∙ decode_body st (b ∷ d) (unread s') he hc (omega (arith, fits)),
        omega (arith, fits),
        record { partial = w.partial; one = inl hc },
      )

  begin_record-Accounts :
      (again : ReadState → Inner → Outcome r) (st : ReadState) (header : Bytes) (s : Inner)
      → Continues again
      → st.ccs ≡ false
      → Accounts (after_open (open_record st header) (unread s)) (begin_record r again st header s)
  unfolding begin_record after_open
  begin_record-Accounts again st header s ih hc = elim (Option-cases (open_record st header)) [
    | inl o ↦ rw (o, begin_record) tt
    | inr (opened, o) ↦
        let w : IsBetween opened = open_record-IsBetween st opened header hc o in
        rw (o, begin_record)
          (elim (Bool-cases opened.eof) [
            | inl t ↦ simp t (
              decode_eof opened (unread s) t
                  ∙ ap (prepend []) (sym (decode_eof opened (unread s) t)),
              omega arith,
              w,
            )
            | inr f ↦ simp f (ih opened s w f)
          ])
  ]

  after_header-Accounts :
      (again : ReadState → Inner → Outcome r) (st : ReadState) (s : Inner) (polled : Poll Bytes)
      (s' : Inner)
      → Continues again
      → IsBetween st
      → st.eof ≡ false
      → st.ccs ≡ false
      → st.remaining ≡ 0
      → poll_read s (5 - length st.header) ≡ (polled, s')
      → Accounts (decode st (unread s)) (after_header r again st (polled, s'))
  unfolding after_header
  after_header-Accounts again st s pending s' ih w he hc hr e =
      (ap (decode st) (sym (poll_read_waits s _ s' e)), w)
  after_header-Accounts again st s (ready (err k)) s' ih w he hc hr e = tt
  after_header-Accounts again st s (ready (ok [])) s' ih w he hc hr e =
      elim (Bool-cases (length st.header == 0)) [ inl t ↦ simp t ended | inr f ↦ simp f tt ]
    where
      ended :
          (decode st (unread s) ≡ prepend [] (decode (record st { eof = true }) (unread s')))
          × (0 ≤ room)
          × IsBetween (record st { eof = true })
      ended = (
        ap (decode st) (poll_read_ends s _ s' (omega (arith, w.partial)) e)
            ∙ unfold decode in
              refl ∙ ap (prepend []) (sym (decode_eof (record st { eof = true }) (unread s') refl)),
        omega arith,
        record { partial = w.partial; one = w.one },
      )
  after_header-Accounts again st s (ready (ok (b ∷ d))) s' ih w he hc hr e =
      let lh : length (st.header ++ b ∷ d) ≡ length st.header + length (b ∷ d) =
        length-append st.header (b ∷ d) in
      let took : decode st (unread s) ≡ decode st (b ∷ d ++ unread s') =
        ap (decode st) (poll_read_takes s _ (b ∷ d) s' e) in
      let fits : length (b ∷ d) ≤ 5 - length st.header = poll_read_fits s _ (b ∷ d) s' e in
      elim (Bool-cases (length (st.header ++ b ∷ d) == 5)) [
        | inl t ↦
            let five : length st.header + length (b ∷ d) ≡ 5 = ground (arith, lh, t) in
            simp t (
              subst (λ o. Accounts o (begin_record r again st (st.header ++ b ∷ d) s'))
                (sym (took ∙ decode_complete st b d (unread s') he hr five))
                (begin_record-Accounts again st (st.header ++ b ∷ d) s' ih hc))
        | inr f ↦
            let st' : ReadState = record st { header = st.header ++ b ∷ d } in
            let less : length st.header + length (b ∷ d) < 5 =
              ground (arith, lh, f, fits, w.partial) in
            simp f (
              subst (λ o. Accounts o (again st' s'))
                (sym (took ∙ decode_partial st (b ∷ d) (unread s') he hr less))
                (ih st' s' (record { partial = omega (arith, lh, less); one = inl hc }) he))
      ]

  read_rounds-Accounts :
      (rounds : ℕ) (st : ReadState) (s : Inner)
      → IsBetween st
      → st.eof ≡ false
      → Accounts (decode st (unread s)) (read_rounds r rounds room st s)
  unfolding read_rounds
  read_rounds-Accounts zero st s w he = (refl, w)
  read_rounds-Accounts (suc rounds) st s w he =
      let again = read_rounds r rounds room in
      elim (Bool-cases (st.remaining == 0)) [
        | inl z ↦ simp z (
            after_header-Accounts again st s (poll_read s _).0 (poll_read s _).1
              (read_rounds-Accounts rounds) w he (ground (arith, w.one, z)) (ground (arith, z))
              refl)
        | inr z ↦ elim (Bool-cases st.ccs) [
          | inl c ↦
              simp (z, c)
                (after_ccs-Accounts again st s (poll_read s 1).0 (poll_read s 1).1
                  (read_rounds-Accounts rounds) w he c (ground (arith, z)) refl)
          | inr c ↦
              simp (z, c)
                (after_body-Accounts (min room st.remaining) st s (poll_read s _).0
                  (poll_read s _).1 w he c (omega arith) (omega arith) refl)
        ]
      ]

  -- From a state between two polls, a poll delivers the next bytes of the payload, in order and none
  -- twice, no more than there is room for, whatever pieces the stream below delivers; a poll that
  -- waits loses nothing.
  pub poll_read_record-Accounts :
      (st : ReadState) (s : Inner)
      → IsBetween st
      → Accounts (decode st (unread s)) (poll_read_record r room st s)
  unfolding poll_read_record
  poll_read_record-Accounts st s w = elim (Bool-cases ((room == 0) || st.eof)) [
    | inl t ↦ simp t (sym (prepend_nil _), omega arith, w)
    | inr f ↦ simp f (read_rounds-Accounts 32 st s w (ground (arith, f)))
  ]
