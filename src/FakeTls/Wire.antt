-- ===== src/FakeTls/Wire.antt =====
-- What the writing half puts on the wire.
use tg_ws_keenetic.Base.{
  ℕ, zero, suc, ◌+◌, min, ◌≡◌, refl, sym, ap, ◌∙◌, ◌⊎◌, inl, inr, [], ◌∷◌, ◌++◌, append_assoc,
  append-nil, arith, ◌==◌, Bool-cases, length, take, drop, take-append-drop, drop_all, drop-drop,
  ok, err,
}
use tg_ws_keenetic.Base.Bytes.{Bytes}
use mathlib.Core.Path.{subst}
use tg_ws_keenetic.Base.Polls.{Poll, ready, pending, AsyncWrite}
use tg_ws_keenetic.FakeTls.Reader.{tls_app_data_max}
use tg_ws_keenetic.FakeTls.Writer.{
  WriteState, idle, app_record, Outcome, after_write, drain_rounds, poll_drain_record, accepted,
  after_drain, poll_write_record, then_poll, poll_flush_record, poll_shutdown_record,
}

-- The record that a write of this data makes.
abbrev pub record_for : Bytes → Bytes
record_for [] = []
record_for (b ∷ bs) = app_record (min (length (b ∷ bs)) tls_app_data_max) (b ∷ bs)

module _ (w : AsyncWrite) where
  open w use {
    Inner, poll_write, poll_flush, poll_shutdown, written, poll_write_accepts, poll_write_fits,
    poll_write_waits, poll_write_fails, poll_flush_keeps, poll_shutdown_keeps,
  }

  -- All that the stream below has taken or is still to be offered.
  abbrev pub on_wire : WriteState → Inner → Bytes
  on_wire st s = written s ++ drop st.write_offset st.write_record

  -- Whatever the outcome, a drain keeps what is on the wire, and when it is done nothing waits.
  abbrev Drained : Bytes → Outcome w (Unit {0}) → Type 0
  Drained wire (ready (ok _), st, s) = (written s ≡ wire) × (st ≡ idle)
  Drained wire (ready (err e), st, s) = on_wire st s ≡ wire
  Drained wire (pending, st, s) = on_wire st s ≡ wire

  after_write-Drained :
      (again : WriteState → Inner → Outcome w (Unit {0})) (st : WriteState) (s : Inner)
      (polled : Poll ℕ) (s' : Inner)
      → ((st : WriteState) (s : Inner) → Drained (on_wire st s) (again st s))
      → poll_write s (drop st.write_offset st.write_record) ≡ (polled, s')
      → Drained (on_wire st s) (after_write w again st (polled, s'))
  unfolding after_write
  after_write-Drained again st s pending s' ih e =
      ap (λ t. t ++ drop st.write_offset st.write_record) (poll_write_waits s _ s' e)
  after_write-Drained again st s (ready (err k)) s' ih e =
      ap (λ t. t ++ drop st.write_offset st.write_record) (poll_write_fails s _ k s' e)
  after_write-Drained again st s (ready (ok n)) s' ih e =
      let waiting = drop st.write_offset st.write_record in
      let st' : WriteState = record st { write_offset = st.write_offset + n } in
      let same : on_wire st' s' ≡ on_wire st s =
        ap (λ t. t ++ drop (st.write_offset + n) st.write_record)
          (poll_write_accepts s waiting n s' e)
        ∙ append_assoc (written s) (take n waiting) _
        ∙ ap (λ t. written s ++ (take n waiting ++ t))
            (sym (drop-drop n st.write_offset st.write_record))
        ∙ ap (λ t. written s ++ t) (take-append-drop n waiting) in
      elim (Bool-cases (n == 0)) [
        | inl z ↦
            let nothing : n ≡ 0 = ground (arith, z) in
            let none_taken : take n waiting ≡ [] = ap (λ k. take k waiting) nothing in
            simp z (
              ap (λ t. t ++ waiting)
                (poll_write_accepts s waiting n s' e
                  ∙ ap (λ t. written s ++ t) none_taken
                  ∙ append-nil (written s)))
        | inr z ↦ simp z (subst (λ t. Drained t (again st' s')) same (ih st' s'))
      ]

  drain_rounds-Drained :
      (rounds : ℕ) (st : WriteState) (s : Inner)
      → Drained (on_wire st s) (drain_rounds w rounds st s)
  unfolding drain_rounds
  drain_rounds-Drained zero st s = refl
  drain_rounds-Drained (suc rounds) st s =
      elim (Bool-cases (st.write_offset == length st.write_record)) [
        | inl t ↦
            let all : drop st.write_offset st.write_record ≡ [] =
              drop_all st.write_offset st.write_record (ground (arith, t)) in
            simp t (sym (ap (λ x. written s ++ x) all ∙ append-nil (written s)), refl)
        | inr f ↦ simp f (
            after_write-Drained (drain_rounds w rounds) st s (poll_write s _).0 (poll_write s _).1
              (drain_rounds-Drained rounds) refl)
      ]

  -- An answer to a write of `bs`: what is accepted stands whole behind what was on the wire before,
  -- and a write that waits leaves nothing of its data there.
  abbrev pub Accepted : Bytes → Bytes → Outcome w ℕ → Type 0
  Accepted wire bs (ready (ok n), st, s) =
      (n ≡ min (length bs) tls_app_data_max) × (on_wire st s ≡ wire ++ record_for bs)
  Accepted wire bs (ready (err e), st, s) =
      (on_wire st s ≡ wire) ⊎ (on_wire st s ≡ wire ++ record_for bs)
  Accepted wire bs (pending, st, s) = on_wire st s ≡ wire

  accepted-Accepted :
      (wire bs : Bytes) (drained : Outcome w (Unit {0}))
      → Drained (wire ++ record_for bs) drained
      → Accepted wire bs (accepted w (min (length bs) tls_app_data_max) drained)
  unfolding accepted
  accepted-Accepted wire bs (pending, st, s) h = (refl, h)
  accepted-Accepted wire bs (ready (err e), st, s) h = inr h
  accepted-Accepted wire bs (ready (ok _), st, s) (h, i) = (refl, rw i (append-nil (written s) ∙ h))

  after_drain-Accepted :
      (wire bs : Bytes) (drained : Outcome w (Unit {0}))
      → Drained wire drained
      → Accepted wire bs (after_drain w bs drained)
  unfolding after_drain poll_drain_record
  after_drain-Accepted wire bs (pending, st, s) h = h
  after_drain-Accepted wire bs (ready (err e), st, s) h = inl h
  after_drain-Accepted wire [] (ready (ok _), st, s) (h, i) =
      (omega arith, rw i (ap (λ t. t ++ []) h))
  after_drain-Accepted wire (b ∷ bs) (ready (ok _), st, s) (h, i) =
      let n = min (length (b ∷ bs)) tls_app_data_max in
      let st' : WriteState = record st {
        write_record = st.write_record ++ app_record n (b ∷ bs);
      } in
      accepted-Accepted wire (b ∷ bs) (drain_rounds w 64 st' s) (
        subst (λ t. Drained t (drain_rounds w 64 st' s))
          (rw i (ap (λ t. t ++ app_record n (b ∷ bs)) h)) (drain_rounds-Drained 64 st' s))

  -- Whatever the stream below takes at a time, an accepted write puts one whole record of at most
  -- 16 KiB behind what was accepted before, and a write that waits or is cancelled puts nothing.
  pub poll_write_record-Accepted :
      (bs : Bytes) (st : WriteState) (s : Inner)
      → Accepted (on_wire st s) bs (poll_write_record w bs st s)
  unfolding poll_write_record poll_drain_record
  poll_write_record-Accepted bs st s =
      after_drain-Accepted (on_wire st s) bs (drain_rounds w 64 st s) (drain_rounds-Drained 64 st s)

  -- Flushing and shutting down keep what is on the wire, and answer well only when the stream below
  -- has all of it.
  abbrev pub Flushed : Bytes → Outcome w (Unit {0}) → Type 0
  Flushed wire (ready (ok _), st, s) = written s ≡ wire
  Flushed wire (ready (err e), st, s) = on_wire st s ≡ wire
  Flushed wire (pending, st, s) = on_wire st s ≡ wire

  then_poll-Flushed :
      (below : Inner → Poll (Unit {0}) × Inner) (wire : Bytes) (drained : Outcome w (Unit {0}))
      → ((s : Inner) → written (below s).1 ≡ written s)
      → Drained wire drained
      → Flushed wire (then_poll w below drained)
  unfolding then_poll
  then_poll-Flushed below wire (pending, st, s) keeps h = h
  then_poll-Flushed below wire (ready (err e), st, s) keeps h = h
  then_poll-Flushed below wire (ready (ok _), st, s) keeps (h, i) =
      answered (below s).0 (below s).1 (keeps s)
    where
      answered :
          (a : Poll (Unit {0})) (s' : Inner) → written s' ≡ written s → Flushed wire (a, st, s')
      answered (ready (ok _)) s' k = k ∙ h
      answered (ready (err e)) s' k = rw i (append-nil (written s') ∙ k ∙ h)
      answered pending s' k = rw i (append-nil (written s') ∙ k ∙ h)

  pub poll_flush_record-Flushed :
      (st : WriteState) (s : Inner)
      → Flushed (on_wire st s) (poll_flush_record w st s)
        × Flushed (on_wire st s) (poll_shutdown_record w st s)
  unfolding poll_flush_record poll_shutdown_record poll_drain_record
  poll_flush_record-Flushed st s =
      let drained = drain_rounds-Drained 64 st s in
      (
        then_poll-Flushed poll_flush (on_wire st s) _ poll_flush_keeps drained,
        then_poll-Flushed poll_shutdown (on_wire st s) _ poll_shutdown_keeps drained,
      )
