-- ===== src/FakeTls/Writer.antt =====
-- The writing half of `FakeTlsStream`: one TLS record is kept until the stream below has taken it.
use tg_ws_keenetic.Base.{
  ℕ, zero, suc, ◌+◌, min, [], ◌∷◌, ◌++◌, ◌==◌, if◌then◌else◌, length, take, drop, ok, err,
  ErrorKind,
}
use tg_ws_keenetic.Base.Bytes.{Bytes, to_be_u16}
use tg_ws_keenetic.Base.Polls.{Poll, ready, pending, AsyncWrite}
use tg_ws_keenetic.FakeTls.Reader.{tls_app_data_max}

pub record WriteState : Type 0 where
  pub write_record : Bytes
  pub write_offset : ℕ

abbrev pub idle : WriteState
idle = record { write_record = []; write_offset = 0 }

-- An application record around so many bytes at the front of the data.
unfoldable pub app_record : ℕ → Bytes → Bytes
app_record n bs = 0x17 ∷ 0x03 ∷ 0x03 ∷ to_be_u16 n ++ take n bs

module _ (w : AsyncWrite) where
  open w use {Inner, poll_write, poll_flush, poll_shutdown}

  abbrev pub Outcome : Type 0 → Type 0
  Outcome A = Poll A × WriteState × Inner

  -- A part of the record has been offered. `again` is the next round.
  unfoldable pub after_write :
      (WriteState → Inner → Outcome (Unit {0})) → WriteState → Poll ℕ × Inner → Outcome (Unit {0})
  after_write again st (pending, s) = (pending, st, s)
  after_write again st (ready (err e), s) = (ready (err e), st, s)
  after_write again st (ready (ok n), s) =
      let next = again (record st { write_offset = st.write_offset + n }) s in
      if n == 0 then (ready (err ErrorKind.write_zero), st, s) else next

  unfoldable pub drain_rounds : ℕ → WriteState → Inner → Outcome (Unit {0})
  unfolding after_write
  drain_rounds zero st s = (pending, st, s)
  drain_rounds (suc rounds) st s =
      let again = drain_rounds rounds in
      if st.write_offset == length st.write_record
      then (ready (ok tt), idle, s)
      else after_write again st (poll_write s (drop st.write_offset st.write_record))

  unfoldable pub poll_drain_record : WriteState → Inner → Outcome (Unit {0})
  unfolding drain_rounds
  poll_drain_record = drain_rounds 64

  -- The new record is offered once; only an error of that shows in the answer.
  unfoldable pub accepted : ℕ → Outcome (Unit {0}) → Outcome ℕ
  accepted n (ready (err e), st, s) = (ready (err e), st, s)
  accepted n (ready (ok _), st, s) = (ready (ok n), st, s)
  accepted n (pending, st, s) = (ready (ok n), st, s)

  -- The record before has been drained, or not.
  unfoldable pub after_drain : Bytes → Outcome (Unit {0}) → Outcome ℕ
  unfolding poll_drain_record accepted app_record
  after_drain bs (pending, st, s) = (pending, st, s)
  after_drain bs (ready (err e), st, s) = (ready (err e), st, s)
  after_drain [] (ready (ok _), st, s) = (ready (ok 0), st, s)
  after_drain (b ∷ bs) (ready (ok _), st, s) =
      let n = min (length (b ∷ bs)) tls_app_data_max in
      accepted n (
        poll_drain_record (record st { write_record = st.write_record ++ app_record n (b ∷ bs) }) s)

  unfoldable pub poll_write_record : Bytes → WriteState → Inner → Outcome ℕ
  unfolding after_drain
  poll_write_record bs st s = after_drain bs (poll_drain_record st s)

  unfoldable pub then_poll :
      (Inner → Poll (Unit {0}) × Inner) → Outcome (Unit {0}) → Outcome (Unit {0})
  then_poll below (pending, st, s) = (pending, st, s)
  then_poll below (ready (err e), st, s) = (ready (err e), st, s)
  then_poll below (ready (ok _), st, s) = let (answer, s') = below s in (answer, st, s')

  unfoldable pub poll_flush_record : WriteState → Inner → Outcome (Unit {0})
  unfolding poll_drain_record then_poll
  poll_flush_record st s = then_poll poll_flush (poll_drain_record st s)

  unfoldable pub poll_shutdown_record : WriteState → Inner → Outcome (Unit {0})
  unfolding poll_drain_record then_poll
  poll_shutdown_record st s = then_poll poll_shutdown (poll_drain_record st s)
