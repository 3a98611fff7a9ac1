-- ===== src/FakeTls/Reader.antt =====
-- The reading half of `FakeTlsStream`. `header` is the filled part of `read_header`.
use tg_ws_keenetic.Base.{
  ℕ, zero, suc, ◌+◌, ◌-◌, ◌*◌, min, Bool, true, false, not, ◌&&◌, ◌||◌, Option, none, some, [], ◌∷◌,
  ◌++◌, leb, ◌==◌, if◌then◌else◌, length, get_or, ok, err, ErrorKind,
}
use tg_ws_keenetic.Base.Bytes.{Bytes}
use tg_ws_keenetic.Base.Polls.{Poll, ready, pending, AsyncRead}

abbrev pub tls_app_data_max : ℕ
tls_app_data_max = 16384

pub record ReadState : Type 0 where
  pub header : Bytes
  pub remaining : ℕ
  pub ccs : Bool
  pub eof : Bool

abbrev pub fresh : ReadState
fresh = record { header = []; remaining = 0; ccs = false; eof = false }

-- The state behind a header of five bytes: `none` for a version or a record that is refused.
unfoldable pub open_record : ReadState → Bytes → Option ReadState
open_record st header =
    let length = get_or header 3 0 * 256 + get_or header 4 0 in
    if not (get_or header 1 0 == 0x03) || not (get_or header 2 0 == 0x03)
    then none
    else if (get_or header 0 0 == 0x14) && (length == 1)
    then some (record st { header = []; remaining = length; ccs = true })
    else if (get_or header 0 0 == 0x17) && leb length (tls_app_data_max + 256)
    then some (record st { header = []; remaining = length })
    else if get_or header 0 0 == 0x15
    then some (record st { header = []; eof = true })
    else none

module _ (r : AsyncRead) where
  open r use {Inner, poll_read}

  abbrev pub Outcome : Type 0
  Outcome = Poll Bytes × ReadState × Inner

  -- The byte of a ChangeCipherSpec record has been polled for. `again` is the next round.
  unfoldable pub after_ccs :
      (ReadState → Inner → Outcome) → ReadState → Poll Bytes × Inner → Outcome
  after_ccs again st (pending, s) = (pending, st, s)
  after_ccs again st (ready (err e), s) = (ready (err e), st, s)
  after_ccs again st (ready (ok []), s) = (ready (err ErrorKind.unexpected_eof), st, s)
  after_ccs again st (ready (ok (b ∷ _)), s) =
      let next = again (record st { remaining = 0; ccs = false }) s in
      if b == 1 then next else (ready (err ErrorKind.invalid_data), st, s)

  -- Bytes of an application record have been polled for.
  unfoldable pub after_body : ReadState → Poll Bytes × Inner → Outcome
  after_body st (pending, s) = (pending, st, s)
  after_body st (ready (err e), s) = (ready (err e), st, s)
  after_body st (ready (ok []), s) = (ready (err ErrorKind.unexpected_eof), st, s)
  after_body st (ready (ok (b ∷ bs)), s) =
      (ready (ok (b ∷ bs)), record st { remaining = st.remaining - length (b ∷ bs) }, s)

  -- The header is complete: a record begins, the stream ends by an alert, or the header is refused.
  unfoldable pub begin_record : (ReadState → Inner → Outcome) → ReadState → Bytes → Inner → Outcome
  unfolding open_record
  begin_record again st header s = elim (open_record st header) [
    | none ↦ (ready (err ErrorKind.invalid_data), record st { header = [] }, s)
    | some opened ↦
        let next = again opened s in if opened.eof then (ready (ok []), opened, s) else next
  ]

  -- Bytes of a record's header have been polled for.
  unfoldable pub after_header :
      (ReadState → Inner → Outcome) → ReadState → Poll Bytes × Inner → Outcome
  unfolding begin_record
  after_header again st (pending, s) = (pending, st, s)
  after_header again st (ready (err e), s) = (ready (err e), st, s)
  after_header again st (ready (ok []), s) =
      if length st.header == 0
      then (ready (ok []), record st { eof = true }, s)
      else (ready (err ErrorKind.unexpected_eof), st, s)
  after_header again st (ready (ok (b ∷ bs)), s) =
      let header = st.header ++ b ∷ bs in
      let more = again (record st { header = header }) s in
      if length header == 5 then begin_record again st header s else more

  -- `for _ in 0..32 { .. }`; past the last round the task wakes itself and yields.
  unfoldable pub read_rounds : ℕ → ℕ → ReadState → Inner → Outcome
  unfolding after_ccs after_body after_header
  read_rounds zero room st s = (pending, st, s)
  read_rounds (suc rounds) room st s =
      let again = read_rounds rounds room in
      if st.remaining == 0
      then after_header again st (poll_read s (5 - length st.header))
      else if st.ccs
      then after_ccs again st (poll_read s 1)
      else after_body st (poll_read s (min room st.remaining))

  -- `FakeTlsStream::poll_read` with room for so many bytes.
  unfoldable pub poll_read_record : ℕ → ReadState → Inner → Outcome
  unfolding read_rounds
  poll_read_record room st s =
      if (room == 0) || st.eof then (ready (ok []), st, s) else read_rounds 32 room st s
