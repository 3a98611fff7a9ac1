-- ===== src/WebSocket/Messages.antt =====
-- What `WsReader` gives to its caller: it always answers, and keeps within the limits.
use tg_ws_keenetic.Base.{
  ℕ, zero, suc, ◌+◌, ◌/◌, ◌%◌, ◌≤◌, ◌<◌, min, ◌≡◌, refl, sym, ap, ◌∙◌, Bool, true, false, not, ◌||◌,
  none, some, [], ◌∷◌, ◌++◌, append_assoc, arith, ltb, leb, ◌==◌, if◌then◌else◌, length, get_or,
  length-append, Result, ok, err,
}
use tg_ws_keenetic.Base.Bytes.{Bytes}
use tg_ws_keenetic.Base.Wires.{Reader, Writer}
use tg_ws_keenetic.WebSocket.Writer.{max_message}
use tg_ws_keenetic.WebSocket.Reader.{
  WsReader, extra, frame_length, begin_data, Side, Chunk, Again, data_read, replied_with, ponged,
  control_read, data_begun, length_known, extra_read, start_known, second_read, first_read,
  chunk_rounds, chunk,
}

abbrev pub IsWithinLimits : WsReader → Type 0
IsWithinLimits st = (st.remaining ≤ st.message_len) × (st.message_len ≤ max_message)

begin_data-IsWithinLimits :
    (fin : Bool) (opcode n : ℕ) (st st' : WsReader)
    → begin_data fin opcode n st ≡ (ok tt, st')
    → IsWithinLimits st'
unfolding begin_data
begin_data-IsWithinLimits fin opcode n st st' e = ground arith

module _ (r : Reader) (w : Writer) (room : ℕ) where
  open r use {unread, read_takes, read_fits, read_exact_takes, read_exact_fills}

  -- The rounds were enough; and data that is given is no more than there is room for, comes from the
  -- wire behind what was taken before it, and leaves the reader within the limits.
  abbrev pub Given : r.Inner → Chunk r w → Type 0
  Given s (none, st, s', side) = ⊥
  Given s (some (err kind), st, s', side) = Unit
  Given s (some (ok d), st, s', side) =
      IsWithinLimits st
      × (length d ≤ room)
      × ((taken : Bytes) × (unread s ≡ taken ++ (d ++ unread s')))

  behind-Given :
      (s t : r.Inner) (d : Bytes) (c : Chunk r w) → unread s ≡ d ++ unread t → Given t c → Given s c
  behind-Given s t d (none, st, s', side) e g = g
  behind-Given s t d (some (err kind), st, s', side) e g = g
  behind-Given s t d (some (ok x), st, s', side) e (limits, fits, (taken, q)) = (
    limits,
    fits,
    (d ++ taken, e ∙ ap (λ y. d ++ y) q ∙ sym (append_assoc d taken (x ++ unread s'))),
  )

  either-Given :
      (s : r.Inner) (c : Bool) (x y : Chunk r w)
      → Given s x
      → Given s y
      → Given s (if c then x else y)
  either-Given s true x y g h = g
  either-Given s false x y g h = h

  -- The rounds that are left answer wherever fewer bytes are to come than there are rounds.
  abbrev Answers : Again r w → ℕ → Type 0
  Answers again rounds =
      (st : WsReader) (s : r.Inner) (side : Side r w)
      → IsWithinLimits st
      → length (unread s) < rounds
      → Given s (again st s side)

  shorter :
      (n : ℕ) (s s' : r.Inner) (d : Bytes)
      → r.read_exact s n ≡ (ok d, s')
      → length (unread s) ≡ n + length (unread s')
  shorter n s s' d e = omega (
    arith,
    ap length (read_exact_takes s n d s' e),
    length-append d (unread s'),
    read_exact_fills s n d s' e,
  )

  module _ (again : Again r w) (rounds : ℕ) (go : Answers again rounds) (mask : Bytes)
      (free : Bool) where
    control_read-Given :
        (opcode n : ℕ) (st : WsReader) (side : Side r w) (s s' : r.Inner) (a : Result Bytes)
        → IsWithinLimits st
        → length (unread s) < rounds
        → r.read_exact s n ≡ (a, s')
        → Given s (control_read r w again mask free opcode n st side (a, s'))
    unfolding control_read ponged
    control_read-Given opcode n st side s s' (err kind) h l e = tt
    control_read-Given opcode n st side s s' (ok bs) h l e =
        behind-Given s s' bs _ (read_exact_takes s n bs s' e) (answered (shorter n s s' bs e))
      where
        pong :
            (o : Result (Unit {0}) × Side r w)
            → length (unread s) ≡ n + length (unread s')
            → Given s' (ponged r w again st s' o)
        pong (err kind, side') q = tt
        pong (ok _, side') q = go st s' side' h (omega arith)

        answered :
            length (unread s) ≡ n + length (unread s')
            → Given s' (control_read r w again mask free opcode n st side (ok bs, s'))
        answered q =
            either-Given s' (opcode == 8) _ _
              (either-Given s' (n == 1) _ _ tt (h, omega arith, ([], refl)))
              (either-Given s' (opcode == 9) _ _ (pong (replied_with r w mask 10 bs side) q)
                (go st s' side h (omega arith)))

    data_begun-Given :
        (s : r.Inner) (side : Side r w) (fin : Bool) (opcode n : ℕ) (st : WsReader)
        → length (unread s) < rounds
        → (o : Result (Unit {0}) × WsReader) → begin_data fin opcode n st ≡ o
        → Given s (data_begun r w again s side o)
    unfolding data_begun
    data_begun-Given s side fin opcode n st l (err kind, st') e = tt
    data_begun-Given s side fin opcode n st l (ok _, st') e =
        go st' s side (begin_data-IsWithinLimits fin opcode n st st' e) l

    length_known-Given :
        (a : ℕ) (st : WsReader) (s : r.Inner) (side : Side r w) (o : Result ℕ)
        → IsWithinLimits st
        → length (unread s) < rounds
        → Given s (length_known r w again mask free a st s side o)
    unfolding length_known
    length_known-Given a st s side (err kind) h l = tt
    length_known-Given a st s side (ok n) h l =
        either-Given s (leb 8 (a % 16)) _ _
          (either-Given s (not (leb 128 a) || ltb 125 n || ltb 10 (a % 16)) _ _ tt (
            control_read-Given (a % 16) n st side s (r.read_exact s n).1 (r.read_exact s n).0 h l
              refl))
          (data_begun-Given s side (leb 128 a) (a % 16) n st l
            (begin_data (leb 128 a) (a % 16) n st) refl)

    extra_read-Given :
        (a b n : ℕ) (st : WsReader) (side : Side r w) (s s' : r.Inner) (o : Result Bytes)
        → IsWithinLimits st
        → length (unread s) < rounds
        → r.read_exact s n ≡ (o, s')
        → Given s (extra_read r w again mask free a b st side (o, s'))
    unfolding extra_read
    extra_read-Given a b n st side s s' (err kind) h l e = tt
    extra_read-Given a b n st side s s' (ok more) h l e =
        behind-Given s s' more _ (read_exact_takes s n more s' e) (
          length_known-Given a st s' side (frame_length b more) h
            (omega (arith, shorter n s s' more e)))

    start_known-Given :
        (a b : ℕ) (st : WsReader) (side : Side r w) (s : r.Inner)
        → IsWithinLimits st
        → length (unread s) < rounds
        → Given s (start_known r w again mask free a b st side s)
    unfolding start_known
    start_known-Given a b st side s h l =
        either-Given s (not (a / 16 % 8 == 0) || leb 128 b) _ _ tt (
          either-Given s (extra b == 0) _ _ (length_known-Given a st s side (frame_length b []) h l)
            (extra_read-Given a b (extra b) st side s (r.read_exact s (extra b)).1
              (r.read_exact s (extra b)).0 h l refl))

    second_read-Given :
        (a : ℕ) (st : WsReader) (side : Side r w) (s s' : r.Inner) (o : Result Bytes)
        → IsWithinLimits st
        → length (unread s) ≤ rounds
        → r.read_exact s 1 ≡ (o, s')
        → Given s (second_read r w again mask free a st side (o, s'))
    unfolding second_read
    second_read-Given a st side s s' (err kind) h l e = tt
    second_read-Given a st side s s' (ok b) h l e =
        behind-Given s s' b _ (read_exact_takes s 1 b s' e)
          (start_known-Given a (get_or b 0 0) st side s' h (omega (arith, shorter 1 s s' b e)))

    first_read-Given :
        (st : WsReader) (side : Side r w) (s s' : r.Inner) (o : Result Bytes)
        → IsWithinLimits st
        → length (unread s) ≤ rounds
        → r.read_exact s 1 ≡ (o, s')
        → Given s (first_read r w again mask free st side (o, s'))
    unfolding first_read
    first_read-Given st side s s' (err kind) h l e = tt
    first_read-Given st side s s' (ok a) h l e =
        behind-Given s s' a _ (read_exact_takes s 1 a s' e) (
          second_read-Given (get_or a 0 0) st side s' (r.read_exact s' 1).1 (r.read_exact s' 1).0 h
            (omega (arith, shorter 1 s s' a e)) refl)

  data_read-Given :
      (st : WsReader) (side : Side r w) (s s' : r.Inner) (o : Result Bytes)
      → IsWithinLimits st
      → r.read s (min room st.remaining) ≡ (o, s')
      → Given s (data_read r w st side (o, s'))
  unfolding data_read
  data_read-Given st side s s' (err kind) h e = tt
  data_read-Given st side s s' (ok []) h e = tt
  data_read-Given st side s s' (ok (b ∷ bs)) (h, k) e = (
    (omega arith, k),
    omega (arith, read_fits s (min room st.remaining) (b ∷ bs) s' e),
    ([], read_takes s (min room st.remaining) (b ∷ bs) s' e),
  )

  chunk_rounds-Given :
      (rounds : ℕ) (masks : ℕ → Bytes) (free : Bool)
      → Answers (chunk_rounds r w rounds masks free room) rounds
  unfolding chunk_rounds
  chunk_rounds-Given zero masks free st s side h l = absurd (omega arith)
  chunk_rounds-Given (suc rounds) masks free st s side h l =
      either-Given s (ltb 0 st.remaining) _ _
        (data_read-Given st side s (r.read s (min room st.remaining)).1
          (r.read s (min room st.remaining)).0 h refl)
        (first_read-Given (chunk_rounds r w rounds masks free room) rounds
          (chunk_rounds-Given rounds masks free) (masks rounds) free st side s (r.read_exact s 1).1
          (r.read_exact s 1).0 h (omega arith) refl)

  -- From a state within the limits `chunk` always answers, whatever frames come; and data that it
  -- gives is no more than there is room for, comes unchanged from the wire behind what was taken
  -- before it, and leaves the reader within the limits: no more is to come of a frame than belongs
  -- to its message, and no message is longer than 16 MiB and 4 bytes.
  pub chunk-Given :
      (masks : ℕ → Bytes) (free : Bool) (st : WsReader) (s : r.Inner) (side : Side r w)
      → IsWithinLimits st
      → Given s (chunk r w masks free room st s side)
  unfolding chunk
  chunk-Given masks free st s side h =
      either-Given s (room == 0) _ _ tt
        (chunk_rounds-Given (length (unread s) + 1) masks free st s side h (omega arith))
