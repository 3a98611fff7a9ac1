-- ===== src/FakeTls/Runs.antt =====
-- Runs of the record stream and the theorems at concrete inputs, over streams in memory.
use tg_ws_keenetic.Base.{
  ℕ, zero, suc, ◌≤◌, ◌<◌, min, ◌≡◌, refl, sym, ap, ◌∙◌, inl, some, List, [], ◌∷◌, ◌++◌,
  append_assoc, arith, length, take, drop, length-take, take-append-drop, take_all, ok, err,
  ErrorKind,
}
use tg_ws_keenetic.Base.Bytes.{Bytes}
use tg_ws_keenetic.Base.Polls.{Poll, ready, pending, AsyncRead, AsyncWrite, ready_inj}
use tg_ws_keenetic.FakeTls.Reader.{fresh, poll_read_record}
use tg_ws_keenetic.FakeTls.Records.{decode, IsBetween}
use tg_ws_keenetic.FakeTls.Decode.{Accounts, poll_read_record-Accounts}
use tg_ws_keenetic.FakeTls.Writer.{idle, poll_write_record}
use tg_ws_keenetic.FakeTls.Wire.{on_wire, Accepted, poll_write_record-Accepted}
use tg_ws_keenetic.FakeTls.RoundTrip.{Sent, unused, offer_all, count_accepted, decode-offer_all}
use mathlib.Core.Path.{ap₂}

-- A stream whose bytes arrive in pieces; an empty piece makes one poll wait.
pieces_poll : List Bytes → ℕ → Poll Bytes × List Bytes
pieces_poll [] room = (ready (ok []), [])
pieces_poll ([] ∷ more) room = (pending, more)
pieces_poll ((b ∷ bs) ∷ more) room = (ready (ok (take room (b ∷ bs))), drop room (b ∷ bs) ∷ more)

all_pieces : List Bytes → Bytes
all_pieces [] = []
all_pieces (bs ∷ more) = bs ++ all_pieces more

pieces_takes :
    (s : List Bytes) (room : ℕ) (d : Bytes) (s' : List Bytes)
    → pieces_poll s room ≡ (ready (ok d), s')
    → all_pieces s ≡ d ++ all_pieces s'
unfolding pieces_poll all_pieces
pieces_takes [] room d s' e =
    let (same, left) = ready_inj e in ap₂ (λ x y. x ++ all_pieces y) same left
pieces_takes ([] ∷ more) room d s' e = cc (ap (λ t. t.0) e)
pieces_takes ((b ∷ bs) ∷ more) room d s' e =
    let (same, left) = ready_inj e in
    ap (λ t. t ++ all_pieces more) (sym (take-append-drop room (b ∷ bs)))
    ∙ append_assoc (take room (b ∷ bs)) (drop room (b ∷ bs)) (all_pieces more)
    ∙ ap₂ (λ x y. x ++ all_pieces y) same left

pieces_fits :
    (s : List Bytes) (room : ℕ) (d : Bytes) (s' : List Bytes)
    → pieces_poll s room ≡ (ready (ok d), s')
    → length d ≤ room
unfolding pieces_poll
pieces_fits [] room d s' e = omega (arith, ap length (ready_inj e).0)
pieces_fits ([] ∷ more) room d s' e = cc (ap (λ t. t.0) e)
pieces_fits ((b ∷ bs) ∷ more) room d s' e =
    omega (arith, ap length (ready_inj e).0, length-take room (b ∷ bs))

pieces_ends :
    (s : List Bytes) (room : ℕ) (s' : List Bytes)
    → 0 < room
    → pieces_poll s room ≡ (ready (ok []), s')
    → all_pieces s ≡ []
unfolding pieces_poll all_pieces
pieces_ends [] room s' h e = refl
pieces_ends ([] ∷ more) room s' h e = cc (ap (λ t. t.0) e)
pieces_ends ((b ∷ bs) ∷ more) room s' h e =
    absurd (omega (arith, ap length (ready_inj e).0, length-take room (b ∷ bs)))

pieces_waits :
    (s : List Bytes) (room : ℕ) (s' : List Bytes)
    → pieces_poll s room ≡ (pending, s')
    → all_pieces s' ≡ all_pieces s
unfolding pieces_poll all_pieces
pieces_waits [] room s' e = cc (ap (λ t. t.0) e)
pieces_waits ([] ∷ more) room s' e = ap all_pieces (sym (ap (λ t. t.1) e))
pieces_waits ((b ∷ bs) ∷ more) room s' e = cc (ap (λ t. t.0) e)

abbrev pieces : AsyncRead
pieces = record {
  Inner = List Bytes;
  poll_read = pieces_poll;
  unread = all_pieces;
  poll_read_takes = pieces_takes;
  poll_read_fits = pieces_fits;
  poll_read_ends = pieces_ends;
  poll_read_waits = pieces_waits;
}

-- A stream that takes so many bytes at each poll, none at a poll of size 0, and remembers them.
sizes_poll : List ℕ × Bytes → Bytes → Poll ℕ × (List ℕ × Bytes)
sizes_poll ([], out) bs = (ready (ok (length bs)), ([], out ++ bs))
sizes_poll (zero ∷ more, out) bs = (pending, (more, out))
sizes_poll (suc n ∷ more, out) bs =
    (ready (ok (min (suc n) (length bs))), (more, out ++ take (min (suc n) (length bs)) bs))

sizes_accepts :
    (s : List ℕ × Bytes) (bs : Bytes) (n : ℕ) (s' : List ℕ × Bytes)
    → sizes_poll s bs ≡ (ready (ok n), s')
    → (s'.1 ≡ s.1 ++ take n bs) × (n ≤ length bs)
unfolding sizes_poll
sizes_accepts ([], out) bs n s' e =
    let (same, left) = ready_inj e in
    (
      sym (ap (λ t. t.1) left)
          ∙ ap (λ t. out ++ t) (sym (take_all (length bs) bs (omega arith)))
          ∙ ap (λ k. out ++ take k bs) same,
      omega (arith, same),
    )
sizes_accepts (zero ∷ more, out) bs n s' e = cc (ap (λ t. t.0) e)
sizes_accepts (suc k ∷ more, out) bs n s' e =
    let (same, left) = ready_inj e in
    (sym (ap (λ t. t.1) left) ∙ ap (λ m. out ++ take m bs) same, omega (arith, same))

sizes_waits :
    (s : List ℕ × Bytes) (bs : Bytes) (s' : List ℕ × Bytes)
    → sizes_poll s bs ≡ (pending, s')
    → s'.1 ≡ s.1
unfolding sizes_poll
sizes_waits ([], out) bs s' e = cc (ap (λ t. t.0) e)
sizes_waits (zero ∷ more, out) bs s' e = sym (ap (λ t. t.1.1) e)
sizes_waits (suc k ∷ more, out) bs s' e = cc (ap (λ t. t.0) e)

sizes_fails :
    (s : List ℕ × Bytes) (bs : Bytes) (k : ErrorKind) (s' : List ℕ × Bytes)
    → sizes_poll s bs ≡ (ready (err k), s')
    → s'.1 ≡ s.1
unfolding sizes_poll
sizes_fails ([], out) bs k s' e = cc (ap (λ t. t.0) e)
sizes_fails (zero ∷ more, out) bs k s' e = cc (ap (λ t. t.0) e)
sizes_fails (suc n ∷ more, out) bs k s' e = cc (ap (λ t. t.0) e)

abbrev sizes : AsyncWrite
sizes = record {
  Inner = List ℕ × Bytes;
  poll_write = sizes_poll;
  poll_flush = λ s. (ready (ok tt), s);
  poll_shutdown = λ s. (ready (ok tt), s);
  written = λ s. s.1;
  poll_write_accepts = λ s bs n s' e. (sizes_accepts s bs n s' e).0;
  poll_write_fits = λ s bs n s' e. (sizes_accepts s bs n s' e).1;
  poll_write_waits = sizes_waits;
  poll_write_fails = sizes_fails;
  poll_flush_keeps = λ s. refl;
  poll_shutdown_keeps = λ s. refl;
}

abbrev ab_in_pieces : List Bytes
ab_in_pieces = (0x17 ∷ 0x03 ∷ []) ∷ (0x03 ∷ 0 ∷ 2 ∷ b'a' ∷ b'b' ∷ []) ∷ []

abbrev fresh-IsBetween : IsBetween fresh
fresh-IsBetween = record { partial = omega arith; one = inl refl }

-- A poll that waits inside a header keeps the part that it has.
first_poll :
    poll_read_record pieces 8 fresh ab_in_pieces
    ≡ (pending, record fresh { header = 0x17 ∷ 0x03 ∷ [] }, (0x03 ∷ 0 ∷ 2 ∷ b'a' ∷ b'b' ∷ []) ∷ [])
unfolding poll_read_record pieces_poll
first_poll = refl

poll_read_record-Accounts_example :
    Accounts pieces 8
      (decode fresh (all_pieces ab_in_pieces))
      (poll_read_record pieces 8 fresh ab_in_pieces)
poll_read_record-Accounts_example =
    poll_read_record-Accounts pieces 8 fresh ab_in_pieces fresh-IsBetween

abbrev slow : List ℕ × Bytes
slow = (3 ∷ 1 ∷ 0 ∷ [], [])

poll_write_record-Accepted_example :
    Accepted sizes
      (on_wire sizes idle slow)
      (b'a' ∷ [])
      (poll_write_record sizes (b'a' ∷ []) idle slow)
poll_write_record-Accepted_example = poll_write_record-Accepted sizes (b'a' ∷ []) idle slow

-- The first record is taken in part, and the second write waits for the rest of it.
abbrev after_two : Sent sizes
after_two = record {
  accepted_bytes = b'a' ∷ b'b' ∷ b'c' ∷ [];
  state = idle;
  inner = ([], 0x17 ∷ 0x03 ∷ 0x03 ∷ 0 ∷ 1 ∷ b'a' ∷ 0x17 ∷ 0x03 ∷ 0x03 ∷ 0 ∷ 2 ∷ b'b' ∷ b'c' ∷ []);
}

two_writes :
    offer_all sizes ((b'a' ∷ []) ∷ (b'b' ∷ b'c' ∷ []) ∷ []) (unused sizes slow) ≡ some after_two
unfolding offer_all count_accepted poll_write_record sizes_poll
two_writes = refl

decode-offer_all_example : decode fresh (after_two.inner.1) ≡ some (b'a' ∷ b'b' ∷ b'c' ∷ [])
decode-offer_all_example =
    decode-offer_all sizes ((b'a' ∷ []) ∷ (b'b' ∷ b'c' ∷ []) ∷ []) slow after_two refl two_writes
