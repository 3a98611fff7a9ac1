-- ===== src/FakeTls/RoundTrip.antt =====
-- Writing and then reading the records gives the accepted data back.
use tg_ws_keenetic.Base.{
  ℕ, ◌-◌, ◌≤◌, min, ◌≡◌, refl, sym, ap, ◌∙◌, inl, inr, false, Option, none, some, List, [], ◌∷◌,
  ◌++◌, append_assoc, append-nil, arith, Option-cases, some_inj, length, take, length-take, ok, err,
}
use tg_ws_keenetic.Base.Bytes.{Bytes, to_be_u16}
use mathlib.Core.Path.{subst}
use tg_ws_keenetic.Base.Polls.{ready, pending, AsyncWrite}
use tg_ws_keenetic.FakeTls.Reader.{ReadState, fresh, open_record, tls_app_data_max}
use tg_ws_keenetic.FakeTls.Records.{
  decode, prepend, prepend_nil, prepend-prepend, after_open, decode_complete, decode_body,
}
use tg_ws_keenetic.FakeTls.Writer.{WriteState, idle, app_record, Outcome, poll_write_record}
use tg_ws_keenetic.FakeTls.Wire.{on_wire, record_for, Accepted, poll_write_record-Accepted}

abbrev between : ℕ → ReadState
between n = record { header = []; remaining = n; ccs = false; eof = false }

open_app_record :
    (n : ℕ)
    → n ≤ tls_app_data_max
    → open_record fresh (0x17 ∷ 0x03 ∷ 0x03 ∷ to_be_u16 n) ≡ some (between n)
unfolding open_record
open_app_record n h = ground arith

decode-app_record :
    (n : ℕ) (bs rest : Bytes)
    → n ≤ length bs
    → n ≤ tls_app_data_max
    → decode fresh (app_record n bs ++ rest) ≡ prepend (take n bs) (decode fresh rest)
unfolding app_record after_open
decode-app_record n bs rest hl hm =
    let body = take n bs in
    let len : length body ≡ n = omega (arith, length-take n bs) in
    let done : n - length body ≡ 0 = omega (arith, len) in
    decode_complete fresh 0x17 (0x03 ∷ 0x03 ∷ to_be_u16 n) (body ++ rest) refl refl refl
    ∙ ap (λ o. after_open o (body ++ rest)) (open_app_record n hm)
    ∙ decode_body (between n) body rest refl refl (omega (arith, len))
    ∙ ap (λ k. prepend body (decode (between k) rest)) done

decode-record_for :
    (bs rest : Bytes)
    → decode fresh (record_for bs ++ rest)
      ≡ prepend (take (min (length bs) tls_app_data_max) bs) (decode fresh rest)
decode-record_for [] rest = sym (prepend_nil (decode fresh rest))
decode-record_for (b ∷ bs) rest =
    decode-app_record (min (length (b ∷ bs)) tls_app_data_max) (b ∷ bs) rest (omega arith)
      (omega arith)

-- The data that writes offer, and that the stream has accepted when the last of them was answered.
-- An error ends the exchange.
module _ (w : AsyncWrite) where
  open w use {Inner, written}

  pub record Sent : Type 0 where
    pub accepted_bytes : Bytes
    pub state : WriteState
    pub inner : Inner

  unfoldable pub count_accepted : Bytes → Bytes → Outcome w ℕ → Option Sent
  count_accepted before bs (ready (ok n), st, s) =
      some (record { accepted_bytes = before ++ take n bs; state = st; inner = s })
  count_accepted before bs (ready (err e), st, s) = none
  count_accepted before bs (pending, st, s) =
      some (record { accepted_bytes = before; state = st; inner = s })

  unfoldable pub offer_all : List Bytes → Sent → Option Sent
  offer_all [] x = some x
  offer_all (bs ∷ more) x =
      elim (count_accepted x.accepted_bytes bs (poll_write_record w bs x.state x.inner)) [
        | none ↦ none
        | some y ↦ offer_all more y
      ]

  abbrev IsReadable : Sent → Type 0
  IsReadable x =
      (rest : Bytes)
      → decode fresh (on_wire w x.state x.inner ++ rest)
        ≡ prepend x.accepted_bytes (decode fresh rest)

  count_accepted-IsReadable :
      (x y : Sent) (bs : Bytes) (o : Outcome w ℕ)
      → IsReadable x
      → Accepted w (on_wire w x.state x.inner) bs o
      → count_accepted x.accepted_bytes bs o ≡ some y
      → IsReadable y
  unfolding count_accepted
  count_accepted-IsReadable x y bs (ready (err k), st, s) hx a e = cc
  count_accepted-IsReadable x y bs (pending, st, s) hx a e =
      subst IsReadable (some_inj e) (λ rest. ap (λ t. decode fresh (t ++ rest)) a ∙ hx rest)
  count_accepted-IsReadable x y bs (ready (ok n), st, s) hx (size, wire) e =
      subst IsReadable (some_inj e) λ rest.
        ap (λ t. decode fresh (t ++ rest)) wire
        ∙ ap (decode fresh) (append_assoc (on_wire w x.state x.inner) (record_for bs) rest)
        ∙ hx (record_for bs ++ rest)
        ∙ ap (prepend x.accepted_bytes) (decode-record_for bs rest)
        ∙ prepend-prepend x.accepted_bytes _ (decode fresh rest)
        ∙ ap (λ k. prepend (x.accepted_bytes ++ take k bs) (decode fresh rest)) (sym size)

  offer_all-IsReadable :
      (offers : List Bytes) (x y : Sent) → IsReadable x → offer_all offers x ≡ some y → IsReadable y
  unfolding offer_all
  offer_all-IsReadable [] x y hx e = subst IsReadable (some_inj e) hx
  offer_all-IsReadable (bs ∷ more) x y hx e =
      elim (Option-cases
        (count_accepted x.accepted_bytes bs (poll_write_record w bs x.state x.inner))) [
          | inl c ↦ cc (rw (c, offer_all) at e)
          | inr (z, c) ↦
              offer_all-IsReadable more z y
                (count_accepted-IsReadable x z bs _ hx
                  (poll_write_record-Accepted w bs x.state x.inner) c)
                (rw (c, offer_all) at e)
        ]

  abbrev pub unused : Inner → Sent
  unused s = record { accepted_bytes = []; state = idle; inner = s }

  -- Over a stream that starts empty, whatever is offered in whatever pieces the stream takes it, the
  -- reading half decodes from the wire exactly the data that the writing half has accepted.
  pub decode-offer_all :
      (offers : List Bytes) (s : Inner) (y : Sent)
      → written s ≡ []
      → offer_all offers (unused s) ≡ some y
      → decode fresh (on_wire w y.state y.inner) ≡ some y.accepted_bytes
  decode-offer_all offers s y h e =
      let start : IsReadable (unused s) =
        λ rest. ap (λ t. decode fresh ((t ++ []) ++ rest)) h ∙ sym (prepend_nil _) in
      ap (decode fresh) (sym (append-nil (on_wire w y.state y.inner)))
      ∙ offer_all-IsReadable offers (unused s) y start e []
      ∙ unfold decode in ap some (append-nil y.accepted_bytes)
