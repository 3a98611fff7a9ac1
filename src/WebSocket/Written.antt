-- ===== src/WebSocket/Written.antt =====
-- What `WsWriter` writes, in whatever parts: whole frames one behind the other.
use tg_ws_keenetic.Base.{
  ℕ, ◌+◌, ◌%◌, ◌<◌, ◌≡◌, refl, sym, ap, ◌∙◌, ◌≢◌, ◌⊎◌, inl, inr, false, not, ◌||◌, List, [], ◌∷◌,
  ◌++◌, append_assoc, append-nil, arith, ltb, ◌==◌, Bool-cases, length, get_or, length-append,
  Result, ok, err, ErrorKind,
}
use tg_ws_keenetic.Base.Bytes.{Bytes}
use mathlib.Core.Path.{ap₂, subst}
use tg_ws_keenetic.Base.Wires.{Writer}
use tg_ws_keenetic.Crypto.Stream.{xor_from-append}
use tg_ws_keenetic.WebSocket.Writer.{
  WsWriter, max_message, frame_header, masked, Outcome, began, begin, begin_binary, flushed,
  after_payload, payload, then_payload, binary,
}
use tg_ws_keenetic.WebSocket.Frames.{frame}

abbrev pub joined : List Bytes → Bytes
joined [] = []
joined (bs ∷ more) = bs ++ joined more

regroup : (a b c d e : Bytes) → (a ++ (b ++ (c ++ d))) ++ e ≡ a ++ (b ++ (c ++ (d ++ e)))
regroup a b c d e = simp append_assoc

module _ (w : Writer) where
  open w use {Inner, write_all, flush, written, write_all_writes, flush_keeps}

  -- Inside a frame of which some bytes of the payload have been written.
  pub record IsInFrame (before : Bytes) (opcode n : ℕ) (mask done : Bytes) (ws : WsWriter)
      (s : Inner) : Type 0 where
    pub wire : written s ≡ before ++ (frame_header opcode n ++ (mask ++ masked mask 0 done))
    pub same_mask : ws.mask ≡ mask
    pub place : ws.offset ≡ length done
    pub left : ws.remaining + length done ≡ n

  abbrev pub InFrame : Bytes → ℕ → ℕ → Bytes → Bytes → Outcome w → Type 0
  InFrame before opcode n mask done (err e, ws, s) = Unit
  InFrame before opcode n mask done (ok _, ws, s) = IsInFrame before opcode n mask done ws s

  flushed-InFrame :
      (before : Bytes) (opcode n : ℕ) (mask done : Bytes) (ws : WsWriter) (s : Inner)
      → IsInFrame before opcode n mask done ws s
      → InFrame before opcode n mask done (flushed w ws s)
  unfolding flushed
  flushed-InFrame before opcode n mask done ws s h = elim (Bool-cases (ws.remaining == 0)) [
    | inr f ↦ simp f h
    | inl t ↦ simp t (answered (flush s).0 (flush s).1 (flush_keeps s))
  ]
    where
      answered :
          (a : Result (Unit {0})) (s' : Inner)
          → written s' ≡ written s
          → InFrame before opcode n mask done (a, ws, s')
      answered (err e) s' k = tt
      answered (ok _) s' k = record {
        wire = k ∙ h.wire;
        same_mask = h.same_mask;
        place = h.place;
        left = h.left;
      }

  pub payload-InFrame :
      (before : Bytes) (opcode n : ℕ) (mask done bs : Bytes) (ws : WsWriter) (s : Inner)
      → IsInFrame before opcode n mask done ws s
      → InFrame before opcode n mask (done ++ bs) (payload w bs ws s)
  unfolding payload
  payload-InFrame before opcode n mask done bs ws s h =
      elim (Bool-cases (ltb ws.remaining (length bs))) [
        | inl t ↦ simp t tt
        | inr f ↦ simp f (
            sent f (write_all s (masked ws.mask ws.offset bs)).0
              (write_all s (masked ws.mask ws.offset bs)).1 refl)
      ]
    where
      here : ws.offset ≡ 0 + length done
      here = omega (arith, h.place)

      sent :
          ltb ws.remaining (length bs) ≡ false
          → (a : Result (Unit {0})) (s' : Inner)
          → write_all s (masked ws.mask ws.offset bs) ≡ (a, s')
          → InFrame before opcode n mask (done ++ bs) (after_payload w (length bs) ws (a, s'))
      sent f (err e) s' q = unfold after_payload in tt
      sent f (ok _) s' q = flushed-InFrame before opcode n mask (done ++ bs) _ s' (record {
        wire =
            write_all_writes s (masked ws.mask ws.offset bs) s' q
            ∙ ap₂ (λ x y. x ++ y) h.wire (ap₂ (λ m i. masked m i bs) h.same_mask here)
            ∙ regroup before (frame_header opcode n) mask (masked mask 0 done) _
            ∙ ap (λ t. before ++ (frame_header opcode n ++ (mask ++ t)))
                (sym (xor_from-append (λ i. get_or mask (i % 4) 0) 0 done bs));
        same_mask = h.same_mask;
        place = omega (arith, h.place, length-append done bs);
        left = ground (arith, h.left, length-append done bs, f);
      })

  then_payload-InFrame :
      (before : Bytes) (opcode n : ℕ) (mask done bs : Bytes) (o : Outcome w)
      → InFrame before opcode n mask done o
      → InFrame before opcode n mask (done ++ bs) (then_payload w bs o)
  unfolding then_payload
  then_payload-InFrame before opcode n mask done bs (err e, ws, s) h = tt
  then_payload-InFrame before opcode n mask done bs (ok _, ws, s) h =
      payload-InFrame before opcode n mask done bs ws s h

  pub begin-InFrame :
      (random : Bytes) (opcode n : ℕ) (ws : WsWriter) (s : Inner)
      → InFrame (written s) opcode n random [] (begin w random opcode n ws s)
  unfolding begin
  begin-InFrame random opcode n ws s =
      elim (Bool-cases (not (ws.remaining == 0) || ltb max_message n)) [
        | inl t ↦ simp t tt
        | inr f ↦ simp f (
            started (write_all s (frame_header opcode n ++ random)).0
              (write_all s (frame_header opcode n ++ random)).1 refl)
      ]
    where
      started :
          (a : Result (Unit {0})) (s' : Inner)
          → write_all s (frame_header opcode n ++ random) ≡ (a, s')
          → InFrame
              (written s)
              opcode
              n
              random
              []
              (began w n (record ws { mask = random; offset = 0 }) (a, s'))
      started (err e) s' q = tt
      started (ok _) s' q = record {
        wire =
            write_all_writes s _ s' q
            ∙ ap (λ t. written s ++ (frame_header opcode n ++ t)) (sym (append-nil random));
        same_mask = refl;
        place = refl;
        left = omega arith;
      }

  unfoldable pub write_parts : List Bytes → Outcome w → Outcome w
  write_parts [] o = o
  write_parts (bs ∷ more) o = write_parts more (then_payload w bs o)

  write_parts-InFrame :
      (before : Bytes) (opcode n : ℕ) (mask done : Bytes) (parts : List Bytes) (o : Outcome w)
      → InFrame before opcode n mask done o
      → InFrame before opcode n mask (done ++ joined parts) (write_parts parts o)
  unfolding write_parts
  write_parts-InFrame before opcode n mask done [] o h =
      subst (λ d. InFrame before opcode n mask d o) (sym (append-nil done)) h
  write_parts-InFrame before opcode n mask done (bs ∷ more) o h =
      subst (λ d. InFrame before opcode n mask d (write_parts more (then_payload w bs o)))
        (append_assoc done bs (joined more))
        (write_parts-InFrame before opcode n mask (done ++ bs) more (then_payload w bs o)
          (then_payload-InFrame before opcode n mask done bs o h))

  whole_frame :
      (before : Bytes) (opcode : ℕ) (mask bs : Bytes) (o : Outcome w) (ws : WsWriter) (s : Inner)
      → InFrame before opcode (length bs) mask bs o
      → o ≡ (ok tt, ws, s)
      → (written s ≡ before ++ frame opcode mask bs) × (ws.remaining ≡ 0)
  whole_frame before opcode mask bs o ws s h e =
      let inside : IsInFrame before opcode (length bs) mask bs ws s =
        subst (InFrame before opcode (length bs) mask bs) e h in
      (inside.wire, omega (arith, inside.left))

  -- A frame begun with the length of all parts together, and written in these parts, is one frame
  -- around their concatenation, and ends there.
  pub write_parts-begin :
      (random : Bytes) (opcode : ℕ) (parts : List Bytes) (ws ws' : WsWriter) (s s' : Inner)
      → write_parts parts (begin w random opcode (length (joined parts)) ws s) ≡ (ok tt, ws', s')
      → (written s' ≡ written s ++ frame opcode random (joined parts)) × (ws'.remaining ≡ 0)
  write_parts-begin random opcode parts ws ws' s s' e =
      whole_frame (written s) opcode random (joined parts) _ ws' s'
        (write_parts-InFrame (written s) opcode (length (joined parts)) random [] parts _
          (begin-InFrame random opcode (length (joined parts)) ws s))
        e

  -- `binary` writes one frame around the data.
  pub binary_writes :
      (random bs : Bytes) (ws ws' : WsWriter) (s s' : Inner)
      → binary w random bs ws s ≡ (ok tt, ws', s')
      → (written s' ≡ written s ++ frame 2 random bs) × (ws'.remaining ≡ 0)
  unfolding binary begin_binary
  binary_writes random bs ws ws' s s' e =
      whole_frame (written s) 2 random bs _ ws' s'
        (then_payload-InFrame (written s) 2 (length bs) random [] bs _
          (begin-InFrame random 2 (length bs) ws s))
        e

  -- A frame that is begun inside another or is too long, and a part that exceeds what is left of the
  -- frame, are refused, and nothing is written.
  pub begin_refuses :
      (random bs : Bytes) (opcode n : ℕ) (ws : WsWriter) (s : Inner)
      → (ws.remaining ≢ 0) ⊎ (max_message < n)
      → ws.remaining < length bs
      → (begin w random opcode n ws s ≡ (err ErrorKind.invalid_data, ws, s))
        × (payload w bs ws s ≡ (err ErrorKind.invalid_data, ws, s))
  unfolding begin payload
  begin_refuses random bs opcode n ws s h k = (ground arith, ground arith)
