-- ===== src/Proxy/Bridges/Downloads.antt =====
-- What `download_ws` has written for the client is the data of the frames, recoded.
use tg_ws_keenetic.Base.{
  ℕ, zero, suc, ◌+◌, ◌<◌, ◌≡◌, refl, sym, ap, ◌∙◌, Bool, none, some, [], ◌∷◌, ◌++◌, append_assoc,
  append-nil, arith, length, length-append, Result, ok, err,
}
use tg_ws_keenetic.Base.Bytes.{Bytes}
use mathlib.Core.Path.{subst, ap₂}
use tg_ws_keenetic.Base.Wires.{Reader, Writer}
use tg_ws_keenetic.Crypto.{Primitives}
use tg_ws_keenetic.WebSocket.Reader.{WsReader, Side, Chunk, chunk}
use tg_ws_keenetic.WebSocket.Messages.{IsWithinLimits, Given, chunk-Given}
use tg_ws_keenetic.Proxy.Bridges.{
  Ciphers, recode, write_flush, Download, Downloaded, after_client_write, after_chunk,
  download_rounds, download_ws,
}
use tg_ws_keenetic.Proxy.Bridges.Streams.{
  IsAt-start, recoded, recoded-append, IsAligned, recode-IsAligned,
}
use tg_ws_keenetic.Proxy.Bridges.Copies.{write_flush-written}

-- Data that lies in order on a wire, with other bytes between its pieces, and what is still to come.
pub data Carried (wire : Bytes) : Bytes → Bytes → Type 0 where
  nothing_yet : Carried wire [] wire
  a_piece :
      (front piece all skipped rest left : Bytes)
      → Carried wire front rest
      → rest ≡ skipped ++ (piece ++ left)
      → all ≡ front ++ piece
      → Carried wire all left

-- All the data that a reader gives, chunk by chunk and by itself, up to the closing of the WebSocket.
module _ (r : Reader) (v : Writer) (masks : ℕ → ℕ → Bytes) (free : ℕ → Bool) (room : ℕ) where
  pub data Yields : ℕ → WsReader → r.Inner → Side r v → Bytes → Type 0 where
    closes :
        {rounds : ℕ} {reader : WsReader} {s : r.Inner} {side : Side r v} (reader' : WsReader)
        (s' : r.Inner) (side' : Side r v)
        → chunk r v (masks rounds) (free rounds) room reader s side
          ≡ (some (ok []), reader', s', side')
        → Yields (suc rounds) reader s side []
    yields :
        {rounds : ℕ} {reader : WsReader} {s : r.Inner} {side : Side r v} (b : ℕ) (bs more : Bytes)
        (reader' : WsReader) (s' : r.Inner) (side' : Side r v)
        → chunk r v (masks rounds) (free rounds) room reader s side
          ≡ (some (ok (b ∷ bs)), reader', s', side')
        → Yields rounds reader' s' side' more
        → Yields (suc rounds) reader s side (b ∷ bs ++ more)

module _ (p : Primitives) (r : Reader) (v w : Writer) (d0 : Download p r v w) where
  -- So much of the frames' data was recoded, written and counted, in order.
  pub record IsDelivered (front : Bytes) (d : Download p r v w) : Type 0 where
    pub carried : Carried (r.unread d0.source) front (r.unread d.source)
    pub wrote :
        w.written d.client
        ≡ w.written d0.client ++ recoded p d0.ciphers.decrypt d0.ciphers.encrypt 0 front
    pub aligned : IsAligned p d0.ciphers.decrypt d0.ciphers.encrypt (length front) d.ciphers
    pub told : d.ciphers.counted ≡ d0.ciphers.counted + length front
    pub limits : IsWithinLimits d.reader

  module _ (masks : ℕ → ℕ → Bytes) (free : ℕ → Bool) (room : ℕ) where
    -- What a download that goes on from `front`, with so many rounds left, comes to.
    abbrev pub EndsFrom : ℕ → Bytes → Download p r v w → Downloaded p r v w → Type 0
    EndsFrom rounds front d (none, d') = ⊥
    EndsFrom rounds front d (some (err kind), d') = Unit
    EndsFrom rounds front d (some (ok _), d') =
        (more : Bytes) × Yields r v masks free room rounds d.reader d.source d.side more
        × IsDelivered (front ++ more) d'

    abbrev Goes : (Download p r v w → Downloaded p r v w) → ℕ → Type 0
    Goes again rounds =
        (front : Bytes) (d : Download p r v w)
        → IsDelivered front d
        → length (r.unread d.source) < rounds
        → EndsFrom rounds front d (again d)

    EndsFrom-more :
        (rounds : ℕ) (front : Bytes) (b : ℕ) (bs : Bytes) (d moved : Download p r v w)
        (o : Downloaded p r v w)
        → chunk r v (masks rounds) (free rounds) room d.reader d.source d.side
          ≡ (some (ok (b ∷ bs)), moved.reader, moved.source, moved.side)
        → EndsFrom rounds (front ++ (b ∷ bs)) moved o
        → EndsFrom (suc rounds) front d o
    EndsFrom-more rounds front b bs d moved (none, d') q h = h
    EndsFrom-more rounds front b bs d moved (some (err kind), d') q h = tt
    EndsFrom-more rounds front b bs d moved (some (ok _), d') q (more, given, delivered) = (
      b ∷ bs ++ more,
      Yields.yields b bs more moved.reader moved.source moved.side q given,
      subst (λ t. IsDelivered t d') (append_assoc front (b ∷ bs) more) delivered,
    )

  IsDelivered-more :
      (front piece : Bytes) (d d' : Download p r v w)
      → IsDelivered front d
      → IsWithinLimits d'.reader
      → ((skipped : Bytes) × (r.unread d.source ≡ skipped ++ (piece ++ r.unread d'.source)))
      → d'.ciphers ≡ (recode p piece d.ciphers).1
      → w.written d'.client ≡ w.written d.client ++ (recode p piece d.ciphers).0
      → IsDelivered (front ++ piece) d'
  IsDelivered-more front piece d d' h l (skipped, e) c q =
      let k = d0.ciphers.decrypt in
      let j = d0.ciphers.encrypt in
      let (coded, moved, counts) =
        recode-IsAligned p k j (length front) piece d.ciphers h.aligned in
      record {
        carried =
            Carried.a_piece front piece (front ++ piece) skipped (r.unread d.source)
              (r.unread d'.source) h.carried e refl;
        wrote =
            q
            ∙ ap₂ (λ x y. x ++ y) h.wrote coded
            ∙ append_assoc (w.written d0.client) (recoded p k j 0 front)
                (recoded p k j (length front) piece)
            ∙ ap (λ x. w.written d0.client ++ x)
                (sym (
                  recoded-append p k j 0 front piece
                  ∙ ap (λ n. recoded p k j 0 front ++ recoded p k j n piece) (omega arith)));
        aligned =
            subst (λ n. IsAligned p k j n d'.ciphers) (sym (length-append front piece))
              (subst (IsAligned p k j (length front + length piece)) (sym c) moved);
        told =
            omega (
              arith,
              ap (λ (x : Ciphers p). x.counted) c,
              counts,
              h.told,
              length-append front piece,
            );
        limits = l;
      }

  module _ (masks : ℕ → ℕ → Bytes) (free : ℕ → Bool) (room : ℕ) where
    after_chunk-Ends :
        (again : Download p r v w → Downloaded p r v w) (rounds : ℕ) (front : Bytes)
        (d : Download p r v w)
        → Goes masks free room again rounds
        → IsDelivered front d
        → length (r.unread d.source) < suc rounds
        → (o : Chunk r v) → chunk r v (masks rounds) (free rounds) room d.reader d.source d.side ≡ o
        → Given r v room d.source o
        → EndsFrom masks free room (suc rounds) front d (after_chunk p r v w again d o)
    unfolding after_chunk
    after_chunk-Ends again rounds front d g h k (none, reader, s, side) y e = e
    after_chunk-Ends again rounds front d g h k (some (err kind), reader, s, side) y e = tt
    after_chunk-Ends again rounds front d g h k (some (ok []), reader, s, side) y
          (l, fits, (skipped, e)) =
        (
          [],
          Yields.closes reader s side y,
          record {
            carried =
                Carried.a_piece front [] (front ++ []) skipped (r.unread d.source) (r.unread s)
                  h.carried e refl;
            wrote = rw append-nil h.wrote;
            aligned = rw append-nil h.aligned;
            told = rw append-nil h.told;
            limits = l;
          },
        )
    after_chunk-Ends again rounds front d g h k (some (ok (b ∷ bs)), reader, s, side) y
          (l, fits, (skipped, e)) =
        sent (write_flush w d.client (recode p (b ∷ bs) d.ciphers).0) refl
      where
        moved : Download p r v w
        moved = record d {
          reader = reader;
          source = s;
          side = side;
          ciphers = (recode p (b ∷ bs) d.ciphers).1;
        }

        sent :
            (a : Result (Unit {0}) × w.Inner)
            → write_flush w d.client (recode p (b ∷ bs) d.ciphers).0 ≡ a
            → EndsFrom masks free room
                (suc rounds)
                front
                d
                (after_client_write p r v w again moved a)
        sent (err kind, t') q = unfold after_client_write in tt
        sent (ok _, t') q =
            unfold after_client_write in
            let next : Download p r v w = record moved { client = t' } in
            EndsFrom-more masks free room rounds front b bs d next (again next) y (
              g (front ++ (b ∷ bs)) next
                (IsDelivered-more front (b ∷ bs) d next h l (skipped, e) refl
                  (write_flush-written w d.client t' (recode p (b ∷ bs) d.ciphers).0 q))
                (omega (
                  arith,
                  k,
                  ap length e,
                  length-append skipped ((b ∷ bs) ++ r.unread s),
                  length-append bs (r.unread s),
                )))

    download_rounds-Ends :
        (rounds : ℕ) → Goes masks free room (download_rounds p r v w rounds masks free room) rounds
    unfolding download_rounds
    download_rounds-Ends zero front d h k = absurd (omega arith)
    download_rounds-Ends (suc rounds) front d h k =
        after_chunk-Ends (download_rounds p r v w rounds masks free room) rounds front d
          (download_rounds-Ends rounds) h k
          (chunk r v (masks rounds) (free rounds) room d.reader d.source d.side) refl
          (chunk-Given r v room (masks rounds) (free rounds) d.reader d.source d.side h.limits)

-- From a reader within the limits, the download always comes to an end of its loop; where that is
-- the closing of the WebSocket and not an error, what was written for the client is all the data that
-- the reader gives up to the closing, none of it left out, which lies in this order on the wire; it
-- is deciphered and enciphered as a whole, and its length was counted.
pub download_ws-Ends :
    (p : Primitives) (r : Reader) (v w : Writer) (masks : ℕ → ℕ → Bytes) (free : ℕ → Bool)
    → (buffer_size : ℕ) (d : Download p r v w) → IsWithinLimits d.reader
    → EndsFrom p r v w d masks free buffer_size
        (length (r.unread d.source) + 1)
        []
        d
        (download_ws p r v w masks free buffer_size d)
unfolding download_ws
download_ws-Ends p r v w masks free n d l =
    download_rounds-Ends p r v w d masks free n (length (r.unread d.source) + 1) [] d
      (record {
        carried = Carried.nothing_yet;
        wrote = sym (append-nil (w.written d.client));
        aligned = record {
          decrypts = IsAt-start p d.ciphers.decrypt;
          encrypts = IsAt-start p d.ciphers.encrypt;
        };
        told = omega arith;
        limits = l;
      })
      (omega arith)
