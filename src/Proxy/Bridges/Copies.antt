-- ===== src/Proxy/Bridges/Copies.antt =====
-- What a direction of a bridge has written is what it has read, recoded.
use tg_ws_keenetic.Base.{
  ℕ, zero, suc, ◌+◌, ◌<◌, ◌≡◌, refl, sym, ap, ◌∙◌, none, some, [], ◌∷◌, ◌++◌, append_assoc,
  append-nil, arith, length, take, drop, length-append, Result, ok, err,
}
use tg_ws_keenetic.Base.Bytes.{Bytes}
use mathlib.Core.Path.{subst, ap₂}
use tg_ws_keenetic.Base.Wires.{Reader, Writer}
use tg_ws_keenetic.Crypto.{Primitives, CryptoContext, build_context, ClientHandshake, secret_key}
use tg_ws_keenetic.Proxy.Bridges.{
  Ciphers, recode, then_flush, write_flush, Copied, Again, after_sent, after_read, copy_rounds,
  copy_crypto,
}
use tg_ws_keenetic.Crypto.Context.{upstream_reads, client_decrypt_reads}
use tg_ws_keenetic.Crypto.Handshakes.{opened}
use tg_ws_keenetic.Proxy.Bridges.Streams.{
  IsAt-start, recoded, recoded-append, IsAligned, recode-IsAligned, recoded-start,
}

module _ (w : Writer) where
  pub write_flush-written :
      (t t' : w.Inner) (bs : Bytes)
      → write_flush w t bs ≡ (ok tt, t')
      → w.written t' ≡ w.written t ++ bs
  unfolding write_flush then_flush
  write_flush-written t t' bs e = first (w.write_all t bs) refl e
    where
      first :
          (o : Result (Unit {0}) × w.Inner)
          → w.write_all t bs ≡ o
          → then_flush w o ≡ (ok tt, t')
          → w.written t' ≡ w.written t ++ bs
      first (err kind, u) q f = cc (ap (λ x. x.0) f)
      first (ok _, u) q f =
          ap w.written (sym (ap (λ x. x.1) f)) ∙ w.flush_keeps u ∙ w.write_all_writes t bs u q

module _ (p : Primitives) (r : Reader) (w : Writer) (s0 : r.Inner) (t0 : w.Inner)
    (c0 : Ciphers p) where
  open p use {AesCtr, apply_keystream}

  -- So many bytes were read, recoded and written, in order, and counted.
  pub record IsRelayed (front : Bytes) (s : r.Inner) (t : w.Inner) (c : Ciphers p) : Type 0 where
    pub read : r.unread s0 ≡ front ++ r.unread s
    pub wrote : w.written t ≡ w.written t0 ++ recoded p c0.decrypt c0.encrypt 0 front
    pub aligned : IsAligned p c0.decrypt c0.encrypt (length front) c
    pub told : c.counted ≡ c0.counted + length front

  abbrev pub Ends : Copied p r w → Type 0
  Ends (none, s, t, c) = ⊥
  Ends (some (err kind), s, t, c) = Unit
  Ends (some (ok _), s, t, c) = (front : Bytes) × IsRelayed front s t c

  abbrev Goes : Again p r w → ℕ → Type 0
  Goes again rounds =
      (front : Bytes) (s : r.Inner) (t : w.Inner) (c : Ciphers p)
      → IsRelayed front s t c
      → length (r.unread s) < rounds
      → Ends (again s t c)

  IsRelayed-more :
      (front bs : Bytes) (s s' : r.Inner) (t t' : w.Inner) (c : Ciphers p)
      → IsRelayed front s t c
      → r.unread s ≡ bs ++ r.unread s'
      → w.written t' ≡ w.written t ++ (recode p bs c).0
      → IsRelayed (front ++ bs) s' t' (recode p bs c).1
  IsRelayed-more front bs s s' t t' c h e q =
      let d = c0.decrypt in
      let (coded, moved, counts) = recode-IsAligned p d c0.encrypt (length front) bs c h.aligned in
      record {
        read = h.read ∙ ap (λ x. front ++ x) e ∙ sym (append_assoc front bs (r.unread s'));
        wrote =
            q
            ∙ ap₂ (λ x y. x ++ y) h.wrote coded
            ∙ append_assoc (w.written t0) (recoded p d c0.encrypt 0 front)
                (recoded p d c0.encrypt (length front) bs)
            ∙ ap (λ x. w.written t0 ++ x)
                (sym (
                  recoded-append p d c0.encrypt 0 front bs
                  ∙ ap (λ k. recoded p d c0.encrypt 0 front ++ recoded p d c0.encrypt k bs)
                      (omega arith)));
        aligned =
            subst (λ k. IsAligned p d c0.encrypt k (recode p bs c).1) (sym (length-append front bs))
              moved;
        told = omega (arith, counts, h.told, length-append front bs);
      }

  after_read-Ends :
      (again : Again p r w) (rounds : ℕ) (front : Bytes) (s : r.Inner) (t : w.Inner) (c : Ciphers p)
      → Goes again rounds
      → IsRelayed front s t c
      → length (r.unread s) < suc rounds
      → (o : Result Bytes × r.Inner)
      → ((d : Bytes) (s' : r.Inner) → o ≡ (ok d, s') → r.unread s ≡ d ++ r.unread s')
      → Ends (after_read p r w again t c o)
  unfolding after_read
  after_read-Ends again rounds front s t c g h k (err kind, s') e = tt
  after_read-Ends again rounds front s t c g h k (ok [], s') e =
      let same : r.unread s ≡ r.unread s' = e [] s' refl in
      (
        front,
        record {
          read = h.read ∙ ap (λ x. front ++ x) same;
          wrote = h.wrote;
          aligned = h.aligned;
          told = h.told;
        },
      )
  after_read-Ends again rounds front s t c g h k (ok (b ∷ bs), s') e =
      sent (write_flush w t (recode p (b ∷ bs) c).0) refl
    where
      taken : r.unread s ≡ (b ∷ bs) ++ r.unread s'
      taken = e (b ∷ bs) s' refl

      sent :
          (a : Result (Unit {0}) × w.Inner)
          → write_flush w t (recode p (b ∷ bs) c).0 ≡ a
          → Ends (after_sent p r w again s' (recode p (b ∷ bs) c).1 a)
      sent (err kind, t') q = unfold after_sent in tt
      sent (ok _, t') q =
          unfold after_sent in
          g (front ++ (b ∷ bs)) s' t' (recode p (b ∷ bs) c).1
            (IsRelayed-more front (b ∷ bs) s s' t t' c h taken
              (write_flush-written w t t' (recode p (b ∷ bs) c).0 q))
            (omega (arith, k, ap length taken, length-append bs (r.unread s')))

  copy_rounds-Ends : (rounds buffer_size : ℕ) → Goes (copy_rounds p r w rounds buffer_size) rounds
  unfolding copy_rounds
  copy_rounds-Ends zero buffer_size front s t c h k = absurd (omega arith)
  copy_rounds-Ends (suc rounds) buffer_size front s t c h k =
      after_read-Ends (copy_rounds p r w rounds buffer_size) rounds front s t c
        (copy_rounds-Ends rounds buffer_size) h k (r.read s buffer_size)
        (λ d s' e. r.read_takes s buffer_size d s' e)

-- A direction of a bridge always comes to an end of its loop; where that is the end of what is read
-- and not an error, what it has read, deciphered and enciphered as a whole, is what it has written,
-- and its length is what it has counted.
pub copy_crypto-Ends :
    (p : Primitives) (r : Reader) (w : Writer) (buffer_size : ℕ) (s : r.Inner) (t : w.Inner)
    (c : Ciphers p)
    → Ends p r w s t c (copy_crypto p r w buffer_size s t c)
unfolding copy_crypto
copy_crypto-Ends p r w buffer_size s t c =
    copy_rounds-Ends p r w s t c (length (r.unread s) + 1) buffer_size [] s t c
      (record {
        read = refl;
        wrote = sym (append-nil (w.written t));
        aligned = record { decrypts = IsAt-start p c.decrypt; encrypts = IsAt-start p c.encrypt };
        told = omega arith;
      })
      (omega arith)

-- What the client enciphers behind its handshake, and the proxy copies to the end of it, is what the
-- other end of the relay link, which deciphers the relay handshake and all that follows as one
-- stream, reads behind the handshake. The handshakes have 64 bytes, and the copy ended without an
-- error with nothing left to read.
pub copy_crypto_uploads :
    (p : Primitives) (r : Reader) (w : Writer) (client : ClientHandshake)
    → (secret relay handshake payload : Bytes)
    → (buffer_size : ℕ) (s s' : r.Inner) (t t' : w.Inner) (c c' : Ciphers p) → length relay ≡ 64
    → length handshake ≡ 64
    → c.decrypt ≡ CryptoContext.client_decrypt (build_context p client secret relay)
    → c.encrypt ≡ CryptoContext.upstream_encrypt (build_context p client secret relay)
    → r.unread s
      ≡ (p.apply_keystream
          (p.apply_keystream
            (p.new (secret_key p (take 32 client.prekey_iv) secret) (drop 32 client.prekey_iv))
            handshake).1
          payload).0
    → copy_crypto p r w buffer_size s t c ≡ (some (ok tt), s', t', c')
    → r.unread s' ≡ []
    → (sent : Bytes) × (w.written t' ≡ w.written t ++ sent)
      × ((p.apply_keystream
            (p.new (take 32 (drop 8 relay)) (take 16 (drop 40 relay)))
            (relay ++ sent)).0
          ≡ opened p relay ++ payload)
copy_crypto_uploads p r w client secret relay handshake payload n s s' t t' c c' lr lh d e wire ends
      all =
    let (front, h) = subst (Ends p r w s t c) ends (copy_crypto-Ends p r w n s t c) in
    let whole : r.unread s ≡ front = h.read ∙ ap (λ x. front ++ x) all ∙ append-nil front in
    let plain : (p.apply_keystream c.decrypt front).0 ≡ payload =
      ap₂ (λ x y. (p.apply_keystream x y).0) d (sym whole ∙ wire)
      ∙ client_decrypt_reads p client secret relay handshake payload lh in
    let coded : recoded p c.decrypt c.encrypt 0 front
        ≡ (p.apply_keystream (CryptoContext.upstream_encrypt (build_context p client secret relay))
            payload).0 =
      recoded-start p c.decrypt c.encrypt front ∙ ap₂ (λ x y. (p.apply_keystream x y).0) e plain in
    (
      recoded p c.decrypt c.encrypt 0 front,
      h.wrote,
      ap
            (λ x.
              (p.apply_keystream (p.new (take 32 (drop 8 relay)) (take 16 (drop 40 relay)))
                (relay ++ x)).0)
            coded
          ∙ upstream_reads p client secret relay payload lr,
    )
