-- ===== src/Proxy/Bridges/Streams.antt =====
-- The two ciphers of a direction move over the same positions: what is recoded in pieces is recoded
-- as a whole.
use tg_ws_keenetic.Base.{ℕ, ◌+◌, ◌≡◌, refl, sym, ap, ◌∙◌, ◌++◌, arith, length}
use tg_ws_keenetic.Base.Bytes.{Bytes}
use mathlib.Core.Path.{subst}
use tg_ws_keenetic.Crypto.{Primitives, xor_from}
use tg_ws_keenetic.Crypto.Stream.{
  xor_from_shift, xor_from-append, length-xor_from, length-apply_keystream,
}
use tg_ws_keenetic.Proxy.Bridges.{Ciphers, recode}

module _ (p : Primitives) where
  open p use {AesCtr, apply_keystream, key_byte, apply_combines, apply_moves}

  -- A cipher stands `n` bytes behind another.
  abbrev pub IsAt : AesCtr → ℕ → AesCtr → Type 0
  IsAt c0 n c = (i : ℕ) → key_byte c i ≡ key_byte c0 (n + i)

  pub IsAt-start : (c : AesCtr) → IsAt c 0 c
  IsAt-start c i = ap (key_byte c) (omega arith)

  pub apply_keystream-IsAt :
      (c0 c : AesCtr) (n : ℕ) (bs : Bytes)
      → IsAt c0 n c
      → ((apply_keystream c bs).0 ≡ xor_from (key_byte c0) n bs)
        × IsAt c0 (n + length bs) (apply_keystream c bs).1
  apply_keystream-IsAt c0 c n bs h = (
    apply_combines c bs
        ∙ xor_from_shift (key_byte c) (key_byte c0) 0 n bs
            (λ i. h (0 + i) ∙ ap (key_byte c0) (omega arith)),
    λ i. apply_moves c bs i ∙ h (length bs + i) ∙ ap (key_byte c0) (omega arith),
  )

  -- Bytes from position `n` on, deciphered with one cipher and enciphered with the other.
  abbrev pub recoded : AesCtr → AesCtr → ℕ → Bytes → Bytes
  recoded d e n bs = xor_from (key_byte e) n (xor_from (key_byte d) n bs)

  pub recoded-append :
      (d e : AesCtr) (n : ℕ) (xs ys : Bytes)
      → recoded d e n (xs ++ ys) ≡ recoded d e n xs ++ recoded d e (n + length xs) ys
  recoded-append d e n xs ys =
      let l = length-xor_from (key_byte d) n xs in
      rw
        (
          xor_from-append (key_byte d) n xs ys,
          xor_from-append (key_byte e) n (xor_from (key_byte d) n xs)
              (xor_from (key_byte d) (n + length xs) ys),
          l,
        )
        refl

  pub record IsAligned (d e : AesCtr) (n : ℕ) (c : Ciphers p) : Type 0 where
    pub decrypts : IsAt d n c.decrypt
    pub encrypts : IsAt e n c.encrypt

  pub recode-IsAligned :
      (d e : AesCtr) (n : ℕ) (bs : Bytes) (c : Ciphers p)
      → IsAligned d e n c
      → ((recode p bs c).0 ≡ recoded d e n bs)
        × IsAligned d e (n + length bs) (recode p bs c).1
        × ((recode p bs c).1.counted ≡ c.counted + length bs)
  unfolding recode
  recode-IsAligned d e n bs c h =
      let plain = (apply_keystream c.decrypt bs).0 in
      let (same, moved) = apply_keystream-IsAt d c.decrypt n bs h.decrypts in
      let (coded, behind) = apply_keystream-IsAt e c.encrypt n plain h.encrypts in
      (
        coded ∙ ap (xor_from (key_byte e) n) same,
        record {
          decrypts = moved;
          encrypts =
              subst (λ k. IsAt e (n + k) (apply_keystream c.encrypt plain).1)
                (length-apply_keystream p c.decrypt bs) behind;
        },
        refl,
      )

  -- From the start: the ciphers applied to the whole.
  pub recoded-start :
      (d e : AesCtr) (bs : Bytes)
      → recoded d e 0 bs ≡ (apply_keystream e (apply_keystream d bs).0).0
  recoded-start d e bs = sym (
      apply_combines e (apply_keystream d bs).0
      ∙ ap (xor_from (key_byte e) 0) (apply_combines d bs))
