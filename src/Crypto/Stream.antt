-- ===== src/Crypto/Stream.antt =====
-- Laws of a stream cipher: applying the same key bytes twice gives the data back, and data may be
-- applied in pieces.
use tg_ws_keenetic.Base.{
  ℕ, zero, suc, ◌+◌, ◌<◌, ◌≡◌, refl, sym, ap, ◌∙◌, [], ◌∷◌, ◌++◌, arith, length, drop, All,
}
use tg_ws_keenetic.Base.Bytes.{Bytes, IsByte}
use tg_ws_keenetic.Base.Bits.{bit_xor_cancel, bit_xor-lt_byte}
use tg_ws_keenetic.Crypto.{Primitives, xor_from}

module _ (key : ℕ → ℕ) where
  pub length-xor_from : (i : ℕ) (bs : Bytes) → length (xor_from key i bs) ≡ length bs
  length-xor_from i [] = refl
  length-xor_from i (b ∷ bs) = ap suc (length-xor_from (i + 1) bs)

  pub xor_from_cancel : (i : ℕ) (bs : Bytes) → xor_from key i (xor_from key i bs) ≡ bs
  xor_from_cancel i [] = refl
  xor_from_cancel i (b ∷ bs) = rw (bit_xor_cancel b (key i), xor_from_cancel (i + 1) bs)

  pub drop-xor_from :
      (n i : ℕ) (bs : Bytes) → drop n (xor_from key i bs) ≡ xor_from key (i + n) (drop n bs)
  drop-xor_from zero i bs = let e : i ≡ i + 0 = omega arith in ap (λ j. xor_from key j bs) e
  drop-xor_from (suc n) i [] = refl
  drop-xor_from (suc n) i (b ∷ bs) =
      let e : i + 1 + n ≡ i + suc n = omega arith in
      drop-xor_from n (i + 1) bs ∙ ap (λ j. xor_from key j (drop n bs)) e

  pub xor_from-append :
      (i : ℕ) (xs ys : Bytes)
      → xor_from key i (xs ++ ys) ≡ xor_from key i xs ++ xor_from key (i + length xs) ys
  xor_from-append i [] ys = let e : i ≡ i + 0 = omega arith in ap (λ j. xor_from key j ys) e
  xor_from-append i (x ∷ xs) ys =
      let e : i + 1 + length xs ≡ i + suc (length xs) = omega arith in
      rw (xor_from-append (i + 1) xs ys, e)

  pub xor_from-IsByte :
      (i : ℕ) (bs : Bytes)
      → ((j : ℕ) → key j < 256)
      → All IsByte bs
      → All IsByte (xor_from key i bs)
  xor_from-IsByte i [] kb h = tt
  xor_from-IsByte i (b ∷ bs) kb (hb, h) =
      (bit_xor-lt_byte b (key i) hb (kb i), xor_from-IsByte (i + 1) bs kb h)

-- The same key bytes at other positions.
pub xor_from_shift :
    (key key' : ℕ → ℕ) (i j : ℕ) (bs : Bytes)
    → ((n : ℕ) → key (i + n) ≡ key' (j + n))
    → xor_from key i bs ≡ xor_from key' j bs
xor_from_shift key key' i j [] h = refl
xor_from_shift key key' i j (b ∷ bs) h = rw (here, xor_from_shift key key' (i + 1) (j + 1) bs later)
  where
    here : key i ≡ key' j
    here =
        let ei : i + 0 ≡ i = omega arith in
        let ej : j + 0 ≡ j = omega arith in ap key (sym ei) ∙ h 0 ∙ ap key' ej

    later : (n : ℕ) → key (i + 1 + n) ≡ key' (j + 1 + n)
    later n =
        let ei : i + 1 + n ≡ i + suc n = omega arith in
        let ej : j + suc n ≡ j + 1 + n = omega arith in ap key ei ∙ h (suc n) ∙ ap key' ej

module _ (p : Primitives) where
  open p use {AesCtr, apply_keystream, key_byte, apply_combines, apply_moves}

  pub length-apply_keystream :
      (c : AesCtr) (bs : Bytes) → length (apply_keystream c bs).0 ≡ length bs
  length-apply_keystream c bs = rw (apply_combines c bs) (length-xor_from (key_byte c) 0 bs)

  -- Data applied in two pieces is the same as data applied at once.
  pub apply_keystream-append :
      (c : AesCtr) (xs ys : Bytes)
      → (apply_keystream c (xs ++ ys)).0
        ≡ (apply_keystream c xs).0 ++ (apply_keystream ((apply_keystream c xs).1) ys).0
  apply_keystream-append c xs ys = rw (
    apply_combines c (xs ++ ys),
    apply_combines c xs,
    apply_combines (apply_keystream c xs).1 ys,
    xor_from-append (key_byte c) 0 xs ys,
    xor_from_shift (key_byte (apply_keystream c xs).1) (key_byte c) 0 (0 + length xs) ys
        (λ n. apply_moves c xs (0 + n) ∙ ap (key_byte c) (omega arith)),
  )
