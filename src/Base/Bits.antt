-- ===== src/Base/Bits.antt =====
-- The laws of `^` (exclusive or) that masking and stream ciphers rest on, at every width.
use Prim.Native.Nat.{
  ℕ, zero, suc, ◌+◌, ◌*◌, ◌/◌, ◌%◌, ◌^◌, ◌≤◌, ◌<◌, bit_xor, digits, differ, bit_xor-bitwise,
}
use mathlib.Core.Path.{◌≡◌, refl, ap, ◌∙◌}
use native.Mathlib.Nat.{pow-suc}
use native.Mathlib.Omega.{arith}

differ_digits : (x y : ℕ) → x < 2 → y < 2 → differ x y ≡ (x + y) % 2
differ_digits zero zero p q = refl
differ_digits zero (suc zero) p q = refl
differ_digits (suc zero) zero p q = refl
differ_digits (suc zero) (suc zero) p q = refl
differ_digits (suc (suc x)) y p q = absurd (omega arith)
differ_digits x (suc (suc y)) p q = absurd (omega arith)

abbrev xor_digits : ℕ → ℕ → ℕ → ℕ
xor_digits n a b = digits (λ y. y) differ n a b

-- Two counts of digits that both cover the first number give the same.
xor_digits_counts : (a b k j : ℕ) → (a ≤ k) × (a ≤ j) → xor_digits k a b ≡ xor_digits j a b
xor_digits_counts zero b zero zero h = refl
xor_digits_counts zero b zero (suc j) h = refl
xor_digits_counts zero b (suc k) zero h = refl
xor_digits_counts zero b (suc k) (suc j) h = refl
xor_digits_counts (suc a) b zero j h = absurd (omega arith)
xor_digits_counts (suc a) b (suc k) zero h = absurd (omega arith)
xor_digits_counts (suc a) b (suc k) (suc j) h =
    ap (λ t. t * 2 + differ (suc a % 2) (b % 2))
      (xor_digits_counts (suc a / 2) (b / 2) k j (omega arith))

-- The lowest digit, and the digits above it.
pub bit_xor_step : (a b : ℕ) → bit_xor a b ≡ bit_xor (a / 2) (b / 2) * 2 + (a + b) % 2
bit_xor_step zero b = omega (arith, bit_xor-bitwise 0 b, bit_xor-bitwise 0 (b / 2))
bit_xor_step (suc a) b = omega (
  arith,
  bit_xor-bitwise (suc a) b,
  bit_xor-bitwise (suc a / 2) (b / 2),
  differ_digits (suc a % 2) (b % 2) (omega arith) (omega arith),
  xor_digits_counts (suc a / 2) (b / 2) a (suc a / 2) (omega arith),
)

cancel_counted : (n a b : ℕ) → a ≤ n → b ≤ n → bit_xor (bit_xor a b) b ≡ a
cancel_counted zero zero zero p q = refl
cancel_counted zero (suc a) b p q = absurd (omega arith)
cancel_counted zero zero (suc b) p q = absurd (omega arith)
cancel_counted (suc n) a b p q =
    let low = bit_xor_step a b in
    let halves : bit_xor a b / 2 ≡ bit_xor (a / 2) (b / 2) = omega (arith, low) in
    let inner = cancel_counted n (a / 2) (b / 2) (omega arith) (omega arith) in
    let step : bit_xor (bit_xor a b / 2) (b / 2) ≡ a / 2 =
      ap (λ t. bit_xor t (b / 2)) halves ∙ inner in
    omega (arith, low, step, bit_xor_step (bit_xor a b) b)

-- Applying the same key twice gives the value back.
pub bit_xor_cancel : (a b : ℕ) → bit_xor (bit_xor a b) b ≡ a
bit_xor_cancel a b = cancel_counted (a + b) a b (omega arith) (omega arith)

-- Exclusive or sets no digit above those of its arguments.
bit_xor-lt_pow : (k a b : ℕ) → a < 2 ^ k → b < 2 ^ k → bit_xor a b < 2 ^ k
bit_xor-lt_pow zero a b p q =
    omega (arith, bit_xor_step a b, bit_xor_zeros a b (omega arith) (omega arith))
  where
    bit_xor_zeros : (a b : ℕ) → a ≡ 0 → b ≡ 0 → bit_xor a b ≡ 0
    bit_xor_zeros a b p q = rw (p, q)
bit_xor-lt_pow (suc k) a b p q = omega (
  arith,
  bit_xor_step a b,
  bit_xor-lt_pow k (a / 2) (b / 2) (omega (arith, pow-suc 2 k)) (omega (arith, pow-suc 2 k)),
  pow-suc 2 k,
)

pub bit_xor-lt_byte : (a b : ℕ) → a < 256 → b < 256 → bit_xor a b < 256
bit_xor-lt_byte a b p q = bit_xor-lt_pow 8 a b p q
