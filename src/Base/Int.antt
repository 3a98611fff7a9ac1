-- ===== src/Base/Int.antt =====
-- Signed integers over the native numbers, and the two's complement form of an `i16`.
use Prim.Native.Nat.{ℕ, ◌-◌, ◌%◌, ◌^◌, ◌<◌}
use mathlib.Core.Path.{◌≡◌}
use native.Mathlib.Omega.{arith}
use tg_ws_keenetic.Base.Tests.{ltb, ◌==◌, if◌then◌else◌}

-- `negsuc n` is -(n + 1).
pub data ℤ : Type 0 where
  pos : ℕ → ℤ
  negsuc : ℕ → ℤ

abbrev pub IsI16 : ℤ → Type 0
IsI16 (pos n) = n < 2 ^ 15
IsI16 (negsuc n) = n < 2 ^ 15

-- `-x`; the caller keeps clear of `i16::MIN`.
abbrev pub negate : ℕ → ℤ
negate n = if n == 0 then pos 0 else negsuc (n - 1)

-- The bit pattern of an `i16`, and the integer that a pattern stands for.
abbrev pub i16_bits : ℤ → ℕ
i16_bits (pos n) = n % 2 ^ 16
i16_bits (negsuc n) = 2 ^ 16 - 1 - n

abbrev pub i16_of_bits : ℕ → ℤ
i16_of_bits w = if ltb w (2 ^ 15) then pos w else negsuc (2 ^ 16 - 1 - w)

pub i16_of_bits-i16_bits : (z : ℤ) → IsI16 z → i16_of_bits (i16_bits z) ≡ z
i16_of_bits-i16_bits (pos n) h = ground arith
i16_of_bits-i16_bits (negsuc n) h = ground arith

pub i16_bits-lt : (z : ℤ) → IsI16 z → i16_bits z < 2 ^ 16
i16_bits-lt (pos n) h = omega arith
i16_bits-lt (negsuc n) h = omega arith
