-- ===== src/Base/Bytes.antt =====
-- Byte strings as lists of numbers below 256, the byte orders of `to_le_bytes` and `to_be_bytes`,
-- and the signed 16-bit integers of the data-centre indices.
-- A mask of low bits, `x & (2^k - 1)`, is written `x % 2 ^ k`, and `x >> k` is `x / 2 ^ k`.
use Prim.Native.Nat.{ℕ, ◌+◌, ◌*◌, ◌/◌, ◌%◌, ◌<◌}
use mathlib.Core.Path.{◌≡◌, refl, sym, ap, ◌∙◌}
use mathlib.Core.Bool.{Bool, true, false, ◌&&◌}
use mathlib.Core.List.{List, [], ◌∷◌}
use mathlib.Core.Logic.{◌↔◌}
use native.Mathlib.Omega.{arith}
use tg_ws_keenetic.Base.Tests.{◌==◌}

abbrev pub Bytes : Type 0
Bytes = List ℕ

abbrev pub IsByte : ℕ → Type 0
IsByte b = b < 256

abbrev pub to_le_u16 : ℕ → Bytes
to_le_u16 x = x % 256 ∷ x / 256 % 256 ∷ []

abbrev pub to_be_u16 : ℕ → Bytes
to_be_u16 x = x / 256 % 256 ∷ x % 256 ∷ []

abbrev pub to_le_u32 : ℕ → Bytes
to_le_u32 x = x % 256 ∷ x / 256 % 256 ∷ x / 65536 % 256 ∷ x / 16777216 % 256 ∷ []

abbrev pub from_le_u32 : ℕ → ℕ → ℕ → ℕ → ℕ
from_le_u32 a b c d = a + b * 256 + c * 65536 + d * 16777216

-- `a == b` on byte strings.
abbrev pub bytes_eq : Bytes → Bytes → Bool
bytes_eq [] [] = true
bytes_eq [] (y ∷ ys) = false
bytes_eq (x ∷ xs) [] = false
bytes_eq (x ∷ xs) (y ∷ ys) = (x == y) && bytes_eq xs ys

pub bytes_eq→eq : (xs ys : Bytes) → bytes_eq xs ys ≡ true → xs ≡ ys
bytes_eq→eq [] [] h = refl
bytes_eq→eq [] (y ∷ ys) h = cc
bytes_eq→eq (x ∷ xs) [] h = cc
bytes_eq→eq (x ∷ xs) (y ∷ ys) h = ground (arith, bytes_eq→eq xs ys)

pub bytes_eq_refl : (xs : Bytes) → bytes_eq xs xs ≡ true
bytes_eq_refl [] = refl
bytes_eq_refl (x ∷ xs) = ground (arith, bytes_eq_refl xs)

pub bytes_eq_iff : (xs ys : Bytes) → (bytes_eq xs ys ≡ true) ↔ (xs ≡ ys)
bytes_eq_iff xs ys = (bytes_eq→eq xs ys, λ e. ap (bytes_eq xs) (sym e) ∙ bytes_eq_refl xs)
