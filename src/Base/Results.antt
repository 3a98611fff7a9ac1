-- ===== src/Base/Results.antt =====
-- `std::io::Result`: a value, or an error of one of the kinds that the program makes or tests.
-- The message of an error is left out; a value of `HttpError` keeps its status code.
use mathlib.Core.Path.{◌≡◌, refl}
use mathlib.Core.Bool.{Bool, true, false}
use Prim.Native.Nat.{ℕ}

pub data ErrorKind : Type 0 where
  invalid_data invalid_input permission_denied unexpected_eof timed_out would_block write_zero :
      ErrorKind
  not_connected broken_pipe out_of_memory connection_reset connection_aborted other : ErrorKind
  http_error : ℕ → ErrorKind

pub data Result {κ} (T : Type κ) : Type κ where
  err : ErrorKind → Result T
  ok : T → Result T

infixl 5 ◌>>=◌ ◌>>◌
abbrev pub ◌>>=◌ {κ ℓ} : {T : Type κ} {U : Type ℓ} → Result T → (T → Result U) → Result U
outcome >>= next = elim outcome [ err kind ↦ err kind | ok value ↦ next value ]

abbrev pub ◌>>◌ {κ} : {U : Type κ} → Result (Unit {0}) → Result U → Result U
check >> rest = elim check [ err kind ↦ err kind | ok _ ↦ rest ]

-- `if refused { return Err(..) }`.
abbrev pub reject : Bool → ErrorKind → Result (Unit {0})
reject refused kind = elim refused [ true ↦ err kind | false ↦ ok tt ]

pub ok_inj {κ} : {T : Type κ} {a b : T} → ok a ≡ ok b → a ≡ b
ok_inj e = cc

-- What passes a check and gives a value.
pub passed {ℓ} :
    {A : Type ℓ} (refused : Bool) (kind : ErrorKind) (rest : Result A) (a : A)
    → (reject refused kind >> rest) ≡ ok a
    → (refused ≡ false) × (rest ≡ ok a)
passed true kind rest a e = cc e
passed false kind rest a e = (refl, e)
