-- ===== src/Config/Secrets.antt =====
-- The secret in hexadecimal digits and in bytes.
use tg_ws_keenetic.Base.{
  ℕ, zero, suc, ◌+◌, ◌*◌, ◌/◌, ◌%◌, ◌<◌, ◌≡◌, refl, ap, ◌⊎◌, inl, inr, Bool, true, not, ◌||◌, List,
  [], ◌∷◌, arith, ◌==◌, Bool-cases, not-false, or-false, length, All, ok, err, ErrorKind,
}
use tg_ws_keenetic.Base.Bytes.{IsByte}
use tg_ws_keenetic.Base.Text.{utf8_len, lower, lowercase}
use tg_ws_keenetic.Config.{Text, hex_digit, hex, is_hexdigit, digit_value, pairs, all, secret_bytes}

digit_value-hex_digit : (n : ℕ) → n < 16 → digit_value (hex_digit n) ≡ n
unfolding digit_value hex_digit
digit_value-hex_digit n h = ground arith

is_hexdigit-hex_digit : (n : ℕ) → n < 16 → is_hexdigit (hex_digit n) ≡ true
unfolding is_hexdigit hex_digit
is_hexdigit-hex_digit n h = ground arith

hex_digit-digit_value :
    (c : ℕ) → is_hexdigit c ≡ true → (hex_digit (digit_value c) ≡ lower c) × (digit_value c < 16)
unfolding is_hexdigit digit_value hex_digit
hex_digit-digit_value c h = (ground arith, ground arith)

hexdigit_is_ascii : (c : ℕ) → is_hexdigit c ≡ true → c < 0x80
unfolding is_hexdigit
hexdigit_is_ascii c h = ground arith

pub all_cons :
    (p : ℕ → Bool) (c : ℕ) (cs : List ℕ) → all p (c ∷ cs) ≡ true → (p c ≡ true) × (all p cs ≡ true)
all_cons p c cs h = ground arith

pub utf8_len-hexdigits : (s : Text) → all is_hexdigit s ≡ true → utf8_len s ≡ length s
utf8_len-hexdigits [] h = refl
utf8_len-hexdigits (c ∷ cs) h =
    let (d, more) = all_cons is_hexdigit c cs h in
    ground (arith, hexdigit_is_ascii c d, utf8_len-hexdigits cs more)

all-hex : (bs : List ℕ) → All IsByte bs → all is_hexdigit (hex bs) ≡ true
unfolding hex
all-hex [] h = refl
all-hex (b ∷ bs) (h, k) = ground (
  arith,
  is_hexdigit-hex_digit (b / 16) (omega arith),
  is_hexdigit-hex_digit (b % 16) (omega arith),
  all-hex bs k,
)

length-hex : (bs : List ℕ) → length (hex bs) ≡ 2 * length bs
unfolding hex
length-hex [] = refl
length-hex (b ∷ bs) = omega (arith, length-hex bs)

pairs-hex : (bs : List ℕ) → All IsByte bs → pairs (hex bs) ≡ bs
unfolding pairs hex
pairs-hex [] h = refl
pairs-hex (b ∷ bs) (h, k) =
    let high = digit_value-hex_digit (b / 16) (omega arith) in
    let low = digit_value-hex_digit (b % 16) (omega arith) in
    let whole : b / 16 * 16 + b % 16 ≡ b = omega arith in rw (high, low, whole, pairs-hex bs k) refl

-- The bytes that pairs of digits stand for, and the digits again, in lower case.
hex-pairs :
    (n : ℕ) (s : Text)
    → all is_hexdigit s ≡ true
    → length s ≡ 2 * n
    → (length (pairs s) ≡ n) × All IsByte (pairs s) × (hex (pairs s) ≡ lowercase s)
unfolding pairs hex
hex-pairs zero [] h l = (refl, tt, refl)
hex-pairs zero (c ∷ s) h l = absurd (omega arith)
hex-pairs (suc n) [] h l = absurd (omega arith)
hex-pairs (suc n) (c ∷ []) h l = absurd (omega arith)
hex-pairs (suc n) (a ∷ b ∷ s) h l =
    let (ha, more) = all_cons is_hexdigit a (b ∷ s) h in
    let (hb, rest) = all_cons is_hexdigit b s more in
    let (ea, la) = hex_digit-digit_value a ha in
    let (eb, lb) = hex_digit-digit_value b hb in
    let (len, bytes, digits) = hex-pairs n s rest (omega arith) in
    let high : (digit_value a * 16 + digit_value b) / 16 ≡ digit_value a = omega (arith, la, lb) in
    let low : (digit_value a * 16 + digit_value b) % 16 ≡ digit_value b = omega (arith, la, lb) in
    (ap suc len, (omega (arith, la, lb), bytes), rw (high, low, ea, eb, digits) refl)

-- The 16 bytes of a secret come out of the digits that `hex` makes of them; and a text is refused,
-- or gives 16 bytes of which `hex` makes its lower-case form.
pub secret_bytes-hex :
    (bs : List ℕ)
    → length bs ≡ 16
    → All IsByte bs
    → (secret : Text)
    → (secret_bytes (hex bs) ≡ ok bs)
      × ((secret_bytes secret ≡ err ErrorKind.invalid_input)
          ⊎ ((bytes : List ℕ) × (secret_bytes secret ≡ ok bytes)
              × (length bytes ≡ 16)
              × All IsByte bytes
              × (hex bytes ≡ lowercase secret)))
unfolding secret_bytes
secret_bytes-hex bs l h secret =
    let digits = all-hex bs h in
    let size : utf8_len (hex bs) ≡ 32 =
      omega (arith, utf8_len-hexdigits (hex bs) digits, length-hex bs, l) in
    (
      rw (size, digits) (ap ok (pairs-hex bs h)),
      elim (Bool-cases (not (utf8_len secret == 32) || not (all is_hexdigit secret))) [
        | inl refused ↦ inl (simp refused refl)
        | inr good ↦
            let ds : all is_hexdigit secret ≡ true = not-false _ (or-false _ _ good).1 in
            let (len, bytes, back) =
              hex-pairs 16 secret ds (ground (arith, utf8_len-hexdigits secret ds)) in
            inr (pairs secret, simp good refl, len, bytes, back)
      ],
    )
