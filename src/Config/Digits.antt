-- ===== src/Config/Digits.antt =====
-- When a data centre is known and a text is a secret.
use tg_ws_keenetic.Base.{
  ℕ, ◌≤◌, ◌≡◌, refl, sym, ◌∙◌, ==_iff, ◌↔◌, ◌⊎◌, inl, inr, Bool, true, not, ◌||◌, List, [], ◌∷◌,
  arith, ◌==◌, Bool-cases, not-false, or-false, length, All, ok,
}
use tg_ws_keenetic.Base.Int.{ℤ, pos, negsuc}
use tg_ws_keenetic.Base.Text.{utf8_len}
use tg_ws_keenetic.Config.{Text, secret_bytes, is_hexdigit, all, pairs, is_known_dc}
use tg_ws_keenetic.Config.Secrets.{all_cons, utf8_len-hexdigits}

-- The data centres 1 to 5 and 203.
abbrev pub IsKnownDc : ℤ → Type 0
IsKnownDc dc = (n : ℕ) × (dc ≡ pos n) × (((1 ≤ n) × (n ≤ 5)) ⊎ (n ≡ 203))

-- The digits, and the letters from a to f in either case.
abbrev pub IsHexDigit : ℕ → Type 0
IsHexDigit c = ((48 ≤ c) × (c ≤ 57)) ⊎ (((97 ≤ c) × (c ≤ 102)) ⊎ ((65 ≤ c) × (c ≤ 70)))

pub is_known_dc_iff : (is_ip : Text → Bool) (dc : ℤ) → (is_known_dc is_ip dc ≡ true) ↔ IsKnownDc dc
is_known_dc_iff is_ip (pos n) =
    (λ e. (n, refl, ground arith), λ (m, q, h). let same : n ≡ m = cc q in ground arith)
is_known_dc_iff is_ip (negsuc n) = (λ e. cc e, λ h. cc h.1)

is_hexdigit_iff : (c : ℕ) → (is_hexdigit c ≡ true) ↔ IsHexDigit c
unfolding is_hexdigit
is_hexdigit_iff c = (λ e. ground arith, λ h. ground arith)

all_hexdigits_iff : (s : Text) → (all is_hexdigit s ≡ true) ↔ All IsHexDigit s
all_hexdigits_iff [] = (λ _. tt, λ _. refl)
all_hexdigits_iff (c ∷ s) = (
  λ e.
      let (d, more) = all_cons is_hexdigit c s e in
      ((is_hexdigit_iff c).0 d, (all_hexdigits_iff s).0 more),
  λ (d, more).
      let here = (is_hexdigit_iff c).1 d in
      let rest = (all_hexdigits_iff s).1 more in ground (arith, here, rest),
)

pub secret_bytes_iff :
    (s : Text)
    → ((bytes : List ℕ) × (secret_bytes s ≡ ok bytes)) ↔ ((length s ≡ 32) × All IsHexDigit s)
unfolding secret_bytes
secret_bytes_iff s =
    let refused = not (utf8_len s == 32) || not (all is_hexdigit s) in
    (
      λ (bytes, e). elim (Bool-cases refused) [
        | inl bad ↦ cc (simp bad at e)
        | inr good ↦
            let digits : all is_hexdigit s ≡ true = not-false _ (or-false _ _ good).1 in
            let size : (utf8_len s == 32) ≡ true = not-false _ (or-false _ _ good).0 in
            (
              sym (utf8_len-hexdigits s digits) ∙ (==_iff (utf8_len s) 32).0 size,
              (all_hexdigits_iff s).0 digits,
            )
      ],
      λ (size, digits).
          let hex = (all_hexdigits_iff s).1 digits in
          let whole : utf8_len s ≡ 32 = utf8_len-hexdigits s hex ∙ size in
          (pairs s, rw (whole, hex) refl),
    )
