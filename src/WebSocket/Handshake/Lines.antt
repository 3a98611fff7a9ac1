-- ===== src/WebSocket/Handshake/Lines.antt =====
-- The status line of an answer and the lines behind it, as `read_text` takes them.
use tg_ws_keenetic.Base.{
  passed, ℕ, ◌≡◌, refl, sym, ap, ◌∙◌, ◌⊎◌, inl, inr, false, not, ◌||◌, Option, none, some, List, [],
  ◌∷◌, ◌++◌, append-nil, arith, ◌==◌, Bool-cases, either, not-false, Result, ok, err, ErrorKind,
  ◌>>=◌, ◌>>◌, reject, ok_inj,
}
use tg_ws_keenetic.Base.Bytes.{bytes_eq, bytes_eq→eq}
use tg_ws_keenetic.Base.Text.{split_once, with_first, first_part, parse_unsigned}
use tg_ws_keenetic.Base.Splits.{Lacks}
use tg_ws_keenetic.WebSocket.Handshake.{Text, Headers, read_lines, code_of, with_code, read_text}

-- A status line with this code: the version, a space, the code's digits, and nothing more or a space
-- and the reason.
pub record IsStatus (line : Text) (code : ℕ) : Type 0 where
  pub version : Text
  pub number : Text
  pub tail : Text
  pub parts : line ≡ version ++ (b' ' ∷ number ++ tail)
  pub known :
      (version ≡ (b'H' ∷ b'T' ∷ b'T' ∷ b'P' ∷ b'/' ∷ b'1' ∷ b'.' ∷ b'1' ∷ []))
      ⊎ (version ≡ (b'H' ∷ b'T' ∷ b'T' ∷ b'P' ∷ b'/' ∷ b'1' ∷ b'.' ∷ b'0' ∷ []))
  pub alone : Lacks b' ' number
  pub reason : (tail ≡ []) ⊎ ((more : Text) × (tail ≡ b' ' ∷ more))
  pub value : parse_unsigned 65535 number ≡ some code

-- Where a text is cut for the first time.
abbrev Cut : Text → Option (Text × Text) → Type 0
Cut text none = Lacks b' ' text
Cut text (some (before, rest)) = (text ≡ before ++ (b' ' ∷ rest)) × Lacks b' ' before

with_first-Cut :
    (c : ℕ) (text : Text) (o : Option (Text × Text))
    → (c == b' ') ≡ false
    → Cut text o
    → Cut (c ∷ text) (with_first c o)
with_first-Cut c text none e h = (e, h)
with_first-Cut c text (some (before, rest)) e (parts, apart) = (ap (λ t. c ∷ t) parts, (e, apart))

split_once-Cut : (text : Text) → Cut text (split_once b' ' text)
split_once-Cut [] = tt
split_once-Cut (c ∷ text) =
    either (Cut (c ∷ text)) (c == b' ')
      (λ here. let e : c ≡ b' ' = ground arith in (ap (λ x. x ∷ text) e, tt))
      (λ other. with_first-Cut c text (split_once b' ' text) other (split_once-Cut text))

abbrev parted : Text → Option (Text × Text) → Text × Option Text
parted text o = elim o [ none ↦ (text, none) | some (before, rest) ↦ (before, some rest) ]

version_known :
    (v : Text)
    → not (
        bytes_eq v (b'H' ∷ b'T' ∷ b'T' ∷ b'P' ∷ b'/' ∷ b'1' ∷ b'.' ∷ b'1' ∷ [])
        || bytes_eq v (b'H' ∷ b'T' ∷ b'T' ∷ b'P' ∷ b'/' ∷ b'1' ∷ b'.' ∷ b'0' ∷ []))
      ≡ false
    → (v ≡ (b'H' ∷ b'T' ∷ b'T' ∷ b'P' ∷ b'/' ∷ b'1' ∷ b'.' ∷ b'1' ∷ []))
      ⊎ (v ≡ (b'H' ∷ b'T' ∷ b'T' ∷ b'P' ∷ b'/' ∷ b'1' ∷ b'.' ∷ b'0' ∷ []))
version_known v e =
    elim (Bool-cases (bytes_eq v (b'H' ∷ b'T' ∷ b'T' ∷ b'P' ∷ b'/' ∷ b'1' ∷ b'.' ∷ b'1' ∷ []))) [
      | inl one ↦ inl (bytes_eq→eq v _ one)
      | inr other ↦ inr (bytes_eq→eq v _ (not-false _ (simp other at e)))
    ]

number_alone :
    (text : Text) (o : Option (Text × Text))
    → Cut text o
    → (tail : Text) × ((text ≡ (parted text o).0 ++ tail)
        × Lacks b' ' (parted text o).0
        × ((tail ≡ []) ⊎ ((more : Text) × (tail ≡ b' ' ∷ more))))
number_alone text none h = ([], (sym (append-nil text), h, inl refl))
number_alone text (some (before, rest)) (parts, apart) =
    (b' ' ∷ rest, (parts, apart, inr (rest, refl)))

-- What an answer was read from: a status line with its code, and the lines with its fields.
pub record IsRead (lines : List Text) (code : ℕ) (headers : Headers) : Type 0 where
  pub first : Text
  pub fields : List Text
  pub begins : lines ≡ first ∷ fields
  pub states : IsStatus first code
  pub keeps : read_lines fields [] ≡ ok headers

with_code-ok :
    (lines : List Text) (o : Option ℕ) (code : ℕ) (headers : Headers)
    → with_code lines o ≡ ok (code, headers)
    → (o ≡ some code) × (read_lines lines [] ≡ ok headers)
with_code-ok lines none code headers e = cc e
with_code-ok lines (some c) code headers e = kept (read_lines lines []) refl e
  where
    kept :
        (r : Result Headers)
        → read_lines lines [] ≡ r
        → ◌≡◌ {A = Result (ℕ × Headers)} (r >>= λ hs. ok (c, hs)) (ok (code, headers))
        → ◌≡◌ {A = Option ℕ} (some c) (some code) × (read_lines lines [] ≡ ok headers)
    kept (err kind) q f = cc f
    kept (ok hs) q f =
        let same : c ≡ code = ap (λ x. x.0) (ok_inj f) in
        let all : hs ≡ headers = ap (λ x. x.1) (ok_inj f) in (ap some same, q ∙ ap ok all)

pub read_text-IsRead :
    (lines : List Text) (code : ℕ) (headers : Headers)
    → read_text lines ≡ ok (code, headers)
    → IsRead lines code headers
unfolding read_text
read_text-IsRead [] code headers e = cc e
read_text-IsRead (line ∷ lines) code headers e =
    by_version (split_once b' ' line) (split_once-Cut line) e
  where
    by_version :
        (o : Option (Text × Text))
        → Cut line o
        → (reject
              (not (
                bytes_eq
                  (parted line o).0
                  (b'H' ∷ b'T' ∷ b'T' ∷ b'P' ∷ b'/' ∷ b'1' ∷ b'.' ∷ b'1' ∷ [])
                || bytes_eq
                    (parted line o).0
                    (b'H' ∷ b'T' ∷ b'T' ∷ b'P' ∷ b'/' ∷ b'1' ∷ b'.' ∷ b'0' ∷ [])))
              ErrorKind.invalid_data
            >> with_code lines (code_of (parted line o).1))
          ≡ ok (code, headers)
        → IsRead (line ∷ lines) code headers
    by_version none h f =
        let (_, f1) =
          passed
            (not (
              bytes_eq line (b'H' ∷ b'T' ∷ b'T' ∷ b'P' ∷ b'/' ∷ b'1' ∷ b'.' ∷ b'1' ∷ [])
              || bytes_eq line (b'H' ∷ b'T' ∷ b'T' ∷ b'P' ∷ b'/' ∷ b'1' ∷ b'.' ∷ b'0' ∷ [])))
            ErrorKind.invalid_data (with_code lines none) (code, headers) f in
        cc f1
    by_version (some (version, rest)) (parts, apart) f =
        let (v, f1) =
          passed
            (not (
              bytes_eq version (b'H' ∷ b'T' ∷ b'T' ∷ b'P' ∷ b'/' ∷ b'1' ∷ b'.' ∷ b'1' ∷ [])
              || bytes_eq version (b'H' ∷ b'T' ∷ b'T' ∷ b'P' ∷ b'/' ∷ b'1' ∷ b'.' ∷ b'0' ∷ [])))
            ErrorKind.invalid_data (with_code lines (code_of (some rest))) (code, headers) f in
        let (number, kept) = with_code-ok lines (code_of (some rest)) code headers f1 in
        let (tail, (all, alone, ends)) =
          number_alone rest (split_once b' ' rest) (split_once-Cut rest) in
        record {
          first = line;
          fields = lines;
          begins = refl;
          states = record {
            version = version;
            number = (first_part b' ' rest).0;
            tail = tail;
            parts = parts ∙ ap (λ t. version ++ (b' ' ∷ t)) all;
            known = version_known version v;
            alone = alone;
            reason = ends;
            value = number;
          };
          keeps = kept;
        }
