-- ===== src/Config/Domains.antt =====
-- What `valid_domain` accepts, and the lists of domains as `from_value` leaves them.
use tg_ws_keenetic.Base.{
  ℕ, ◌+◌, ◌≤◌, ◌<◌, ◌≡◌, refl, sym, ap, ◌∙◌, ◌↔◌, ◌⊎◌, inl, inr, Bool, true, false, not, ◌||◌, List,
  [], ◌∷◌, ◌++◌, arith, leb, ◌==◌, Bool-cases, length, All, length-append,
}
use mathlib.Core.Path.{subst}
use tg_ws_keenetic.Base.Maps.{any}
use tg_ws_keenetic.Base.Text.{utf8_len, split, join, contains, starts_with}
use tg_ws_keenetic.Config.{Text, all, is_alphanumeric, ends_with_dash, valid_label, valid_domain}
use tg_ws_keenetic.Base.Splits.{Lacks, join-split, split-join, contains-split}

-- A label by RFC 1035: 1 to 63 letters, digits and dashes, no dash first or last.
abbrev pub IsLabelChar : ℕ → Type 0
IsLabelChar c = (is_alphanumeric c ≡ true) ⊎ (c ≡ b'-')

abbrev pub IsLabel : Text → Type 0
IsLabel label =
    (1 ≤ length label)
    × (length label ≤ 63)
    × All IsLabelChar label
    × (starts_with (b'-' ∷ []) label ≡ false)
    × (ends_with_dash label ≡ false)

-- Two labels at least with dots between them, of at most 253 characters.
abbrev pub IsDomain : Text → Type 0
IsDomain domain =
    (labels : List Text) × (domain ≡ join b'.' labels)
    × (2 ≤ length labels)
    × All IsLabel labels
    × (length domain ≤ 253)

abbrev label_char : ℕ → Bool
label_char c = is_alphanumeric c || (c == b'-')

label_char-IsLabelChar : (c : ℕ) → (label_char c ≡ true) ↔ IsLabelChar c
label_char-IsLabelChar c = ground arith

label_char_is_ascii : (c : ℕ) → IsLabelChar c → (c < 0x80) × ((c == b'.') ≡ false)
label_char_is_ascii c h = (ground arith, ground arith)

all-All : (text : Text) → (all label_char text ≡ true) ↔ All IsLabelChar text
all-All [] = (λ _. tt, λ _. refl)
all-All (c ∷ cs) = ground (arith, label_char-IsLabelChar c, all-All cs)

utf8_len-label : (text : Text) → All IsLabelChar text → utf8_len text ≡ length text
utf8_len-label [] h = refl
utf8_len-label (c ∷ cs) (h, k) = ground (arith, (label_char_is_ascii c h).0, utf8_len-label cs k)

label-Lacks : (text : Text) → All IsLabelChar text → Lacks b'.' text
label-Lacks [] h = tt
label-Lacks (c ∷ cs) (h, k) = ((label_char_is_ascii c h).1, label-Lacks cs k)

valid_label_iff : (label : Text) → (valid_label label ≡ true) ↔ IsLabel label
unfolding valid_label
valid_label_iff label = (
  λ h.
      let nonempty : (utf8_len label == 0) ≡ false = ground arith in
      let short : leb (utf8_len label) 63 ≡ true = ground arith in
      let first : starts_with (b'-' ∷ []) label ≡ false = ground arith in
      let last : ends_with_dash label ≡ false = ground arith in
      let chars : all label_char label ≡ true = ground arith in
      let cs : All IsLabelChar label = (all-All label).0 chars in
      let size : utf8_len label ≡ length label = utf8_len-label label cs in
      (ground arith, ground arith, cs, first, last),
  λ k.
      let (nonempty, short, cs, first, last) = k in
      let size = utf8_len-label label cs in
      let chars = (all-All label).1 cs in rw (size, first, last, chars) (ground arith),
)

labels_iff :
    (labels : List Text)
    → (any (λ label. not (valid_label label)) labels ≡ false) ↔ All IsLabel labels
labels_iff [] = (λ _. tt, λ _. refl)
labels_iff (label ∷ labels) =
    let (to, from) = valid_label_iff label in
    let (to_rest, from_rest) = labels_iff labels in
    elim (Bool-cases (valid_label label)) [
      | inl good ↦ (λ h. (to good, to_rest (simp good at h)), λ k. simp good (from_rest k.1))
      | inr bad ↦ (λ h. cc (simp bad at h), λ k. cc (from k.0, bad))
    ]

labels-Lacks : (labels : List Text) → All IsLabel labels → All (Lacks b'.') labels
labels-Lacks [] h = tt
labels-Lacks (label ∷ labels) ((a, b, cs, d, e), k) = (label-Lacks label cs, labels-Lacks labels k)

utf8_len-append : (xs ys : Text) → utf8_len (xs ++ ys) ≡ utf8_len xs + utf8_len ys
utf8_len-append [] ys = omega arith
utf8_len-append (x ∷ xs) ys = omega (arith, utf8_len-append xs ys)

utf8_len-join :
    (labels : List Text)
    → All IsLabel labels
    → utf8_len (join b'.' labels) ≡ length (join b'.' labels)
utf8_len-join [] h = refl
utf8_len-join (label ∷ []) ((a, b, cs, d, e), k) = utf8_len-label label cs
utf8_len-join (label ∷ next ∷ labels) ((a, b, cs, d, e), k) = omega (
  arith,
  utf8_len-append label (b'.' ∷ join b'.' (next ∷ labels)),
  length-append label (b'.' ∷ join b'.' (next ∷ labels)),
  utf8_len-label label cs,
  utf8_len-join (next ∷ labels) k,
)

split-labels :
    (labels : List Text)
    → 2 ≤ length labels
    → All IsLabel labels
    → split b'.' (join b'.' labels) ≡ labels
split-labels [] k h = absurd (omega arith)
split-labels (label ∷ labels) k h = split-join b'.' label labels (labels-Lacks (label ∷ labels) h)

-- `valid_domain` accepts exactly the names of two labels or more with dots between them, of at most
-- 253 characters, each label being 1 to 63 letters, digits and dashes with no dash first or last.
pub valid_domain_iff : (domain : Text) → (valid_domain domain ≡ true) ↔ IsDomain domain
unfolding valid_domain
valid_domain_iff domain = (accepted, correct)
  where
    accepted : valid_domain domain ≡ true → IsDomain domain
    accepted h =
        let short : leb (utf8_len domain) 253 ≡ true = ground arith in
        let dot : contains (b'.' ∷ []) domain ≡ true = ground arith in
        let good_labels : any (λ label. not (valid_label label)) (split b'.' domain) ≡ false =
          ground arith in
        let labels = split b'.' domain in
        let good : All IsLabel labels = (labels_iff labels).0 good_labels in
        let same : join b'.' labels ≡ domain = join-split b'.' domain in
        let size : utf8_len domain ≡ length domain =
          subst (λ d. utf8_len d ≡ length d) same (utf8_len-join labels good) in
        (labels, sym same, (contains-split b'.' domain).0 dot, good, ground (arith, size))

    correct : IsDomain domain → valid_domain domain ≡ true
    correct (labels, e, two, good, short) =
        let parts : split b'.' domain ≡ labels = ap (split b'.') e ∙ split-labels labels two good in
        let dot : contains (b'.' ∷ []) domain ≡ true =
          (contains-split b'.' domain).1 (subst (λ ps. 2 ≤ length ps) (sym parts) two) in
        let size : utf8_len domain ≡ length domain =
          subst (λ d. utf8_len d ≡ length d) (sym e) (utf8_len-join labels good) in
        let none_bad = (labels_iff labels).1 good in rw (size, dot, parts, none_bad) (ground arith)
