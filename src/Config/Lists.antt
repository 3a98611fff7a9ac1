-- ===== src/Config/Lists.antt =====
-- The lists of domains that `from_value` makes: trimmed, in lower case, without repetition.
use tg_ws_keenetic.Base.{
  ◌≡◌, refl, sym, ap, ◌∙◌, inl, inr, Bool, true, false, not, ◌&&◌, ◌||◌, List, [], ◌∷◌, ◌++◌, arith,
  if◌then◌else◌, Bool-cases, either, All,
}
use tg_ws_keenetic.Base.Bytes.{bytes_eq, bytes_eq→eq}
use mathlib.Core.Path.{subst}
use tg_ws_keenetic.Base.Maps.{any}
use tg_ws_keenetic.Base.Text.{trim_both, lowercase}
use tg_ws_keenetic.Config.{Text, holds, normalize, normalized_domains}

-- No text stands twice, and none is empty.
abbrev pub Distinct : List Text → Type 0
Distinct [] = Unit
Distinct (text ∷ texts) = (holds text texts ≡ false) × Distinct texts

abbrev pub cleaned : Text → Text
cleaned domain = lowercase (trim_both domain)

bytes_eq_sym : (x y : Text) → bytes_eq x y ≡ bytes_eq y x
bytes_eq_sym [] [] = refl
bytes_eq_sym [] (y ∷ ys) = refl
bytes_eq_sym (x ∷ xs) [] = refl
bytes_eq_sym (x ∷ xs) (y ∷ ys) = ground (arith, bytes_eq_sym xs ys)

holds-append : (x : Text) (a b : List Text) → holds x (a ++ b) ≡ (holds x a || holds x b)
holds-append x [] b = refl
holds-append x (y ∷ a) b = ground (arith, holds-append x a b)

Distinct-snoc :
    (d : Text) (acc : List Text) → Distinct acc → holds d acc ≡ false → Distinct (acc ++ (d ∷ []))
Distinct-snoc d [] h k = (refl, tt)
Distinct-snoc d (x ∷ acc) (h, more) k = (
  ground (arith, holds-append x acc (d ∷ []), bytes_eq_sym x d),
  Distinct-snoc d acc more (ground arith),
)

abbrev pub Filled : List Text → Type 0
Filled texts = All (λ t. bytes_eq t [] ≡ false) texts

Filled-snoc :
    (d : Text) (acc : List Text) → Filled acc → bytes_eq d [] ≡ false → Filled (acc ++ (d ∷ []))
Filled-snoc d [] h k = (k, tt)
Filled-snoc d (x ∷ acc) (h, more) k = (h, Filled-snoc d acc more k)

abbrev pub Cleans : List Text → List Text → List Text → Type 0
Cleans acc domains result =
    Distinct result
    × Filled result
    × ((x : Text)
        → holds x result
          ≡ (holds x acc || (not (bytes_eq x []) && any (λ d. bytes_eq x (cleaned d)) domains)))

or-false_right : (a : Bool) → a ≡ (a || false)
or-false_right true = refl
or-false_right false = refl

kept_holds :
    (x d : Text) (acc : Bool) (filled rest : Bool)
    → bytes_eq d [] ≡ false
    → (bytes_eq x d ≡ true → bytes_eq x [] ≡ false)
    → ((acc || (if bytes_eq x d then true else false)) || (not (bytes_eq x []) && rest))
      ≡ (acc || (not (bytes_eq x []) && (if bytes_eq x d then true else rest)))
kept_holds x d acc filled rest k h = ground arith

old_holds :
    (x d : Text) (acc : List Text) (rest : Bool)
    → (not (bytes_eq d []) && not (holds d acc)) ≡ false
    → (holds x acc || (not (bytes_eq x []) && rest))
      ≡ (holds x acc || (not (bytes_eq x []) && (if bytes_eq x d then true else rest)))
old_holds x d acc rest old = elim (Bool-cases (bytes_eq x d)) [
  | inr other ↦ simp other refl
  | inl same ↦
      let e : x ≡ d = bytes_eq→eq x d same in
      let there : (not (bytes_eq x []) && not (holds x acc)) ≡ false =
        subst (λ t. (not (bytes_eq t []) && not (holds t acc)) ≡ false) (sym e) old in
      simp same (ground (arith, there))
]

normalize-Cleans :
    (domains acc : List Text)
    → Distinct acc
    → Filled acc
    → Cleans acc domains (normalize acc domains)
unfolding normalize
normalize-Cleans [] acc h k = (h, k, λ x. ground arith)
normalize-Cleans (domain ∷ domains) acc h k =
    let d = cleaned domain in
    either (Cleans acc (domain ∷ domains)) (not (bytes_eq d []) && not (holds d acc))
      (λ new.
        let filled : bytes_eq d [] ≡ false = ground arith in
        let fresh : holds d acc ≡ false = ground arith in
        let (distinct, all_filled, members) =
          normalize-Cleans domains (acc ++ (d ∷ [])) (Distinct-snoc d acc h fresh)
            (Filled-snoc d acc k filled) in
        (
          distinct,
          all_filled,
          λ x.
              members x
              ∙ ap (λ b. b || (not (bytes_eq x []) && any (λ d. bytes_eq x (cleaned d)) domains))
                  (holds-append x acc (d ∷ []))
              ∙ kept_holds x d (holds x acc) true (any (λ d. bytes_eq x (cleaned d)) domains) filled
                  (λ same.
                    let e : x ≡ d = bytes_eq→eq x d same in ap (λ t. bytes_eq t []) e ∙ filled),
        ))
      (λ old.
        let (distinct, all_filled, members) = normalize-Cleans domains acc h k in
        (
          distinct,
          all_filled,
          λ x. members x ∙ old_holds x d acc (any (λ d. bytes_eq x (cleaned d)) domains) old,
        ))

-- The list that `from_value` makes of a list of domains has no empty name and none twice, and a name
-- stands in it exactly when it is not empty and one of the names given, trimmed and in lower case.
pub normalized_domains-Cleans :
    (domains : List Text) → Cleans [] domains (normalized_domains domains)
unfolding normalized_domains
normalized_domains-Cleans domains = normalize-Cleans domains [] tt tt
