-- ===== src/Upstream/Domains/Orders.antt =====
-- How often a name stands in the order that `domains_for` makes.
use tg_ws_keenetic.Base.{
  ℕ, ◌+◌, ◌≡◌, ap, inl, inr, Bool, false, not, Option, none, some, List, [], ◌∷◌, arith,
  if◌then◌else◌, Bool-cases,
}
use tg_ws_keenetic.Base.Bytes.{bytes_eq, bytes_eq→eq}
use tg_ws_keenetic.Base.Maps.{retain}
use tg_ws_keenetic.Config.{Text}
use tg_ws_keenetic.Upstream.Domains.{with_preferred}

-- How often a name stands in a list.
abbrev pub count : Text → List Text → ℕ
count x [] = 0
count x (y ∷ ys) = if bytes_eq x y then 1 + count x ys else count x ys

-- Documented of `shuffle`: the list is permuted.
abbrev pub Permutes : (List Text → List Text) → Type 0
Permutes shuffle = (xs : List Text) (x : Text) → count x (shuffle xs) ≡ count x xs

abbrev pub is_some_text : Text → Option Text → Bool
is_some_text x none = false
is_some_text x (some y) = bytes_eq x y

count-retain :
    (x active : Text) (xs : List Text)
    → count x (retain (λ d. not (bytes_eq d active)) xs)
      ≡ (if bytes_eq x active then 0 else count x xs)
count-retain x active [] = ground arith
count-retain x active (y ∷ ys) =
    let h = count-retain x active ys in
    elim (Bool-cases (bytes_eq x y)) [
      | inr other ↦ ground (arith, h)
      | inl same ↦
          let e : bytes_eq x active ≡ bytes_eq y active =
            ap (λ t. bytes_eq t active) (bytes_eq→eq x y same) in
          ground (arith, h, e)
    ]

pub count-with_preferred :
    (shuffle : List Text → List Text) (x : Text) (domains : List Text) (active : Option Text)
    → Permutes shuffle
    → count x (with_preferred shuffle domains active)
      ≡ (if is_some_text x active then 1 else count x domains)
unfolding with_preferred
count-with_preferred shuffle x domains none permutes = permutes domains x
count-with_preferred shuffle x domains (some active) permutes =
    let h = permutes (retain (λ d. not (bytes_eq d active)) domains) x in
    ground (arith, h, count-retain x active domains)
