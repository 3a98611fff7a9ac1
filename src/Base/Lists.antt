-- ===== src/Base/Lists.antt =====
-- Lists measured and cut by native numbers, under the library's names.
use Prim.Native.Nat.{ℕ, zero, suc, ◌+◌, ◌-◌, ◌≤◌, min}
use mathlib.Core.Path.{◌≡◌, refl, ap, sym, ◌∙◌}
use mathlib.Core.List.{List, [], ◌∷◌, ◌++◌}
use mathlib.Core.Option.{Option, none, some}
use native.Mathlib.Omega.{arith}

module _ {ℓ} {A : Type ℓ} where
  abbrev pub length : List A → ℕ
  length [] = 0
  length (x ∷ xs) = suc (length xs)

  abbrev pub get_elem? : List A → ℕ → Option A
  get_elem? [] i = none
  get_elem? (x ∷ xs) zero = some x
  get_elem? (x ∷ xs) (suc i) = get_elem? xs i

  abbrev pub get_or : List A → ℕ → A → A
  get_or [] i d = d
  get_or (x ∷ xs) zero d = x
  get_or (x ∷ xs) (suc i) d = get_or xs i d

  abbrev pub take : ℕ → List A → List A
  take zero xs = []
  take (suc n) [] = []
  take (suc n) (x ∷ xs) = x ∷ take n xs

  abbrev pub drop : ℕ → List A → List A
  drop zero xs = xs
  drop (suc n) [] = []
  drop (suc n) (x ∷ xs) = drop n xs

  abbrev pub replicate : ℕ → A → List A
  replicate zero a = []
  replicate (suc n) a = a ∷ replicate n a

  abbrev pub All {κ} : (A → Type κ) → List A → Type κ
  All P [] = Unit {κ}
  All P (x ∷ xs) = P x × All P xs

module _ {ℓ} {A : Type ℓ} where
  pub length-append : (xs ys : List A) → length (xs ++ ys) ≡ length xs + length ys
  length-append [] ys = omega arith
  length-append (x ∷ xs) ys = omega (arith, length-append xs ys)

  pub length-take : (n : ℕ) (xs : List A) → length (take n xs) ≡ min n (length xs)
  length-take zero xs = omega arith
  length-take (suc n) [] = omega arith
  length-take (suc n) (x ∷ xs) = omega (arith, length-take n xs)

  pub length-drop : (n : ℕ) (xs : List A) → length (drop n xs) ≡ length xs - n
  length-drop zero xs = omega arith
  length-drop (suc n) [] = omega arith
  length-drop (suc n) (x ∷ xs) = omega (arith, length-drop n xs)

  pub length-replicate : (n : ℕ) (a : A) → length (replicate n a) ≡ n
  length-replicate zero a = refl
  length-replicate (suc n) a = ap suc (length-replicate n a)

  pub take-append-drop : (n : ℕ) (xs : List A) → take n xs ++ drop n xs ≡ xs
  take-append-drop zero xs = refl
  take-append-drop (suc n) [] = refl
  take-append-drop (suc n) (x ∷ xs) = ap (λ t. x ∷ t) (take-append-drop n xs)

  -- Cutting at the seam of an append.
  pub take_at : (xs ys : List A) (n : ℕ) → length xs ≡ n → take n (xs ++ ys) ≡ xs
  take_at [] ys zero h = refl
  take_at [] ys (suc n) h = absurd (omega arith)
  take_at (x ∷ xs) ys zero h = absurd (omega arith)
  take_at (x ∷ xs) ys (suc n) h = ap (λ t. x ∷ t) (take_at xs ys n (omega arith))

  pub drop_at : (xs ys : List A) (n : ℕ) → length xs ≡ n → drop n (xs ++ ys) ≡ ys
  drop_at [] ys zero h = refl
  drop_at [] ys (suc n) h = absurd (omega arith)
  drop_at (x ∷ xs) ys zero h = absurd (omega arith)
  drop_at (x ∷ xs) ys (suc n) h = drop_at xs ys n (omega arith)

  pub take_all : (n : ℕ) (xs : List A) → length xs ≤ n → take n xs ≡ xs
  take_all zero [] h = refl
  take_all zero (x ∷ xs) h = absurd (omega arith)
  take_all (suc n) [] h = refl
  take_all (suc n) (x ∷ xs) h = ap (λ t. x ∷ t) (take_all n xs (omega arith))

  pub drop_all : (n : ℕ) (xs : List A) → length xs ≤ n → drop n xs ≡ []
  drop_all zero [] h = refl
  drop_all zero (x ∷ xs) h = absurd (omega arith)
  drop_all (suc n) [] h = refl
  drop_all (suc n) (x ∷ xs) h = drop_all n xs (omega arith)

  pub drop_nil : (n : ℕ) → drop {A = A} n [] ≡ []
  drop_nil zero = refl
  drop_nil (suc n) = refl

  pub drop-drop : (n m : ℕ) (xs : List A) → drop n (drop m xs) ≡ drop (m + n) xs
  drop-drop n zero xs = let e : n ≡ 0 + n = omega arith in ap (λ k. drop k xs) e
  drop-drop n (suc m) [] = drop_nil n ∙ sym (drop_nil (suc m + n))
  drop-drop n (suc m) (x ∷ xs) =
      let e : suc (m + n) ≡ suc m + n = omega arith in
      drop-drop n m xs ∙ ap (λ k. drop k (x ∷ xs)) e

  pub take-append : (n : ℕ) (xs ys : List A) → n ≤ length xs → take n (xs ++ ys) ≡ take n xs
  take-append zero xs ys h = refl
  take-append (suc n) [] ys h = absurd (omega arith)
  take-append (suc n) (x ∷ xs) ys h = ap (λ t. x ∷ t) (take-append n xs ys (omega arith))

  -- A slice that lies in the first part of an append.
  pub slice-append :
      (n m : ℕ) (xs ys : List A)
      → n + m ≤ length xs
      → take m (drop n (xs ++ ys)) ≡ take m (drop n xs)
  slice-append zero m xs ys h = take-append m xs ys (omega arith)
  slice-append (suc n) zero [] ys h = refl
  slice-append (suc n) (suc m) [] ys h = absurd (omega arith)
  slice-append (suc n) m (x ∷ xs) ys h = slice-append n m xs ys (omega arith)

  pub slice-take :
      (n m k : ℕ) (xs : List A) → n + m ≤ k → take m (drop n (take k xs)) ≡ take m (drop n xs)
  slice-take zero zero k xs h = refl
  slice-take zero (suc m) zero xs h = absurd (omega arith)
  slice-take zero (suc m) (suc k) [] h = refl
  slice-take zero (suc m) (suc k) (x ∷ xs) h =
      ap (λ t. x ∷ t) (slice-take zero m k xs (omega arith))
  slice-take (suc n) m zero xs h = absurd (omega arith)
  slice-take (suc n) m (suc k) [] h = refl
  slice-take (suc n) m (suc k) (x ∷ xs) h = slice-take n m k xs (omega arith)

  pub get_or-drop : (n i : ℕ) (xs : List A) (d : A) → get_or (drop n xs) i d ≡ get_or xs (n + i) d
  get_or-drop zero i xs d = let e : i ≡ 0 + i = omega arith in ap (λ j. get_or xs j d) e
  get_or-drop (suc n) i [] d = refl
  get_or-drop (suc n) i (x ∷ xs) d =
      let e : suc (n + i) ≡ suc n + i = omega arith in
      get_or-drop n i xs d ∙ ap (λ j. get_or (x ∷ xs) j d) e

  pub get_or-append :
      (i : ℕ) (xs ys : List A) (d : A) → i + 1 ≤ length xs → get_or (xs ++ ys) i d ≡ get_or xs i d
  get_or-append i [] ys d h = absurd (omega arith)
  get_or-append zero (x ∷ xs) ys d h = refl
  get_or-append (suc i) (x ∷ xs) ys d h = get_or-append i xs ys d (omega arith)
