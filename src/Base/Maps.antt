-- ===== src/Base/Maps.antt =====
-- `BTreeMap` with keys of type `usize`, as a list of entries by rising key, and `BTreeSet`.
use Prim.Native.Nat.{ℕ, zero, suc, ◌+◌}
use mathlib.Core.Bool.{Bool, true, false}
use mathlib.Core.List.{List, [], ◌∷◌}
use mathlib.Core.Option.{Option, none, some}
use tg_ws_keenetic.Base.Tests.{ltb, ◌==◌, if◌then◌else◌}

module _ {ℓ} {A : Type ℓ} where
  abbrev pub lookup : ℕ → List (ℕ × A) → Option A
  lookup k [] = none
  lookup k ((j, a) ∷ m) = if j == k then some a else lookup k m

  abbrev pub insert : ℕ → A → List (ℕ × A) → List (ℕ × A)
  insert k a [] = (k, a) ∷ []
  insert k a ((j, b) ∷ m) =
      if ltb k j then (k, a) ∷ (j, b) ∷ m else if k == j then (k, a) ∷ m else (j, b) ∷ insert k a m

  abbrev pub remove : ℕ → List (ℕ × A) → List (ℕ × A)
  remove k [] = []
  remove k ((j, a) ∷ m) = if j == k then m else (j, a) ∷ remove k m

  -- `get_mut` and a change of the value found.
  abbrev pub update : ℕ → (A → A) → List (ℕ × A) → List (ℕ × A)
  update k f [] = []
  update k f ((j, a) ∷ m) = if j == k then (j, f a) ∷ m else (j, a) ∷ update k f m

  abbrev pub keys : List (ℕ × A) → List ℕ
  keys [] = []
  keys ((k, a) ∷ m) = k ∷ keys m

-- `BTreeSet::insert` and `remove`.
abbrev pub set_insert : ℕ → List ℕ → List ℕ
set_insert k [] = k ∷ []
set_insert k (j ∷ ks) =
    if ltb k j then k ∷ j ∷ ks else if k == j then j ∷ ks else j ∷ set_insert k ks

abbrev pub set_remove : ℕ → List ℕ → List ℕ
set_remove k [] = []
set_remove k (j ∷ ks) = if j == k then ks else j ∷ set_remove k ks

abbrev pub index_after : Option ℕ → Option ℕ
index_after none = none
index_after (some i) = some (i + 1)

module _ {ℓ} {A : Type ℓ} where
  -- `iter().any`, `iter().find`, `iter().filter(..).count()`, `retain`.
  abbrev pub any : (A → Bool) → List A → Bool
  any p [] = false
  any p (x ∷ xs) = if p x then true else any p xs

  abbrev pub find : (A → Bool) → List A → Option A
  find p [] = none
  find p (x ∷ xs) = if p x then some x else find p xs

  abbrev pub retain : (A → Bool) → List A → List A
  retain p [] = []
  retain p (x ∷ xs) = if p x then x ∷ retain p xs else retain p xs

  abbrev pub position : (A → Bool) → List A → Option ℕ
  position p [] = none
  position p (x ∷ xs) = if p x then some 0 else index_after (position p xs)

  -- `VecDeque::remove(index)`.
  abbrev pub remove_at : ℕ → List A → List A
  remove_at i [] = []
  remove_at zero (x ∷ xs) = xs
  remove_at (suc i) (x ∷ xs) = x ∷ remove_at i xs
