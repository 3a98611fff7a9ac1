-- ===== src/H2/Channel/Occurrences.antt =====
-- The entries that searching and sorting a list give are entries of it.
use tg_ws_keenetic.Base.{
  ℕ, ◌≡◌, refl, sym, ap, ◌∙◌, ◌⊎◌, inl, inr, Bool, true, false, some, List, [], ◌∷◌, leb,
  Bool-cases, some_inj,
}
use tg_ws_keenetic.Base.Maps.{any, find}
use tg_ws_keenetic.H2.Channel.State.{ReplayEntry}
use tg_ws_keenetic.H2.Channel.Replays.{insert_by, sort_by}

abbrev pub Occurs : {A : Type 0} → A → List A → Type 0
Occurs a [] = ⊥
Occurs a (x ∷ xs) = (x ≡ a) ⊎ Occurs a xs

insert_by-Occurs :
    (key : ReplayEntry → ℕ) (e x : ReplayEntry) (h : List ReplayEntry)
    → Occurs e (insert_by key x h)
    → Occurs e (x ∷ h)
unfolding insert_by
insert_by-Occurs key e x [] o = o
insert_by-Occurs key e x (y ∷ ys) o = elim (Bool-cases (leb (key x) (key y))) [
  | inl t ↦ simp t at o
  | inr n ↦ elim (simp n at o) [
    | inl q ↦ inr (inl q)
    | inr o' ↦ elim (insert_by-Occurs key e x ys o') [ inl q ↦ inl q | inr o'' ↦ inr (inr o'') ]
  ]
]

pub sort_by-Occurs :
    (key : ReplayEntry → ℕ) (e : ReplayEntry) (h : List ReplayEntry)
    → Occurs e (sort_by key h)
    → Occurs e h
unfolding sort_by
sort_by-Occurs key e [] o = o
sort_by-Occurs key e (x ∷ xs) o = elim (insert_by-Occurs key e x (sort_by key xs) o) [
  | inl q ↦ inl q
  | inr o' ↦ inr (sort_by-Occurs key e xs o')
]

pub find-Occurs :
    {A : Type 0} (p : A → Bool) (xs : List A) (a : A)
    → find p xs ≡ some a
    → Occurs a xs × (p a ≡ true)
find-Occurs p [] a q = cc
find-Occurs p (x ∷ xs) a q = elim (Bool-cases (p x)) [
  | inl t ↦ let same : x ≡ a = some_inj (simp t at q) in (inl same, ap p (sym same) ∙ t)
  | inr n ↦ let (o, h) = find-Occurs p xs a (simp n at q) in (inr o, h)
]

pub any-Occurs :
    {A : Type 0} (p : A → Bool) (xs : List A)
    → any p xs ≡ true
    → (a : A) × Occurs a xs × (p a ≡ true)
any-Occurs p [] q = cc
any-Occurs p (x ∷ xs) q = elim (Bool-cases (p x)) [
  | inl t ↦ (x, inl refl, t)
  | inr n ↦ let (a, o, h) = any-Occurs p xs (simp n at q) in (a, inr o, h)
]

pub not_any-Occurs :
    {A : Type 0} (p : A → Bool) (xs : List A) (a : A) → any p xs ≡ false → Occurs a xs → p a ≡ false
not_any-Occurs p [] a q o = absurd o
not_any-Occurs p (x ∷ xs) a q o = elim (Bool-cases (p x)) [
  | inl t ↦ cc (simp t at q)
  | inr n ↦ elim o [
    | inl same ↦ ap p (sym same) ∙ n
    | inr o' ↦ not_any-Occurs p xs a (simp n at q) o'
  ]
]
