-- ===== src/H2/Channel/Entries.antt =====
-- Lemmas on the entries of the history: what changes of one entry, and cutting, keep.
use tg_ws_keenetic.Base.{
  ℕ, zero, suc, ◌+◌, ◌≤◌, ◌<◌, ◌≡◌, refl, ap, inl, inr, Bool, false, Option, none, some, List, [],
  ◌∷◌, ◌++◌, arith, ◌==◌, Bool-cases, Option-cases, some_inj, length, All,
}
use tg_ws_keenetic.Base.Maps.{retain, position, remove_at, index_after}
use tg_ws_keenetic.Base.Bytes.{Bytes, bytes_eq}
use tg_ws_keenetic.H2.Budget.{BudgetState}
use tg_ws_keenetic.H2.Channel.State.{ReplayEntry}
use tg_ws_keenetic.H2.Channel.History.{
  update_entry, retained_bytes, disposable, victim, index_or_first, dropped_at, exceeds, trim,
  add_original, add_to_body,
}

module _ {ℓ} (P : ReplayEntry → Type ℓ) where
  pub update_entry-All :
      (sequence : ℕ) (f : ReplayEntry → ReplayEntry) (h : List ReplayEntry)
      → ((e : ReplayEntry) → e.sequence ≡ sequence → P e → P (f e))
      → All P h
      → All P (update_entry sequence f h)
  update_entry-All sequence f [] k p = tt
  update_entry-All sequence f (e ∷ es) k (pe, ps) = elim (Bool-cases (e.sequence == sequence)) [
    | inl t ↦ simp t (k e (ground (arith, t)) pe, ps)
    | inr n ↦ simp n (pe, update_entry-All sequence f es k ps)
  ]

  pub add_to_body-All :
      (body : Bytes) (request : ℕ) (h : List ReplayEntry)
      → ((e : ReplayEntry) → P e → P (add_original request e))
      → All P h
      → All P (add_to_body body request h)
  add_to_body-All body request [] k p = tt
  add_to_body-All body request (e ∷ es) k (pe, ps) = elim (Bool-cases (bytes_eq e.body body)) [
    | inl t ↦ simp t (k e pe, ps)
    | inr n ↦ simp n (pe, add_to_body-All body request es k ps)
  ]

  pub remove_at-All : (i : ℕ) (h : List ReplayEntry) → All P h → All P (remove_at i h)
  remove_at-All i [] p = tt
  remove_at-All zero (e ∷ es) (pe, ps) = ps
  remove_at-All (suc i) (e ∷ es) (pe, ps) = (pe, remove_at-All i es ps)

  pub retain-All : (f : ReplayEntry → Bool) (h : List ReplayEntry) → All P h → All P (retain f h)
  retain-All f [] p = tt
  retain-All f (e ∷ es) (pe, ps) = elim (Bool-cases (f e)) [
    | inl t ↦ simp t (pe, retain-All f es ps)
    | inr n ↦ simp n (retain-All f es ps)
  ]

  pub append-All : (h : List ReplayEntry) (e : ReplayEntry) → All P h → P e → All P (h ++ (e ∷ []))
  append-All [] e p q = (q, tt)
  append-All (x ∷ xs) e (px, ps) q = (px, append-All xs e ps q)

  pub trim-All :
      (fuel now : ℕ) (h : List ReplayEntry) (shared : BudgetState)
      → All P h
      → All P (trim fuel now h shared).0
  unfolding trim
  trim-All zero now h shared p = p
  trim-All (suc fuel) now h shared p = elim (Bool-cases (exceeds h)) [
    | inl t ↦ simp t (
        trim-All fuel now (remove_at (victim now h) h) (dropped_at (victim now h) h shared)
          (remove_at-All (victim now h) h p))
    | inr n ↦ simp n p
  ]

pub map-All {ℓ κ} :
    {P : ReplayEntry → Type ℓ} {Q : ReplayEntry → Type κ} (h : List ReplayEntry)
    → ((e : ReplayEntry) → P e → Q e)
    → All P h
    → All Q h
map-All [] k p = tt
map-All (e ∷ es) k (pe, ps) = (k e pe, map-All es k ps)

-- The sequence numbers rise through the history.
abbrev pub IsAfter : ℕ → ReplayEntry → Type 0
IsAfter n e = n < e.sequence

abbrev pub IsRising : List ReplayEntry → Type 0
IsRising [] = Unit
IsRising (e ∷ es) = All (IsAfter e.sequence) es × IsRising es

pub update_entry-IsRising :
    (sequence : ℕ) (f : ReplayEntry → ReplayEntry) (h : List ReplayEntry)
    → ((e : ReplayEntry) → (f e).sequence ≡ e.sequence)
    → IsRising h
    → IsRising (update_entry sequence f h)
update_entry-IsRising sequence f [] k r = tt
update_entry-IsRising sequence f (e ∷ es) k (a, r) = elim (Bool-cases (e.sequence == sequence)) [
  | inl t ↦ simp t (map-All es (λ x p. omega (arith, k e)) a, r)
  | inr n ↦ simp n (
    update_entry-All (IsAfter e.sequence) sequence f es (λ x _ p. omega (arith, k x)) a,
    update_entry-IsRising sequence f es k r,
  )
]

pub add_to_body-IsRising :
    (body : Bytes) (request : ℕ) (h : List ReplayEntry)
    → IsRising h
    → IsRising (add_to_body body request h)
add_to_body-IsRising body request [] r = tt
add_to_body-IsRising body request (e ∷ es) (a, r) = elim (Bool-cases (bytes_eq e.body body)) [
  | inl t ↦ simp t (a, r)
  | inr n ↦ simp n (
    add_to_body-All (IsAfter e.sequence) body request es (λ x p. p) a,
    add_to_body-IsRising body request es r,
  )
]

remove_at-IsRising : (i : ℕ) (h : List ReplayEntry) → IsRising h → IsRising (remove_at i h)
remove_at-IsRising i [] r = tt
remove_at-IsRising zero (e ∷ es) (a, r) = r
remove_at-IsRising (suc i) (e ∷ es) (a, r) =
    (remove_at-All (IsAfter e.sequence) i es a, remove_at-IsRising i es r)

pub retain-IsRising :
    (f : ReplayEntry → Bool) (h : List ReplayEntry) → IsRising h → IsRising (retain f h)
retain-IsRising f [] r = tt
retain-IsRising f (e ∷ es) (a, r) = elim (Bool-cases (f e)) [
  | inl t ↦ simp t (retain-All (IsAfter e.sequence) f es a, retain-IsRising f es r)
  | inr n ↦ simp n (retain-IsRising f es r)
]

abbrev pub IsBefore : ℕ → ReplayEntry → Type 0
IsBefore n e = e.sequence < n

pub append-IsRising :
    (h : List ReplayEntry) (e : ReplayEntry)
    → All (IsBefore e.sequence) h
    → IsRising h
    → IsRising (h ++ (e ∷ []))
append-IsRising [] e b r = (tt, tt)
append-IsRising (x ∷ xs) e (b, bs) (a, r) =
    (append-All (IsAfter x.sequence) xs e a b, append-IsRising xs e bs r)

pub trim-IsRising :
    (fuel now : ℕ) (h : List ReplayEntry) (shared : BudgetState)
    → IsRising h
    → IsRising (trim fuel now h shared).0
unfolding trim
trim-IsRising zero now h shared r = r
trim-IsRising (suc fuel) now h shared r = elim (Bool-cases (exceeds h)) [
  | inl t ↦ simp t (
      trim-IsRising fuel now (remove_at (victim now h) h) (dropped_at (victim now h) h shared)
        (remove_at-IsRising (victim now h) h r))
  | inr n ↦ simp n r
]

-- The measures of the history.
pub record SameSize (h h' : List ReplayEntry) : Type 0 where
  pub count : length h' ≡ length h
  pub size : retained_bytes h' ≡ retained_bytes h

pub update_entry-SameSize :
    (sequence : ℕ) (f : ReplayEntry → ReplayEntry) (h : List ReplayEntry)
    → ((e : ReplayEntry) → length (f e).body ≡ length e.body)
    → SameSize h (update_entry sequence f h)
update_entry-SameSize sequence f [] k = record { count = refl; size = refl }
update_entry-SameSize sequence f (e ∷ es) k =
    let rest = update_entry-SameSize sequence f es k in
    record { count = ground (arith, rest.count); size = ground (arith, rest.size, k e) }

pub add_to_body-SameSize :
    (body : Bytes) (request : ℕ) (h : List ReplayEntry) → SameSize h (add_to_body body request h)
add_to_body-SameSize body request [] = record { count = refl; size = refl }
add_to_body-SameSize body request (e ∷ es) =
    let rest = add_to_body-SameSize body request es in
    record { count = ground (arith, rest.count); size = ground (arith, rest.size) }

pub retain-smaller :
    (f : ReplayEntry → Bool) (h : List ReplayEntry)
    → (length (retain f h) ≤ length h) × (retained_bytes (retain f h) ≤ retained_bytes h)
retain-smaller f [] = (omega arith, omega arith)
retain-smaller f (e ∷ es) =
    let (a, b) = retain-smaller f es in (ground (arith, a), ground (arith, b))

pub length-remove_at :
    (i : ℕ) (h : List ReplayEntry) → i < length h → length (remove_at i h) + 1 ≡ length h
length-remove_at i [] p = absurd (omega arith)
length-remove_at zero (e ∷ es) p = omega arith
length-remove_at (suc i) (e ∷ es) p = omega (arith, length-remove_at i es (omega arith))

after-lt :
    (o : Option ℕ) (n i : ℕ) → ((j : ℕ) → o ≡ some j → j < n) → index_after o ≡ some i → i < suc n
after-lt none n i k q = cc q
after-lt (some j) n i k q = omega (arith, some_inj q, k j refl)

position-lt :
    (f : ReplayEntry → Bool) (h : List ReplayEntry) (i : ℕ) → position f h ≡ some i → i < length h
position-lt f [] i q = cc
position-lt f (e ∷ es) i q = elim (Bool-cases (f e)) [
  | inl t ↦ omega (arith, some_inj (simp t at q))
  | inr n ↦ after-lt (position f es) (length es) i (λ j k. position-lt f es j k) (simp n at q)
]

pub victim-lt :
    (now : ℕ) (e : ReplayEntry) (h : List ReplayEntry) → victim now (e ∷ h) < length (e ∷ h)
victim-lt now e h = elim (Option-cases (position (disposable now) (e ∷ h))) [
  | inl k ↦ omega (arith, ap index_or_first k)
  | inr (i, k) ↦ omega (arith, ap index_or_first k, position-lt (disposable now) (e ∷ h) i k)
]

-- With one round for each entry the loop of `remember` ends within the bounds.
pub trim-bounds :
    (fuel now : ℕ) (h : List ReplayEntry) (shared : BudgetState)
    → length h ≤ fuel
    → exceeds (trim fuel now h shared).0 ≡ false
unfolding trim
trim-bounds zero now [] shared k = ground arith
trim-bounds zero now (e ∷ es) shared k = absurd (omega arith)
trim-bounds (suc fuel) now [] shared k = refl
trim-bounds (suc fuel) now (e ∷ es) shared k = elim (Bool-cases (exceeds (e ∷ es))) [
  | inl t ↦ simp t (
      trim-bounds fuel now _ _
        (omega (arith, length-remove_at (victim now (e ∷ es)) (e ∷ es) (victim-lt now e es))))
  | inr n ↦ simp n refl
]
