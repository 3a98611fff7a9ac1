-- ===== src/H2/Budget/Ledger.antt =====
-- The budgets' accounts against the permits that are alive, over every sequence of operations.
use mathlib.Core.Path.{subst}
use tg_ws_keenetic.Base.{
  ℕ, suc, ◌+◌, ◌≤◌, ◌<◌, ◌≡◌, refl, sym, ◌↔◌, Bool, true, false, none, some, List, [], ◌∷◌, ◌++◌,
  arith, length, length-append,
}
use tg_ws_keenetic.H2.Budget.{
  BudgetState, Budget, BudgetPermit, empty, has_capacity, try_acquire, try_extend_bytes,
  shrink_bytes, release,
}

abbrev pub total : List BudgetPermit → ℕ
total [] = 0
total (p ∷ more) = p.charged + total more

total-append : (ps qs : List BudgetPermit) → total (ps ++ qs) ≡ total ps + total qs
total-append [] qs = omega arith
total-append (p ∷ ps) qs = omega (arith, total-append ps qs)

-- One operation by a holder of a permit, or by one who asks for one.
pub data Step (usize_max : ℕ) (b : Budget)
    : BudgetState → List BudgetPermit → BudgetState → List BudgetPermit → Type 0 where
  acquired :
      (s s' : BudgetState) (bytes : ℕ) (p : BudgetPermit) (ps : List BudgetPermit)
      → try_acquire usize_max b s bytes ≡ some (s', p)
      → Step usize_max b s ps s' (p ∷ ps)
  extended :
      (s s' : BudgetState) (bytes : ℕ) (p p' : BudgetPermit) (ps qs all all' : List BudgetPermit)
      → (answer : Bool) → try_extend_bytes usize_max b s p bytes ≡ (answer, s', p')
      → all ≡ ps ++ (p ∷ qs)
      → all' ≡ ps ++ (p' ∷ qs)
      → Step usize_max b s all s' all'
  shrunk :
      (s s' : BudgetState) (bytes : ℕ) (p p' : BudgetPermit) (ps qs all all' : List BudgetPermit)
      → shrink_bytes s p bytes ≡ (s', p')
      → bytes ≤ p.charged
      → all ≡ ps ++ (p ∷ qs)
      → all' ≡ ps ++ (p' ∷ qs)
      → Step usize_max b s all s' all'
  released :
      (s s' : BudgetState) (p : BudgetPermit) (ps qs all all' : List BudgetPermit)
      → release s p ≡ s'
      → all ≡ ps ++ (p ∷ qs)
      → all' ≡ ps ++ qs
      → Step usize_max b s all s' all'

pub data Reachable (usize_max : ℕ) (b : Budget) : BudgetState → List BudgetPermit → Type 0 where
  begins : Reachable usize_max b empty []
  then_step :
      (s s' : BudgetState) (ps ps' : List BudgetPermit)
      → Reachable usize_max b s ps
      → Step usize_max b s ps s' ps'
      → Reachable usize_max b s' ps'

-- The accounts are those of the permits alive, and within the bounds.
pub record IsBalanced (b : Budget) (s : BudgetState) (ps : List BudgetPermit) : Type 0 where
  pub slots : s.requests ≡ length ps
  pub charges : s.bytes ≡ total ps
  pub slots_fit : s.requests ≤ b.max_requests
  pub charges_fit : s.bytes ≤ b.max_bytes

-- Where one permit of many is changed.
middle :
    (ps qs : List BudgetPermit) (p : BudgetPermit)
    → (total (ps ++ (p ∷ qs)) ≡ total ps + (p.charged + total qs))
      × (length (ps ++ (p ∷ qs)) ≡ length ps + suc (length qs))
middle ps qs p = (total-append ps (p ∷ qs), length-append ps (p ∷ qs))

module _ (usize_max : ℕ) (b : Budget) where
  acquire-IsBalanced :
      (s s' : BudgetState) (bytes : ℕ) (p : BudgetPermit) (ps : List BudgetPermit)
      → IsBalanced b s ps
      → try_acquire usize_max b s bytes ≡ some (s', p)
      → IsBalanced b s' (p ∷ ps)
  unfolding try_acquire
  acquire-IsBalanced s s' bytes p ps h e = ground arith

  extend-IsBalanced :
      (s s' : BudgetState) (bytes : ℕ) (p p' : BudgetPermit) (ps qs : List BudgetPermit)
      → (answer : Bool) → try_extend_bytes usize_max b s p bytes ≡ (answer, s', p')
      → IsBalanced b s (ps ++ (p ∷ qs))
      → IsBalanced b s' (ps ++ (p' ∷ qs))
  unfolding try_extend_bytes
  extend-IsBalanced s s' bytes p p' ps qs answer e h =
      ground (arith, middle ps qs p, middle ps qs p')

  shrink-IsBalanced :
      (s s' : BudgetState) (bytes : ℕ) (p p' : BudgetPermit) (ps qs : List BudgetPermit)
      → shrink_bytes s p bytes ≡ (s', p')
      → bytes ≤ p.charged
      → IsBalanced b s (ps ++ (p ∷ qs))
      → IsBalanced b s' (ps ++ (p' ∷ qs))
  unfolding shrink_bytes
  shrink-IsBalanced s s' bytes p p' ps qs e k h = ground (arith, middle ps qs p, middle ps qs p')

  release-IsBalanced :
      (s s' : BudgetState) (p : BudgetPermit) (ps qs : List BudgetPermit)
      → release s p ≡ s'
      → IsBalanced b s (ps ++ (p ∷ qs))
      → IsBalanced b s' (ps ++ qs)
  unfolding release
  release-IsBalanced s s' p ps qs e h =
      ground (arith, middle ps qs p, total-append ps qs, length-append ps qs)

  step-IsBalanced :
      (s s' : BudgetState) (ps ps' : List BudgetPermit)
      → Step usize_max b s ps s' ps'
      → IsBalanced b s ps
      → IsBalanced b s' ps'
  step-IsBalanced _ _ _ _ (Step.acquired s s' bytes p ps e) h =
      acquire-IsBalanced s s' bytes p ps h e
  step-IsBalanced _ _ _ _ (Step.extended s s' bytes p p' ps qs all all' answer e a a') h =
      subst (IsBalanced b s') (sym a')
        (extend-IsBalanced s s' bytes p p' ps qs answer e (subst (IsBalanced b s) a h))
  step-IsBalanced _ _ _ _ (Step.shrunk s s' bytes p p' ps qs all all' e k a a') h =
      subst (IsBalanced b s') (sym a')
        (shrink-IsBalanced s s' bytes p p' ps qs e k (subst (IsBalanced b s) a h))
  step-IsBalanced _ _ _ _ (Step.released s s' p ps qs all all' e a a') h =
      subst (IsBalanced b s') (sym a')
        (release-IsBalanced s s' p ps qs e (subst (IsBalanced b s) a h))

  -- However permits are acquired, extended, shrunk and dropped, the slots and bytes counted are
  -- those of the permits alive, and stay within the budget's bounds.
  pub reachable-IsBalanced :
      (s : BudgetState) (ps : List BudgetPermit) → Reachable usize_max b s ps → IsBalanced b s ps
  reachable-IsBalanced _ _ Reachable.begins = record {
    slots = refl;
    charges = refl;
    slots_fit = omega arith;
    charges_fit = omega arith;
  }
  reachable-IsBalanced _ _ (Reachable.then_step s s' ps ps' r st) =
      step-IsBalanced s s' ps ps' st (reachable-IsBalanced s ps r)

  -- In a balanced state whose bound on bytes is a `usize`, capacity is reported exactly when a
  -- slot is free and the bytes of the permits alive leave the room asked for; and exactly when
  -- none is reported, no permit is granted.
  pub try_acquire_grants :
      (s : BudgetState) (ps : List BudgetPermit) (bytes : ℕ)
      → b.max_bytes ≤ usize_max
      → IsBalanced b s ps
      → ((has_capacity usize_max b s bytes ≡ true)
          ↔ ((length ps < b.max_requests) × (total ps + bytes ≤ b.max_bytes)))
        × ((has_capacity usize_max b s bytes ≡ false) ↔ (try_acquire usize_max b s bytes ≡ none))
  unfolding has_capacity try_acquire
  try_acquire_grants s ps bytes k h = ground arith
