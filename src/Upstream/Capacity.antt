-- ===== src/Upstream/Capacity.antt =====
-- What a pool gives out, and that it never holds more than it may.
use tg_ws_keenetic.Base.{
  ℕ, ◌+◌, ◌-◌, ◌≤◌, ◌<◌, ◌≡◌, refl, sym, ap, inl, inr, Bool, true, false, ◌&&◌, Option, none, some,
  List, [], ◌∷◌, ◌++◌, arith, ◌==◌, if◌then◌else◌, ltb→lt, Bool-cases, and-true, length, All,
  Result, ok, err,
}
use mathlib.Core.Path.{subst}
use mathlib.Core.Path.{subst}
use tg_ws_keenetic.Upstream.Pools.{
  PoolKind, pool_max_age, Idle, Bucket, new_bucket, is_fresh, take_idle, take_pool, capacity,
  retain_fresh, look_at, dial_ended,
}

abbrev pub Unusable : PoolKind → ℕ → (ℕ → Bool) → Idle → Type 0
Unusable kind now healthy item = (is_fresh kind now item && healthy item.socket) ≡ false

-- What was taken of the sockets, the youngest of which comes first.
abbrev pub Taken : PoolKind → ℕ → (ℕ → Bool) → List Idle → Option Idle → List Idle → Type 0
Taken kind now healthy items none rest = All (Unusable kind now healthy) items × (rest ≡ [])
Taken kind now healthy items (some item) rest =
    (skipped : List Idle) × (items ≡ skipped ++ (item ∷ rest))
    × All (Unusable kind now healthy) skipped
    × (now - item.created < pool_max_age kind)
    × (healthy item.socket ≡ true)

take_idle-Taken :
    (kind : PoolKind) (now : ℕ) (healthy : ℕ → Bool) (items : List Idle)
    → Taken kind now healthy items
        (take_idle kind now healthy items).0
        (take_idle kind now healthy items).1
unfolding take_idle
take_idle-Taken kind now healthy [] = (tt, refl)
take_idle-Taken kind now healthy (item ∷ items) =
    elim (Bool-cases (is_fresh kind now item && healthy item.socket)) [
      | inl t ↦
          let (fresh, good) = and-true _ _ t in
          simp t ([], refl, tt, ltb→lt (now - item.created) (pool_max_age kind) fresh, good)
      | inr f ↦ simp f (
          more f (take_idle kind now healthy items).0 (take_idle kind now healthy items).1
            (take_idle-Taken kind now healthy items))
    ]
  where
    more :
        (is_fresh kind now item && healthy item.socket) ≡ false
        → (found : Option Idle) (rest : List Idle) → Taken kind now healthy items found rest
        → Taken kind now healthy (item ∷ items) found rest
    more f none rest (unusable, e) = ((f, unusable), e)
    more f (some x) rest (skipped, e, unusable, fresh, good) =
        (item ∷ skipped, ap (λ l. item ∷ l) e, (f, unusable), fresh, good)

-- Where pools are in use, a pool gives out its youngest socket that is young enough and healthy,
-- drops those before it, which are not, and asks to be refilled; or no socket of it is, and it is
-- left empty.
pub take_pool-Taken :
    (kind : PoolKind) (pool_size now : ℕ) (healthy : ℕ → Bool) (b : Bucket)
    → 0 < pool_size
    → Taken kind now healthy b.idle
        (take_pool kind pool_size now healthy b).0
        (Bucket.idle (take_pool kind pool_size now healthy b).2)
      × (Bucket.refill_requested (take_pool kind pool_size now healthy b).2 ≡ true)
unfolding take_pool
take_pool-Taken kind pool_size now healthy b h =
    let used : (pool_size == 0) ≡ false = ground arith in
    simp used (take_idle-Taken kind now healthy b.idle, refl)

take_idle-length :
    (kind : PoolKind) (now : ℕ) (healthy : ℕ → Bool) (items : List Idle)
    → length (take_idle kind now healthy items).1 ≤ length items
unfolding take_idle
take_idle-length kind now healthy [] = omega arith
take_idle-length kind now healthy (item ∷ items) =
    ground (arith, take_idle-length kind now healthy items)

retain_fresh-length :
    (kind : PoolKind) (now : ℕ) (items : List Idle)
    → length (retain_fresh kind now items) ≤ length items
retain_fresh-length kind now [] = omega arith
retain_fresh-length kind now (item ∷ items) = ground (arith, retain_fresh-length kind now items)

-- The operations on a bucket, with whether the one maintainer dials for it.
pub data Step (kind : PoolKind) (pool_size : ℕ) : Bucket → Bool → Bucket → Bool → Type 0 where
  takes :
      (b b' : Bucket) (dialling : Bool) (now : ℕ) (healthy : ℕ → Bool)
      → b' ≡ (take_pool kind pool_size now healthy b).2
      → Step kind pool_size b dialling b' dialling
  looks :
      (b b' : Bucket) (now : ℕ) (needed : Bool)
      → look_at kind pool_size now b ≡ (needed, b')
      → Step kind pool_size b false b' needed
  ends :
      (b b' : Bucket) (now : ℕ) (result : Result ℕ)
      → b' ≡ dial_ended now result b
      → Step kind pool_size b true b' false

pub data Reachable (kind : PoolKind) (pool_size : ℕ) : Bucket → Bool → Type 0 where
  begins : (b : Bucket) → b ≡ new_bucket → Reachable kind pool_size b false
  then_step :
      (b b' : Bucket) (dialling dialling' : Bool)
      → Reachable kind pool_size b dialling
      → Step kind pool_size b dialling b' dialling'
      → Reachable kind pool_size b' dialling'

-- While a socket is dialled there is room for it.
abbrev pub Fits : PoolKind → ℕ → Bucket → Bool → Type 0
Fits kind pool_size b dialling =
    length b.idle + (if dialling then 1 else 0) ≤ capacity kind pool_size

module _ (kind : PoolKind) (pool_size : ℕ) where
  look-Fits :
      (b b' : Bucket) (now : ℕ) (needed : Bool)
      → look_at kind pool_size now b ≡ (needed, b')
      → Fits kind pool_size b false
      → Fits kind pool_size b' needed
  unfolding look_at
  look-Fits b b' now needed e h = ground (arith, retain_fresh-length kind now b.idle)

  ended-Fits :
      (b : Bucket) (now : ℕ) (result : Result ℕ)
      → Fits kind pool_size b true
      → Fits kind pool_size (dial_ended now result b) false
  unfolding dial_ended
  ended-Fits b now (ok socket) h = omega arith
  ended-Fits b now (err k) h = omega arith

  step-Fits :
      (b b' : Bucket) (dialling dialling' : Bool)
      → Step kind pool_size b dialling b' dialling'
      → Fits kind pool_size b dialling
      → Fits kind pool_size b' dialling'
  unfolding take_pool
  step-Fits _ _ _ _ (Step.takes b b' dialling now healthy e) h =
      subst (λ x. Fits kind pool_size x dialling) (sym e)
        (elim (Bool-cases (pool_size == 0)) [
          | inl t ↦ simp t h
          | inr f ↦ simp f (omega (arith, take_idle-length kind now healthy b.idle))
        ])
  step-Fits _ _ _ _ (Step.looks b b' now needed e) h = look-Fits b b' now needed e h
  step-Fits _ _ _ _ (Step.ends b b' now result e) h =
      subst (λ x. Fits kind pool_size x false) (sym e) (ended-Fits b now result h)

  -- Whatever is taken from it and however its dials end, a pool never holds more sockets than its
  -- capacity, the one that is being dialled included.
  pub reachable-Fits :
      (b : Bucket) (dialling : Bool)
      → Reachable kind pool_size b dialling
      → Fits kind pool_size b dialling
  reachable-Fits _ _ (Reachable.begins b e) =
      subst (λ x. Fits kind pool_size x false) (sym e) (omega arith)
  reachable-Fits _ _ (Reachable.then_step b b' dialling dialling' r st) =
      step-Fits b b' dialling dialling' st (reachable-Fits b dialling r)
