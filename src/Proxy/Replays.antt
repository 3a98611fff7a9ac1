-- ===== src/Proxy/Replays.antt =====
-- A ClientHello is let in once in five minutes.
use tg_ws_keenetic.Base.{
  ℕ, ◌+◌, ◌-◌, ◌≤◌, ◌<◌, ◌≡◌, refl, sym, ap, ◌∙◌, ◌⊎◌, inl, inr, true, List, [], ◌∷◌, arith, ltb,
  leb, Bool-cases, length, All, ok, err, ErrorKind,
}
use tg_ws_keenetic.Base.Bytes.{Bytes, bytes_eq, bytes_eq_refl}
use tg_ws_keenetic.Proxy.Admission.{ReplayCache, replay_span, contains_key, recent, admit}

-- The cache after the randoms of more hellos, with the times at which they come.
unfoldable pub admit_all : List (ℕ × Bytes) → ReplayCache → ReplayCache
unfolding admit
admit_all [] cache = cache
admit_all ((now, random) ∷ more) cache = admit_all more (admit now random cache).1

abbrev pub IsWithin : ℕ → ℕ × Bytes → Type 0
IsWithin limit (now, random) = now < limit

-- The random is kept with a time at which it was let in.
abbrev Holds : Bytes → ℕ → ReplayCache → Type 0
Holds random when [] = ⊥
Holds random when ((key, t) ∷ cache) = ((key ≡ random) × (t ≡ when)) ⊎ Holds random when cache

recent-Holds :
    (now : ℕ) (random : Bytes) (when : ℕ) (cache : ReplayCache)
    → now < when + replay_span
    → Holds random when cache
    → Holds random when (recent now cache)
recent-Holds now random when [] l h = h
recent-Holds now random when ((key, t) ∷ cache) l h =
    elim (Bool-cases (ltb (now - t) replay_span)) [
      | inl s ↦
          simp s (elim h [ inl p ↦ inl p | inr k ↦ inr (recent-Holds now random when cache l k) ])
      | inr f ↦ simp f (elim h [
        | inl p ↦ absurd (ground (arith, f, p.1))
        | inr k ↦ recent-Holds now random when cache l k
      ])
    ]

contains_key-Holds :
    (random : Bytes) (when : ℕ) (cache : ReplayCache)
    → Holds random when cache
    → contains_key random cache ≡ true
contains_key-Holds random when [] h = absurd h
contains_key-Holds random when ((key, t) ∷ cache) h = elim (Bool-cases (bytes_eq key random)) [
  | inl s ↦ simp s refl
  | inr f ↦ simp f (elim h [
    | inl p ↦ cc (sym f ∙ ap (λ k. bytes_eq k random) p.0 ∙ bytes_eq_refl random)
    | inr k ↦ contains_key-Holds random when cache k
  ])
]

admit-Holds :
    (now : ℕ) (other random : Bytes) (when : ℕ) (cache : ReplayCache)
    → now < when + replay_span
    → Holds random when cache
    → Holds random when (admit now other cache).1
unfolding admit
admit-Holds now other random when cache l h =
    let kept = recent-Holds now random when cache l h in
    elim (Bool-cases (contains_key other (recent now cache))) [
      | inl s ↦ simp s kept
      | inr f ↦ elim (Bool-cases (leb 4096 (length (recent now cache)))) [
        | inl s ↦ simp (f, s) kept
        | inr g ↦ simp (f, g) (inr kept)
      ]
    ]

admit_all-Holds :
    (more : List (ℕ × Bytes)) (random : Bytes) (when : ℕ) (cache : ReplayCache)
    → All (IsWithin (when + replay_span)) more
    → Holds random when cache
    → Holds random when (admit_all more cache)
unfolding admit_all
admit_all-Holds [] random when cache l h = h
admit_all-Holds ((now, other) ∷ more) random when cache (l, ls) h =
    admit_all-Holds more random when (admit now other cache).1 ls
      (admit-Holds now other random when cache l h)

-- The first time that a random is let in it is kept.
admitted-Holds :
    (when : ℕ) (random : Bytes) (cache : ReplayCache)
    → (admit when random cache).0 ≡ ok tt
    → Holds random when (admit when random cache).1
unfolding admit
admitted-Holds when random cache e = elim (Bool-cases (contains_key random (recent when cache))) [
  | inl s ↦ cc (simp s at e)
  | inr f ↦ elim (Bool-cases (leb 4096 (length (recent when cache)))) [
    | inl s ↦ cc (simp (f, s) at e)
    | inr g ↦ simp (f, g) (inl (refl, refl))
  ]
]

-- A ClientHello's random that was let in is refused when it comes again within 300 seconds, whatever
-- other hellos come in between in that time.
pub admit_once :
    (when now : ℕ) (random : Bytes) (more : List (ℕ × Bytes)) (cache : ReplayCache)
    → (admit when random cache).0 ≡ ok tt
    → All (IsWithin (when + replay_span)) more
    → now < when + replay_span
    → (admit now random (admit_all more (admit when random cache).1)).0 ≡ err ErrorKind.invalid_data
unfolding admit
admit_once when now random more cache e ls l =
    let held =
      admit_all-Holds more random when (admit when random cache).1 ls
        (admitted-Holds when random cache e) in
    let found =
      contains_key-Holds random when _
        (recent-Holds now random when (admit_all more (admit when random cache).1) l held) in
    simp found refl

recent-shorter : (now : ℕ) (cache : ReplayCache) → length (recent now cache) ≤ length cache
recent-shorter now [] = omega arith
recent-shorter now ((key, t) ∷ cache) = ground (arith, recent-shorter now cache)

-- The cache never has more than 4096 entries.
pub admit_bounds :
    (now : ℕ) (random : Bytes) (cache : ReplayCache)
    → length cache ≤ 4096
    → length (admit now random cache).1 ≤ 4096
unfolding admit
admit_bounds now random cache h = ground (arith, recent-shorter now cache)
