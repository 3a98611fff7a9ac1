-- ===== src/Upstream/Domains/Preferred.antt =====
-- The order of the domains, and what the routes over them find.
use tg_ws_keenetic.Base.{
  ℕ, ◌+◌, ◌*◌, ◌≤◌, ◌<◌, ◌≡◌, refl, ap, ◌∙◌, ◌⊎◌, inl, inr, true, false, Option, none, some, List,
  [], ◌∷◌, arith, ==_iff, if◌then◌else◌, Bool-cases, some_inj, lt→ltb,
}
use tg_ws_keenetic.Base.Bytes.{bytes_eq, bytes_eq→eq, bytes_eq_refl}
use tg_ws_keenetic.Config.{Text, Config}
use tg_ws_keenetic.Upstream.Attempts.{later_than}
use tg_ws_keenetic.Upstream.Direct.{WsDial}
use tg_ws_keenetic.Upstream.Domains.{
  Domains, put, BaseAttempt, Answer, with_preferred, domains_for, after_attempt, try_bases,
  count_error, CfDial, cf_attempt, cf_route, H2Open, h2_cool_down, h2_attempt, after_domains,
  forget_wait, h2_route,
}
use tg_ws_keenetic.Upstream.Domains.Orders.{count, Permutes, is_some_text, count-with_preferred}

-- What a route over these names finds.
abbrev pub Finds : (Text → BaseAttempt) → ℕ → List Text → Answer → Type 0
Finds opens dc bases (none, s) = (x : Text) → 1 ≤ count x bases → (opens x).opened ≡ none
Finds opens dc bases (some socket, s) =
    (base : Text) × (1 ≤ count base bases)
    × ((opens base).opened ≡ some socket)
    × (s.preferred dc ≡ some base)

put_at {ℓ} : {A : Type ℓ} (dc : ℕ) (a : A) (f : ℕ → A) → put dc a f dc ≡ a
put_at dc a f = simp ((==_iff dc dc).1 refl) refl

module _ (opens : Text → BaseAttempt) (failed : Domains → Domains) (dc : ℕ) where
  count-first : (base : Text) (bases : List Text) → 1 ≤ count base (base ∷ bases)
  count-first base bases = ground (arith, bytes_eq_refl base)

  count-more : (x base : Text) (bases : List Text) → 1 ≤ count x bases → 1 ≤ count x (base ∷ bases)
  count-more x base bases h = ground (arith, h)

  Finds-more :
      (base : Text) (bases : List Text) (a : Answer)
      → (opens base).opened ≡ none
      → Finds opens dc bases a
      → Finds opens dc (base ∷ bases) a
  Finds-more base bases (none, s) e finds = λ x there. elim (Bool-cases (bytes_eq x base)) [
    | inl same ↦ ap (λ t. (opens t).opened) (bytes_eq→eq x base same) ∙ e
    | inr other ↦ finds x (ground (arith, there))
  ]
  Finds-more base bases (some socket, s) e (found, there, opened, kept) =
      (found, count-more found base bases there, opened, kept)

  after_attempt-Finds :
      (base : Text) (bases : List Text) (found : Option ℕ) (next : Domains → Answer) (s : Domains)
      → (opens base).opened ≡ found
      → ((s : Domains) → Finds opens dc bases (next s))
      → Finds opens dc (base ∷ bases) (after_attempt opens failed dc base found next s)
  unfolding after_attempt
  after_attempt-Finds base bases none next s e go =
      Finds-more base bases (next (failed s)) e (go (failed s))
  after_attempt-Finds base bases (some socket) next s e go =
      (base, count-first base bases, e, put_at dc (some base) s.preferred)

  try_bases-Finds :
      (bases : List Text) (s : Domains) → Finds opens dc bases (try_bases opens failed dc bases s)
  unfolding try_bases
  try_bases-Finds [] s = λ x there. absurd (omega (arith, there))
  try_bases-Finds (base ∷ bases) s =
      after_attempt-Finds base bases (opens base).opened (λ s. try_bases opens failed dc bases s)
        ((opens base).others s) refl (λ s. try_bases-Finds bases s)

abbrev pub first : List Text → Option Text
first [] = none
first (x ∷ xs) = some x

with_preferred-first :
    (shuffle : List Text → List Text) (domains : List Text) (active : Option Text) (base : Text)
    → active ≡ some base
    → first (with_preferred shuffle domains active) ≡ some base
unfolding with_preferred
with_preferred-first shuffle domains none base e = absurd (cc)
with_preferred-first shuffle domains (some active) base e = e

module _ (shuffle : List Text → List Text) (permutes : Permutes shuffle) where
  -- A name is the preferred one, or one of the list.
  abbrev pub Known : ℕ → Domains → Text → Type 0
  Known dc s x = (is_some_text x (s.preferred dc) ≡ true) ⊎ (1 ≤ count x s.domains)

  abbrev pub Settles : (Text → BaseAttempt) → ℕ → Domains → Answer → Type 0
  Settles opens dc s (none, s') = (x : Text) → Known dc s x → (opens x).opened ≡ none
  Settles opens dc s (some socket, s') =
      (base : Text) × Known dc s base
      × ((opens base).opened ≡ some socket)
      × (first (domains_for shuffle dc s') ≡ some base)

  -- The preferred name is tried once, and any other as often as the list has it.
  count-domains_for :
      (dc : ℕ) (s : Domains) (x : Text)
      → count x (domains_for shuffle dc s)
        ≡ (if is_some_text x (s.preferred dc) then 1 else count x s.domains)
  unfolding domains_for
  count-domains_for dc s x = count-with_preferred shuffle x s.domains (s.preferred dc) permutes

  Known→count :
      (dc : ℕ) (s : Domains) (x : Text) → Known dc s x → 1 ≤ count x (domains_for shuffle dc s)
  Known→count dc s x known = ground (arith, known, count-domains_for dc s x)

  count→Known :
      (dc : ℕ) (s : Domains) (x : Text) → 1 ≤ count x (domains_for shuffle dc s) → Known dc s x
  count→Known dc s x there =
      let e = count-domains_for dc s x in
      elim (Bool-cases (is_some_text x (s.preferred dc))) [
        | inl preferred ↦ inl preferred
        | inr other ↦ inr (ground (arith, there, e, other))
      ]

  Finds→Settles :
      (opens : Text → BaseAttempt) (dc : ℕ) (s : Domains) (a : Answer)
      → Finds opens dc (domains_for shuffle dc s) a
      → Settles opens dc s a
  unfolding domains_for
  Finds→Settles opens dc s (none, s') finds = λ x known. finds x (Known→count dc s x known)
  Finds→Settles opens dc s (some socket, s') (base, there, opened, kept) = (
    base,
    count→Known dc s base there,
    opened,
    with_preferred-first shuffle s'.domains (s'.preferred dc) base kept,
  )

-- Where shuffling permutes a list: the route over Cloudflare's domains fails only when the dial of
-- the preferred name and of every name of the list fails; a socket that it gives is from the dial
-- of one of these, and this name is the first that the next route to the data centre tries.
pub cf_route-Settles :
    (shuffle : List Text → List Text) (permutes : Permutes shuffle) (config : Config)
    (ws : WsDial → CfDial) (dc : ℕ) (s : Domains)
    → Settles shuffle permutes (cf_attempt config ws dc) dc s (cf_route config shuffle ws dc s)
unfolding cf_route
cf_route-Settles shuffle permutes config ws dc s =
    let opens = cf_attempt config ws dc in
    let bases = domains_for shuffle dc s in
    Finds→Settles shuffle permutes opens dc s (try_bases opens count_error dc bases s)
      (try_bases-Finds opens count_error dc bases s)

-- The next attempt is refused until 30 seconds are over, and changes nothing.
abbrev pub Waits : (List Text → List Text) → (Text → H2Open) → ℕ → ℕ → Answer → Type 0
Waits shuffle opens dc ended (some channel, s) = Unit
Waits shuffle opens dc ended (none, s) =
    (now later : ℕ)
    → now < ended + 30 * 1000
    → h2_route shuffle (some opens) dc now later s ≡ (none, s)

later_than-some :
    (now until : ℕ) (o : Option ℕ) → o ≡ some until → now < until → later_than now o ≡ true
later_than-some now until none e h = absurd (cc)
later_than-some now until (some u) e h = ground (arith, lt→ltb now until h, some_inj e)

module _ (shuffle : List Text → List Text) (permutes : Permutes shuffle) (opens : Text → H2Open)
    (dc ended : ℕ) where
  after_domains-Settles :
      (s : Domains) (a : Answer)
      → Settles shuffle permutes (h2_attempt opens dc) dc s a
      → Settles shuffle permutes (h2_attempt opens dc) dc s (after_domains dc ended a)
  unfolding after_domains
  after_domains-Settles s (none, s') h = h
  after_domains-Settles s (some channel, s') h = h

  after_domains-Waits : (a : Answer) → Waits shuffle opens dc ended (after_domains dc ended a)
  unfolding after_domains h2_route h2_cool_down
  after_domains-Waits (some channel, s) = tt
  after_domains-Waits (none, s) = λ now later early.
      let e = put_at dc (some (ended + 30 * 1000)) s.h2_retry_after in
      simp
        (later_than-some now (ended + 30 * 1000)
          (put dc (some (ended + 30 * 1000)) s.h2_retry_after dc) e early)
        refl

-- Where shuffling permutes a list, and no waiting time of the data centre forbids it: the route over
-- HTTP/2 fails only when no channel is opened to the preferred name nor to any name of the list,
-- and is then refused for 30 seconds; a channel that it gives is to one of these names, and this
-- name is the first that the next route to the data centre tries.
pub h2_route-Settles :
    (shuffle : List Text → List Text) (permutes : Permutes shuffle) (opens : Text → H2Open)
    (dc now ended : ℕ) (s : Domains)
    → later_than now (s.h2_retry_after dc) ≡ false
    → Settles shuffle permutes
        (h2_attempt opens dc)
        dc
        s
        (h2_route shuffle (some opens) dc now ended s)
      × Waits shuffle opens dc ended (h2_route shuffle (some opens) dc now ended s)
unfolding h2_route
h2_route-Settles shuffle permutes opens dc now ended s free =
    let attempt = h2_attempt opens dc in
    let s' = forget_wait dc s in
    let bases = domains_for shuffle dc s' in
    let a = try_bases attempt (λ s. s) dc bases s' in
    let found =
      Finds→Settles shuffle permutes attempt dc s' a
        (try_bases-Finds attempt (λ s. s) dc bases s') in
    rw free (
      after_domains-Settles shuffle permutes opens dc ended s a found,
      after_domains-Waits shuffle permutes opens dc ended a,
    )
