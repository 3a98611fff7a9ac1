-- ===== src/Proxy/Admission.antt =====
-- `normalize_dc`, and the cache of `initial` that lets a ClientHello in only once.
-- Times are milliseconds of one clock.
use tg_ws_keenetic.Base.{
  ℕ, ◌+◌, ◌-◌, Bool, true, false, not, ◌&&◌, ◌||◌, Option, none, some, List, [], ◌∷◌, ltb, leb,
  ◌==◌, if◌then◌else◌, length, Result, ok, err, ErrorKind,
}
use tg_ws_keenetic.Base.Int.{ℤ, pos, negsuc}
use tg_ws_keenetic.Base.Bytes.{Bytes, bytes_eq}

-- `checked_abs`: `none` for `i16::MIN`.
abbrev pub checked_abs : ℤ → Option ℕ
checked_abs (pos n) = some n
checked_abs (negsuc n) = if n == 32767 then none else some (n + 1)

abbrev pub is_negative : ℤ → Bool
is_negative (pos n) = false
is_negative (negsuc n) = true

unfoldable pub supported : ℕ → Bool → Bool → Result (ℕ × Bool × Bool)
supported unsigned media force_test =
    let test = leb 10000 unsigned || force_test in
    let dc = if leb 10000 unsigned then unsigned - 10000 else unsigned in
    if not ((leb 1 dc && leb dc 5) || (dc == 203)) || (test && not (leb 1 dc && leb dc 3))
    then err ErrorKind.invalid_data
    else ok (dc, media, test)

unfoldable pub normalize_dc : ℤ → Bool → Result (ℕ × Bool × Bool)
unfolding supported
normalize_dc index force_test = elim (checked_abs index) [
  | none ↦ err ErrorKind.invalid_data
  | some unsigned ↦ supported unsigned (is_negative index) force_test
]

-- The cache, `BTreeMap<[u8; 32], Instant>`, in any order.
abbrev pub ReplayCache : Type 0
ReplayCache = List (Bytes × ℕ)

abbrev pub replay_span : ℕ
replay_span = 300000

abbrev pub contains_key : Bytes → ReplayCache → Bool
contains_key random [] = false
contains_key random ((key, when) ∷ cache) =
    if bytes_eq key random then true else contains_key random cache

-- `retain(|_, when| when.elapsed() < 300 s)`.
abbrev pub recent : ℕ → ReplayCache → ReplayCache
recent now [] = []
recent now ((key, when) ∷ cache) =
    if ltb (now - when) replay_span then (key, when) ∷ recent now cache else recent now cache

-- What `initial` does with the random of a verified ClientHello.
unfoldable pub admit : ℕ → Bytes → ReplayCache → Result (Unit {0}) × ReplayCache
admit now random cache =
    let kept = recent now cache in
    if contains_key random kept
    then (err ErrorKind.invalid_data, kept)
    else if leb 4096 (length kept)
    then (err ErrorKind.invalid_data, kept)
    else (ok tt, (random, now) ∷ kept)
