-- ===== src/Upstream/Pools.antt =====
-- The pools of prepared sockets: `take_pool`, `request_refill` and a bucket's turn in `maintain`.
-- Times are milliseconds. The end of the `Vec` of idle sockets is the front of the list; whether a
-- socket is healthy, and the result of a dial, are arguments.
use tg_ws_keenetic.Base.{
  ℕ, ◌+◌, ◌-◌, ◌*◌, ◌^◌, min, Bool, true, false, not, ◌&&◌, ◌||◌, Option, none, some, List, [], ◌∷◌,
  ltb, leb, ◌==◌, if◌then◌else◌, length, Result, ok, err,
}
use tg_ws_keenetic.Upstream.Routes.{refill_backoff}

pub data PoolKind : Type 0 where
  direct worker : PoolKind

abbrev pub pool_max_age : PoolKind → ℕ
pool_max_age PoolKind.direct = 120000
pool_max_age PoolKind.worker = 100000

pub record Idle : Type 0 where
  pub socket : ℕ
  pub created : ℕ

pub record Bucket : Type 0 where
  pub idle : List Idle
  pub failures : ℕ
  pub retry : Option ℕ
  pub refill_requested : Bool

abbrev pub new_bucket : Bucket
new_bucket = record { idle = []; failures = 0; retry = none; refill_requested = false }

abbrev pub is_fresh : PoolKind → ℕ → Idle → Bool
is_fresh kind now item = ltb (now - item.created) (pool_max_age kind)

-- The loop of `take_pool`: sockets are dropped until one serves.
unfoldable pub take_idle : PoolKind → ℕ → (ℕ → Bool) → List Idle → Option Idle × List Idle
take_idle kind now healthy [] = (none, [])
take_idle kind now healthy (item ∷ items) =
    let rest = take_idle kind now healthy items in
    if is_fresh kind now item && healthy item.socket then (some item, items) else rest

-- Whether the maintainer is woken.
unfoldable pub request_refill : Bucket → Bool × Bucket
request_refill b = (not b.refill_requested, record b { refill_requested = true })

-- `take_pool` on the key's bucket.
unfoldable pub take_pool : PoolKind → ℕ → ℕ → (ℕ → Bool) → Bucket → Option Idle × Bool × Bucket
unfolding take_idle request_refill
take_pool kind pool_size now healthy b =
    let (found, rest) = take_idle kind now healthy b.idle in
    let (woken, b') = request_refill (record b { idle = rest }) in
    if pool_size == 0 then (none, false, b) else (found, woken, b')

abbrev pub capacity : PoolKind → ℕ → ℕ
capacity PoolKind.direct pool_size = pool_size
capacity PoolKind.worker pool_size = 1

abbrev pub retain_fresh : PoolKind → ℕ → List Idle → List Idle
retain_fresh kind now [] = []
retain_fresh kind now (item ∷ items) =
    if is_fresh kind now item
    then item ∷ retain_fresh kind now items
    else retain_fresh kind now items

abbrev pub is_due : ℕ → Option ℕ → Bool
is_due now none = true
is_due now (some retry) = leb retry now

-- The bucket's turn: whether a socket is dialled for it.
unfoldable pub look_at : PoolKind → ℕ → ℕ → Bucket → Bool × Bucket
look_at kind pool_size now b =
    let idle = retain_fresh kind now b.idle in
    let missing = ltb (length idle) (capacity kind pool_size) in
    let needed = missing && is_due now b.retry in
    (
      needed,
      record b {
        idle = idle;
        refill_requested = if not missing || needed then false else b.refill_requested;
      },
    )

-- The dial has ended.
unfoldable pub dial_ended : ℕ → Result ℕ → Bucket → Bucket
dial_ended now (ok socket) b = record b {
  idle = record { socket = socket; created = now } ∷ b.idle;
  failures = 0;
  retry = none;
}
dial_ended now (err kind) b =
    let failures = min (b.failures + 1) (2 ^ 32 - 1) in
    record b { failures = failures; retry = some (now + refill_backoff failures * 1000) }
