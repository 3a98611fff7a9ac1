-- ===== src/H2/Budget.antt =====
-- `Budget` and `BudgetPermit` of `src/cf_h2.rs`: counted slots and bytes that permits hold and give
-- back, and `ReplyCharge`, which charges a process budget and a lane together.
-- `usize_max` is the largest `usize` of the target; the mutexes make each operation one step.
pub mod Ledger
pub mod Charges
mod Runs
use tg_ws_keenetic.Base.{
  ℕ, zero, suc, ◌+◌, ◌-◌, ◌*◌, Bool, true, false, ◌&&◌, ◌||◌, Option, none, some, ltb, leb, not,
  if◌then◌else◌, Result, ok, err, ErrorKind,
}

-- `usize::checked_add`.
abbrev pub checked_add : ℕ → ℕ → ℕ → Option ℕ
checked_add usize_max a b = if leb (a + b) usize_max then some (a + b) else none

-- `checked_add(..).is_some_and(|n| n <= bound)`.
abbrev pub sum_within : ℕ → ℕ → ℕ → ℕ → Bool
sum_within usize_max a b bound = elim (checked_add usize_max a b) [
  | none ↦ false
  | some n ↦ leb n bound
]

pub record BudgetState : Type 0 where
  pub requests : ℕ
  pub bytes : ℕ

pub record Budget : Type 0 where
  pub max_requests : ℕ
  pub max_bytes : ℕ

pub record BudgetPermit : Type 0 where
  pub charged : ℕ

abbrev pub empty : BudgetState
empty = record { requests = 0; bytes = 0 }

module _ (usize_max : ℕ) where
  unfoldable pub has_capacity : Budget → BudgetState → ℕ → Bool
  has_capacity b s bytes =
      ltb s.requests b.max_requests && sum_within usize_max s.bytes bytes b.max_bytes

  unfoldable pub try_acquire : Budget → BudgetState → ℕ → Option (BudgetState × BudgetPermit)
  try_acquire b s bytes =
      if leb b.max_requests s.requests || not (sum_within usize_max s.bytes bytes b.max_bytes)
      then none
      else some (
        record { requests = s.requests + 1; bytes = s.bytes + bytes },
        record { charged = bytes },
      )

  unfoldable pub try_extend_bytes :
      Budget → BudgetState → BudgetPermit → ℕ → Bool × BudgetState × BudgetPermit
  try_extend_bytes b s p bytes =
      if sum_within usize_max s.bytes bytes b.max_bytes
      then (true, record s { bytes = s.bytes + bytes }, record { charged = p.charged + bytes })
      else (false, s, p)

-- The saturating subtractions are those of ℕ.
unfoldable pub shrink_bytes : BudgetState → BudgetPermit → ℕ → BudgetState × BudgetPermit
shrink_bytes s p bytes =
    (record s { bytes = s.bytes - bytes }, record { charged = p.charged - bytes })

-- `Drop for BudgetPermit`.
unfoldable pub release : BudgetState → BudgetPermit → BudgetState
release s p = record { requests = s.requests - 1; bytes = s.bytes - p.charged }

-- `MAX_LANE_REPLY_BYTES`.
abbrev pub max_lane_reply_bytes : ℕ
max_lane_reply_bytes = 32 * 1024 * 1024

-- A `ReplyCharge` with the process budget and the lane's total that it is charged to.
pub record Charged : Type 0 where
  pub global : BudgetState
  pub permit : BudgetPermit
  pub lane_reply_bytes : ℕ
  pub own : ℕ

unfoldable pub charge_lane :
    ℕ → ℕ → Charged → Bool × BudgetState × BudgetPermit → Result (Unit {0}) × Charged
unfolding shrink_bytes
charge_lane usize_max bytes c (false, s, p) = (err ErrorKind.other, c)
charge_lane usize_max bytes c (true, s, p) =
    let (s', p') = shrink_bytes s p bytes in
    if not (sum_within usize_max c.lane_reply_bytes bytes max_lane_reply_bytes)
    then (err ErrorKind.other, record c { global = s'; permit = p' })
    else (
      ok tt,
      record {
        global = s;
        permit = p;
        lane_reply_bytes = c.lane_reply_bytes + bytes;
        own = c.own + bytes;
      },
    )

-- `ReplyCharge::try_extend`.
unfoldable pub try_extend : ℕ → Budget → ℕ → Charged → Result (Unit {0}) × Charged
unfolding charge_lane try_extend_bytes
try_extend usize_max b bytes c =
    charge_lane usize_max bytes c (try_extend_bytes usize_max b c.global c.permit bytes)

-- `Drop for ReplyCharge`, after which its permit is dropped.
unfoldable pub drop_charge : Charged → BudgetState × ℕ
unfolding release
drop_charge c = (release c.global c.permit, c.lane_reply_bytes - c.own)

-- The three budgets that a request is charged to: the channel's, the lane's, the process's.
pub record Budgets : Type 0 where
  pub channel : BudgetState
  pub lane : BudgetState
  pub process : BudgetState

pub record Limits : Type 0 where
  pub of_channel : Budget
  pub of_lane : Budget
  pub of_process : Budget

pub record RequestCapacity : Type 0 where
  pub channel_permit : BudgetPermit
  pub lane_permit : BudgetPermit
  pub process_permit : BudgetPermit

abbrev pub Reservation : Type 0
Reservation = Option RequestCapacity × Budgets

-- What `try_replay` acquires before it launches: a return drops the permits held so far.
unfoldable pub after_process :
    Budgets → BudgetPermit → BudgetPermit → Option (BudgetState × BudgetPermit) → Reservation
unfolding release
after_process b channel lane none =
    (none, record b { channel = release b.channel channel; lane = release b.lane lane })
after_process b channel lane (some (s, p)) = (
  some (record { channel_permit = channel; lane_permit = lane; process_permit = p }),
  record b { process = s },
)

unfoldable pub after_lane :
    ℕ → Limits → ℕ → Budgets → BudgetPermit → Option (BudgetState × BudgetPermit) → Reservation
unfolding after_process release try_acquire
after_lane usize_max l bytes b channel none =
    (none, record b { channel = release b.channel channel })
after_lane usize_max l bytes b channel (some (s, p)) =
    after_process (record b { lane = s }) channel p
      (try_acquire usize_max l.of_process b.process bytes)

unfoldable pub after_channel :
    ℕ → Limits → ℕ → Budgets → Option (BudgetState × BudgetPermit) → Reservation
unfolding after_lane try_acquire
after_channel usize_max l bytes b none = (none, b)
after_channel usize_max l bytes b (some (s, p)) =
    after_lane usize_max l bytes (record b { channel = s }) p
      (try_acquire usize_max l.of_lane b.lane bytes)

unfoldable pub try_reserve : ℕ → Limits → ℕ → Budgets → Reservation
unfolding after_channel try_acquire
try_reserve usize_max l bytes b =
    after_channel usize_max l bytes b (try_acquire usize_max l.of_channel b.channel bytes)

-- A `RequestGuard` that is dropped gives its three permits back.
unfoldable pub give_back : Budgets → RequestCapacity → Budgets
unfolding release
give_back b c = record {
  channel = release b.channel c.channel_permit;
  lane = release b.lane c.lane_permit;
  process = release b.process c.process_permit;
}
