-- ===== src/H2/Channel/State.antt =====
-- The state of `ChannelInner` and how it ends: `fail`.
use tg_ws_keenetic.Base.{
  ℕ, ◌*◌, Bool, true, false, Option, none, some, List, [], ◌∷◌, if◌then◌else◌, ErrorKind,
}
use tg_ws_keenetic.Base.Int.{ℤ}
use tg_ws_keenetic.Base.Maps.{keys}
use tg_ws_keenetic.Base.Bytes.{Bytes}
use tg_ws_keenetic.H2.Budget.{BudgetState, BudgetPermit, release}

abbrev pub max_channel_reply_bytes : ℕ
max_channel_reply_bytes = 8 * 1024 * 1024

abbrev pub replay_idle : ℕ
replay_idle = 1000

abbrev pub replay_request : ℕ
replay_request = 3000

abbrev pub replay_retry : ℕ
replay_retry = 2000

abbrev pub replay_max_age : ℕ
replay_max_age = 30000

abbrev pub replay_slot : ℕ
replay_slot = 30000

abbrev pub replay_history_bytes : ℕ
replay_history_bytes = 64 * 1024

abbrev pub replay_history_packets : ℕ
replay_history_packets = 16

abbrev pub replay_max_attempts : ℕ
replay_max_attempts = 3

abbrev pub max_channel_replays : ℕ
max_channel_replays = 2

-- A `ReplyId`, the first 24 bytes of a reply with their number, is the list of these bytes.
abbrev pub ReplyId : Type 0
ReplyId = Bytes

pub record ReplayEntry : Type 0 where
  pub sent_at : ℕ
  pub body : Bytes
  pub sequence : ℕ
  pub attempts : ℕ
  pub last_attempt : Option ℕ
  pub pending : Option ℕ
  pub originals : List ℕ
  pub retired : Bool
  pub reply_id : Option ReplyId
  pub history_permit : BudgetPermit

pub record Pending : Type 0 where
  pub replay : Bool
  pub entry : Option ℕ
  pub sent_at : Option ℕ
  pub receiving : Bool
  pub generation : Option ℕ

pub data Terminal : Type 0 where
  transport : ℤ → Terminal
  error : ErrorKind → Terminal

-- With `closed`, the flag beside the state.
pub record ChannelState : Type 0 where
  pub next_request : ℕ
  pub pending : List (ℕ × Pending)
  pub history : List ReplayEntry
  pub replay_key : Option Bytes
  pub reply_bytes : ℕ
  pub terminal : Option Terminal
  pub last_progress : Option ℕ
  pub delivering : Bool
  pub waiting_upload : Option (ℕ × ℕ)
  pub closed : Bool

abbrev pub is_some {ℓ} : {A : Type ℓ} → Option A → Bool
is_some none = false
is_some (some a) = true

-- `is_some_and`.
abbrev pub is_some_and {ℓ} : {A : Type ℓ} → (A → Bool) → Option A → Bool
is_some_and p none = false
is_some_and p (some a) = p a

abbrev pub is_empty {ℓ} : {A : Type ℓ} → List A → Bool
is_empty [] = true
is_empty (x ∷ xs) = false

unfoldable pub new_channel : ℕ → ChannelState
new_channel now = record {
  next_request = 0;
  pending = [];
  history = [];
  replay_key = none;
  reply_bytes = 0;
  terminal = none;
  last_progress = some now;
  delivering = false;
  waiting_upload = none;
  closed = false;
}

-- The permits of entries that are dropped go back to the process's history budget.
abbrev pub released : List ReplayEntry → BudgetState → BudgetState
released [] shared = shared
released (e ∷ es) shared = released es (release shared e.history_permit)

-- `fail`, with the requests that it aborts.
unfoldable pub fail : Terminal → ChannelState → BudgetState → ChannelState × BudgetState × List ℕ
fail terminal s shared = if s.closed then (s, shared, []) else (
  record s { terminal = some terminal; history = []; waiting_upload = none; closed = true },
  released s.history shared,
  keys s.pending,
)
