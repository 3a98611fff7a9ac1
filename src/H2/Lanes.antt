-- ===== src/H2/Lanes.antt =====
-- `Lane` of `src/cf_h2.rs`: the generations of one HTTP/2 connection, the streams admitted to them
-- and how a connection is given up, and `ActiveRequestGuard`.
-- A lock's guarded block is one step. Senders and driver tasks are numbers; what other tasks do
-- while one waits is a function of the lane. `usize_max` is the largest `usize`.
pub mod Connect
pub mod Accounts
pub mod Requests
pub mod Kept
pub mod Reached
pub mod Retirement
mod Runs
use tg_ws_keenetic.Base.{
  ℕ, zero, suc, ◌+◌, ◌-◌, ◌*◌, Bool, true, false, not, ◌&&◌, Option, none, some, List, [], ◌∷◌,
  ◌++◌, leb, ◌==◌, if◌then◌else◌,
}
use tg_ws_keenetic.Base.Maps.{retain}
use tg_ws_keenetic.H2.Channel.State.{is_some, is_some_and, is_empty}

-- `HashMap<usize, usize>` and `BTreeSet<usize>`, of which only single keys are asked for.
abbrev pub Counts : Type 0
Counts = ℕ → Option ℕ

abbrev pub Marks : Type 0
Marks = ℕ → Bool

abbrev pub put {ℓ} : {A : Type ℓ} → ℕ → A → (ℕ → A) → ℕ → A
put k a f j = if j == k then a else f j

abbrev pub count_or_zero : Option ℕ → ℕ
count_or_zero none = 0
count_or_zero (some n) = n

-- `DOMAIN_COOLDOWN`, in milliseconds.
abbrev pub domain_cooldown : ℕ
domain_cooldown = 30 * 1000

-- The parts of `Lane` behind `connection`, `active_requests` and the other locks; `aborted` are the
-- tasks that were told to stop.
pub record Lane : Type 0 where
  pub closed : Bool
  pub failed_until : Option ℕ
  pub generation : ℕ
  pub sender : Option ℕ
  pub driver : Option ℕ
  pub retired_drivers : List ℕ
  pub channels : List ℕ
  pub request_tasks : List ℕ
  pub counts : Counts
  pub invalidate_when_idle : Marks
  pub aborted : List ℕ

unfoldable pub new_lane : Lane
new_lane = record {
  closed = false;
  failed_until = none;
  generation = 0;
  sender = none;
  driver = none;
  retired_drivers = [];
  channels = [];
  request_tasks = [];
  counts = λ _. none;
  invalidate_when_idle = λ _. false;
  aborted = [];
}

-- `available`, which forgets a cool-down that is over.
unfoldable pub available : ℕ → Lane → Bool × Lane
available now l =
    if l.closed
    then (false, l)
    else if is_some_and (λ until. leb until now) l.failed_until
    then (true, record l { failed_until = none })
    else (not (is_some l.failed_until), l)

unfoldable pub cool_down : ℕ → Lane → Lane
cool_down now l = record l { failed_until = some (now + domain_cooldown) }

module _ (is_finished : ℕ → Bool) where
  unfoldable pub retain_driver : ℕ → Lane → Lane
  retain_driver driver l = record l {
    retired_drivers = retain (λ task. not (is_finished task)) l.retired_drivers ++ (driver ∷ []);
  }

  -- `if let Some(driver) = state.driver.take()`.
  unfoldable pub stop_driver : Option ℕ → Lane → Lane
  unfolding retain_driver
  stop_driver none l = l
  stop_driver (some driver) l =
      retain_driver driver (record l { driver = none; aborted = l.aborted ++ (driver ∷ []) })

  unfoldable pub invalidate_connection : ℕ → Lane → Lane
  unfolding stop_driver
  invalidate_connection generation l =
      if l.generation == generation then stop_driver l.driver (record l { sender = none }) else l

  unfoldable pub invalidate_connection_if_idle : ℕ → Lane → Bool × Lane
  unfolding invalidate_connection
  invalidate_connection_if_idle generation l =
      if not (count_or_zero (l.counts generation) == 0)
      then (false, record l { invalidate_when_idle = put generation true l.invalidate_when_idle })
      else (
        true,
        invalidate_connection generation
            (record l { invalidate_when_idle = put generation false l.invalidate_when_idle }),
      )

  -- `Drop for ActiveRequestGuard` on a lane that is still there, by the count that it leaves.
  unfoldable pub leave_count : ℕ → ℕ → Lane → Lane
  unfolding invalidate_connection
  leave_count generation (suc count) l = record l {
    counts = put generation (some (suc count)) l.counts;
  }
  leave_count generation zero l =
      if l.invalidate_when_idle generation
      then invalidate_connection generation (record l {
        counts = put generation none l.counts;
        invalidate_when_idle = put generation false l.invalidate_when_idle;
      })
      else record l { counts = put generation none l.counts }

  unfoldable pub drop_counted : ℕ → Option ℕ → Lane → Lane
  unfolding leave_count
  drop_counted generation none l = l
  drop_counted generation (some count) l = leave_count generation (count - 1) l

  unfoldable pub drop_guard : ℕ → Lane → Lane
  unfolding drop_counted
  drop_guard generation l = drop_counted generation (l.counts generation) l

unfoldable pub connection_finished : ℕ → Lane → Lane
connection_finished generation l =
    if l.generation == generation then record l { sender = none } else l

-- What one round of `start_request` comes to, once `ready_sender` has answered a sender of a
-- generation; `submitted` is the answer of `send_request`.
pub data Admission : Type 0 where
  admitted refused waits again : Admission

unfoldable pub admit_request : Bool → ℕ → Lane → Admission × Lane
admit_request submitted generation l =
    if l.invalidate_when_idle generation
    then (waits, l)
    else if not ((l.generation == generation) && is_some l.sender)
    then (again, l)
    else if not submitted
    then (refused, l)
    else (
      admitted,
      record l {
        counts = put generation (some (count_or_zero (l.counts generation) + 1)) l.counts;
      },
    )

abbrev pub listed : Option ℕ → List ℕ
listed none = []
listed (some task) = task ∷ []

module _ (is_alive : ℕ → Bool) where
  -- `abort`, with the channels that it fails.
  unfoldable pub abort : Lane → Lane × List ℕ
  abort l =
      let alive = retain is_alive l.channels in
      (
        record l {
          closed = true;
          sender = none;
          channels = alive;
          aborted = l.aborted ++ (listed l.driver ++ (l.retired_drivers ++ l.request_tasks));
        },
        alive,
      )

  -- `start_close`, with the tasks that its caller is to wait for.
  unfoldable pub start_close : Lane → Lane × List ℕ
  unfolding abort
  start_close l =
      let (stopped, failed) = abort l in
      (
        record stopped { driver = none; retired_drivers = []; channels = []; request_tasks = [] },
        listed stopped.driver ++ (stopped.retired_drivers ++ stopped.request_tasks),
      )

-- `reap_if_quiescent`, one lock after the other.
module _ (is_alive is_finished : ℕ → Bool) where
  unfoldable pub reap_requests : Lane → Bool × Lane
  reap_requests l =
      let running = retain (λ task. not (is_finished task)) l.request_tasks in
      (is_empty running, record l { request_tasks = running })

  unfoldable pub reap_drivers : Lane → Bool × Lane
  unfolding reap_requests
  reap_drivers l =
      let running = retain (λ task. not (is_finished task)) l.retired_drivers in
      let next = reap_requests (record l { retired_drivers = running }) in
      if not (is_empty running) then (false, record l { retired_drivers = running }) else next

  unfoldable pub reap_driver : Lane → Bool × Lane
  unfolding reap_drivers
  reap_driver l =
      if is_some_and (λ task. not (is_finished task)) l.driver
      then (false, l)
      else reap_drivers (record l { driver = none })

  unfoldable pub reap_if_quiescent : Lane → Bool × Lane
  unfolding reap_driver
  reap_if_quiescent l =
      if not l.closed
      then (false, l)
      else if not (is_empty (retain is_alive l.channels))
      then (false, record l { channels = retain is_alive l.channels })
      else reap_driver (record l { channels = [] })
