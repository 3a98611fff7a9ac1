-- ===== src/H2/Lanes/Connect.antt =====
-- `connect` and `ready_sender` of `src/cf_h2.rs`. The TCP, TLS and HTTP/2 set-up between the two
-- locks is one outcome, a sender with the driver task that was spawned for it; the lane may be
-- changed by other tasks while this one waits for `connect_lock`, for the set-up or for a stream.
use tg_ws_keenetic.Base.{
  ℕ, ◌+◌, ◌%◌, ◌≡◌, refl, ◌∙◌, Bool, false, not, Option, none, some, arith, if◌then◌else◌, either,
  Result, ok, err, ErrorKind,
}
use tg_ws_keenetic.Base.Maps.{retain}
use tg_ws_keenetic.H2.Lanes.{Lane, retain_driver, invalidate_connection}

-- The part of `connect` before and behind `connect_lock`: the sender that is there already.
unfoldable pub current_connection : Lane → Result (Option (ℕ × ℕ))
current_connection l = if l.closed then err ErrorKind.not_connected else ok (paired l.sender)
  where
    paired : Option ℕ → Option (ℕ × ℕ)
    paired none = none
    paired (some sender) = some (sender, l.generation)

-- `if let Some(previous) = state.driver.take()`, which leaves the earlier driver running.
unfoldable pub keep_driver : (ℕ → Bool) → Option ℕ → Lane → Lane
unfolding retain_driver
keep_driver is_finished none l = l
keep_driver is_finished (some previous) l =
    retain_driver is_finished previous (record l { driver = none })

abbrev pub Connected : Type 0
Connected = Result (ℕ × ℕ) × Lane

-- What happens around one `connect`: what others do before `connect_lock` is got and while the
-- connection is set up, and what the set-up comes to.
pub record Dial : Type 0 where
  pub locking : Lane → Lane
  pub setting_up : Lane → Lane
  pub connection : Result (ℕ × ℕ)

-- One round of `ready_sender`: the connect, and whether the sender becomes ready.
pub record Attempt : Type 0 where
  pub dial : Dial
  pub getting_ready : Lane → Lane
  pub ready : Bool

abbrev pub sweep_retired : (ℕ → Bool) → Lane → Lane
sweep_retired is_finished l = record l {
  retired_drivers = retain (λ task. not (is_finished task)) l.retired_drivers;
}

module _ (usize_max : ℕ) (is_finished : ℕ → Bool) where
  unfoldable pub publish : ℕ → ℕ → Lane → Connected
  unfolding keep_driver
  publish sender task l =
      let generation = (l.generation + 1) % (usize_max + 1) in
      let kept = keep_driver is_finished l.driver (record l { generation = generation }) in
      if l.closed
      then (err ErrorKind.not_connected, l)
      else (ok (sender, generation), record kept { sender = some sender; driver = some task })

  unfoldable pub after_set_up : Lane → Result (ℕ × ℕ) → Connected
  unfolding publish
  after_set_up l (err kind) = (err kind, l)
  after_set_up l (ok (sender, task)) = publish sender task l

  unfoldable pub set_up : Dial → Lane → Connected
  unfolding after_set_up
  set_up d l = after_set_up (d.setting_up l) d.connection

  unfoldable pub under_lock : Dial → Result (Option (ℕ × ℕ)) → Lane → Connected
  unfolding set_up
  under_lock d (err kind) l = (err kind, l)
  under_lock d (ok (some pair)) l = (ok pair, l)
  under_lock d (ok none) l = set_up d l

  unfoldable pub before_lock : Dial → Result (Option (ℕ × ℕ)) → Lane → Connected
  unfolding under_lock current_connection
  before_lock d (err kind) l = (err kind, l)
  before_lock d (ok (some pair)) l = (ok pair, l)
  before_lock d (ok none) l =
      let locked = sweep_retired is_finished (d.locking l) in
      under_lock d (current_connection locked) locked

  unfoldable pub connect : Dial → Lane → Connected
  unfolding before_lock current_connection
  connect d l = before_lock d (current_connection l) l

  unfoldable pub last_attempt : Attempt → Connected → Connected
  last_attempt a (err kind, l) = (err kind, l)
  last_attempt a (ok pair, l) =
      if a.ready then (ok pair, a.getting_ready l) else (err ErrorKind.other, a.getting_ready l)

  unfoldable pub first_attempt : Attempt → Attempt → Connected → Connected
  unfolding last_attempt connect invalidate_connection
  first_attempt a b (err kind, l) = (err kind, l)
  first_attempt a b (ok pair, l) =
      let next = connect b.dial (invalidate_connection is_finished pair.1 (a.getting_ready l)) in
      if a.ready then (ok pair, a.getting_ready l) else last_attempt b next

  -- `ready_sender`, which goes round twice at most.
  unfoldable pub ready_sender : Attempt → Attempt → Lane → Connected
  unfolding first_attempt connect
  ready_sender a b l = first_attempt a b (connect a.dial l)

-- A connection was answered: the lane is open and has this sender, of its present generation.
abbrev pub IsCurrent : Connected → Type 0
IsCurrent (err kind, l) = Unit
IsCurrent (ok (sender, generation), l) =
    (l.closed ≡ false) × (l.sender ≡ some sender) × (l.generation ≡ generation)

module _ (usize_max : ℕ) (is_finished : ℕ → Bool) where
  pub keep_driver-closed :
      (driver : Option ℕ) (l : Lane) → (keep_driver is_finished driver l).closed ≡ l.closed
  unfolding keep_driver retain_driver
  keep_driver-closed none l = refl
  keep_driver-closed (some previous) l = refl

  keep_driver-generation :
      (driver : Option ℕ) (l : Lane) → (keep_driver is_finished driver l).generation ≡ l.generation
  unfolding keep_driver retain_driver
  keep_driver-generation none l = refl
  keep_driver-generation (some previous) l = refl

  publish-IsCurrent :
      (sender task : ℕ) (l : Lane) → IsCurrent (publish usize_max is_finished sender task l)
  unfolding publish
  publish-IsCurrent sender task l =
      let next = record l { generation = (l.generation + 1) % (usize_max + 1) } in
      either IsCurrent l.closed (λ _. tt)
        λ is_open.
          (keep_driver-closed l.driver next ∙ is_open, refl, keep_driver-generation l.driver next)

  after_set_up-IsCurrent :
      (l : Lane) (made : Result (ℕ × ℕ)) → IsCurrent (after_set_up usize_max is_finished l made)
  unfolding after_set_up
  after_set_up-IsCurrent l (err kind) = tt
  after_set_up-IsCurrent l (ok (sender, task)) = publish-IsCurrent sender task l

  current_connection-IsCurrent :
      (l : Lane) (pair : ℕ × ℕ)
      → current_connection l ≡ ok (some pair)
      → (l.closed ≡ false) × (l.sender ≡ some pair.0) × (l.generation ≡ pair.1)
  unfolding current_connection
  current_connection-IsCurrent l pair e = ground arith

  under_lock-IsCurrent :
      (d : Dial) (l : Lane) (found : Result (Option (ℕ × ℕ)))
      → current_connection l ≡ found
      → IsCurrent (under_lock usize_max is_finished d found l)
  unfolding under_lock set_up
  under_lock-IsCurrent d l (err kind) e = tt
  under_lock-IsCurrent d l (ok (some pair)) e = current_connection-IsCurrent l pair e
  under_lock-IsCurrent d l (ok none) e = after_set_up-IsCurrent (d.setting_up l) d.connection

  before_lock-IsCurrent :
      (d : Dial) (l : Lane) (found : Result (Option (ℕ × ℕ)))
      → current_connection l ≡ found
      → IsCurrent (before_lock usize_max is_finished d found l)
  unfolding before_lock
  before_lock-IsCurrent d l (err kind) e = tt
  before_lock-IsCurrent d l (ok (some pair)) e = current_connection-IsCurrent l pair e
  before_lock-IsCurrent d l (ok none) e =
      let locked = sweep_retired is_finished (d.locking l) in
      under_lock-IsCurrent d locked (current_connection locked) refl

  -- Whatever other tasks do to the lane while `connect` waits for its lock and for the set-up, a
  -- connection that it answers is, when it answers, the one of the lane's present generation, and
  -- the lane is not closed.
  pub connect-IsCurrent : (d : Dial) (l : Lane) → IsCurrent (connect usize_max is_finished d l)
  unfolding connect
  connect-IsCurrent d l = before_lock-IsCurrent d l (current_connection l) refl
