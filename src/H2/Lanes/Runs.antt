-- ===== src/H2/Lanes/Runs.antt =====
-- A lane that connects, admits a request, times out while it runs, and what the theorems say there.
use tg_ws_keenetic.Base.{ℕ, ◌≡◌, refl, ap, Bool, true, false, none, some, [], ◌∷◌, ok}
use tg_ws_keenetic.H2.Lanes.{
  Lane, new_lane, cool_down, retain_driver, stop_driver, invalidate_connection,
  invalidate_connection_if_idle, leave_count, drop_counted, drop_guard, admitted, waits,
  admit_request,
}
use tg_ws_keenetic.H2.Lanes.Accounts.{Step, Reachable, IsAccounted}
use tg_ws_keenetic.H2.Lanes.Reached.{reachable-IsAccounted}
use tg_ws_keenetic.H2.Lanes.Retirement.{Retires, step-Retires}
use tg_ws_keenetic.H2.Lanes.Connect.{Dial, IsCurrent, publish, connect, connect-IsCurrent}

abbrev usize : ℕ
usize = 4294967295

abbrev none_finished : ℕ → Bool
none_finished _ = false

abbrev all_alive : ℕ → Bool
all_alive _ = true

abbrev connected : Lane
connected = (publish usize none_finished 7 3 new_lane).1

abbrev busy : Lane
busy = (admit_request true 1 connected).1

abbrev marked_lane : Lane
marked_lane = (invalidate_connection_if_idle none_finished 1 busy).1

abbrev retired : Lane
retired = drop_guard none_finished 1 marked_lane

connected_runs : (connected.generation ≡ 1) × (connected.sender ≡ some 7)
unfolding publish new_lane
connected_runs = (refl, refl)

busy_runs : (admit_request true 1 connected).0 ≡ admitted
unfolding admit_request publish new_lane
busy_runs = refl

marked_runs : (marked_lane.sender ≡ some 7) × ((admit_request true 1 marked_lane).0 ≡ waits)
unfolding invalidate_connection_if_idle admit_request publish new_lane
marked_runs = (refl, refl)

retired_runs : (retired.sender ≡ none) × (retired.aborted ≡ 3 ∷ [])
unfolding drop_guard drop_counted leave_count invalidate_connection stop_driver retain_driver
    invalidate_connection_if_idle admit_request publish new_lane
retired_runs = (refl, refl)

connected_Reachable : Reachable usize none_finished all_alive connected []
connected_Reachable =
    Reachable.then_step new_lane connected [] [] Reachable.begins
      (Step.publishes new_lane connected [] 7 3 (publish usize none_finished 7 3 new_lane).0 refl)

busy_Reachable : Reachable usize none_finished all_alive busy (1 ∷ [])
busy_Reachable =
    Reachable.then_step connected busy [] (1 ∷ []) connected_Reachable
      (Step.admits connected busy [] true 1 (ap (λ a. (a, busy)) busy_runs))

marked_Reachable : Reachable usize none_finished all_alive marked_lane (1 ∷ [])
marked_Reachable = Reachable.then_step busy marked_lane (1 ∷ []) (1 ∷ []) busy_Reachable (
    Step.times_out busy marked_lane (1 ∷ []) 1
      (invalidate_connection_if_idle none_finished 1 busy).0 refl)

is_marked : marked_lane.invalidate_when_idle 1 ≡ true
unfolding invalidate_connection_if_idle admit_request publish new_lane
is_marked = refl

reachable-IsAccounted_example : IsAccounted marked_lane (1 ∷ [])
reachable-IsAccounted_example =
    reachable-IsAccounted usize none_finished all_alive marked_lane (1 ∷ []) marked_Reachable

step-Retires_example : Retires usize none_finished all_alive 1 (1 ∷ []) retired []
step-Retires_example =
    step-Retires usize none_finished all_alive marked_lane retired (1 ∷ []) [] 1 marked_Reachable
      (Step.ends marked_lane retired [] [] (1 ∷ []) [] 1 refl refl refl) is_marked

abbrev dial : Dial
dial = record { locking = λ l. l; setting_up = cool_down 5; connection = ok (7, 3) }

connect_runs : (connect usize none_finished dial new_lane).0 ≡ ok (7, 1)
unfolding connect new_lane cool_down
connect_runs = refl

connect-IsCurrent_example : IsCurrent (connect usize none_finished dial new_lane)
connect-IsCurrent_example = connect-IsCurrent usize none_finished dial new_lane
