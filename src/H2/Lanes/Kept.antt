-- ===== src/H2/Lanes/Kept.antt =====
-- The operations of a lane that leave the accounts of its streams as they are.
use tg_ws_keenetic.Base.{ℕ, ◌+◌, ◌%◌, refl, Bool, not, Option, none, some, ◌==◌, either}
use tg_ws_keenetic.Base.Maps.{retain}
use tg_ws_keenetic.H2.Channel.State.{is_some_and, is_empty}
use tg_ws_keenetic.H2.Lanes.{
  Lane, retain_driver, connection_finished, abort, start_close, reap_requests, reap_drivers,
  reap_driver, reap_if_quiescent,
}
use tg_ws_keenetic.H2.Lanes.Accounts.{IsKept}
use tg_ws_keenetic.H2.Lanes.Connect.{Connected, publish, keep_driver, keep_driver-closed}

-- The operations that touch only the connection and its tasks.
module _ (usize_max : ℕ) (is_finished is_alive : ℕ → Bool) where
  pub connection_finished-IsKept : (g : ℕ) (l : Lane) → IsKept l (connection_finished g l)
  unfolding connection_finished
  connection_finished-IsKept g l =
      either (IsKept l) (l.generation == g)
        (λ _. record { same_counts = refl; same_marks = refl; still_shut = λ h _. refl })
        (λ _. record { same_counts = refl; same_marks = refl; still_shut = λ h. h })

  keep_driver-IsKept : (driver : Option ℕ) (l : Lane) → IsKept l (keep_driver is_finished driver l)
  unfolding keep_driver retain_driver
  keep_driver-IsKept none l = record { same_counts = refl; same_marks = refl; still_shut = λ h. h }
  keep_driver-IsKept (some task) l = record {
    same_counts = refl;
    same_marks = refl;
    still_shut = λ h. h;
  }

  pub publish-IsKept :
      (sender task : ℕ) (l : Lane) → IsKept l (publish usize_max is_finished sender task l).1
  unfolding publish
  publish-IsKept sender task l =
      let next = record l { generation = (l.generation + 1) % (usize_max + 1) } in
      let k = keep_driver-IsKept l.driver next in
      either (λ (c : Connected). IsKept l c.1) l.closed
        (λ _. record { same_counts = refl; same_marks = refl; still_shut = λ h. h })
        (λ is_open. record {
          same_counts = k.same_counts;
          same_marks = k.same_marks;
          still_shut =
              λ h c. cc (keep_driver-closed usize_max is_finished l.driver next, is_open, c);
        })

  pub abort-IsKept : (l : Lane) → IsKept l (abort is_alive l).0
  unfolding abort
  abort-IsKept l = record { same_counts = refl; same_marks = refl; still_shut = λ h _. refl }

  pub start_close-IsKept : (l : Lane) → IsKept l (start_close is_alive l).0
  unfolding start_close abort
  start_close-IsKept l = record { same_counts = refl; same_marks = refl; still_shut = λ h _. refl }

  pub reap-IsKept : (l : Lane) → IsKept l (reap_if_quiescent is_alive is_finished l).1
  unfolding reap_if_quiescent reap_driver reap_drivers reap_requests
  reap-IsKept l =
      let P : Bool × Lane → Type 0 = λ r. IsKept l r.1 in
      either P (not l.closed)
        (λ _. record { same_counts = refl; same_marks = refl; still_shut = λ h. h })
        (λ _.
          either P (not (is_empty (retain is_alive l.channels)))
            (λ _. record { same_counts = refl; same_marks = refl; still_shut = λ h. h })
            (λ _.
              either P (is_some_and (λ task. not (is_finished task)) l.driver)
                (λ _. record { same_counts = refl; same_marks = refl; still_shut = λ h. h })
                (λ _.
                  either P
                    (not (is_empty (retain (λ task. not (is_finished task)) l.retired_drivers)))
                    (λ _. record { same_counts = refl; same_marks = refl; still_shut = λ h. h })
                    (λ _. record { same_counts = refl; same_marks = refl; still_shut = λ h. h }))))
