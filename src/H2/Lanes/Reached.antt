-- ===== src/H2/Lanes/Reached.antt =====
-- The accounts of a lane's streams over every sequence of the tasks' operations.
use tg_ws_keenetic.Base.{ℕ, refl, sym, ap, Bool, false, not, List, ◌++◌, arith, ◌==◌, either}
use mathlib.Core.Path.{subst}
use tg_ws_keenetic.H2.Lanes.{
  put, count_or_zero, Lane, new_lane, invalidate_connection, invalidate_connection_if_idle,
}
use tg_ws_keenetic.H2.Lanes.Accounts.{
  Step, Reachable, IsAccounted, IsKept-IsAccounted, invalidate_connection-IsKept,
}
use tg_ws_keenetic.H2.Lanes.Requests.{
  admits-IsAccounted, admit_request-turned_away, IsAccounted-middle, count-occurrences,
  mark-IsAccounted, clear-IsAccounted, ends-IsAccounted,
}
use tg_ws_keenetic.H2.Lanes.Kept.{
  connection_finished-IsKept, publish-IsKept, abort-IsKept, start_close-IsKept, reap-IsKept,
}
use tg_ws_keenetic.H2.Lanes.Connect.{Connected}

module _ (usize_max : ℕ) (is_finished is_alive : ℕ → Bool) where
  times_out-IsAccounted :
      (l : Lane) (guards : List ℕ) (g : ℕ)
      → IsAccounted l guards
      → IsAccounted (invalidate_connection_if_idle is_finished g l).1 guards
  unfolding invalidate_connection_if_idle
  times_out-IsAccounted l guards g h =
      let P : Bool × Lane → Type 0 = λ r. IsAccounted r.1 guards in
      let clean = record l { invalidate_when_idle = put g false l.invalidate_when_idle } in
      either P (not (count_or_zero (l.counts g) == 0))
        (λ busy. mark-IsAccounted l guards g (ground (arith, count-occurrences l guards g h)) h)
        (λ _.
          IsKept-IsAccounted clean (invalidate_connection is_finished g clean) guards
            (invalidate_connection-IsKept is_finished g clean) (clear-IsAccounted l guards g h))

  pub step-IsAccounted :
      (l l' : Lane) (guards guards' : List ℕ)
      → Step usize_max is_finished is_alive l guards l' guards'
      → IsAccounted l guards
      → IsAccounted l' guards'
  step-IsAccounted _ _ _ _ (Step.admits l l' guards submitted g e) h =
      admits-IsAccounted l l' guards submitted g e h
  step-IsAccounted _ _ _ _ (Step.turns_away l l' guards submitted g answer n e) h =
      subst (λ m. IsAccounted m guards)
        (sym (admit_request-turned_away submitted g l l' answer n e)) h
  step-IsAccounted _ _ _ _ (Step.ends l l' before behind all left g e a b) h =
      subst (λ m. IsAccounted m left) (sym e)
        (subst (IsAccounted _) (sym b) (
          ends-IsAccounted is_finished l g (before ++ behind)
            (IsAccounted-middle l g before behind (subst (IsAccounted l) a h))))
  step-IsAccounted _ _ _ _ (Step.times_out l l' guards g answer e) h =
      subst (λ m. IsAccounted m guards) (ap (λ r. r.1) e) (times_out-IsAccounted l guards g h)
  step-IsAccounted _ _ _ _ (Step.gives_up l l' guards g e) h =
      subst (λ m. IsAccounted m guards) (sym e)
        (IsKept-IsAccounted l _ guards (invalidate_connection-IsKept is_finished g l) h)
  step-IsAccounted _ _ _ _ (Step.finishes l l' guards g e) h =
      subst (λ m. IsAccounted m guards) (sym e)
        (IsKept-IsAccounted l _ guards
          (connection_finished-IsKept usize_max is_finished is_alive g l) h)
  step-IsAccounted _ _ _ _ (Step.publishes l l' guards sender task answer e) h =
      subst (λ m. IsAccounted m guards) (ap (λ (r : Connected). r.1) e)
        (IsKept-IsAccounted l _ guards (publish-IsKept usize_max is_finished is_alive sender task l)
          h)
  step-IsAccounted _ _ _ _ (Step.closes l l' guards failed e) h =
      subst (λ m. IsAccounted m guards) (ap (λ r. r.0) e)
        (IsKept-IsAccounted l _ guards (abort-IsKept usize_max is_finished is_alive l) h)
  step-IsAccounted _ _ _ _ (Step.settles l l' guards tasks e) h =
      subst (λ m. IsAccounted m guards) (ap (λ r. r.0) e)
        (IsKept-IsAccounted l _ guards (start_close-IsKept usize_max is_finished is_alive l) h)
  step-IsAccounted _ _ _ _ (Step.reaps l l' guards answer e) h =
      subst (λ m. IsAccounted m guards) (ap (λ r. r.1) e)
        (IsKept-IsAccounted l _ guards (reap-IsKept usize_max is_finished is_alive l) h)

  -- Over every sequence of the tasks' operations on a lane, each generation is counted with the
  -- requests of it that are alive, a generation that is to be given up when it is idle has a
  -- request alive, and a closed lane has no sender.
  pub reachable-IsAccounted :
      (l : Lane) (guards : List ℕ)
      → Reachable usize_max is_finished is_alive l guards
      → IsAccounted l guards
  unfolding new_lane
  reachable-IsAccounted _ _ Reachable.begins = record {
    counted = λ g. refl;
    marked = λ g m. cc m;
    shut = λ c. refl;
  }
  reachable-IsAccounted _ _ (Reachable.then_step l l' guards guards' r st) =
      step-IsAccounted l l' guards guards' st (reachable-IsAccounted l guards r)
