-- ===== src/H2/Budget/Runs.antt =====
-- Runs of the budgets and the theorems at concrete inputs.
use tg_ws_keenetic.Base.{◌≡◌, refl, none, some, [], ◌∷◌, arith}
use tg_ws_keenetic.H2.Budget.{
  BudgetState, Budget, BudgetPermit, empty, try_acquire, Charged, max_lane_reply_bytes, Budgets,
  Limits, try_reserve,
}
use tg_ws_keenetic.H2.Budget.Ledger.{Step, Reachable, IsBalanced, reachable-IsBalanced}
use tg_ws_keenetic.H2.Budget.Charges.{Restores, try_reserve-Restores}

abbrev two_slots : Budget
two_slots = record { max_requests = 2; max_bytes = 100 }

abbrev sixty : BudgetPermit
sixty = record { charged = 60 }

abbrev one_taken : BudgetState
one_taken = record { requests = 1; bytes = 60 }

one_acquired : try_acquire 1000 two_slots empty 60 ≡ some (one_taken, sixty)
unfolding try_acquire
one_acquired = refl

-- The second request does not fit.
second_refused : try_acquire 1000 two_slots one_taken 41 ≡ none
unfolding try_acquire
second_refused = refl

abbrev one_alive : Reachable 1000 two_slots one_taken (sixty ∷ [])
one_alive =
    Reachable.then_step empty one_taken [] (sixty ∷ []) Reachable.begins
      (Step.acquired empty one_taken 60 sixty [] one_acquired)

reachable-IsBalanced_example : IsBalanced two_slots one_taken (sixty ∷ [])
reachable-IsBalanced_example = reachable-IsBalanced 1000 two_slots one_taken (sixty ∷ []) one_alive

abbrev one_balanced : IsBalanced two_slots one_taken (sixty ∷ [])
one_balanced = record {
  slots = refl;
  charges = refl;
  slots_fit = omega arith;
  charges_fit = omega arith;
}

abbrev three_budgets : Budgets
three_budgets = record { channel = empty; lane = empty; process = one_taken }

abbrev three_limits : Limits
three_limits = record { of_channel = two_slots; of_lane = two_slots; of_process = two_slots }

-- The process has no room, so the channel's and the lane's permits are dropped again.
reserve_refused : try_reserve 1000 three_limits 41 three_budgets ≡ (none, three_budgets)
unfolding try_reserve
reserve_refused = refl

try_reserve-Restores_example :
    Restores three_budgets (try_reserve 1000 three_limits 41 three_budgets)
try_reserve-Restores_example = try_reserve-Restores 1000 three_limits 41 three_budgets

-- The lane is full, though the process has room.
abbrev lane_full : Charged
lane_full = record {
  global = one_taken;
  permit = sixty;
  lane_reply_bytes = max_lane_reply_bytes;
  own = 60;
}
