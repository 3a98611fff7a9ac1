-- ===== src/H2/Channel/Runs.antt =====
-- A channel that sends a packet, waits, and sends it again; and the theorems at its states.
use tg_ws_keenetic.Base.{◌≡◌, refl, true, false, none, some, [], ◌∷◌, arith, ok}
use tg_ws_keenetic.Base.Bytes.{Bytes}
use tg_ws_keenetic.H2.Budget.{BudgetState, Budget}
use tg_ws_keenetic.H2.Channel.State.{ReplayEntry, ChannelState, new_channel}
use tg_ws_keenetic.H2.Channel.History.{new_entry}
use tg_ws_keenetic.H2.Channel.Requests.{attempt, in_flight, launch, sent, mark_sent}
use tg_ws_keenetic.H2.Channel.Replays.{replay_candidate}
use tg_ws_keenetic.H2.Channel.Candidates.{MayReplay, replay_candidate-MayReplay}
use tg_ws_keenetic.H2.Channel.Invariant.{Holds}
use tg_ws_keenetic.H2.Channel.Reached.{Step, Reachable, reachable-Holds}

abbrev history_budget : Budget
history_budget = record { max_requests = 128; max_bytes = 2097152 }

abbrev no_history : BudgetState
no_history = record { requests = 0; bytes = 0 }

abbrev a_body : Bytes
a_body = 1 ∷ 2 ∷ 3 ∷ 4 ∷ 5 ∷ 6 ∷ 7 ∷ 8 ∷ 9 ∷ []

abbrev s0 : ChannelState
s0 = record {
  next_request = 0;
  pending = [];
  history = [];
  replay_key = none;
  reply_bytes = 0;
  terminal = none;
  last_progress = some 0;
  delivering = false;
  waiting_upload = none;
  closed = false;
}

abbrev an_entry : ReplayEntry
an_entry = new_entry 100 a_body 1 (record { charged = 9 })

abbrev s1 : ChannelState
s1 = record s0 {
  next_request = 1;
  pending = (1, in_flight false (some 1)) ∷ [];
  history = an_entry ∷ [];
  replay_key = some (1 ∷ 2 ∷ 3 ∷ 4 ∷ 5 ∷ 6 ∷ 7 ∷ 8 ∷ []);
}

first_sent :
    launch 4294967295 history_budget 100 a_body none s0 no_history
    ≡ (ok 1, s1, record { requests = 1; bytes = 9 })
unfolding launch
first_sent = refl

abbrev s2 : ChannelState
s2 = record s1 { pending = (1, sent 150 (in_flight false (some 1))) ∷ [] }

-- Nothing is sent again before three seconds have passed.
too_early : replay_candidate 4294967295 3149 s2 ≡ none
unfolding replay_candidate
too_early = refl

chosen : replay_candidate 4294967295 3150 s2 ≡ some (1, a_body)
unfolding replay_candidate
chosen = refl

replay_candidate-MayReplay_example : MayReplay 3150 s2 1 a_body
replay_candidate-MayReplay_example = replay_candidate-MayReplay 4294967295 3150 s2 1 a_body chosen

abbrev s3 : ChannelState
s3 = record s2 {
  next_request = 2;
  pending = (1, sent 150 (in_flight false (some 1))) ∷ (2, in_flight true (some 1)) ∷ [];
  history = attempt 3200 2 an_entry ∷ [];
}

started_channel : s0 ≡ new_channel 0
unfolding new_channel
started_channel = refl

then_sent : s1 ≡ (launch 4294967295 history_budget 100 a_body none s0 no_history).1
unfolding launch
then_sent = refl

then_marked : s2 ≡ mark_sent 1 150 s1
unfolding mark_sent
then_marked = refl

then_sent_again : s3 ≡ (launch 4294967295 history_budget 3200 a_body (some 1) s2 no_history).1
unfolding launch
then_sent_again = refl

reachable-Holds_example : Holds none s3
reachable-Holds_example = reachable-Holds 4294967295 history_budget s3 none (
    Reachable.then_step s2 (some (1, a_body)) s3 none
      (Reachable.then_step s2 none s2 (some (1, a_body))
        (Reachable.then_step s1 none s2 none
          (Reachable.then_step s0 none s1 none (Reachable.begins 0 s0 started_channel)
            (Step.sends s0 none 100 a_body no_history s1 (omega arith) then_sent))
          (Step.marks_sent s1 none 1 150 s2 then_marked))
        (Step.chooses s2 none 3150 1 a_body (some (1, a_body)) chosen refl))
      (Step.sends_again s2 (some (1, a_body)) 3200 1 a_body no_history s3 (omega arith) refl
        then_sent_again))
