-- ===== src/Upstream/Runs.antt =====
-- Runs of the routes' parts and the theorems at concrete inputs.
use tg_ws_keenetic.Base.{
  ◌+◌, err, ◌-◌, ◌==◌, [], ◌↔◌, Bool, ◌*◌, ok, ℕ, refl, none, true, ◌∷◌, false, min, ◌≡◌, arith,
  ErrorKind, ◌<◌, ◌≢◌, ◌^◌, some,
}
use tg_ws_keenetic.Base.Int.{negsuc}
use tg_ws_keenetic.Upstream.Routes.{tcp_fallback_backoff, fallback_ip}
use tg_ws_keenetic.Proxy.Admission.{normalize_dc}
use tg_ws_keenetic.Upstream.Attempts.{Key, TcpState, get, or_zero, begin_attempt, tcp_fallback}
use tg_ws_keenetic.Upstream.Exclusion.{Step, Reachable, IsExclusive, reachable-IsExclusive}
use tg_ws_keenetic.Upstream.Pools.{PoolKind, Bucket, new_bucket, look_at, dial_ended}
use tg_ws_keenetic.Upstream.Capacity as Pool
use tg_ws_keenetic.Upstream.Connect.{Settings, H2Outcome, Offers, Route, Event, connect_inner}
use tg_ws_keenetic.Upstream.Fallbacks.{failed, AllFail, connect_inner_fails}

fifth : tcp_fallback_backoff 5 ≡ 480
unfolding tcp_fallback_backoff
fifth = refl

dc_of_media : normalize_dc (negsuc 202) false ≡ ok (203, true, false)
unfolding normalize_dc
dc_of_media = refl

abbrev a_key : Key
a_key = (149 ∷ 154 ∷ [], 443)

abbrev no_attempts : TcpState
no_attempts = record { tcp_failures = []; tcp_retry_after = []; tcp_connecting = [] }

abbrev one_attempt : TcpState
one_attempt = record no_attempts { tcp_connecting = a_key ∷ [] }

abbrev one_failure : TcpState
one_failure = record {
  tcp_failures = (a_key, 1) ∷ [];
  tcp_retry_after = (a_key, 40000) ∷ [];
  tcp_connecting = [];
}

begun : begin_attempt a_key 1000 no_attempts ≡ some one_attempt
unfolding begin_attempt
begun = refl

failed_dial :
    tcp_fallback a_key 1000 10000 (err ErrorKind.timed_out) no_attempts
    ≡ (err ErrorKind.timed_out, one_failure)
unfolding tcp_fallback tcp_fallback_backoff
failed_dial = refl

still_waiting :
    39999
    < 10000
      + tcp_fallback_backoff (min (or_zero (get a_key no_attempts.tcp_failures) + 1) (2 ^ 32 - 1))
        * 1000
unfolding tcp_fallback_backoff
still_waiting = omega arith

reachable-IsExclusive_example : IsExclusive one_attempt (a_key ∷ [])
reachable-IsExclusive_example = reachable-IsExclusive one_attempt (a_key ∷ []) (
    Reachable.then_step no_attempts one_attempt [] (a_key ∷ []) (Reachable.starts no_attempts refl)
      (Step.begins a_key 1000 no_attempts one_attempt [] begun))

-- The younger of the two sockets is broken.
abbrev two_sockets : Bucket
two_sockets = record new_bucket {
  idle = record { socket = 2; created = 9000 } ∷ record { socket = 1; created = 5000 } ∷ [];
}

abbrev first_is_healthy : ℕ → Bool
first_is_healthy n = n == 1

abbrev one_socket : Bucket
one_socket = record new_bucket { idle = record { socket = 7; created = 300 } ∷ [] }

looked : look_at PoolKind.worker 4 100 new_bucket ≡ (true, new_bucket)
unfolding look_at
looked = refl

filled : one_socket ≡ dial_ended 300 (ok 7) new_bucket
unfolding dial_ended
filled = refl

reachable-Fits_example : Pool.Fits PoolKind.worker 4 one_socket false
reachable-Fits_example = Pool.reachable-Fits PoolKind.worker 4 one_socket false (
    Pool.Reachable.then_step new_bucket one_socket true false
      (Pool.Reachable.then_step new_bucket new_bucket false true
        (Pool.Reachable.begins new_bucket refl)
        (Pool.Step.looks new_bucket new_bucket 100 true looked))
      (Pool.Step.ends new_bucket one_socket 300 (ok 7) filled))

abbrev all_on : Settings
all_on = record { has_workers = true; cfproxy = true; h2_enabled = true }

-- Only the last route has a socket.
abbrev only_tcp : Offers
only_tcp = record {
  direct = none;
  pooled = none;
  worker = err ErrorKind.not_connected;
  h2 = H2Outcome.timed_out;
  cf = none;
  tcp = ok 9;
}

over_tcp :
    connect_inner all_on 4 true false only_tcp
    ≡ (ok (Route.tcp_route 9), Event.h2_error ∷ Event.cools_down ∷ Event.tcp ∷ [])
unfolding connect_inner fallback_ip
over_tcp = refl

dc4_has_address : fallback_ip 4 false ≢ none
unfolding fallback_ip
dc4_has_address = λ e. cc

connect_inner_fails_example :
    (failed (connect_inner all_on 4 true false only_tcp).0 ≡ true)
    ↔ AllFail all_on true false only_tcp
connect_inner_fails_example = connect_inner_fails all_on 4 true false only_tcp dc4_has_address
