-- ===== src/Upstream/Attempts.antt =====
-- `TcpAttempt` and `tcp_fallback`: one dial at a time to a destination, and none while it backs off.
-- Times are milliseconds. The result of the dial with the relay handshake is an argument.
use tg_ws_keenetic.Base.{
  ℕ, ◌+◌, ◌-◌, ◌*◌, ◌^◌, min, Bool, true, false, ◌&&◌, ◌||◌, Option, none, some, List, [], ◌∷◌, ltb,
  ◌==◌, if◌then◌else◌, Result, ok, err, ErrorKind,
}
use tg_ws_keenetic.Base.Bytes.{Bytes, bytes_eq}
use tg_ws_keenetic.Upstream.Routes.{tcp_fallback_backoff}

-- `(String, u16)`.
abbrev pub Key : Type 0
Key = Bytes × ℕ

abbrev pub same : Key → Key → Bool
same (host, port) (host', port') = bytes_eq host host' && (port == port')

abbrev pub get {ℓ} : {A : Type ℓ} → Key → List (Key × A) → Option A
get k [] = none
get k ((j, a) ∷ m) = if same j k then some a else get k m

abbrev pub drop_key {ℓ} : {A : Type ℓ} → Key → List (Key × A) → List (Key × A)
drop_key k [] = []
drop_key k ((j, a) ∷ m) = if same j k then drop_key k m else (j, a) ∷ drop_key k m

abbrev pub put {ℓ} : {A : Type ℓ} → Key → A → List (Key × A) → List (Key × A)
put k a m = (k, a) ∷ drop_key k m

abbrev pub contains : Key → List Key → Bool
contains k [] = false
contains k (j ∷ ks) = if same j k then true else contains k ks

abbrev pub without : Key → List Key → List Key
without k [] = []
without k (j ∷ ks) = if same j k then without k ks else j ∷ without k ks

pub record TcpState : Type 0 where
  pub tcp_failures : List (Key × ℕ)
  pub tcp_retry_after : List (Key × ℕ)
  pub tcp_connecting : List Key

abbrev pub later_than : ℕ → Option ℕ → Bool
later_than now none = false
later_than now (some retry) = ltb now retry

unfoldable pub begin_attempt : Key → ℕ → TcpState → Option TcpState
begin_attempt key now s =
    if contains key s.tcp_connecting || later_than now (get key s.tcp_retry_after)
    then none
    else some (record s { tcp_connecting = key ∷ s.tcp_connecting })

unfoldable pub attempt_success : Key → TcpState → TcpState
attempt_success key s = record s {
  tcp_failures = drop_key key s.tcp_failures;
  tcp_retry_after = drop_key key s.tcp_retry_after;
}

abbrev pub or_zero : Option ℕ → ℕ
or_zero none = 0
or_zero (some n) = n

-- The failures in a row are counted in 32 bits; the delay is in seconds.
unfoldable pub attempt_failure : Key → ℕ → TcpState → TcpState × ℕ
attempt_failure key now s =
    let failures = min (or_zero (get key s.tcp_failures) + 1) (2 ^ 32 - 1) in
    let delay = tcp_fallback_backoff failures in
    (
      record s {
        tcp_failures = put key failures s.tcp_failures;
        tcp_retry_after = put key (now + delay * 1000) s.tcp_retry_after;
      },
      delay,
    )

-- `Drop for TcpAttempt`.
unfoldable pub end_attempt : Key → TcpState → TcpState
end_attempt key s = record s { tcp_connecting = without key s.tcp_connecting }

unfoldable pub dialled : Key → ℕ → Result (Unit {0}) → TcpState → Result (Unit {0}) × TcpState
unfolding attempt_success attempt_failure
dialled key now (ok _) s = (ok tt, attempt_success key s)
dialled key now (err e) s = (err e, (attempt_failure key now s).0)

-- `tcp_fallback` that starts at `now` and whose dial ends at `later`.
unfoldable pub after_begin :
    Key → ℕ → Result (Unit {0}) → TcpState → Option TcpState → Result (Unit {0}) × TcpState
unfolding dialled end_attempt
after_begin key later outcome s none = (err ErrorKind.would_block, s)
after_begin key later outcome s (some s') =
    let (answer, s'') = dialled key later outcome s' in (answer, end_attempt key s'')

unfoldable pub tcp_fallback :
    Key → ℕ → ℕ → Result (Unit {0}) → TcpState → Result (Unit {0}) × TcpState
unfolding after_begin begin_attempt
tcp_fallback key now later outcome s = after_begin key later outcome s (begin_attempt key now s)
