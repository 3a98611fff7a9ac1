-- ===== src/Upstream/Domains.antt =====
-- The routes over Cloudflare's domains: `domains_for`, `cf_route`, `h2_route` and its waiting time.
-- Shuffling is the crate rand's and a parameter, and so are the dials: each says how it ends and
-- what other tasks did to the tables in the meantime. Times are milliseconds.
pub mod Orders
pub mod Preferred
pub mod Workers
mod Runs
use tg_ws_keenetic.Base.{
  ℕ, ◌+◌, ◌*◌, ◌%◌, ◌^◌, Bool, true, false, not, Option, none, some, List, [], ◌∷◌, ◌++◌, ltb, ◌==◌,
  if◌then◌else◌, Result, ok, err, ErrorKind,
}
use tg_ws_keenetic.Base.Bytes.{bytes_eq}
use tg_ws_keenetic.Base.Maps.{retain}
use tg_ws_keenetic.Config.{Text, Config}
use tg_ws_keenetic.Upstream.Attempts.{later_than}
use tg_ws_keenetic.Upstream.Direct.{decimal, WsDial}

-- What these routes use of `State`, with a map as a function, and the counter of `Stats`.
pub record Domains : Type 0 where
  pub domains : List Text
  pub preferred : ℕ → Option Text
  pub h2_retry_after : ℕ → Option ℕ
  pub ws_errors : ℕ

abbrev pub put {ℓ} : {A : Type ℓ} → ℕ → A → (ℕ → A) → ℕ → A
put dc a f dc' = if dc == dc' then a else f dc'

-- A socket or a channel is a number.
pub record BaseAttempt : Type 0 where
  pub opened : Option ℕ
  pub others : Domains → Domains

abbrev pub Answer : Type 0
Answer = Option ℕ × Domains

abbrev pub host_of : ℕ → Text → Text
host_of dc base = (((b'k' ∷ b'w' ∷ b's' ∷ []) ++ decimal dc) ++ (b'.' ∷ [])) ++ base

module _ (shuffle : List Text → List Text) where
  unfoldable pub with_preferred : List Text → Option Text → List Text
  with_preferred domains none = shuffle domains
  with_preferred domains (some active) =
      active ∷ shuffle (retain (λ d. not (bytes_eq d active)) domains)

  unfoldable pub domains_for : ℕ → Domains → List Text
  unfolding with_preferred
  domains_for dc s = with_preferred s.domains (s.preferred dc)

-- The loop that both routes have, with what each does after a failure.
module _ (opens : Text → BaseAttempt) (failed : Domains → Domains) (dc : ℕ) where
  unfoldable pub after_attempt : Text → Option ℕ → (Domains → Answer) → Domains → Answer
  after_attempt base (some socket) next s =
      (some socket, record s { preferred = put dc (some base) s.preferred })
  after_attempt base none next s = next (failed s)

  unfoldable pub try_bases : List Text → Domains → Answer
  unfolding after_attempt
  try_bases [] s = (none, s)
  try_bases (base ∷ bases) s =
      let attempt = opens base in
      after_attempt base attempt.opened (λ s. try_bases bases s) (attempt.others s)

abbrev pub count_error : Domains → Domains
count_error s = record s { ws_errors = (s.ws_errors + 1) % 2 ^ 64 }

abbrev pub socket_of : Result ℕ → Option ℕ
socket_of (ok socket) = some socket
socket_of (err kind) = none

-- `ws` with its arguments, and the end of it.
pub record CfDial : Type 0 where
  pub outcome : Result ℕ
  pub others : Domains → Domains

abbrev pub cf_dial : Config → Text → WsDial
cf_dial config domain = record {
  host = domain;
  domain = domain;
  sni = domain;
  path = (b'/' ∷ b'a' ∷ b'p' ∷ b'i' ∷ b'w' ∷ b's' ∷ []);
  direct = false;
  secure = not config.disable_secure;
  limit = config.connect_timeout_secs;
}

abbrev pub cf_attempt : Config → (WsDial → CfDial) → ℕ → Text → BaseAttempt
cf_attempt config ws dc base =
    let dialled = ws (cf_dial config (host_of dc base)) in
    record { opened = socket_of dialled.outcome; others = dialled.others }

module _ (config : Config) (shuffle : List Text → List Text) where
  unfoldable pub cf_route : (WsDial → CfDial) → ℕ → Domains → Answer
  unfolding try_bases domains_for
  cf_route ws dc s = try_bases (cf_attempt config ws dc) count_error dc (domains_for shuffle dc s) s

abbrev pub channel_of : Result (Option ℕ) → Option ℕ
channel_of (ok channel) = channel
channel_of (err kind) = none

-- `CfH2Pool::open` of a host.
pub record H2Open : Type 0 where
  pub outcome : Result (Option ℕ)
  pub others : Domains → Domains

unfoldable pub h2_cool_down : ℕ → ℕ → Domains → Domains
h2_cool_down dc now s = record s {
  h2_retry_after = put dc (some (now + 30 * 1000)) s.h2_retry_after;
}

abbrev pub h2_attempt : (Text → H2Open) → ℕ → Text → BaseAttempt
h2_attempt opens dc base =
    let opening = opens (host_of dc base) in
    record { opened = channel_of opening.outcome; others = opening.others }

unfoldable pub after_domains : ℕ → ℕ → Answer → Answer
unfolding h2_cool_down
after_domains dc ended (some channel, s) = (some channel, s)
after_domains dc ended (none, s) = (none, h2_cool_down dc ended s)

abbrev pub forget_wait : ℕ → Domains → Domains
forget_wait dc s = record s { h2_retry_after = put dc none s.h2_retry_after }

-- `h2_route` that begins at `now`, and whose last attempt ends at `ended`.
module _ (shuffle : List Text → List Text) where
  unfoldable pub h2_route : Option (Text → H2Open) → ℕ → ℕ → ℕ → Domains → Answer
  unfolding try_bases domains_for after_domains
  h2_route none dc now ended s = (none, s)
  h2_route (some opens) dc now ended s =
      let s' = forget_wait dc s in
      let tried = try_bases (h2_attempt opens dc) (λ s. s) dc (domains_for shuffle dc s') s' in
      if later_than now (s.h2_retry_after dc) then (none, s) else after_domains dc ended tried

-- The loop of `worker`, with the last error.
module _ (dialling : Text → CfDial) where
  unfoldable pub after_worker :
      Result ℕ → (ErrorKind → Domains → Result ℕ × Domains) → Domains → Result ℕ × Domains
  after_worker (ok socket) next s = (ok socket, s)
  after_worker (err kind) next s = next kind (count_error s)

  unfoldable pub try_workers : List Text → ErrorKind → Domains → Result ℕ × Domains
  unfolding after_worker
  try_workers [] last s = (err last, s)
  try_workers (domain ∷ domains) last s =
      let dialled = dialling domain in
      after_worker dialled.outcome (λ kind s. try_workers domains kind s) (dialled.others s)

-- `worker_path`, with the address as it is written.
unfoldable pub worker_path : ℕ → Text → Text
worker_path dc ip =
    (((b'/' ∷ b'a' ∷ b'p' ∷ b'i' ∷ b'w' ∷ b's' ∷ b'?' ∷ b'd' ∷ b'c' ∷ b'=' ∷ []) ++ decimal dc)
      ++ (b'&' ∷ b'd' ∷ b's' ∷ b't' ∷ b'=' ∷ []))
    ++ ip

abbrev pub worker_dial : Config → ℕ → Text → Text → WsDial
worker_dial config dc ip domain = record {
  host = domain;
  domain = domain;
  sni = domain;
  path = worker_path dc ip;
  direct = false;
  secure = not config.disable_secure;
  limit = config.connect_timeout_secs;
}

module _ (config : Config) (shuffle : List Text → List Text) where
  unfoldable pub worker : (WsDial → CfDial) → ℕ → Text → Domains → Result ℕ × Domains
  unfolding try_workers
  worker ws dc ip s =
      try_workers (λ domain. ws (worker_dial config dc ip domain))
        (shuffle config.cfproxy_worker_domains) ErrorKind.not_connected s
