-- ===== src/Upstream/Connect.antt =====
-- `connect_inner`: the order in which the routes are tried. The outcome of each attempt is an
-- argument, with a timeout as an outcome of it.
use tg_ws_keenetic.Base.{
  ℕ, Bool, true, false, not, ◌&&◌, Option, none, some, List, [], ◌∷◌, ◌++◌, if◌then◌else◌, Result,
  ok, err, ErrorKind,
}
use tg_ws_keenetic.Upstream.Routes.{fallback_ip}

pub record Settings : Type 0 where
  pub has_workers : Bool
  pub cfproxy : Bool
  pub h2_enabled : Bool

pub data H2Outcome : Type 0 where
  opened : ℕ → H2Outcome
  unavailable timed_out : H2Outcome

-- Sockets and channels are numbers.
pub record Offers : Type 0 where
  pub direct : Option ℕ
  pub pooled : Option ℕ
  pub worker : Result ℕ
  pub h2 : H2Outcome
  pub cf : Option ℕ
  pub tcp : Result ℕ

-- A WebSocket says whether it carries packets.
pub data Route : Type 0 where
  h2_route : ℕ → Route
  web_socket : ℕ → Bool → Route
  tcp_route : ℕ → Route

-- The counters of `Stats` that are raised, and `h2_cool_down`.
pub data Event : Type 0 where
  ws cf h2 tcp h2_error cools_down : Event

abbrev pub Connected : Type 0
Connected = Result Route × List Event

abbrev pub is_none {ℓ} : {A : Type ℓ} → Option A → Bool
is_none none = true
is_none (some a) = false

unfoldable pub try_tcp : Result ℕ → List Event → Connected
try_tcp (err kind) events = (err kind, events)
try_tcp (ok socket) events = (ok (Route.tcp_route socket), events ++ (Event.tcp ∷ []))

unfoldable pub try_cf : Offers → Option ℕ → List Event → Connected
unfolding try_tcp
try_cf o none events = try_tcp o.tcp events
try_cf o (some socket) events = (ok (Route.web_socket socket true), events ++ (Event.cf ∷ []))

unfoldable pub try_h2 : Offers → H2Outcome → Connected
unfolding try_cf
try_h2 o (H2Outcome.opened channel) = (ok (Route.h2_route channel), Event.cf ∷ Event.h2 ∷ [])
try_h2 o H2Outcome.unavailable = try_cf o o.cf []
try_h2 o H2Outcome.timed_out = try_cf o o.cf (Event.h2_error ∷ Event.cools_down ∷ [])

unfoldable pub cloudflare : Settings → Bool → Bool → Offers → Connected
unfolding try_h2 try_cf try_tcp
cloudflare settings media test o =
    if settings.cfproxy && not test
    then if media && settings.h2_enabled then try_h2 o o.h2 else try_cf o o.cf []
    else try_tcp o.tcp []

unfoldable pub try_worker : Settings → Bool → Bool → Offers → Result ℕ → Connected
unfolding cloudflare
try_worker settings media test o (err kind) = cloudflare settings media test o
try_worker settings media test o (ok socket) = (ok (Route.web_socket socket false), Event.cf ∷ [])

unfoldable pub try_pooled : Settings → Bool → Bool → Offers → Option ℕ → Connected
unfolding try_worker
try_pooled settings media test o none = try_worker settings media test o o.worker
try_pooled settings media test o (some socket) = (ok (Route.web_socket socket false), Event.cf ∷ [])

unfoldable pub without_direct : Settings → ℕ → Bool → Bool → Offers → Connected
unfolding try_pooled cloudflare
without_direct settings dc media test o =
    let workers = try_pooled settings media test o (if test then none else o.pooled) in
    let others = cloudflare settings media test o in
    if is_none (fallback_ip dc test)
    then (err ErrorKind.invalid_input, [])
    else if settings.has_workers
    then workers
    else others

unfoldable pub connect_direct : Settings → ℕ → Bool → Bool → Offers → Option ℕ → Connected
unfolding without_direct
connect_direct settings dc media test o none = without_direct settings dc media test o
connect_direct settings dc media test o (some socket) =
    (ok (Route.web_socket socket true), Event.ws ∷ [])

unfoldable pub connect_inner : Settings → ℕ → Bool → Bool → Offers → Connected
unfolding connect_direct
connect_inner settings dc media test o = connect_direct settings dc media test o o.direct
