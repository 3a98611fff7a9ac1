-- ===== src/Upstream/Dispatch.antt =====
-- `connect_inner` over its own routes, none of which runs into the time limit around it. The routes
-- are taken one after the other, and each begins in the tables that it finds.
use tg_ws_keenetic.Base.{
  ℕ, ◌≡◌, refl, ◌≢◌, Bool, true, false, not, Option, none, some, List, [], ◌∷◌, ◌++◌, arith, Result,
  ok, err, ◌≤◌,
}
use tg_ws_keenetic.Config.{Text, Config, h2_enabled}
use tg_ws_keenetic.Upstream.Routes.{Address, fallback_ip}
use tg_ws_keenetic.Upstream.Pools.{PoolKind, Idle, Bucket, take_pool}
use tg_ws_keenetic.Upstream.Connect.{Settings, H2Outcome, Offers, Connected, is_none, connect_inner}
use tg_ws_keenetic.Upstream.Fallbacks.{failed, connect_inner_fails}
use tg_ws_keenetic.Upstream.Direct.{decimal, Tables, WsDial, Dialled, is_empty, direct_route}
use tg_ws_keenetic.Upstream.Domains.{
  Domains, Answer, CfDial, H2Open, cf_attempt, cf_route, h2_route, socket_of, worker_dial, worker,
}
use tg_ws_keenetic.Upstream.Domains.Orders.{count, Permutes}
use tg_ws_keenetic.Upstream.Domains.Preferred.{Known, Settles, cf_route-Settles}
use tg_ws_keenetic.Upstream.Domains.Workers.{Serves, worker-Serves}

abbrev pub dotted : Address → Text
dotted [] = []
dotted (n ∷ []) = decimal n
dotted (n ∷ m ∷ ns) = (decimal n ++ (b'.' ∷ [])) ++ dotted (m ∷ ns)

-- The times at which the routes begin, the tables that each finds, and the ends of the dials.
pub record Surroundings : Type 0 where
  pub direct_at : ℕ
  pub direct_tables : Tables
  pub direct_ws : WsDial → Dialled
  pub healthy : ℕ → Bool
  pub pool_at : ℕ
  pub worker_bucket : Bucket
  pub worker_tables : Domains
  pub worker_ws : WsDial → CfDial
  pub h2_at : ℕ
  pub h2_ended : ℕ
  pub h2_tables : Domains
  pub h2_opens : Text → H2Open
  pub cf_tables : Domains
  pub cf_ws : WsDial → CfDial
  pub tcp : Result ℕ

abbrev pub socket_in : Option Idle → Option ℕ
socket_in none = none
socket_in (some item) = some item.socket

abbrev pub h2_outcome : Option ℕ → H2Outcome
h2_outcome none = H2Outcome.unavailable
h2_outcome (some channel) = H2Outcome.opened channel

abbrev pub text_of : Option Address → Text
text_of none = []
text_of (some address) = dotted address

abbrev pub settings_of : Config → Settings
settings_of config = record {
  has_workers = not (is_empty config.cfproxy_worker_domains);
  cfproxy = config.cfproxy;
  h2_enabled = h2_enabled config;
}

module _ (config : Config) (shuffle : List Text → List Text) (w : Surroundings) where
  abbrev pub offers : ℕ → Bool → Bool → Offers
  offers dc media test = record {
    direct =
        (direct_route config w.direct_ws w.healthy dc media test w.direct_at w.direct_tables).0;
    pooled =
        socket_in
          (take_pool PoolKind.worker config.pool_size w.pool_at w.healthy w.worker_bucket).0;
    worker =
        (worker config shuffle w.worker_ws dc (text_of (fallback_ip dc test)) w.worker_tables).0;
    h2 = h2_outcome (h2_route shuffle (some w.h2_opens) dc w.h2_at w.h2_ended w.h2_tables).0;
    cf = (cf_route config shuffle w.cf_ws dc w.cf_tables).0;
    tcp = w.tcp;
  }

  unfoldable pub connect_over : ℕ → Bool → Bool → Connected
  unfolding connect_inner
  connect_over dc media test =
      connect_inner (settings_of config) dc media test (offers dc media test)

  Serves→none :
      (outcome : Text → Result ℕ) (domains : List Text) (r : Result ℕ)
      → failed r ≡ true
      → Serves outcome domains r
      → (x : Text) → 1 ≤ count x domains
      → socket_of (outcome x) ≡ none
  Serves→none outcome domains (err kind) f serves = serves
  Serves→none outcome domains (ok socket) f serves = absurd (cc f)

  module _ (permutes : Permutes shuffle) (dc : ℕ) where
    Settles→none :
        (s : Domains) (a : Answer)
        → is_none a.0 ≡ true
        → Settles shuffle permutes (cf_attempt config w.cf_ws dc) dc s a
        → (x : Text) → Known shuffle permutes dc s x
        → (cf_attempt config w.cf_ws dc x).opened ≡ none
    Settles→none s (none, s') f settles = settles
    Settles→none s (some socket, s') f settles = absurd (cc f)

-- No dial of a Worker, of a known name of Cloudflare's or of the last route gives a socket.
pub record Exhausted (config : Config) (shuffle : List Text → List Text)
    (permutes : Permutes shuffle) (w : Surroundings) (dc : ℕ) (media test : Bool) : Type 0 where
  pub no_direct :
      (direct_route config w.direct_ws w.healthy dc media test w.direct_at w.direct_tables).0 ≡ none
  pub no_worker :
      (x : Text)
      → 1 ≤ count x config.cfproxy_worker_domains
      → socket_of (w.worker_ws (worker_dial config dc (text_of (fallback_ip dc test)) x)).outcome
        ≡ none
  pub no_domain :
      config.cfproxy ≡ true
      → test ≡ false
      → (x : Text) → Known shuffle permutes dc w.cf_tables x
      → (cf_attempt config w.cf_ws dc x).opened ≡ none
  pub no_tcp : failed w.tcp ≡ true

none_eq : (o : Option ℕ) → is_none o ≡ true → o ≡ none
none_eq none h = refl
none_eq (some n) h = cc

filled : (x : Text) (domains : List Text) → 1 ≤ count x domains → not (is_empty domains) ≡ true
filled x [] h = absurd (ground (arith, h))
filled x (d ∷ domains) h = refl

-- Where shuffling permutes a list and no time limit ends a route: a connection to a data centre
-- with a fallback address is refused only when the direct route gives none, and the dials of every
-- Worker, of every known name of Cloudflare's proxy where it may be used, and of the last route
-- fail.
pub connect_over-Exhausted :
    (config : Config) (shuffle : List Text → List Text) (permutes : Permutes shuffle)
    (w : Surroundings) (dc : ℕ) (media test : Bool)
    → fallback_ip dc test ≢ none
    → failed (connect_over config shuffle w dc media test).0 ≡ true
    → Exhausted config shuffle permutes w dc media test
unfolding connect_over
connect_over-Exhausted config shuffle permutes w dc media test h refused =
    let o = offers config shuffle w dc media test in
    let ip = text_of (fallback_ip dc test) in
    let all = (connect_inner_fails (settings_of config) dc media test o h).0 refused in
    record {
      no_direct = none_eq o.direct all.no_direct;
      no_worker = λ x there.
          Serves→none config shuffle w
            (λ domain. (w.worker_ws (worker_dial config dc ip domain)).outcome)
            config.cfproxy_worker_domains o.worker
            (all.no_worker (filled x config.cfproxy_worker_domains there))
            (worker-Serves shuffle config w.worker_ws dc ip w.worker_tables permutes) x there;
      no_domain = λ on usual.
          Settles→none config shuffle w permutes dc w.cf_tables
            (cf_route config shuffle w.cf_ws dc w.cf_tables) (all.no_cf on usual)
            (cf_route-Settles shuffle permutes config w.cf_ws dc w.cf_tables);
      no_tcp = all.no_tcp;
    }
