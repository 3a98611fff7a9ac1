-- ===== src/Upstream/Domains/Runs.antt =====
-- The routes by WebSocket and HTTP/2 at concrete configurations, dials and tables.
use tg_ws_keenetic.Base.{
  ℕ, ◌≡◌, refl, ◌≢◌, true, false, none, some, List, [], ◌∷◌, Result, ok, err, ErrorKind,
}
use tg_ws_keenetic.Base.Int.{pos}
use tg_ws_keenetic.Base.Bytes.{bytes_eq}
use tg_ws_keenetic.Config.{Text, Config, h2_enabled}
use tg_ws_keenetic.WebSocket.Handshake.{is_redirect}
use tg_ws_keenetic.Upstream.Direct.{
  digits, should_front, ws_domains, ws_path, Tables, WsDial, Dialled, dial_limit, direct_route,
}
use tg_ws_keenetic.Upstream.Direct.Verdicts.{Concludes, direct_route-Concludes}
use tg_ws_keenetic.Upstream.Domains.{
  Domains, CfDial, cf_attempt, cf_route, H2Open, h2_attempt, h2_route, worker_path, worker,
}
use tg_ws_keenetic.Upstream.Domains.Preferred.{Settles, Waits, cf_route-Settles, h2_route-Settles}
use tg_ws_keenetic.Upstream.Routes.{fallback_ip}
use tg_ws_keenetic.Upstream.Pools.{new_bucket}
use tg_ws_keenetic.Upstream.Fallbacks.{failed}
use tg_ws_keenetic.Upstream.Dispatch.{Surroundings, connect_over, Exhausted, connect_over-Exhausted}

abbrev address : Text
address = (b'1' ∷ b'0' ∷ b'.' ∷ b'0' ∷ b'.' ∷ b'0' ∷ b'.' ∷ b'2' ∷ [])

abbrev a_config : Config
a_config = record {
  host = [];
  port = 1443;
  web_host = [];
  web_port = 8080;
  secret = [];
  dc_redirects = (pos 2, address) ∷ [];
  buffer_size = 65536;
  pool_size = 0;
  max_connections = 128;
  connect_timeout_secs = 10;
  idle_timeout_secs = 300;
  proxy_protocol = false;
  force_test_dc = false;
  sni_fronting = true;
  cfproxy = true;
  cfproxy_h2_media = true;
  disable_secure = false;
  cfproxy_user_domains = [];
  cfproxy_worker_domains = (b'w' ∷ b'.' ∷ b'd' ∷ b'e' ∷ b'v' ∷ []) ∷ [];
  domain_refresh = false;
  fake_tls_domain = [];
  link_host = [];
  web_user = [];
  web_password = [];
  verbose = false;
}

abbrev no_tables : Tables
no_tables = record {
  pools = λ _. none;
  blacklisted = λ _. false;
  failed_dc = λ _. none;
  failed_ip = λ _. none;
  ws_errors = 0;
  fronting = 0;
}

-- Every dial takes a second and ends in the same way.
abbrev ends_with : Result ℕ → WsDial → Dialled
ends_with outcome d = record { outcome = outcome; ended = 6000; others = λ s. s }

names_run :
    ws_domains 203 true
    ≡ (b'k' ∷ b'w' ∷ b's' ∷ b'2' ∷ b'-' ∷ b'1' ∷ b'.' ∷ b'w' ∷ b'e' ∷ b'b' ∷ b'.' ∷ b't' ∷ b'e'
        ∷ b'l' ∷ b'e' ∷ b'g' ∷ b'r' ∷ b'a' ∷ b'm' ∷ b'.' ∷ b'o' ∷ b'r' ∷ b'g' ∷ [])
      ∷ (b'k' ∷ b'w' ∷ b's' ∷ b'2' ∷ b'.' ∷ b'w' ∷ b'e' ∷ b'b' ∷ b'.' ∷ b't' ∷ b'e' ∷ b'l' ∷ b'e'
          ∷ b'g' ∷ b'r' ∷ b'a' ∷ b'm' ∷ b'.' ∷ b'o' ∷ b'r' ∷ b'g' ∷ [])
      ∷ []
unfolding ws_domains digits
names_run = refl

redirected_run :
    (direct_route a_config
        (ends_with (err (ErrorKind.http_error 302)))
        (λ _. true)
        2
        true
        false
        5000
        no_tables).1.blacklisted
      (2, true, false)
    ≡ true
unfolding direct_route is_redirect
redirected_run = refl

timed_out_run :
    (direct_route a_config
        (ends_with (err ErrorKind.timed_out))
        (λ _. true)
        2
        true
        false
        5000
        no_tables).1.failed_ip
      address
    ≡ some 3606000
unfolding direct_route is_redirect should_front
timed_out_run = refl

direct_route-Concludes_example :
    Concludes a_config
      (ends_with (err (ErrorKind.http_error 302)))
      (2, true, false)
      address
      (ws_path false)
      (dial_limit a_config (2, true, false) 5000 no_tables)
      (ws_domains 2 true)
      true
      (direct_route a_config
        (ends_with (err (ErrorKind.http_error 302)))
        (λ _. true)
        2
        true
        false
        5000
        no_tables)
direct_route-Concludes_example =
    direct_route-Concludes a_config (ends_with (err (ErrorKind.http_error 302))) (λ _. true) 2 true
      false 5000 address no_tables refl refl refl refl (λ d s. refl)

abbrev two_domains : Domains
two_domains = record {
  domains = (b'a' ∷ b'.' ∷ b'o' ∷ b'r' ∷ b'g' ∷ []) ∷ (b'b' ∷ b'.' ∷ b'o' ∷ b'r' ∷ b'g' ∷ []) ∷ [];
  preferred = λ _. some (b'b' ∷ b'.' ∷ b'o' ∷ b'r' ∷ b'g' ∷ []);
  h2_retry_after = λ _. none;
  ws_errors = 0;
}

abbrev unshuffled : List Text → List Text
unshuffled xs = xs

-- Only the host of a.org answers.
abbrev to_a : WsDial → CfDial
to_a d = record {
  outcome =
      elim (bytes_eq d.host
        (b'k' ∷ b'w' ∷ b's' ∷ b'2' ∷ b'.' ∷ b'a' ∷ b'.' ∷ b'o' ∷ b'r' ∷ b'g' ∷ [])) [
          | true ↦ ok 7
          | false ↦ err ErrorKind.timed_out
        ];
  others = λ s. s;
}

cf_run : (cf_route a_config unshuffled to_a 2 two_domains).0 ≡ some 7
unfolding cf_route digits
cf_run = refl

cf_route-Settles_example :
    Settles unshuffled
      (λ xs x. refl)
      (cf_attempt a_config to_a 2)
      2
      two_domains
      (cf_route a_config unshuffled to_a 2 two_domains)
cf_route-Settles_example = cf_route-Settles unshuffled (λ xs x. refl) a_config to_a 2 two_domains

abbrev refuses : Text → H2Open
refuses host = record { outcome = ok none; others = λ s. s }

h2_route-Settles_example :
    Settles unshuffled
      (λ xs x. refl)
      (h2_attempt refuses 2)
      2
      two_domains
      (h2_route unshuffled (some refuses) 2 1000 9000 two_domains)
    × Waits unshuffled refuses 2 9000 (h2_route unshuffled (some refuses) 2 1000 9000 two_domains)
h2_route-Settles_example =
    h2_route-Settles unshuffled (λ xs x. refl) refuses 2 1000 9000 two_domains refl

worker_run : (worker a_config unshuffled to_a 2 address two_domains).0 ≡ err ErrorKind.timed_out
unfolding worker worker_path digits h2_enabled
worker_run = refl

abbrev refused : WsDial → CfDial
refused d = record { outcome = err ErrorKind.connection_reset; others = λ s. s }

abbrev cut_off : Surroundings
cut_off = record {
  direct_at = 1000;
  direct_tables = no_tables;
  direct_ws = ends_with (err ErrorKind.timed_out);
  healthy = λ _. true;
  pool_at = 9000;
  worker_bucket = new_bucket;
  worker_tables = two_domains;
  worker_ws = refused;
  h2_at = 9000;
  h2_ended = 9500;
  h2_tables = two_domains;
  h2_opens = refuses;
  cf_tables = two_domains;
  cf_ws = refused;
  tcp = err ErrorKind.timed_out;
}

has_address : fallback_ip 2 false ≢ none
unfolding fallback_ip
has_address e = cc e

cut_off_run : failed (connect_over a_config unshuffled cut_off 2 true false).0 ≡ true
unfolding connect_over fallback_ip direct_route is_redirect should_front h2_route cf_route worker
    worker_path digits h2_enabled
cut_off_run = refl

connect_over-Exhausted_example : Exhausted a_config unshuffled (λ xs x. refl) cut_off 2 true false
connect_over-Exhausted_example =
    connect_over-Exhausted a_config unshuffled (λ xs x. refl) cut_off 2 true false has_address
      cut_off_run
