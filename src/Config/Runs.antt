-- ===== src/Config/Runs.antt =====
-- Secrets, names and configurations at concrete values.
use tg_ws_keenetic.Base.{
  ℕ, ◌≡◌, refl, ◌↔◌, ◌⊎◌, Bool, true, false, List, [], ◌∷◌, ◌++◌, arith, length, replicate, All, ok,
  err, ErrorKind,
}
use tg_ws_keenetic.Base.Bytes.{IsByte, bytes_eq}
use tg_ws_keenetic.Base.Text.{lowercase}
use tg_ws_keenetic.Config.{
  Text, Config, hex, secret_bytes, valid_domain, h2_enabled, normalized_domains, validate, link,
}
use tg_ws_keenetic.Config.Secrets.{secret_bytes-hex}
use tg_ws_keenetic.Config.Domains.{IsDomain, valid_domain_iff}
use tg_ws_keenetic.Config.Checks.{IsValid, validate_iff}
use tg_ws_keenetic.Config.Lists.{Cleans, normalized_domains-Cleans}

abbrev sixteen : List ℕ
sixteen = 0 ∷ 1 ∷ 15 ∷ 16 ∷ 171 ∷ 255 ∷ replicate 10 9

secret_bytes-hex_example :
    (secret_bytes (hex sixteen) ≡ ok sixteen)
    × ((secret_bytes (replicate 32 b'A') ≡ err ErrorKind.invalid_input)
        ⊎ ((bytes : List ℕ) × (secret_bytes (replicate 32 b'A') ≡ ok bytes)
            × (length bytes ≡ 16)
            × All IsByte bytes
            × (hex bytes ≡ lowercase (replicate 32 b'A'))))
secret_bytes-hex_example = secret_bytes-hex sixteen refl (ground arith) (replicate 32 b'A')

upper_runs : secret_bytes (replicate 32 b'A') ≡ ok (replicate 16 170)
unfolding secret_bytes
upper_runs = refl

valid_domain_iff_example :
    (valid_domain (b'a' ∷ b'-' ∷ b'1' ∷ b'.' ∷ b'o' ∷ b'r' ∷ b'g' ∷ []) ≡ true)
    ↔ IsDomain (b'a' ∷ b'-' ∷ b'1' ∷ b'.' ∷ b'o' ∷ b'r' ∷ b'g' ∷ [])
valid_domain_iff_example = valid_domain_iff (b'a' ∷ b'-' ∷ b'1' ∷ b'.' ∷ b'o' ∷ b'r' ∷ b'g' ∷ [])

domain_runs :
    (valid_domain (b'a' ∷ b'-' ∷ b'1' ∷ b'.' ∷ b'o' ∷ b'r' ∷ b'g' ∷ []) ≡ true)
    × (valid_domain (b'a' ∷ b'-' ∷ b'.' ∷ b'o' ∷ b'r' ∷ b'g' ∷ []) ≡ false)
    × (valid_domain (b'o' ∷ b'r' ∷ b'g' ∷ []) ≡ false)
    × (valid_domain (b'a' ∷ b'.' ∷ b'.' ∷ b'o' ∷ b'r' ∷ b'g' ∷ []) ≡ false)
unfolding valid_domain
domain_runs = (refl, refl, refl, refl)

abbrev is_ip : Text → Bool
is_ip t = bytes_eq t (b'0' ∷ b'.' ∷ b'0' ∷ b'.' ∷ b'0' ∷ b'.' ∷ b'0' ∷ [])

-- The defaults, with a secret.
abbrev defaults : Config
defaults = record {
  host = (b'0' ∷ b'.' ∷ b'0' ∷ b'.' ∷ b'0' ∷ b'.' ∷ b'0' ∷ []);
  port = 1433;
  web_host = (b'0' ∷ b'.' ∷ b'0' ∷ b'.' ∷ b'0' ∷ b'.' ∷ b'0' ∷ []);
  web_port = 1434;
  secret = replicate 32 b'a';
  dc_redirects = [];
  buffer_size = 16384;
  pool_size = 0;
  max_connections = 64;
  connect_timeout_secs = 10;
  idle_timeout_secs = 300;
  proxy_protocol = false;
  force_test_dc = false;
  sni_fronting = false;
  cfproxy = true;
  cfproxy_h2_media = true;
  disable_secure = false;
  cfproxy_user_domains = [];
  cfproxy_worker_domains = [];
  domain_refresh = true;
  fake_tls_domain = [];
  link_host = [];
  web_user = (b'a' ∷ b'd' ∷ b'm' ∷ b'i' ∷ b'n' ∷ []);
  web_password = [];
  verbose = false;
}

defaults_run : validate is_ip defaults ≡ ok tt
unfolding validate secret_bytes
defaults_run = refl

same_ports_run : validate is_ip (record defaults { web_port = 1433 }) ≡ err ErrorKind.invalid_input
unfolding validate
same_ports_run = refl

validate_iff_example : (validate is_ip defaults ≡ ok tt) ↔ IsValid is_ip defaults
validate_iff_example = validate_iff is_ip defaults

h2_runs :
    (h2_enabled defaults ≡ true) × (h2_enabled (record defaults { force_test_dc = true }) ≡ false)
unfolding h2_enabled
h2_runs = (refl, refl)

link_runs :
    link
      (record defaults { link_host = (b':' ∷ b':' ∷ b'1' ∷ []) })
      []
      []
      (b'1' ∷ b'4' ∷ b'3' ∷ b'3' ∷ [])
    ≡ (b't' ∷ b'g' ∷ b':' ∷ b'/' ∷ b'/' ∷ b'p' ∷ b'r' ∷ b'o' ∷ b'x' ∷ b'y' ∷ b'?' ∷ b's' ∷ b'e'
        ∷ b'r' ∷ b'v' ∷ b'e' ∷ b'r' ∷ b'=' ∷ b'%' ∷ b'3' ∷ b'A' ∷ b'%' ∷ b'3' ∷ b'A' ∷ b'1' ∷ b'&'
        ∷ b'p' ∷ b'o' ∷ b'r' ∷ b't' ∷ b'=' ∷ b'1' ∷ b'4' ∷ b'3' ∷ b'3' ∷ b'&' ∷ b's' ∷ b'e' ∷ b'c'
        ∷ b'r' ∷ b'e' ∷ b't' ∷ b'=' ∷ b'd' ∷ b'd' ∷ [])
      ++ replicate 32 b'a'
unfolding link
link_runs = refl

abbrev two_names : List Text
two_names =
    (b' ' ∷ b'A' ∷ b'.' ∷ b'o' ∷ b'r' ∷ b'g' ∷ b' ' ∷ [])
    ∷ []
    ∷ (b'a' ∷ b'.' ∷ b'O' ∷ b'R' ∷ b'G' ∷ [])
    ∷ []

names_run : normalized_domains two_names ≡ (b'a' ∷ b'.' ∷ b'o' ∷ b'r' ∷ b'g' ∷ []) ∷ []
unfolding normalized_domains
names_run = refl

normalized_domains-Cleans_example : Cleans [] two_names (normalized_domains two_names)
normalized_domains-Cleans_example = normalized_domains-Cleans two_names
