-- ===== src/Config.antt =====
-- `src/config.rs`: the configuration, its checks and the link for the client.
-- A string is the list of its code points. Reading and writing the JSON file are the crates'; the
-- standard library's parser of IP addresses is a parameter of the checks.
pub mod Secrets
pub mod Domains
mod Names
pub mod Digits
pub mod Checks
pub mod Lists
mod Runs
use tg_ws_keenetic.Base.{
  ℕ, zero, suc, ◌+◌, ◌-◌, ◌*◌, ◌/◌, ◌%◌, ◌^◌, ◌≤◌, ◌<◌, min, max, bit_xor, ◌≡◌, refl, sym, ap, ◌∙◌,
  ◌≢◌, ◌↔◌, ◌⊎◌, inl, inr, Bool, true, false, not, ◌&&◌, ◌||◌, Option, none, some, List, [], ◌∷◌,
  ◌++◌, append_assoc, append-nil, arith, ltb, leb, ◌==◌, if◌then◌else◌, ltb→lt, lt→ltb, leb→le,
  ==_iff, tests, Bool-cases, and-true, either, not-true, or-false, Option-cases, some_inj, length,
  get_elem?, get_or, take, drop, replicate, All, length-append, length-take, length-drop,
  length-replicate, take-append-drop, take_at, drop_at, take-append, slice-append, slice-take,
  get_or-drop, get_or-append, take_all, drop_all, drop_nil, drop-drop, Result, ok, err, ErrorKind,
  ◌>>=◌, ◌>>◌, reject, ok_inj,
}
use tg_ws_keenetic.Base.Int.{ℤ, pos, negsuc, IsI16, negate}
use tg_ws_keenetic.Base.Bytes.{
  Bytes, IsByte, to_le_u16, to_be_u16, to_le_u32, from_le_u32, bytes_eq, bytes_eq→eq, bytes_eq_refl,
  bytes_eq_iff,
}
use tg_ws_keenetic.Base.Maps.{any}
use tg_ws_keenetic.Base.Text.{utf8_len, trim_both, lowercase, split, contains, starts_with}

abbrev pub Text : Type 0
Text = List ℕ

-- The options that `validate` reads and those that other parts of the program decide by.
pub record Config : Type 0 where
  pub host : Text
  pub port : ℕ
  pub web_host : Text
  pub web_port : ℕ
  pub secret : Text
  pub dc_redirects : List (ℤ × Text)
  pub buffer_size : ℕ
  pub pool_size : ℕ
  pub max_connections : ℕ
  pub connect_timeout_secs : ℕ
  pub idle_timeout_secs : ℕ
  pub proxy_protocol : Bool
  pub force_test_dc : Bool
  pub sni_fronting : Bool
  pub cfproxy : Bool
  pub cfproxy_h2_media : Bool
  pub disable_secure : Bool
  pub cfproxy_user_domains : List Text
  pub cfproxy_worker_domains : List Text
  pub domain_refresh : Bool
  pub fake_tls_domain : Text
  pub link_host : Text
  pub web_user : Text
  pub web_password : Text
  pub verbose : Bool

-- `hex`: `byte >> 4` and `byte & 15` into the digits.
unfoldable pub hex_digit : ℕ → ℕ
hex_digit n = if ltb n 10 then b'0' + n else b'a' + (n - 10)

unfoldable pub hex : List ℕ → Text
unfolding hex_digit
hex [] = []
hex (byte ∷ bytes) = hex_digit (byte / 16) ∷ hex_digit (byte % 16) ∷ hex bytes

-- `is_ascii_hexdigit`, and the value of a digit as `from_str_radix` reads it.
unfoldable pub is_hexdigit : ℕ → Bool
is_hexdigit c =
    (leb b'0' c && leb c b'9') || (leb b'a' c && leb c b'f') || (leb b'A' c && leb c b'F')

unfoldable pub digit_value : ℕ → ℕ
digit_value c = if leb c b'9' then c - b'0' else if leb b'a' c then c - b'a' + 10 else c - b'A' + 10

-- The loop of `secret_bytes`, over digits in pairs.
unfoldable pub pairs : Text → List ℕ
unfolding digit_value
pairs (a ∷ b ∷ more) = (digit_value a * 16 + digit_value b) ∷ pairs more
pairs _ = []

abbrev pub all : (ℕ → Bool) → List ℕ → Bool
all p xs = not (any (λ x. not (p x)) xs)

unfoldable pub secret_bytes : Text → Result (List ℕ)
unfolding pairs is_hexdigit
secret_bytes secret =
    reject (not (utf8_len secret == 32) || not (all is_hexdigit secret)) ErrorKind.invalid_input
    >> ok (pairs secret)

abbrev pub is_alphanumeric : ℕ → Bool
is_alphanumeric c =
    (leb b'0' c && leb c b'9') || (leb b'a' c && leb c b'z') || (leb b'A' c && leb c b'Z')

abbrev pub ends_with_dash : Text → Bool
ends_with_dash [] = false
ends_with_dash (c ∷ []) = c == b'-'
ends_with_dash (c ∷ d ∷ more) = ends_with_dash (d ∷ more)

unfoldable pub valid_label : Text → Bool
valid_label label =
    not (utf8_len label == 0)
    && leb (utf8_len label) 63
    && not (starts_with (b'-' ∷ []) label)
    && not (ends_with_dash label)
    && all (λ c. is_alphanumeric c || (c == b'-')) label

unfoldable pub valid_domain : Text → Bool
unfolding valid_label
valid_domain domain =
    leb (utf8_len domain) 253
    && contains (b'.' ∷ []) domain
    && not (any (λ label. not (valid_label label)) (split b'.' domain))

unfoldable pub h2_enabled : Config → Bool
h2_enabled c = c.cfproxy_h2_media && c.cfproxy && not c.disable_secure && not c.force_test_dc

-- The lists of domains as `from_value` leaves them.
abbrev pub holds : Text → List Text → Bool
holds text texts = any (bytes_eq text) texts

unfoldable pub normalize : List Text → List Text → List Text
normalize normalized [] = normalized
normalize normalized (domain ∷ domains) =
    let d = lowercase (trim_both domain) in
    let kept = normalize (normalized ++ (d ∷ [])) domains in
    let passed = normalize normalized domains in
    if not (bytes_eq d []) && not (holds d normalized) then kept else passed

unfoldable pub normalized_domains : List Text → List Text
unfolding normalize
normalized_domains domains = normalize [] domains

-- `validate`, check by check. `is_ip` tells what `parse::<IpAddr>` accepts.
module _ (is_ip : Text → Bool) where
  abbrev pub outside : ℕ → ℕ → ℕ → Bool
  outside low high n = ltb n low || ltb high n

  abbrev pub is_known_dc : ℤ → Bool
  is_known_dc (pos n) = (n == 1) || (n == 2) || (n == 3) || (n == 4) || (n == 5) || (n == 203)
  is_known_dc (negsuc n) = false

  unfoldable pub check_redirects : List (ℤ × Text) → Result (Unit {0})
  check_redirects [] = ok tt
  check_redirects ((dc, ip) ∷ redirects) =
      reject (not (is_known_dc dc)) ErrorKind.invalid_input
      >> (reject (not (is_ip ip)) ErrorKind.invalid_input >> check_redirects redirects)

  unfoldable pub check_domains : List Text → Result (Unit {0})
  unfolding valid_domain
  check_domains domains =
      reject (ltb 16 (length domains)) ErrorKind.invalid_input
      >> reject (any (λ domain. not (valid_domain domain)) domains) ErrorKind.invalid_input

  unfoldable pub check_sizes : Config → Result (Unit {0})
  check_sizes c =
      reject (outside 4096 262144 c.buffer_size) ErrorKind.invalid_input
      >> (reject (ltb 4 c.pool_size) ErrorKind.invalid_input
          >> (reject (outside 1 1024 c.max_connections) ErrorKind.invalid_input
              >> reject
                  (outside 1 60 c.connect_timeout_secs || outside 10 86400 c.idle_timeout_secs)
                  ErrorKind.invalid_input))

  unfoldable pub check_names : Config → Result (Unit {0})
  unfolding valid_domain
  check_names c =
      reject (not (bytes_eq c.fake_tls_domain []) && not (valid_domain c.fake_tls_domain))
        ErrorKind.invalid_input
      >> (reject
            (not (bytes_eq c.link_host [])
              && not (is_ip c.link_host)
              && not (valid_domain c.link_host))
            ErrorKind.invalid_input
          >> (reject
                (contains (b':' ∷ []) c.web_user
                  || ltb 128 (utf8_len c.web_user)
                  || ltb 256 (utf8_len c.web_password))
                ErrorKind.invalid_input
              >> reject (not (bytes_eq c.web_password []) && bytes_eq c.web_user [])
                  ErrorKind.invalid_input))

  abbrev pub checked_secret : Result (List ℕ) → Result (Unit {0})
  checked_secret (err kind) = err kind
  checked_secret (ok bytes) = ok tt

  unfoldable pub validate : Config → Result (Unit {0})
  unfolding secret_bytes check_sizes check_redirects check_domains check_names
  validate c =
      reject (not (is_ip c.host)) ErrorKind.invalid_input
      >> (reject (not (is_ip c.web_host)) ErrorKind.invalid_input
          >> (reject ((c.port == 0) || (c.web_port == 0) || (c.port == c.web_port))
                ErrorKind.invalid_input
              >> (checked_secret (secret_bytes c.secret)
                  >> (check_sizes c
                      >> (check_redirects c.dc_redirects
                          >> (check_domains c.cfproxy_user_domains
                              >> (check_domains c.cfproxy_worker_domains >> check_names c)))))))

-- `host.replace('%', "%25").replace(':', "%3A")`.
unfoldable pub replace : ℕ → Text → Text → Text
replace from to [] = []
replace from to (c ∷ cs) =
    let rest = replace from to cs in if c == from then to ++ rest else c ∷ rest

abbrev pub or_else : Text → Text → Text
or_else text other = if bytes_eq text [] then other else text

-- The UTF-8 bytes of the domain are an argument, `domain_bytes`, and so is the port in decimal.
unfoldable pub link_server : Config → Text → Text
unfolding replace
link_server c request_host =
    let host =
      or_else (or_else c.link_host request_host)
        (b'1' ∷ b'2' ∷ b'7' ∷ b'.' ∷ b'0' ∷ b'.' ∷ b'0' ∷ b'.' ∷ b'1' ∷ []) in
    replace b':' (b'%' ∷ b'3' ∷ b'A' ∷ []) (replace b'%' (b'%' ∷ b'2' ∷ b'5' ∷ []) host)

unfoldable pub link_secret : Config → List ℕ → Text
unfolding hex
link_secret c domain_bytes =
    if bytes_eq c.fake_tls_domain []
    then (b'd' ∷ b'd' ∷ []) ++ c.secret
    else (b'e' ∷ b'e' ∷ []) ++ (c.secret ++ hex domain_bytes)

unfoldable pub link : Config → Text → List ℕ → Text → Text
unfolding link_server link_secret
link c request_host domain_bytes port =
    (b't' ∷ b'g' ∷ b':' ∷ b'/' ∷ b'/' ∷ b'p' ∷ b'r' ∷ b'o' ∷ b'x' ∷ b'y' ∷ b'?' ∷ b's' ∷ b'e' ∷ b'r'
      ∷ b'v' ∷ b'e' ∷ b'r' ∷ b'=' ∷ [])
    ++ (link_server c request_host
        ++ ((b'&' ∷ b'p' ∷ b'o' ∷ b'r' ∷ b't' ∷ b'=' ∷ [])
            ++ (port
                ++ ((b'&' ∷ b's' ∷ b'e' ∷ b'c' ∷ b'r' ∷ b'e' ∷ b't' ∷ b'=' ∷ [])
                    ++ link_secret c domain_bytes))))
