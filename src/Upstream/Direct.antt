-- ===== src/Upstream/Direct.antt =====
-- `direct_route`: the WebSocket to the address that the configuration gives for a data centre, from
-- the pool or by dialling its domains, with what a failure does to the next attempts. A dial is a
-- parameter that says how it ends, when, and what other tasks did to the tables in the meantime.
-- Times are milliseconds, the limit of a dial seconds.
pub mod Marks
pub mod Verdicts
use tg_ws_keenetic.Base.{
  ℕ, zero, suc, ◌+◌, ◌*◌, ◌/◌, ◌%◌, ◌^◌, min, Bool, true, false, not, ◌&&◌, ◌||◌, Option, none,
  some, List, [], ◌∷◌, ◌++◌, ltb, ◌==◌, if◌then◌else◌, Result, ok, err, ErrorKind,
}
use tg_ws_keenetic.Base.Int.{ℤ, pos, negsuc}
use tg_ws_keenetic.Base.Bytes.{bytes_eq}
use tg_ws_keenetic.Config.{Text, Config}
use tg_ws_keenetic.WebSocket.Handshake.{is_redirect}
use tg_ws_keenetic.Upstream.Pools.{PoolKind, Idle, Bucket, new_bucket, take_pool}
use tg_ws_keenetic.Upstream.Attempts.{later_than}

-- The number of a data centre as `format!` prints it, which has five digits at most.
unfoldable pub digits : ℕ → ℕ → Text
digits zero n = []
digits (suc fuel) n =
    let more = digits fuel (n / 10) in
    let last : Text = (48 + n % 10) ∷ [] in if n / 10 == 0 then last else more ++ last

abbrev pub decimal : ℕ → Text
decimal = digits 5

unfoldable pub ws_domains : ℕ → Bool → List Text
ws_domains dc media =
    let number = decimal (if dc == 203 then 2 else dc) in
    let regular =
      ((b'k' ∷ b'w' ∷ b's' ∷ []) ++ number)
      ++ (b'.' ∷ b'w' ∷ b'e' ∷ b'b' ∷ b'.' ∷ b't' ∷ b'e' ∷ b'l' ∷ b'e' ∷ b'g' ∷ b'r' ∷ b'a' ∷ b'm'
          ∷ b'.' ∷ b'o' ∷ b'r' ∷ b'g' ∷ []) in
    if media
    then (((b'k' ∷ b'w' ∷ b's' ∷ []) ++ number)
        ++ (b'-' ∷ b'1' ∷ b'.' ∷ b'w' ∷ b'e' ∷ b'b' ∷ b'.' ∷ b't' ∷ b'e' ∷ b'l' ∷ b'e' ∷ b'g' ∷ b'r'
            ∷ b'a' ∷ b'm' ∷ b'.' ∷ b'o' ∷ b'r' ∷ b'g' ∷ []))
      ∷ regular
      ∷ []
    else regular ∷ []

unfoldable pub ws_path : Bool → Text
ws_path true = (b'/' ∷ b'a' ∷ b'p' ∷ b'i' ∷ b'w' ∷ b's' ∷ b'_' ∷ b't' ∷ b'e' ∷ b's' ∷ b't' ∷ [])
ws_path false = (b'/' ∷ b'a' ∷ b'p' ∷ b'i' ∷ b'w' ∷ b's' ∷ [])

unfoldable pub should_front : ErrorKind → Bool
should_front ErrorKind.timed_out = true
should_front ErrorKind.connection_reset = true
should_front kind = false

abbrev pub is_timed_out : ErrorKind → Bool
is_timed_out ErrorKind.timed_out = true
is_timed_out kind = false

-- `(i16, bool, bool)`: the data centre, whether it is for media and whether it is a test server.
abbrev pub DcKey : Type 0
DcKey = ℕ × Bool × Bool

abbrev pub same_flag : Bool → Bool → Bool
same_flag true b = b
same_flag false b = not b

abbrev pub same_dc : DcKey → DcKey → Bool
same_dc (dc, media, test) (dc', media', test') =
    (dc == dc') && (same_flag media media' && same_flag test test')

-- What `direct_route` uses of `State`, with a map as a function, and the counters of `Stats`.
pub record Tables : Type 0 where
  pub pools : DcKey → Option Bucket
  pub blacklisted : DcKey → Bool
  pub failed_dc : DcKey → Option ℕ
  pub failed_ip : Text → Option ℕ
  pub ws_errors : ℕ
  pub fronting : ℕ

abbrev pub put_dc {ℓ} : {A : Type ℓ} → DcKey → A → (DcKey → A) → DcKey → A
put_dc key a f key' = if same_dc key key' then a else f key'

abbrev pub put_ip {ℓ} : {A : Type ℓ} → Text → A → (Text → A) → Text → A
put_ip ip a f ip' = if bytes_eq ip ip' then a else f ip'

-- The arguments of `ws`.
pub record WsDial : Type 0 where
  pub host : Text
  pub domain : Text
  pub sni : Text
  pub path : Text
  pub direct : Bool
  pub secure : Bool
  pub limit : ℕ

-- A socket is a number.
pub record Dialled : Type 0 where
  pub outcome : Result ℕ
  pub ended : ℕ
  pub others : Tables → Tables

unfoldable pub direct_success : DcKey → Text → Tables → Tables
direct_success key ip s = record s {
  failed_dc = put_dc key none s.failed_dc;
  failed_ip = put_ip ip none s.failed_ip;
}

abbrev pub count_error : Tables → Tables
count_error s = record s { ws_errors = (s.ws_errors + 1) % 2 ^ 64 }

-- After the loop.
unfoldable pub judge : DcKey → ℕ → Bool → Tables → Tables
judge key now true s = record s { blacklisted = put_dc key true s.blacklisted }
judge key now false s = record s { failed_dc = put_dc key (some (now + 60 * 1000)) s.failed_dc }

abbrev pub Answer : Type 0
Answer = Option ℕ × Tables

abbrev pub direct_dial : Text → Text → ℕ → Text → Text → WsDial
direct_dial ip path limit domain sni = record {
  host = ip;
  domain = domain;
  sni = sni;
  path = path;
  direct = true;
  secure = true;
  limit = limit;
}

module _ (config : Config) (ws : WsDial → Dialled) (key : DcKey) (ip path : Text) (limit : ℕ) where
  -- A time-out ends the loop; another error goes on with the next domain.
  unfoldable pub unless_timed_out : ErrorKind → ℕ → (ℕ → Bool → Tables → Answer) → Tables → Answer
  unfolding judge
  unless_timed_out kind now next s =
      let stopped =
        judge key now false
          (record s { failed_ip = put_ip ip (some (now + 3600 * 1000)) s.failed_ip }) in
      if is_timed_out kind then (none, stopped) else next now false s

  unfoldable pub after_front :
      ErrorKind → ℕ → Result ℕ → (ℕ → Bool → Tables → Answer) → Tables → Answer
  unfolding unless_timed_out direct_success
  after_front kind now (ok socket) next s =
      let s' = direct_success key ip s in
      (some socket, record s' { fronting = (s'.fronting + 1) % 2 ^ 64 })
  after_front kind now (err _) next s = unless_timed_out kind now next s

  unfoldable pub after_dial :
      Text → Bool → ℕ → Result ℕ → (ℕ → Bool → Tables → Answer) → Tables → Answer
  unfolding after_front unless_timed_out direct_success
  after_dial domain all_redirects now (ok socket) next s = (some socket, direct_success key ip s)
  after_dial domain all_redirects now (err kind) next s =
      let s' = count_error s in
      let front = ws (
        direct_dial ip path limit domain (
          b's' ∷ b'p' ∷ b'r' ∷ b'i' ∷ b'n' ∷ b't' ∷ b'h' ∷ b'o' ∷ b's' ∷ b't' ∷ b'.' ∷ b'r' ∷ b'u'
          ∷ [])) in
      if is_redirect kind
      then next now all_redirects s'
      else if config.sni_fronting && should_front kind
      then after_front kind front.ended front.outcome next (front.others s')
      else unless_timed_out kind now next s'

  -- The loop over the domains, at `now`, with what follows it.
  unfoldable pub try_domains : List Text → ℕ → Bool → Tables → Answer
  unfolding after_dial judge
  try_domains [] now all_redirects s = (none, judge key now all_redirects s)
  try_domains (domain ∷ domains) now all_redirects s =
      let dialled = ws (direct_dial ip path limit domain domain) in
      after_dial domain all_redirects dialled.ended dialled.outcome
        (λ now all_redirects s. try_domains domains now all_redirects s) (dialled.others s)

-- `BTreeMap::get` of the redirects.
abbrev pub redirect_of : ℕ → List (ℤ × Text) → Option Text
redirect_of dc [] = none
redirect_of dc ((pos n, ip) ∷ redirects) = if n == dc then some ip else redirect_of dc redirects
redirect_of dc ((negsuc n, ip) ∷ redirects) = redirect_of dc redirects

abbrev pub bucket_of : Option Bucket → Bucket
bucket_of none = new_bucket
bucket_of (some bucket) = bucket

abbrev pub is_empty {ℓ} : {A : Type ℓ} → List A → Bool
is_empty [] = true
is_empty (a ∷ rest) = false

abbrev pub has_cf : Config → Bool → Bool
has_cf config test = (not test && config.cfproxy) || not (is_empty config.cfproxy_worker_domains)

abbrev pub dial_limit : Config → DcKey → ℕ → Tables → ℕ
dial_limit config key now s =
    min config.connect_timeout_secs (if later_than now (s.failed_dc key) then 2 else 5)

module _ (config : Config) (ws : WsDial → Dialled) (healthy : ℕ → Bool) where
  unfoldable pub after_pool : DcKey → Text → Option Idle → Tables → Answer
  unfolding direct_success
  after_pool key ip none s = (none, s)
  after_pool key ip (some item) s = (some item.socket, direct_success key ip s)

  unfoldable pub from_pool : DcKey → Text → ℕ → Tables → Answer
  unfolding after_pool take_pool
  from_pool key ip now s =
      let taken =
        take_pool PoolKind.direct config.pool_size now healthy (bucket_of (s.pools key)) in
      after_pool key ip taken.0 (record s { pools = put_dc key (some taken.2) s.pools })

  unfoldable pub dial_direct : ℕ → Bool → Bool → Text → ℕ → Tables → Answer
  unfolding try_domains ws_path ws_domains
  dial_direct dc media test ip now s =
      let key : DcKey = (dc, media, test) in
      if s.blacklisted key
      then (none, s)
      else if has_cf config test && later_than now (s.failed_ip ip)
      then (none, s)
      else try_domains config ws key ip (ws_path test) (dial_limit config key now s)
          (ws_domains dc media) now true s

  unfoldable pub to_address : ℕ → Bool → Bool → Option Text → ℕ → Tables → Answer
  unfolding from_pool dial_direct
  to_address dc media test none now s = (none, s)
  to_address dc media test (some ip) now s =
      let prepared = from_pool (dc, media, test) ip now s in
      let dialled = dial_direct dc media test ip now s in
      if ltb 0 config.pool_size then prepared else dialled

  unfoldable pub direct_route : ℕ → Bool → Bool → ℕ → Tables → Answer
  unfolding to_address
  direct_route dc media test now s =
      to_address dc media test (redirect_of dc config.dc_redirects) now s
