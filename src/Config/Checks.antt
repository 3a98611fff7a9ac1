-- ===== src/Config/Checks.antt =====
-- What `validate` lets pass.
use tg_ws_keenetic.Base.{
  ℕ, ◌≤◌, ◌≡◌, refl, ap, ◌≢◌, ◌↔◌, ◌⊎◌, inl, inr, Bool, true, false, not, ◌||◌, List, [], ◌∷◌,
  arith, ltb, ◌==◌, Bool-cases, not-false, length, All, Result, ok, err, ErrorKind, ◌>>◌, reject,
}
use tg_ws_keenetic.Base.Int.{ℤ}
use tg_ws_keenetic.Base.Maps.{any}
use tg_ws_keenetic.Base.Text.{utf8_len, contains}
use tg_ws_keenetic.Config.{
  Text, Config, secret_bytes, valid_domain, is_known_dc, check_redirects, check_domains,
  check_sizes, check_names, checked_secret, validate,
}
use tg_ws_keenetic.Config.Domains.{IsDomain, valid_domain_iff}
use tg_ws_keenetic.Config.Names.{both, passes, AreNames, names_iff}
use tg_ws_keenetic.Config.Digits.{IsKnownDc, IsHexDigit, is_known_dc_iff, secret_bytes_iff}

module _ (is_ip : Text → Bool) where
  abbrev pub AreRedirects : List (ℤ × Text) → Type 0
  AreRedirects redirects = All (λ (r : ℤ × Text). IsKnownDc r.0 × (is_ip r.1 ≡ true)) redirects

  abbrev pub AreDomains : List Text → Type 0
  AreDomains domains = (length domains ≤ 16) × All IsDomain domains

  -- A configuration that the proxy can run with.
  pub record IsValid (c : Config) : Type 0 where
    pub hosts : (is_ip c.host ≡ true) × (is_ip c.web_host ≡ true)
    pub ports : (1 ≤ c.port) × (1 ≤ c.web_port) × (c.port ≢ c.web_port)
    pub secret_fits : (length c.secret ≡ 32) × All IsHexDigit c.secret
    pub buffer_fits : (4096 ≤ c.buffer_size) × (c.buffer_size ≤ 262144)
    pub pool_fits : c.pool_size ≤ 4
    pub connections_fit : (1 ≤ c.max_connections) × (c.max_connections ≤ 1024)
    pub connect_fits : (1 ≤ c.connect_timeout_secs) × (c.connect_timeout_secs ≤ 60)
    pub idle_fits : (10 ≤ c.idle_timeout_secs) × (c.idle_timeout_secs ≤ 86400)
    pub redirects : AreRedirects c.dc_redirects
    pub user_domains : AreDomains c.cfproxy_user_domains
    pub worker_domains : AreDomains c.cfproxy_worker_domains
    pub fake_tls : (c.fake_tls_domain ≡ []) ⊎ IsDomain c.fake_tls_domain
    pub links : (c.link_host ≡ []) ⊎ ((is_ip c.link_host ≡ true) ⊎ IsDomain c.link_host)
    pub user :
        (contains (b':' ∷ []) c.web_user ≡ false)
        × (utf8_len c.web_user ≤ 128)
        × (utf8_len c.web_password ≤ 256)
    pub password : (c.web_password ≡ []) ⊎ (c.web_user ≢ [])

  redirects_iff : (rs : List (ℤ × Text)) → (check_redirects is_ip rs ≡ ok tt) ↔ AreRedirects rs
  unfolding check_redirects
  redirects_iff [] = (λ _. tt, λ _. refl)
  redirects_iff ((dc, ip) ∷ rs) =
      let (to, from) = redirects_iff rs in
      let known = passes (not (is_known_dc is_ip dc)) ErrorKind.invalid_input in
      let address = passes (not (is_ip ip)) ErrorKind.invalid_input in
      let outer =
        both (reject (not (is_known_dc is_ip dc)) ErrorKind.invalid_input)
          (reject (not (is_ip ip)) ErrorKind.invalid_input >> check_redirects is_ip rs) in
      let inner =
        both (reject (not (is_ip ip)) ErrorKind.invalid_input) (check_redirects is_ip rs) in
      (
        λ e.
            let (k, more) = outer.0 e in
            let (a, rest) = inner.0 more in
            (
              ((is_known_dc_iff is_ip dc).0 (not-false _ (known.0 k)), not-false _ (address.0 a)),
              to rest,
            ),
        λ h. outer.1 (
          known.1 (ap not ((is_known_dc_iff is_ip dc).1 h.0.0)),
          inner.1 (address.1 (ap not h.0.1), from h.1),
        ),
      )

  any_bad_iff :
      (domains : List Text)
      → (any (λ domain. not (valid_domain domain)) domains ≡ false) ↔ All IsDomain domains
  any_bad_iff [] = (λ _. tt, λ _. refl)
  any_bad_iff (domain ∷ domains) =
      let (to, from) = valid_domain_iff domain in
      let (to_rest, from_rest) = any_bad_iff domains in
      elim (Bool-cases (valid_domain domain)) [
        | inl good ↦ (λ h. (to good, to_rest (simp good at h)), λ k. simp good (from_rest k.1))
        | inr bad ↦ (λ h. cc (simp bad at h), λ k. cc (from k.0, bad))
      ]

  domains_iff : (domains : List Text) → (check_domains is_ip domains ≡ ok tt) ↔ AreDomains domains
  unfolding check_domains
  domains_iff domains =
      let many = ltb 16 (length domains) in
      let bad = any (λ domain. not (valid_domain domain)) domains in
      let two = both (reject many ErrorKind.invalid_input) (reject bad ErrorKind.invalid_input) in
      let (to, from) = any_bad_iff domains in
      (
        λ e.
            let (m, b) = two.0 e in
            let few : many ≡ false = (passes many ErrorKind.invalid_input).0 m in
            (ground arith, to ((passes bad ErrorKind.invalid_input).0 b)),
        λ h.
            let few : many ≡ false = ground (arith, h.0) in
            two.1 (
              (passes many ErrorKind.invalid_input).1 few,
              (passes bad ErrorKind.invalid_input).1 (from h.1),
            ),
      )

  AreSizes : Config → Type 0
  AreSizes c =
      ((4096 ≤ c.buffer_size) × (c.buffer_size ≤ 262144))
      × (c.pool_size ≤ 4)
      × ((1 ≤ c.max_connections) × (c.max_connections ≤ 1024))
      × ((1 ≤ c.connect_timeout_secs) × (c.connect_timeout_secs ≤ 60))
      × ((10 ≤ c.idle_timeout_secs) × (c.idle_timeout_secs ≤ 86400))

  sizes_iff : (c : Config) → (check_sizes is_ip c ≡ ok tt) ↔ AreSizes c
  unfolding check_sizes AreSizes
  sizes_iff c = (λ e. ground arith, λ h. ground arith)

  ports_iff :
      (c : Config)
      → (((c.port == 0) || (c.web_port == 0) || (c.port == c.web_port)) ≡ false)
        ↔ ((1 ≤ c.port) × (1 ≤ c.web_port) × (c.port ≢ c.web_port))
  ports_iff c = (λ e. ground arith, λ h. ground arith)

  secret_iff :
      (o : Result (List ℕ)) → (checked_secret is_ip o ≡ ok tt) ↔ ((bytes : List ℕ) × (o ≡ ok bytes))
  secret_iff (err kind) = (λ e. cc e, λ h. cc h.1)
  secret_iff (ok bytes) = (λ _. (bytes, refl), λ _. refl)

  -- The checks in the order of the source, as one list.
  steps : Config → List (Result (Unit {0}))
  steps c =
      reject (not (is_ip c.host)) ErrorKind.invalid_input
      ∷ reject (not (is_ip c.web_host)) ErrorKind.invalid_input
      ∷ reject ((c.port == 0) || (c.web_port == 0) || (c.port == c.web_port))
          ErrorKind.invalid_input
      ∷ checked_secret is_ip (secret_bytes c.secret)
      ∷ check_sizes is_ip c
      ∷ check_redirects is_ip c.dc_redirects
      ∷ check_domains is_ip c.cfproxy_user_domains
      ∷ check_domains is_ip c.cfproxy_worker_domains
      ∷ check_names is_ip c
      ∷ []

  abbrev in_order : List (Result (Unit {0})) → Result (Unit {0})
  in_order [] = ok tt
  in_order (check ∷ []) = check
  in_order (check ∷ next ∷ checks) = check >> in_order (next ∷ checks)

  in_order_iff :
      (checks : List (Result (Unit {0})))
      → (in_order checks ≡ ok tt) ↔ All (λ check. check ≡ ok tt) checks
  in_order_iff [] = (λ _. tt, λ _. refl)
  in_order_iff (check ∷ []) = (λ e. (e, tt), λ h. h.0)
  in_order_iff (check ∷ next ∷ checks) =
      let pair = both check (in_order (next ∷ checks)) in
      let (to, from) = in_order_iff (next ∷ checks) in
      (λ e. let (a, b) = pair.0 e in (a, to b), λ h. pair.1 (h.0, from h.1))

  -- `validate` lets a configuration pass exactly when it is one that the proxy can run with: IP
  -- addresses to listen on, two different ports that are not zero, a secret of 32 hexadecimal
  -- digits, sizes and times within their bounds, IP addresses for known data centres, at most 16
  -- valid domains in each list, names that are empty or valid, and credentials for the web.
  pub validate_iff : (c : Config) → (validate is_ip c ≡ ok tt) ↔ IsValid c
  unfolding validate steps AreSizes AreNames
  validate_iff c =
      let all_checks = in_order_iff (steps c) in
      let kind = ErrorKind.invalid_input in
      let host = passes (not (is_ip c.host)) kind in
      let web = passes (not (is_ip c.web_host)) kind in
      let ports = passes ((c.port == 0) || (c.web_port == 0) || (c.port == c.web_port)) kind in
      (
        λ e.
            let (a, (b, (p, (s, (z, (r, (u, (w, (n, _))))))))) = all_checks.0 e in
            let sizes = (sizes_iff c).0 z in
            let names = (names_iff is_ip c).0 n in
            record {
              hosts = (not-false _ (host.0 a), not-false _ (web.0 b));
              ports = (ports_iff c).0 (ports.0 p);
              secret_fits =
                  (secret_bytes_iff c.secret).0 ((secret_iff (secret_bytes c.secret)).0 s);
              buffer_fits = sizes.0;
              pool_fits = sizes.1;
              connections_fit = sizes.2;
              connect_fits = sizes.3;
              idle_fits = sizes.4;
              redirects = (redirects_iff c.dc_redirects).0 r;
              user_domains = (domains_iff c.cfproxy_user_domains).0 u;
              worker_domains = (domains_iff c.cfproxy_worker_domains).0 w;
              fake_tls = names.0;
              links = names.1;
              user = names.2;
              password = names.3;
            },
        λ h. all_checks.1 (
          host.1 (ap not h.hosts.0),
          (
            web.1 (ap not h.hosts.1),
            (
              ports.1 ((ports_iff c).1 h.ports),
              (
                (secret_iff (secret_bytes c.secret)).1
                    ((secret_bytes_iff c.secret).1 h.secret_fits),
                (
                  (sizes_iff c).1
                      (h.buffer_fits, h.pool_fits, h.connections_fit, h.connect_fits, h.idle_fits),
                  (
                    (redirects_iff c.dc_redirects).1 h.redirects,
                    (
                      (domains_iff c.cfproxy_user_domains).1 h.user_domains,
                      (
                        (domains_iff c.cfproxy_worker_domains).1 h.worker_domains,
                        ((names_iff is_ip c).1 (h.fake_tls, h.links, h.user, h.password), tt),
                      ),
                    ),
                  ),
                ),
              ),
            ),
          ),
        ),
      )
