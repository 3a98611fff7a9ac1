-- ===== src/Config/Names.antt =====
-- When `validate` lets the names and the credentials of a configuration pass.
use tg_ws_keenetic.Base.{
  ◌≤◌, ◌≡◌, refl, ◌≢◌, ◌↔◌, ◌⊎◌, inl, inr, Bool, true, false, not, ◌&&◌, ◌||◌, [], ◌∷◌, arith, ltb,
  Bool-cases, not-false, Result, ok, err, ErrorKind, ◌>>◌, reject,
}
use tg_ws_keenetic.Base.Bytes.{bytes_eq, bytes_eq_iff}
use tg_ws_keenetic.Base.Text.{utf8_len, contains}
use tg_ws_keenetic.Config.{Text, Config, valid_domain, check_names}
use tg_ws_keenetic.Config.Domains.{IsDomain, valid_domain_iff}

pub both : (a b : Result (Unit {0})) → (a >> b ≡ ok tt) ↔ ((a ≡ ok tt) × (b ≡ ok tt))
both (err kind) b = (λ e. cc e, λ h. cc h.0)
both (ok tt) b = (λ e. (refl, e), λ h. h.1)

pub passes : (refused : Bool) (kind : ErrorKind) → (reject refused kind ≡ ok tt) ↔ (refused ≡ false)
passes true kind = (λ e. cc e, λ e. cc e)
passes false kind = (λ _. refl, λ _. refl)

is_empty_iff : (t : Text) → (bytes_eq t [] ≡ true) ↔ (t ≡ [])
is_empty_iff t = bytes_eq_iff t []

module _ (is_ip : Text → Bool) where
  unfoldable pub AreNames : Config → Type 0
  AreNames c =
      ((c.fake_tls_domain ≡ []) ⊎ IsDomain c.fake_tls_domain)
      × ((c.link_host ≡ []) ⊎ ((is_ip c.link_host ≡ true) ⊎ IsDomain c.link_host))
      × ((contains (b':' ∷ []) c.web_user ≡ false)
          × (utf8_len c.web_user ≤ 128)
          × (utf8_len c.web_password ≤ 256))
      × ((c.web_password ≡ []) ⊎ (c.web_user ≢ []))

  tls_iff :
      (c : Config)
      → ((not (bytes_eq c.fake_tls_domain []) && not (valid_domain c.fake_tls_domain)) ≡ false)
        ↔ ((c.fake_tls_domain ≡ []) ⊎ IsDomain c.fake_tls_domain)
  tls_iff c =
      let empty = is_empty_iff c.fake_tls_domain in
      let domain = valid_domain_iff c.fake_tls_domain in
      elim (Bool-cases (bytes_eq c.fake_tls_domain [])) [
        | inl yes_empty ↦ (λ _. inl (empty.0 yes_empty), λ _. simp yes_empty refl)
        | inr full ↦ (
          λ e. inr (domain.0 (not-false _ (simp full at e))),
          λ h. elim h [
            | inl same ↦ cc (empty.1 same, full)
            | inr d ↦ let good = domain.1 d in simp (full, good) refl
          ],
        )
      ]

  link_iff :
      (c : Config)
      → ((not (bytes_eq c.link_host [])
            && not (is_ip c.link_host)
            && not (valid_domain c.link_host))
          ≡ false)
        ↔ ((c.link_host ≡ []) ⊎ ((is_ip c.link_host ≡ true) ⊎ IsDomain c.link_host))
  link_iff c =
      let empty = is_empty_iff c.link_host in
      let domain = valid_domain_iff c.link_host in
      elim (Bool-cases (bytes_eq c.link_host [])) [
        | inl yes_empty ↦ (λ _. inl (empty.0 yes_empty), λ _. simp yes_empty refl)
        | inr full ↦ elim (Bool-cases (is_ip c.link_host)) [
          | inl ip ↦ (λ _. inr (inl ip), λ _. simp (full, ip) refl)
          | inr name ↦ (
            λ e. inr (inr (domain.0 (not-false _ (simp (full, name) at e)))),
            λ h. elim h [
              | inl same ↦ cc (empty.1 same, full)
              | inr (inl ip) ↦ cc (ip, name)
              | inr (inr d) ↦ let good = domain.1 d in simp (full, name, good) refl
            ],
          )
        ]
      ]

  user_iff :
      (c : Config)
      → ((contains (b':' ∷ []) c.web_user
            || ltb 128 (utf8_len c.web_user)
            || ltb 256 (utf8_len c.web_password))
          ≡ false)
        ↔ ((contains (b':' ∷ []) c.web_user ≡ false)
            × (utf8_len c.web_user ≤ 128)
            × (utf8_len c.web_password ≤ 256))
  user_iff c = (λ e. ground arith, λ h. ground arith)

  password_iff :
      (c : Config)
      → ((not (bytes_eq c.web_password []) && bytes_eq c.web_user []) ≡ false)
        ↔ ((c.web_password ≡ []) ⊎ (c.web_user ≢ []))
  password_iff c = ground (arith, is_empty_iff c.web_password, is_empty_iff c.web_user)

  pub names_iff : (c : Config) → (check_names is_ip c ≡ ok tt) ↔ AreNames c
  unfolding check_names AreNames
  names_iff c =
      let bad_tls = not (bytes_eq c.fake_tls_domain []) && not (valid_domain c.fake_tls_domain) in
      let bad_link =
        not (bytes_eq c.link_host [])
        && not (is_ip c.link_host)
        && not (valid_domain c.link_host) in
      let bad_user =
        contains (b':' ∷ []) c.web_user
        || ltb 128 (utf8_len c.web_user)
        || ltb 256 (utf8_len c.web_password) in
      let bad_password = not (bytes_eq c.web_password []) && bytes_eq c.web_user [] in
      let kind = ErrorKind.invalid_input in
      let first =
        both (reject bad_tls kind)
          (reject bad_link kind >> (reject bad_user kind >> reject bad_password kind)) in
      let second = both (reject bad_link kind) (reject bad_user kind >> reject bad_password kind) in
      let third = both (reject bad_user kind) (reject bad_password kind) in
      (
        λ e.
            let (a, e2) = first.0 e in
            let (b, e3) = second.0 e2 in
            let (d, e4) = third.0 e3 in
            (
              (tls_iff c).0 ((passes bad_tls kind).0 a),
              (link_iff c).0 ((passes bad_link kind).0 b),
              (user_iff c).0 ((passes bad_user kind).0 d),
              (password_iff c).0 ((passes bad_password kind).0 e4),
            ),
        λ h. first.1 (
          (passes bad_tls kind).1 ((tls_iff c).1 h.0),
          second.1 (
            (passes bad_link kind).1 ((link_iff c).1 h.1),
            third.1 (
              (passes bad_user kind).1 ((user_iff c).1 h.2),
              (passes bad_password kind).1 ((password_iff c).1 h.3),
            ),
          ),
        ),
      )
