-- ===== src/Upstream/Direct/Verdicts.antt =====
-- What `direct_route` concludes from how its dials end.
use tg_ws_keenetic.Base.{
  ℕ, ◌+◌, ◌*◌, ◌≡◌, refl, ap, ◌∙◌, ◌⊎◌, inl, inr, Bool, true, false, ◌&&◌, none, some, List, [],
  ◌∷◌, arith, either, Result, ok, err, ErrorKind,
}
use tg_ws_keenetic.Config.{Text, Config}
use tg_ws_keenetic.WebSocket.Handshake.{is_redirect}
use tg_ws_keenetic.Upstream.Attempts.{later_than}
use tg_ws_keenetic.Upstream.Direct.{
  ws_domains, ws_path, should_front, is_timed_out, DcKey, Tables, WsDial, Dialled, direct_success,
  count_error, judge, Answer, direct_dial, unless_timed_out, after_front, after_dial, try_domains,
  redirect_of, has_cf, dial_limit, dial_direct, to_address, direct_route,
}
use tg_ws_keenetic.Upstream.Direct.Marks.{put_dc_at, put_ip_at}

abbrev pub redirects : Result ℕ → Bool
redirects (ok socket) = false
redirects (err kind) = is_redirect kind

abbrev pub front : Text
front =
    (b's' ∷ b'p' ∷ b'r' ∷ b'i' ∷ b'n' ∷ b't' ∷ b'h' ∷ b'o' ∷ b's' ∷ b't' ∷ b'.' ∷ b'r' ∷ b'u' ∷ [])

module _ (config : Config) (ws : WsDial → Dialled) (key : DcKey) (ip path : Text) (limit : ℕ) where
  abbrev pub own : Text → Result ℕ
  own domain = (ws (direct_dial ip path limit domain domain)).outcome

  abbrev pub fronted : Text → Result ℕ
  fronted domain = (ws (direct_dial ip path limit domain front)).outcome

  -- Every domain answered with a redirect.
  abbrev pub all_redirect : List Text → Bool
  all_redirect [] = true
  all_redirect (domain ∷ domains) = redirects (own domain) && all_redirect domains

  abbrev pub Opened : ℕ → List Text → Type 0
  Opened socket [] = true ≡ false
  Opened socket (domain ∷ domains) =
      ((own domain ≡ ok socket) ⊎ (fronted domain ≡ ok socket)) ⊎ Opened socket domains

  abbrev pub Concludes : List Text → Bool → Answer → Type 0
  Concludes domains all (none, s) =
      (s.blacklisted key ≡ (all && all_redirect domains))
      × (s.blacklisted key ≡ false → (t : ℕ) × (s.failed_dc key ≡ some (t + 60 * 1000)))
  Concludes domains all (some socket, s) =
      Opened socket domains
      × (s.blacklisted key ≡ false)
      × (s.failed_dc key ≡ none)
      × (s.failed_ip ip ≡ none)

  -- Other tasks leave the mark of this key as it is.
  abbrev pub Leaves : Type 0
  Leaves = (d : WsDial) (s : Tables) → ((ws d).others s).blacklisted key ≡ s.blacklisted key

  abbrev Continues : List Text → (ℕ → Bool → Tables → Answer) → Type 0
  Continues domains next =
      (now : ℕ) (all : Bool) (s : Tables)
      → s.blacklisted key ≡ false
      → Concludes domains all (next now all s)

  judge-Concludes :
      (now : ℕ) (all : Bool) (s : Tables)
      → s.blacklisted key ≡ false
      → Concludes [] all (none, judge key now all s)
  unfolding judge
  judge-Concludes now true s h =
      let marked = put_dc_at key true s.blacklisted in
      (marked, λ unmarked. absurd (ground (arith, marked)))
  judge-Concludes now false s h =
      (h, λ _. (now, put_dc_at key (some (now + 60 * 1000)) s.failed_dc))

  -- An answer for the domains that follow is one for the list, when the first gave no redirect.
  Concludes-cons :
      (domain : Text) (domains : List Text) (all : Bool) (a : Answer)
      → redirects (own domain) ≡ false
      → Concludes domains false a
      → Concludes (domain ∷ domains) all a
  Concludes-cons domain domains all (none, s) h (marked, waits) = (ground (arith, marked), waits)
  Concludes-cons domain domains all (some socket, s) h (opened, unmarked, dc, address) =
      (inr opened, unmarked, dc, address)

  Concludes-redirect :
      (domain : Text) (domains : List Text) (all : Bool) (a : Answer)
      → redirects (own domain) ≡ true
      → Concludes domains all a
      → Concludes (domain ∷ domains) all a
  Concludes-redirect domain domains all (none, s) h (marked, waits) =
      (ground (arith, marked), waits)
  Concludes-redirect domain domains all (some socket, s) h (opened, unmarked, dc, address) =
      (inr opened, unmarked, dc, address)

  Concludes-Opened :
      (domains : List Text) (all : Bool) (socket : ℕ) (s : Tables)
      → s.blacklisted key ≡ false
      → Opened socket domains
      → Concludes domains all (some socket, direct_success key ip s)
  unfolding direct_success
  Concludes-Opened domains all socket s h opened =
      (opened, h, put_dc_at key none s.failed_dc, put_ip_at ip none s.failed_ip)

  unless_timed_out-Concludes :
      (domains : List Text) (kind : ErrorKind) (now : ℕ) (next : ℕ → Bool → Tables → Answer)
      (s : Tables)
      → Continues domains next
      → s.blacklisted key ≡ false
      → Concludes domains false (unless_timed_out config ws key ip path limit kind now next s)
  unfolding unless_timed_out judge
  unless_timed_out-Concludes domains kind now next s go h =
      either (Concludes domains false) (is_timed_out kind)
        (λ _. (h, λ _. (now, put_dc_at key (some (now + 60 * 1000)) s.failed_dc)))
        (λ _. go now false s h)

  module _ (leaves : Leaves) where
    after_front-Concludes :
        (domain : Text) (domains : List Text) (all : Bool) (kind : ErrorKind) (now : ℕ)
        (outcome : Result ℕ) (next : ℕ → Bool → Tables → Answer) (s : Tables)
        → fronted domain ≡ outcome
        → redirects (own domain) ≡ false
        → Continues domains next
        → s.blacklisted key ≡ false
        → Concludes
            (domain ∷ domains)
            all
            (after_front config ws key ip path limit kind now outcome next s)
    unfolding after_front direct_success
    after_front-Concludes domain domains all kind now (ok socket) next s e r go h =
        (inl (inr e), h, put_dc_at key none s.failed_dc, put_ip_at ip none s.failed_ip)
    after_front-Concludes domain domains all kind now (err _) next s e r go h =
        Concludes-cons domain domains all
          (unless_timed_out config ws key ip path limit kind now next s) r
          (unless_timed_out-Concludes domains kind now next s go h)

    after_dial-Concludes :
        (domain : Text) (domains : List Text) (all : Bool) (now : ℕ) (outcome : Result ℕ)
        (next : ℕ → Bool → Tables → Answer) (s : Tables)
        → own domain ≡ outcome
        → Continues domains next
        → s.blacklisted key ≡ false
        → Concludes
            (domain ∷ domains)
            all
            (after_dial config ws key ip path limit domain all now outcome next s)
    unfolding after_dial
    after_dial-Concludes domain domains all now (ok socket) next s e go h =
        Concludes-Opened (domain ∷ domains) all socket s h (inl (inl e))
    after_dial-Concludes domain domains all now (err kind) next s e go h =
        let P = Concludes (domain ∷ domains) all in
        let counted = count_error s in
        let fronting = ws (direct_dial ip path limit domain front) in
        either P (is_redirect kind)
          (λ r.
            Concludes-redirect domain domains all (next now all counted) (ap redirects e ∙ r)
              (go now all counted h))
          (λ r.
            let refused : redirects (own domain) ≡ false = ap redirects e ∙ r in
            either P (config.sni_fronting && should_front kind)
              (λ _.
                after_front-Concludes domain domains all kind fronting.ended fronting.outcome next
                  (fronting.others counted) refl refused go
                  (leaves (direct_dial ip path limit domain front) counted ∙ h))
              (λ _.
                Concludes-cons domain domains all
                  (unless_timed_out config ws key ip path limit kind now next counted) refused
                  (unless_timed_out-Concludes domains kind now next counted go h)))

    try_domains-Concludes :
        (domains : List Text) (now : ℕ) (all : Bool) (s : Tables)
        → s.blacklisted key ≡ false
        → Concludes domains all (try_domains config ws key ip path limit domains now all s)
    unfolding try_domains
    try_domains-Concludes [] now all s h = judge-Concludes now all s h
    try_domains-Concludes (domain ∷ domains) now all s h =
        let d = direct_dial ip path limit domain domain in
        after_dial-Concludes domain domains all (ws d).ended (ws d).outcome
          (λ now all s. try_domains config ws key ip path limit domains now all s) ((ws d).others s)
          refl (λ now all s h. try_domains-Concludes domains now all s h) (leaves d s ∙ h)

-- Without a pool, and where neither an earlier verdict nor a waiting time of the address forbids
-- it, a direct route is tried, whatever other tasks do to the tables but to this key's mark. A
-- socket that it gives comes from a dial of one of the data centre's domains, under its own name or
-- the front's, and ends the waiting times of the data centre and the address. Without one, the key
-- is marked for good exactly when every domain answered with a redirect, and else waits.
pub direct_route-Concludes :
    (config : Config) (ws : WsDial → Dialled) (healthy : ℕ → Bool) (dc : ℕ) (media test : Bool)
    (now : ℕ) (ip : Text) (s : Tables)
    → config.pool_size ≡ 0
    → redirect_of dc config.dc_redirects ≡ some ip
    → s.blacklisted (dc, media, test) ≡ false
    → (has_cf config test && later_than now (s.failed_ip ip)) ≡ false
    → Leaves config ws
        (dc, media, test)
        ip
        (ws_path test)
        (dial_limit config (dc, media, test) now s)
    → Concludes config ws
        (dc, media, test)
        ip
        (ws_path test)
        (dial_limit config (dc, media, test) now s)
        (ws_domains dc media)
        true
        (direct_route config ws healthy dc media test now s)
unfolding direct_route to_address dial_direct
direct_route-Concludes config ws healthy dc media test now ip s no_pool there unmarked free leaves =
    let key : DcKey = (dc, media, test) in
    let limit = dial_limit config key now s in
    let tried =
      try_domains-Concludes config ws key ip (ws_path test) limit leaves (ws_domains dc media) now
        true s unmarked in
    rw there (rw no_pool (rw unmarked (rw free tried)))
