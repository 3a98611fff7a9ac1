-- ===== src/Upstream/Fallbacks.antt =====
-- A connection fails only where every route that may serve it fails.
use tg_ws_keenetic.Base.{
  ℕ, ◌≡◌, refl, ◌≢◌, ◌↔◌, Bool, true, false, not, ◌&&◌, ◌||◌, Option, none, some, List, [], ◌∷◌,
  arith, Result, ok, err,
}
use tg_ws_keenetic.Base.Bytes.{Bytes}
use tg_ws_keenetic.Upstream.Routes.{fallback_ip}
use tg_ws_keenetic.Upstream.Connect.{
  Settings, H2Outcome, Offers, Event, is_none, try_tcp, try_cf, try_h2, cloudflare, try_worker,
  try_pooled, without_direct, connect_direct, connect_inner,
}

abbrev pub failed {ℓ} : {A : Type ℓ} → Result A → Bool
failed (err kind) = true
failed (ok a) = false

abbrev pub unopened : H2Outcome → Bool
unopened (H2Outcome.opened channel) = false
unopened H2Outcome.unavailable = true
unopened H2Outcome.timed_out = true

-- No route that may serve the connection does: test servers have no prepared Worker socket and no
-- Cloudflare route, and HTTP/2 is for media.
pub record AllFail (settings : Settings) (media test : Bool) (o : Offers) : Type 0 where
  pub no_direct : is_none o.direct ≡ true
  pub no_pooled : settings.has_workers ≡ true → test ≡ false → is_none o.pooled ≡ true
  pub no_worker : settings.has_workers ≡ true → failed o.worker ≡ true
  pub no_h2 :
      settings.cfproxy ≡ true
      → test ≡ false
      → media ≡ true
      → settings.h2_enabled ≡ true
      → unopened o.h2 ≡ true
  pub no_cf : settings.cfproxy ≡ true → test ≡ false → is_none o.cf ≡ true
  pub no_tcp : failed o.tcp ≡ true

failed-try_tcp : (t : Result ℕ) (events : List Event) → failed (try_tcp t events).0 ≡ failed t
unfolding try_tcp
failed-try_tcp (err kind) events = refl
failed-try_tcp (ok n) events = refl

failed-try_cf :
    (o : Offers) (cf : Option ℕ) (events : List Event)
    → failed (try_cf o cf events).0 ≡ is_none cf && failed o.tcp
unfolding try_cf
failed-try_cf o none events = failed-try_tcp o.tcp events
failed-try_cf o (some n) events = refl

failed-try_h2 :
    (o : Offers) (h : H2Outcome)
    → failed (try_h2 o h).0 ≡ unopened h && (is_none o.cf && failed o.tcp)
unfolding try_h2
failed-try_h2 o (H2Outcome.opened n) = refl
failed-try_h2 o H2Outcome.unavailable = failed-try_cf o o.cf []
failed-try_h2 o H2Outcome.timed_out = failed-try_cf o o.cf (Event.h2_error ∷ Event.cools_down ∷ [])

-- Whether the routes over Cloudflare's proxy and the last one fail.
abbrev none_left : Settings → Bool → Bool → Offers → Bool
none_left settings media test o =
    (not (settings.cfproxy && not test)
      || ((not (media && settings.h2_enabled) || unopened o.h2) && is_none o.cf))
    && failed o.tcp

failed-cloudflare :
    (settings : Settings) (media test : Bool) (o : Offers)
    → failed (cloudflare settings media test o).0 ≡ none_left settings media test o
unfolding cloudflare
failed-cloudflare settings media test o =
    ground (arith, failed-try_h2 o o.h2, failed-try_cf o o.cf [], failed-try_tcp o.tcp [])

failed-try_worker :
    (settings : Settings) (media test : Bool) (o : Offers) (worker : Result ℕ)
    → failed (try_worker settings media test o worker).0
      ≡ failed worker && none_left settings media test o
unfolding try_worker
failed-try_worker settings media test o (err kind) = failed-cloudflare settings media test o
failed-try_worker settings media test o (ok n) = refl

failed-try_pooled :
    (settings : Settings) (media test : Bool) (o : Offers) (pooled : Option ℕ)
    → failed (try_pooled settings media test o pooled).0
      ≡ is_none pooled && (failed o.worker && none_left settings media test o)
unfolding try_pooled
failed-try_pooled settings media test o none = failed-try_worker settings media test o o.worker
failed-try_pooled settings media test o (some n) = refl

present : (a : Option Bytes) → a ≢ none → is_none a ≡ false
present none h = absurd (h refl)
present (some a) h = refl

failed-without_direct :
    (settings : Settings) (dc : ℕ) (media test : Bool) (o : Offers)
    → fallback_ip dc test ≢ none
    → failed (without_direct settings dc media test o).0
      ≡ (not settings.has_workers || ((test || is_none o.pooled) && failed o.worker))
        && none_left settings media test o
unfolding without_direct
failed-without_direct settings dc media test o h = rw (present (fallback_ip dc test) h) (
    ground (
      arith,
      failed-try_pooled settings media test o none,
      failed-try_pooled settings media test o o.pooled,
      failed-cloudflare settings media test o,
    ))

failed-connect_direct :
    (settings : Settings) (dc : ℕ) (media test : Bool) (o : Offers) (direct : Option ℕ)
    → fallback_ip dc test ≢ none
    → failed (connect_direct settings dc media test o direct).0
      ≡ is_none direct
        && ((not settings.has_workers || ((test || is_none o.pooled) && failed o.worker))
            && none_left settings media test o)
unfolding connect_direct
failed-connect_direct settings dc media test o none h =
    failed-without_direct settings dc media test o h
failed-connect_direct settings dc media test o (some n) h = refl

-- For a data centre with a fallback address, `connect_inner` answers an error exactly when every
-- route that may serve the connection fails: test servers have no prepared Worker socket and no
-- Cloudflare route, and HTTP/2 is for media.
pub connect_inner_fails :
    (settings : Settings) (dc : ℕ) (media test : Bool) (o : Offers)
    → fallback_ip dc test ≢ none
    → (failed (connect_inner settings dc media test o).0 ≡ true) ↔ AllFail settings media test o
unfolding connect_inner
connect_inner_fails settings dc media test o h =
    let e = failed-connect_direct settings dc media test o o.direct h in
    (
      λ q. record {
        no_direct = ground (arith, e, q);
        no_pooled = λ a b. ground (arith, e, q);
        no_worker = λ a. ground (arith, e, q);
        no_h2 = λ a b c d. ground (arith, e, q);
        no_cf = λ a b. ground (arith, e, q);
        no_tcp = ground (arith, e, q);
      },
      λ f. ground (arith, e, f.no_direct, f.no_pooled, f.no_worker, f.no_h2, f.no_cf, f.no_tcp),
    )
