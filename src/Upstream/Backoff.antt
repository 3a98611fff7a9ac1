-- ===== src/Upstream/Backoff.antt =====
-- The waiting times double up to an hour, and every data centre that is let in has an address.
use tg_ws_keenetic.Base.{
  ℕ, zero, suc, ◌+◌, ◌-◌, ◌*◌, ◌≤◌, min, ◌≡◌, refl, ◌≢◌, Bool, true, false, none, arith, ok,
}
use tg_ws_keenetic.Base.Int.{ℤ, IsI16}
use tg_ws_keenetic.Upstream.Routes.{refill_backoff, tcp_fallback_backoff, fallback_ip}
use tg_ws_keenetic.Proxy.Admission.{normalize_dc}
use tg_ws_keenetic.Proxy.DataCentres.{normalize_dc_iff}

tcp_late : (n : ℕ) → 7 ≤ n - 1 → tcp_fallback_backoff n ≡ 3600
unfolding tcp_fallback_backoff
tcp_late n h = let e : min (n - 1) 7 ≡ 7 = omega arith in rw e refl

refill_late : (n : ℕ) → 12 ≤ n - 1 → refill_backoff n ≡ 3600
unfolding refill_backoff
refill_late n h = let e : min (n - 1) 12 ≡ 12 = omega arith in rw e refl

tcp_doubles : (n : ℕ) → tcp_fallback_backoff (n + 2) ≡ min 3600 (2 * tcp_fallback_backoff (n + 1))
unfolding tcp_fallback_backoff
tcp_doubles zero = refl
tcp_doubles (suc zero) = refl
tcp_doubles (suc (suc zero)) = refl
tcp_doubles (suc (suc (suc zero))) = refl
tcp_doubles (suc (suc (suc (suc zero)))) = refl
tcp_doubles (suc (suc (suc (suc (suc zero))))) = refl
tcp_doubles (suc (suc (suc (suc (suc (suc zero)))))) = refl
tcp_doubles (suc (suc (suc (suc (suc (suc (suc n))))))) =
    rw
      (
        tcp_late (suc (suc (suc (suc (suc (suc (suc n)))))) + 2) (omega arith),
        tcp_late (suc (suc (suc (suc (suc (suc (suc n)))))) + 1) (omega arith),
      )
      refl

refill_doubles : (n : ℕ) → refill_backoff (n + 2) ≡ min 3600 (2 * refill_backoff (n + 1))
unfolding refill_backoff
refill_doubles zero = refl
refill_doubles (suc zero) = refl
refill_doubles (suc (suc zero)) = refl
refill_doubles (suc (suc (suc zero))) = refl
refill_doubles (suc (suc (suc (suc zero)))) = refl
refill_doubles (suc (suc (suc (suc (suc zero))))) = refl
refill_doubles (suc (suc (suc (suc (suc (suc zero)))))) = refl
refill_doubles (suc (suc (suc (suc (suc (suc (suc zero))))))) = refl
refill_doubles (suc (suc (suc (suc (suc (suc (suc (suc zero)))))))) = refl
refill_doubles (suc (suc (suc (suc (suc (suc (suc (suc (suc zero))))))))) = refl
refill_doubles (suc (suc (suc (suc (suc (suc (suc (suc (suc (suc zero)))))))))) = refl
refill_doubles (suc (suc (suc (suc (suc (suc (suc (suc (suc (suc (suc zero))))))))))) = refl
refill_doubles (suc (suc (suc (suc (suc (suc (suc (suc (suc (suc (suc (suc n)))))))))))) =
    rw
      (
        refill_late (suc (suc (suc (suc (suc (suc (suc (suc (suc (suc (suc (suc n))))))))))) + 2)
            (omega arith),
        refill_late (suc (suc (suc (suc (suc (suc (suc (suc (suc (suc (suc (suc n))))))))))) + 1)
            (omega arith),
      )
      refl

-- Each failure in a row doubles the time that the TCP fallback waits, from 30 seconds up to an
-- hour, and the time that a pool waits to be refilled, from one second up to an hour.
pub backoff_doubles :
    (n : ℕ)
    → (tcp_fallback_backoff 1 ≡ 30)
      × (tcp_fallback_backoff (n + 2) ≡ min 3600 (2 * tcp_fallback_backoff (n + 1)))
      × (refill_backoff 1 ≡ 1)
      × (refill_backoff (n + 2) ≡ min 3600 (2 * refill_backoff (n + 1)))
unfolding tcp_fallback_backoff refill_backoff
backoff_doubles n = (refl, tcp_doubles n, refl, refill_doubles n)

-- Every data centre that `normalize_dc` answers has a fallback address.
pub normalize_dc-fallback_ip :
    (index : ℤ) (force_test : Bool) (dc : ℕ) (media test : Bool)
    → IsI16 index
    → normalize_dc index force_test ≡ ok (dc, media, test)
    → fallback_ip dc test ≢ none
unfolding fallback_ip
normalize_dc-fallback_ip index force_test dc media true h e =
    let (far, named) = (normalize_dc_iff index force_test dc media true h).0 e in
    ground (arith, named.2, named.3 refl)
normalize_dc-fallback_ip index force_test dc media false h e =
    let (far, named) = (normalize_dc_iff index force_test dc media false h).0 e in
    ground (arith, named.2)
