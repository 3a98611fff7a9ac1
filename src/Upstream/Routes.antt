-- ===== src/Upstream/Routes.antt =====
-- The tables and the waiting times of `src/upstream.rs`, in seconds.
use tg_ws_keenetic.Base.{
  ℕ, ◌-◌, ◌*◌, ◌^◌, min, Bool, true, false, Option, none, some, [], ◌∷◌, ◌==◌, if◌then◌else◌,
}
use tg_ws_keenetic.Base.Bytes.{Bytes}

-- `(1u64 << failures.saturating_sub(1).min(12)).min(3600)`.
unfoldable pub refill_backoff : ℕ → ℕ
refill_backoff failures = min (2 ^ min (failures - 1) 12) 3600

unfoldable pub tcp_fallback_backoff : ℕ → ℕ
tcp_fallback_backoff failures = min (30 * 2 ^ min (failures - 1) 7) 3600

-- An IPv4 address as its four numbers.
abbrev pub Address : Type 0
Address = Bytes

unfoldable pub fallback_ip : ℕ → Bool → Option Address
fallback_ip dc true =
    if dc == 1
    then some (149 ∷ 154 ∷ 175 ∷ 10 ∷ [])
    else if dc == 2
    then some (149 ∷ 154 ∷ 167 ∷ 40 ∷ [])
    else if dc == 3
    then some (149 ∷ 154 ∷ 175 ∷ 117 ∷ [])
    else none
fallback_ip dc false =
    if dc == 1
    then some (149 ∷ 154 ∷ 175 ∷ 50 ∷ [])
    else if dc == 2
    then some (149 ∷ 154 ∷ 167 ∷ 51 ∷ [])
    else if dc == 3
    then some (149 ∷ 154 ∷ 175 ∷ 100 ∷ [])
    else if dc == 4
    then some (149 ∷ 154 ∷ 167 ∷ 91 ∷ [])
    else if dc == 5
    then some (149 ∷ 154 ∷ 171 ∷ 5 ∷ [])
    else if dc == 203
    then some (91 ∷ 105 ∷ 192 ∷ 100 ∷ [])
    else none
