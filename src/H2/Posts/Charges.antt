-- ===== src/H2/Posts/Charges.antt =====
-- The charge of a reply while its body comes in.
use tg_ws_keenetic.Base.{ℕ, ◌+◌, ◌≡◌, refl, inl, inr, not, Option, none, some, arith, either}
use tg_ws_keenetic.H2.Budget.{
  sum_within, BudgetState, Budget, BudgetPermit, try_acquire, release, max_lane_reply_bytes,
  Charged, drop_charge,
}
use tg_ws_keenetic.H2.Budget.Charges.{try_extend_all_or_nothing}
use tg_ws_keenetic.H2.Posts.{
  Account, Outcome, charge_chunk, charge_global, charge_reply, charged, extended, fails, gives,
  settled, transport, uncharged,
}

module _ (global : BudgetState) (lane : ℕ) where
  -- A charge of `n` bytes on top of what others hold.
  abbrev pub charge_of : ℕ → Charged
  charge_of n = record {
    global = record { requests = global.requests + 1; bytes = global.bytes + n };
    permit = record { charged = n };
    lane_reply_bytes = lane + n;
    own = n;
  }

  -- Nothing is charged yet, with no byte received, or one charge of the bytes.
  pub data Holds : ℕ → Account → Type 0 where
    none_yet : Holds 0 (uncharged global lane)
    one : (n : ℕ) → Holds n (charged (charge_of n))

  pub Holds-settled : (n : ℕ) (a : Account) → Holds n a → settled a ≡ uncharged global lane
  unfolding settled drop_charge release
  Holds-settled _ _ Holds.none_yet = refl
  Holds-settled _ _ (Holds.one n) = ground arith

module _ (usize_max : ℕ) (b : Budget) (global : BudgetState) (lane : ℕ) where
  -- A step of the charge: on success so many bytes more, on failure the account of before.
  abbrev pub Charges : ℕ → ℕ → Outcome (Unit {0}) × Account → Type 0
  Charges n more (fails (transport z), a) = ⊥
  Charges n more (fails e, a) = settled a ≡ uncharged global lane
  Charges n more (gives _, a) = a ≡ charged (charge_of global lane (n + more))

  charge_global-Charges :
      (bytes : ℕ) (o : Option (BudgetState × BudgetPermit))
      → try_acquire usize_max b global bytes ≡ o
      → Charges 0 bytes (charge_global usize_max b bytes global lane o)
  unfolding charge_global settled try_acquire release
  charge_global-Charges bytes none e = refl
  charge_global-Charges bytes (some (s, p)) e =
      either (Charges 0 bytes) (not (sum_within usize_max lane bytes max_lane_reply_bytes))
        (λ _. ground arith) (λ _. ground arith)

  pub charge_reply-Charges :
      (bytes : ℕ) → Charges 0 bytes (charge_reply usize_max b bytes global lane)
  unfolding charge_reply
  charge_reply-Charges bytes =
      charge_global-Charges bytes (try_acquire usize_max b global bytes) refl

  pub charge_chunk-Charges :
      (n bytes : ℕ) (a : Account)
      → Holds global lane n a
      → Charges n bytes (charge_chunk usize_max b bytes a)
  unfolding charge_chunk extended
  charge_chunk-Charges _ bytes _ Holds.none_yet = charge_reply-Charges bytes
  charge_chunk-Charges _ bytes _ (Holds.one n) =
      elim (try_extend_all_or_nothing usize_max b bytes (charge_of global lane n)) [
        | inl e ↦
            rw e (Holds-settled global lane n (charged (charge_of global lane n)) (Holds.one n))
        | inr (e, room, lane_room) ↦ rw e (ground arith)
      ]
