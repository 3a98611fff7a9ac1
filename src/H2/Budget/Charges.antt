-- ===== src/H2/Budget/Charges.antt =====
-- Charges on several budgets at once: all of them or none.
use tg_ws_keenetic.Base.{
  ℕ, ◌+◌, ◌≤◌, ◌≡◌, refl, ◌⊎◌, inl, inr, Option, none, some, arith, Bool-cases, ok, err, ErrorKind,
}
use tg_ws_keenetic.H2.Budget.{
  sum_within, BudgetState, Budget, BudgetPermit, try_acquire, try_extend_bytes, shrink_bytes,
  release, max_lane_reply_bytes, Charged, charge_lane, try_extend, Budgets, Limits, Reservation,
  after_process, after_lane, after_channel, try_reserve, give_back,
}

-- `RequestGuard` and `ReplyCharge` never lower what others hold: a permit dropped at once leaves no
-- trace.
acquire-release :
    (usize_max : ℕ) (b : Budget) (s s' : BudgetState) (bytes : ℕ) (p : BudgetPermit)
    → try_acquire usize_max b s bytes ≡ some (s', p)
    → release s' p ≡ s
unfolding try_acquire release
acquire-release usize_max b s s' bytes p e = ground arith

-- What a reservation did: it took nothing, or giving its permits back restores the budgets.
abbrev pub Restores : Budgets → Reservation → Type 0
Restores b (none, b') = b' ≡ b
Restores b (some c, b') = give_back b' c ≡ b

module _ (usize_max : ℕ) (l : Limits) (bytes : ℕ) where
  after_process-Restores :
      (b : Budgets) (channel lane : BudgetState) (cp lp : BudgetPermit)
      → release channel cp ≡ b.channel
      → release lane lp ≡ b.lane
      → (o : Option (BudgetState × BudgetPermit))
      → try_acquire usize_max l.of_process b.process bytes ≡ o
      → Restores b (after_process (record b { channel = channel; lane = lane }) cp lp o)
  unfolding after_process give_back
  after_process-Restores b channel lane cp lp ec el none e = ground (arith, ec, el)
  after_process-Restores b channel lane cp lp ec el (some (s, p)) e =
      let ep : release s p ≡ b.process =
        acquire-release usize_max l.of_process b.process s bytes p e in
      ground (arith, ec, el, ep)

  after_lane-Restores :
      (b : Budgets) (channel : BudgetState) (cp : BudgetPermit)
      → release channel cp ≡ b.channel
      → (o : Option (BudgetState × BudgetPermit)) → try_acquire usize_max l.of_lane b.lane bytes ≡ o
      → Restores b (after_lane usize_max l bytes (record b { channel = channel }) cp o)
  unfolding after_lane
  after_lane-Restores b channel cp ec none e = ground (arith, ec)
  after_lane-Restores b channel cp ec (some (s, p)) e =
      after_process-Restores b channel s cp p ec
        (acquire-release usize_max l.of_lane b.lane s bytes p e)
        (try_acquire usize_max l.of_process b.process bytes) refl

  -- A request is charged to the three budgets together or to none of them: without a capacity the
  -- budgets are what they were, and the permits of a capacity give them back.
  pub try_reserve-Restores : (b : Budgets) → Restores b (try_reserve usize_max l bytes b)
  unfolding try_reserve after_channel
  try_reserve-Restores b = first (try_acquire usize_max l.of_channel b.channel bytes) refl
    where
      first :
          (o : Option (BudgetState × BudgetPermit))
          → try_acquire usize_max l.of_channel b.channel bytes ≡ o
          → Restores b (after_channel usize_max l bytes b o)
      first none e = refl
      first (some (s, p)) e =
          after_lane-Restores b s p (acquire-release usize_max l.of_channel b.channel s bytes p e)
            (try_acquire usize_max l.of_lane b.lane bytes) refl

-- Extending the charge of a reply raises the process budget, its permit, the lane's total and the
-- charge by the bytes, with the lane's total within its bound; or it fails and changes nothing.
pub try_extend_all_or_nothing :
    (usize_max : ℕ) (b : Budget) (bytes : ℕ) (c : Charged)
    → ((try_extend usize_max b bytes c ≡ (err ErrorKind.other, c)))
      ⊎ ((try_extend usize_max b bytes c ≡ (
        ok tt,
        record {
          global = record c.global { bytes = c.global.bytes + bytes };
          permit = record { charged = c.permit.charged + bytes };
          lane_reply_bytes = c.lane_reply_bytes + bytes;
          own = c.own + bytes;
        },
      ))
          × (c.global.bytes + bytes ≤ b.max_bytes)
          × (c.lane_reply_bytes + bytes ≤ max_lane_reply_bytes))
unfolding try_extend charge_lane try_extend_bytes shrink_bytes
try_extend_all_or_nothing usize_max b bytes c =
    elim (Bool-cases (sum_within usize_max c.global.bytes bytes b.max_bytes)) [
      | inr f ↦ inl (simp f refl)
      | inl t ↦
          elim (Bool-cases (sum_within usize_max c.lane_reply_bytes bytes max_lane_reply_bytes)) [
            | inr f ↦ inl (simp (t, f) (ground arith))
            | inl u ↦ inr (simp (t, u) refl, ground arith, ground arith)
          ]
    ]
