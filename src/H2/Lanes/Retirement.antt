-- ===== src/H2/Lanes/Retirement.antt =====
-- How a generation is given up that has requests alive: it admits no more of them, and the last one
-- takes the connection down.
use tg_ws_keenetic.Base.{
  ℕ, zero, suc, ◌≤◌, ◌≡◌, refl, sym, ap, ◌∙◌, ◌↔◌, ◌⊎◌, inl, inr, Bool, true, false, not, none,
  List, ◌∷◌, ◌++◌, arith, ◌==◌, Bool-cases, either,
}
use mathlib.Core.Path.{subst}
use tg_ws_keenetic.H2.Lanes.{
  put, count_or_zero, Lane, invalidate_connection, invalidate_connection_if_idle, leave_count,
}
use tg_ws_keenetic.H2.Lanes.Accounts.{
  occurrences, Step, Reachable, IsAccounted, IsKept, IsGone, invalidate_connection-IsGone,
  invalidate_connection-IsKept,
}
use tg_ws_keenetic.H2.Lanes.Requests.{
  admit_request-admitted, admit_request-turned_away, IsAccounted-middle, occurrences-middle,
  count-occurrences, drop_guard-one,
}
use tg_ws_keenetic.H2.Lanes.Kept.{
  connection_finished-IsKept, publish-IsKept, abort-IsKept, start_close-IsKept, reap-IsKept,
}
use tg_ws_keenetic.H2.Lanes.Connect.{Connected}
use tg_ws_keenetic.H2.Lanes.Reached.{reachable-IsAccounted}

module _ (usize_max : ℕ) (is_finished is_alive : ℕ → Bool) where
  -- In every lane that the tasks' operations reach, a time-out of a generation's stream tells that
  -- the connection was given up exactly when no request of that generation is alive, and the
  -- connection is then gone; otherwise it keeps the connection and marks the generation.
  pub invalidate_connection_if_idle_protects :
      (l : Lane) (guards : List ℕ) (g : ℕ)
      → Reachable usize_max is_finished is_alive l guards
      → (((invalidate_connection_if_idle is_finished g l).0 ≡ true) ↔ (occurrences g guards ≡ 0))
        × (occurrences g guards ≡ 0
            → IsGone is_finished g (invalidate_connection_if_idle is_finished g l).1)
        × (1 ≤ occurrences g guards
            → (invalidate_connection_if_idle is_finished g l).1
              ≡ record l { invalidate_when_idle = put g true l.invalidate_when_idle })
  unfolding invalidate_connection_if_idle
  invalidate_connection_if_idle_protects l guards g r =
      let n =
        count-occurrences l guards g
          (reachable-IsAccounted usize_max is_finished is_alive l guards r) in
      let clean = record l { invalidate_when_idle = put g false l.invalidate_when_idle } in
      let P : Bool × Lane → Type 0 = λ a.
        ((a.0 ≡ true) ↔ (occurrences g guards ≡ 0))
        × (occurrences g guards ≡ 0 → IsGone is_finished g a.1)
        × (1 ≤ occurrences g guards
            → a.1 ≡ record l { invalidate_when_idle = put g true l.invalidate_when_idle }) in
      either P (not (count_or_zero (l.counts g) == 0))
        (λ busy. (
          (λ e. cc e, λ z. absurd (ground (arith, n))),
          λ z. absurd (ground (arith, n)),
          λ _. refl,
        ))
        (λ idle. (
          (λ _. ground (arith, n), λ _. refl),
          λ _. invalidate_connection-IsGone is_finished g clean,
          λ k. absurd (ground (arith, n)),
        ))

  -- What one operation leaves of a generation that is marked, with so many requests alive: still
  -- marked, with no request more; or none alive and its connection gone.
  abbrev pub RetiresFrom : ℕ → ℕ → Lane → List ℕ → Type 0
  RetiresFrom g n l' guards' =
      ((l'.invalidate_when_idle g ≡ true) × (occurrences g guards' ≤ n))
      ⊎ ((occurrences g guards' ≡ 0) × IsGone is_finished g l')

  abbrev pub Retires : ℕ → List ℕ → Lane → List ℕ → Type 0
  Retires g guards = RetiresFrom g (occurrences g guards)

  kept-Retires :
      (l l' : Lane) (guards : List ℕ) (g : ℕ)
      → IsKept l l'
      → l.invalidate_when_idle g ≡ true
      → Retires g guards l' guards
  kept-Retires l l' guards g k m = inl (ap (λ f. f g) k.same_marks ∙ m, omega arith)

  unmarked :
      (l : Lane) (g j : ℕ)
      → (g == j) ≡ true
      → l.invalidate_when_idle j ≡ false
      → l.invalidate_when_idle g ≡ true
      → ⊥
  unmarked l g j one clean m =
      let e : g ≡ j = ground arith in
      subst (λ i. l.invalidate_when_idle i ≡ true → ⊥) (sym e) (λ t. cc) m

  leave_count-Retires :
      (l : Lane) (g j : ℕ) (guards : List ℕ) (n : ℕ)
      → occurrences j guards ≡ n
      → l.invalidate_when_idle g ≡ true
      → Retires g (j ∷ guards) (leave_count is_finished j n l) guards
  unfolding leave_count
  leave_count-Retires l g j guards (suc n) e m = inl (m, ground arith)
  leave_count-Retires l g j guards zero e m =
      let clean = record l {
        counts = put j none l.counts;
        invalidate_when_idle = put j false l.invalidate_when_idle;
      } in
      let fewer : occurrences g guards ≤ occurrences g (j ∷ guards) = ground arith in
      either (λ x. Retires g (j ∷ guards) x guards) (l.invalidate_when_idle j)
        (λ _. elim (Bool-cases (g == j)) [
          | inl one ↦
              let k : g ≡ j = ground arith in
              inr (
                ap (λ i. occurrences i guards) k ∙ e,
                subst (λ i. IsGone is_finished i (invalidate_connection is_finished j clean))
                    (sym k) (invalidate_connection-IsGone is_finished j clean),
              )
          | inr other ↦ inl (
            ap (λ f. f g) (invalidate_connection-IsKept is_finished j clean).same_marks
                ∙ simp other m,
            fewer,
          )
        ])
        (λ _. inl (m, fewer))

  times_out-Retires :
      (l : Lane) (guards : List ℕ) (g j : ℕ)
      → IsAccounted l guards
      → l.invalidate_when_idle g ≡ true
      → Retires g guards (invalidate_connection_if_idle is_finished j l).1 guards
  unfolding invalidate_connection_if_idle
  times_out-Retires l guards g j h m =
      let clean = record l { invalidate_when_idle = put j false l.invalidate_when_idle } in
      let P : Bool × Lane → Type 0 = λ r. Retires g guards r.1 guards in
      either P (not (count_or_zero (l.counts j) == 0))
        (λ busy. inl (either (λ b. b ≡ true) (g == j) (λ _. refl) (λ _. m), omega arith))
        (λ idle. elim (Bool-cases (g == j)) [
          | inl one ↦
              let k : g ≡ j = ground arith in
              let few : 1 ≤ occurrences j guards =
                subst (λ i. 1 ≤ occurrences i guards) k (h.marked g m) in
              absurd (ground (arith, count-occurrences l guards j h))
          | inr other ↦
              kept-Retires clean _ guards g (invalidate_connection-IsKept is_finished j clean)
                (simp other m)
        ])

  -- In every lane that the tasks' operations reach, whatever operation comes next on a generation
  -- that is marked to be given up: it stays marked and gets no request more, or none of its
  -- requests is alive and its connection is gone.
  pub step-Retires :
      (l l' : Lane) (guards guards' : List ℕ) (g : ℕ)
      → Reachable usize_max is_finished is_alive l guards
      → Step usize_max is_finished is_alive l guards l' guards'
      → l.invalidate_when_idle g ≡ true
      → Retires g guards l' guards'
  step-Retires _ _ _ _ g r (Step.admits l l' guards submitted j e) m =
      let (clean, current, has, same) = admit_request-admitted submitted j l l' e in
      subst (λ x. Retires g guards x (j ∷ guards)) (sym same)
        (inl (
          m,
          elim (Bool-cases (g == j)) [
            | inl one ↦ absurd (unmarked l g j one clean m)
            | inr other ↦ simp other (omega arith)
          ],
        ))
  step-Retires _ _ _ _ g r (Step.turns_away l l' guards submitted j answer n e) m =
      subst (λ x. Retires g guards x guards)
        (sym (admit_request-turned_away submitted j l l' answer n e)) (inl (m, omega arith))
  step-Retires _ _ _ _ g r (Step.ends l l' before behind all left j e a b) m =
      let h =
        subst (IsAccounted l) a (reachable-IsAccounted usize_max is_finished is_alive l all r) in
      subst (λ x. Retires g x l' left) (sym a)
        (subst (λ x. Retires g (before ++ (j ∷ behind)) l' x) (sym b)
          (subst (λ x. Retires g (before ++ (j ∷ behind)) x (before ++ behind))
            (sym (e ∙ drop_guard-one is_finished l j _ (IsAccounted-middle l j before behind h)))
            (subst
              (λ n.
                RetiresFrom g n (leave_count is_finished j (occurrences j (before ++ behind)) l)
                  (before ++ behind))
              (sym (occurrences-middle g j before behind))
              (leave_count-Retires l g j (before ++ behind) (occurrences j (before ++ behind)) refl
                m))))
  step-Retires _ _ _ _ g r (Step.times_out l l' guards j answer e) m =
      subst (λ x. Retires g guards x guards) (ap (λ c. c.1) e)
        (times_out-Retires l guards g j
          (reachable-IsAccounted usize_max is_finished is_alive l guards r) m)
  step-Retires _ _ _ _ g r (Step.gives_up l l' guards j e) m =
      subst (λ x. Retires g guards x guards) (sym e)
        (kept-Retires l _ guards g (invalidate_connection-IsKept is_finished j l) m)
  step-Retires _ _ _ _ g r (Step.finishes l l' guards j e) m =
      subst (λ x. Retires g guards x guards) (sym e)
        (kept-Retires l _ guards g (connection_finished-IsKept usize_max is_finished is_alive j l)
          m)
  step-Retires _ _ _ _ g r (Step.publishes l l' guards sender task answer e) m =
      subst (λ x. Retires g guards x guards) (ap (λ (c : Connected). c.1) e)
        (kept-Retires l _ guards g (publish-IsKept usize_max is_finished is_alive sender task l) m)
  step-Retires _ _ _ _ g r (Step.closes l l' guards failed e) m =
      subst (λ x. Retires g guards x guards) (ap (λ c. c.0) e)
        (kept-Retires l _ guards g (abort-IsKept usize_max is_finished is_alive l) m)
  step-Retires _ _ _ _ g r (Step.settles l l' guards tasks e) m =
      subst (λ x. Retires g guards x guards) (ap (λ c. c.0) e)
        (kept-Retires l _ guards g (start_close-IsKept usize_max is_finished is_alive l) m)
  step-Retires _ _ _ _ g r (Step.reaps l l' guards answer e) m =
      subst (λ x. Retires g guards x guards) (ap (λ c. c.1) e)
        (kept-Retires l _ guards g (reap-IsKept usize_max is_finished is_alive l) m)
