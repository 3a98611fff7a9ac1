-- ===== src/H2/Lanes/Requests.antt =====
-- A lane's accounts when a request is admitted and when one ends.
use tg_ws_keenetic.Base.{
  ℕ, zero, suc, ◌+◌, ◌-◌, ◌≤◌, ◌≡◌, refl, sym, ap, ◌∙◌, ◌≢◌, inl, inr, Bool, true, false, none,
  some, List, [], ◌∷◌, ◌++◌, arith, ◌==◌, if◌then◌else◌, Bool-cases, either,
}
use mathlib.Core.Path.{subst}
use tg_ws_keenetic.H2.Channel.State.{is_some}
use tg_ws_keenetic.H2.Lanes.{
  Counts, put, count_or_zero, Lane, invalidate_connection, leave_count, drop_counted, drop_guard,
  Admission, admitted, admit_request,
}
use tg_ws_keenetic.H2.Lanes.Accounts.{
  occurrences, as_count, IsAccounted, IsKept-IsAccounted, invalidate_connection-IsKept,
}

-- The counts where one generation is raised or lowered.
raise_count : (n : ℕ) → some (count_or_zero (as_count n) + 1) ≡ as_count (suc n)
raise_count zero = refl
raise_count (suc n) = ap some (omega arith)

pub admit-counts :
    (c : Counts) (g : ℕ) (guards : List ℕ)
    → ((j : ℕ) → c j ≡ as_count (occurrences j guards))
    → (j : ℕ) → put g (some (count_or_zero (c g) + 1)) c j ≡ as_count (occurrences j (g ∷ guards))
admit-counts c g guards h j =
    either (λ o. o ≡ as_count (if j == g then suc (occurrences j guards) else occurrences j guards))
      (j == g)
      (λ same.
        let e : j ≡ g = ground arith in
        simp same (
          subst (λ i. some (count_or_zero (c i) + 1) ≡ as_count (suc (occurrences j guards))) e
            (ap (λ o. some (count_or_zero o + 1)) (h j) ∙ raise_count (occurrences j guards))))
      (λ other. simp other (h j))

-- What it takes to be admitted, and what it changes.
pub admit_request-admitted :
    (submitted : Bool) (g : ℕ) (l l' : Lane)
    → admit_request submitted g l ≡ (admitted, l')
    → (l.invalidate_when_idle g ≡ false)
      × (l.generation ≡ g)
      × (is_some l.sender ≡ true)
      × (l' ≡ record l { counts = put g (some (count_or_zero (l.counts g) + 1)) l.counts })
unfolding admit_request
admit_request-admitted submitted g l l' e = ground arith

pub admit_request-turned_away :
    (submitted : Bool) (g : ℕ) (l l' : Lane) (answer : Admission)
    → answer ≢ admitted
    → admit_request submitted g l ≡ (answer, l')
    → l' ≡ l
unfolding admit_request
admit_request-turned_away submitted g l l' answer n e = ground arith

pub admits-IsAccounted :
    (l l' : Lane) (guards : List ℕ) (submitted : Bool) (g : ℕ)
    → admit_request submitted g l ≡ (admitted, l')
    → IsAccounted l guards
    → IsAccounted l' (g ∷ guards)
admits-IsAccounted l l' guards submitted g e h =
    let (clean, current, has, same) = admit_request-admitted submitted g l l' e in
    subst (λ m. IsAccounted m (g ∷ guards)) (sym same)
      (record {
        counted = admit-counts l.counts g guards h.counted;
        marked = λ j m. ground (arith, h.marked j m);
        shut = h.shut;
      })

pub occurrences-middle :
    (j g : ℕ) (before behind : List ℕ)
    → occurrences j (before ++ (g ∷ behind)) ≡ occurrences j (g ∷ (before ++ behind))
occurrences-middle j g [] behind = refl
occurrences-middle j g (k ∷ before) behind = ground (arith, occurrences-middle j g before behind)

pub IsAccounted-middle :
    (l : Lane) (g : ℕ) (before behind : List ℕ)
    → IsAccounted l (before ++ (g ∷ behind))
    → IsAccounted l (g ∷ (before ++ behind))
IsAccounted-middle l g before behind h = record {
  counted = λ j. h.counted j ∙ ap as_count (occurrences-middle j g before behind);
  marked = λ j m. omega (arith, h.marked j m, occurrences-middle j g before behind);
  shut = h.shut;
}

module _ (l : Lane) (g : ℕ) (guards : List ℕ) (h : IsAccounted l (g ∷ guards)) where
  counts_after_end :
      (n j : ℕ)
      → occurrences g guards ≡ n
      → put g (as_count n) l.counts j ≡ as_count (occurrences j guards)
  counts_after_end n j e =
      either (λ o. o ≡ as_count (occurrences j guards)) (j == g)
        (λ same.
          let k : j ≡ g = ground arith in
          subst (λ i. as_count n ≡ as_count (occurrences i guards)) (sym k) (ap as_count (sym e)))
        (λ other. simp other at (h.counted j))

  marks_after_end :
      (n j : ℕ)
      → occurrences g guards ≡ suc n
      → l.invalidate_when_idle j ≡ true
      → 1 ≤ occurrences j guards
  marks_after_end n j e m = elim (Bool-cases (j == g)) [
    | inl same ↦
        let k : j ≡ g = ground arith in
        subst (λ i. 1 ≤ occurrences i guards) (sym k) (omega (arith, e))
    | inr other ↦ simp other at (h.marked j m)
  ]

  marks_after_last :
      (j : ℕ) → put g false l.invalidate_when_idle j ≡ true → 1 ≤ occurrences j guards
  marks_after_last j m = elim (Bool-cases (j == g)) [
    | inl same ↦ cc (simp same at m)
    | inr other ↦ simp other at (h.marked j (simp other at m))
  ]

  unmarked_after_last :
      occurrences g guards ≡ 0
      → l.invalidate_when_idle g ≡ false
      → (j : ℕ) → l.invalidate_when_idle j ≡ true
      → 1 ≤ occurrences j guards
  unmarked_after_last e u j m = elim (Bool-cases (j == g)) [
    | inl same ↦
        let k : j ≡ g = ground arith in
        absurd (subst (λ i. l.invalidate_when_idle i ≡ true → ⊥) (sym k) (λ t. cc) m)
    | inr other ↦ simp other at (h.marked j m)
  ]

module _ (is_finished : ℕ → Bool) where
  pub leave_count-IsAccounted :
      (l : Lane) (g : ℕ) (guards : List ℕ) (n : ℕ)
      → occurrences g guards ≡ n
      → IsAccounted l (g ∷ guards)
      → IsAccounted (leave_count is_finished g n l) guards
  unfolding leave_count
  leave_count-IsAccounted l g guards (suc n) e h = record {
    counted = λ j. counts_after_end l g guards h (suc n) j e;
    marked = λ j. marks_after_end l g guards h n j e;
    shut = h.shut;
  }
  leave_count-IsAccounted l g guards zero e h =
      let clean = record l {
        counts = put g none l.counts;
        invalidate_when_idle = put g false l.invalidate_when_idle;
      } in
      either (λ m. IsAccounted m guards) (l.invalidate_when_idle g)
        (λ _.
          IsKept-IsAccounted clean (invalidate_connection is_finished g clean) guards
            (invalidate_connection-IsKept is_finished g clean)
            (record {
              counted = λ j. counts_after_end l g guards h zero j e;
              marked = marks_after_last l g guards h;
              shut = h.shut;
            }))
        (λ unmarked. record {
          counted = λ j. counts_after_end l g guards h zero j e;
          marked = unmarked_after_last l g guards h e unmarked;
          shut = h.shut;
        })

  pub drop_guard-one :
      (l : Lane) (g : ℕ) (guards : List ℕ)
      → IsAccounted l (g ∷ guards)
      → drop_guard is_finished g l ≡ leave_count is_finished g (occurrences g guards) l
  unfolding drop_guard drop_counted
  drop_guard-one l g guards h =
      let here : l.counts g ≡ some (suc (occurrences g guards)) = ground (arith, h.counted g) in
      let less : suc (occurrences g guards) - 1 ≡ occurrences g guards = omega arith in
      rw (here, less) refl

  pub ends-IsAccounted :
      (l : Lane) (g : ℕ) (guards : List ℕ)
      → IsAccounted l (g ∷ guards)
      → IsAccounted (drop_guard is_finished g l) guards
  ends-IsAccounted l g guards h =
      subst (λ m. IsAccounted m guards) (sym (drop_guard-one l g guards h))
        (leave_count-IsAccounted l g guards (occurrences g guards) refl h)

-- Marking a generation that has requests alive, and clearing the mark of one that has none.
pub mark-IsAccounted :
    (l : Lane) (guards : List ℕ) (g : ℕ)
    → 1 ≤ occurrences g guards
    → IsAccounted l guards
    → IsAccounted (record l { invalidate_when_idle = put g true l.invalidate_when_idle }) guards
mark-IsAccounted l guards g k h = record {
  counted = h.counted;
  marked = λ j m. elim (Bool-cases (j == g)) [
    | inl same ↦ let e : j ≡ g = ground arith in subst (λ i. 1 ≤ occurrences i guards) (sym e) k
    | inr other ↦ h.marked j (simp other at m)
  ];
  shut = h.shut;
}

pub clear-IsAccounted :
    (l : Lane) (guards : List ℕ) (g : ℕ)
    → IsAccounted l guards
    → IsAccounted (record l { invalidate_when_idle = put g false l.invalidate_when_idle }) guards
clear-IsAccounted l guards g h = record {
  counted = h.counted;
  marked = λ j m. elim (Bool-cases (j == g)) [
    | inl same ↦ cc (simp same at m)
    | inr other ↦ h.marked j (simp other at m)
  ];
  shut = h.shut;
}

pub count-occurrences :
    (l : Lane) (guards : List ℕ) (g : ℕ)
    → IsAccounted l guards
    → count_or_zero (l.counts g) ≡ occurrences g guards
count-occurrences l guards g h = count (occurrences g guards) (h.counted g)
  where
    count : (n : ℕ) → l.counts g ≡ as_count n → count_or_zero (l.counts g) ≡ n
    count zero e = ap count_or_zero e
    count (suc n) e = ap count_or_zero e
