-- ===== src/H2/Lanes/Accounts.antt =====
-- The accounts of a lane's streams against the requests that are alive, over every sequence of the
-- tasks' operations.
use tg_ws_keenetic.Base.{
  ℕ, zero, suc, ◌≤◌, ◌≡◌, refl, sym, ap, ◌∙◌, ◌≢◌, Bool, true, Option, none, some, List, [], ◌∷◌,
  ◌++◌, arith, ◌==◌, if◌then◌else◌, either, Result,
}
use tg_ws_keenetic.H2.Lanes.{
  Lane, new_lane, retain_driver, stop_driver, invalidate_connection, invalidate_connection_if_idle,
  drop_guard, connection_finished, Admission, admitted, admit_request, abort, start_close,
  reap_if_quiescent,
}
use tg_ws_keenetic.H2.Lanes.Connect.{publish}

-- How often a generation stands among those of the guards.
abbrev pub occurrences : ℕ → List ℕ → ℕ
occurrences g [] = 0
occurrences g (j ∷ guards) = if g == j then suc (occurrences g guards) else occurrences g guards

abbrev pub as_count : ℕ → Option ℕ
as_count zero = none
as_count (suc n) = some (suc n)

module _ (usize_max : ℕ) (is_finished is_alive : ℕ → Bool) where
  -- One operation of one task, on a lane and the generations of the guards that are alive.
  pub data Step : Lane → List ℕ → Lane → List ℕ → Type 0 where
    admits :
        (l l' : Lane) (guards : List ℕ) (submitted : Bool) (g : ℕ)
        → admit_request submitted g l ≡ (admitted, l')
        → Step l guards l' (g ∷ guards)
    turns_away :
        (l l' : Lane) (guards : List ℕ) (submitted : Bool) (g : ℕ) (answer : Admission)
        → answer ≢ admitted
        → admit_request submitted g l ≡ (answer, l')
        → Step l guards l' guards
    ends :
        (l l' : Lane) (before behind all left : List ℕ) (g : ℕ)
        → l' ≡ drop_guard is_finished g l
        → all ≡ before ++ (g ∷ behind)
        → left ≡ before ++ behind
        → Step l all l' left
    times_out :
        (l l' : Lane) (guards : List ℕ) (g : ℕ) (answer : Bool)
        → invalidate_connection_if_idle is_finished g l ≡ (answer, l')
        → Step l guards l' guards
    gives_up :
        (l l' : Lane) (guards : List ℕ) (g : ℕ)
        → l' ≡ invalidate_connection is_finished g l
        → Step l guards l' guards
    finishes :
        (l l' : Lane) (guards : List ℕ) (g : ℕ)
        → l' ≡ connection_finished g l
        → Step l guards l' guards
    publishes :
        (l l' : Lane) (guards : List ℕ) (sender task : ℕ) (answer : Result (ℕ × ℕ))
        → publish usize_max is_finished sender task l ≡ (answer, l')
        → Step l guards l' guards
    closes :
        (l l' : Lane) (guards failed : List ℕ)
        → abort is_alive l ≡ (l', failed)
        → Step l guards l' guards
    settles :
        (l l' : Lane) (guards tasks : List ℕ)
        → start_close is_alive l ≡ (l', tasks)
        → Step l guards l' guards
    reaps :
        (l l' : Lane) (guards : List ℕ) (answer : Bool)
        → reap_if_quiescent is_alive is_finished l ≡ (answer, l')
        → Step l guards l' guards

  pub data Reachable : Lane → List ℕ → Type 0 where
    begins : Reachable new_lane []
    then_step :
        (l l' : Lane) (guards guards' : List ℕ)
        → Reachable l guards
        → Step l guards l' guards'
        → Reachable l' guards'

-- Each generation's count is that of its guards, only generations with a guard are marked, and a
-- closed lane has no sender.
pub record IsAccounted (l : Lane) (guards : List ℕ) : Type 0 where
  pub counted : (g : ℕ) → l.counts g ≡ as_count (occurrences g guards)
  pub marked : (g : ℕ) → l.invalidate_when_idle g ≡ true → 1 ≤ occurrences g guards
  pub shut : l.closed ≡ true → l.sender ≡ none

-- Where nothing but the connection's parts differ.
pub record IsKept (l l' : Lane) : Type 0 where
  pub same_counts : l'.counts ≡ l.counts
  pub same_marks : l'.invalidate_when_idle ≡ l.invalidate_when_idle
  pub still_shut : (l.closed ≡ true → l.sender ≡ none) → l'.closed ≡ true → l'.sender ≡ none

pub IsKept-IsAccounted :
    (l l' : Lane) (guards : List ℕ) → IsKept l l' → IsAccounted l guards → IsAccounted l' guards
IsKept-IsAccounted l l' guards k h = record {
  counted = λ g. ap (λ f. f g) k.same_counts ∙ h.counted g;
  marked = λ g e. h.marked g (sym (ap (λ f. f g) k.same_marks) ∙ e);
  shut = k.still_shut h.shut;
}

module _ (is_finished : ℕ → Bool) where
  pub stop_driver-IsKept :
      (driver : Option ℕ) (l : Lane) → IsKept l (stop_driver is_finished driver l)
  unfolding stop_driver retain_driver
  stop_driver-IsKept none l = record { same_counts = refl; same_marks = refl; still_shut = λ h. h }
  stop_driver-IsKept (some task) l = record {
    same_counts = refl;
    same_marks = refl;
    still_shut = λ h. h;
  }

  pub stop_driver-sender :
      (driver : Option ℕ) (l : Lane)
      → ((stop_driver is_finished driver l).sender ≡ l.sender)
        × ((stop_driver is_finished driver l).generation ≡ l.generation)
  unfolding stop_driver retain_driver
  stop_driver-sender none l = (refl, refl)
  stop_driver-sender (some task) l = (refl, refl)

  pub invalidate_connection-IsKept :
      (g : ℕ) (l : Lane) → IsKept l (invalidate_connection is_finished g l)
  unfolding invalidate_connection
  invalidate_connection-IsKept g l =
      let k = stop_driver-IsKept l.driver (record l { sender = none }) in
      either (IsKept l) (l.generation == g)
        (λ _. record {
          same_counts = k.same_counts;
          same_marks = k.same_marks;
          still_shut = λ h. k.still_shut (λ _. refl);
        })
        (λ _. record { same_counts = refl; same_marks = refl; still_shut = λ h. h })

  -- The connection of a generation is gone.
  abbrev pub IsGone : ℕ → Lane → Type 0
  IsGone g l = l.generation ≡ g → l.sender ≡ none

  pub invalidate_connection-IsGone :
      (g : ℕ) (l : Lane) → IsGone g (invalidate_connection is_finished g l)
  unfolding invalidate_connection
  invalidate_connection-IsGone g l =
      let gone = stop_driver-sender l.driver (record l { sender = none }) in
      either (IsGone g) (l.generation == g) (λ _ _. gone.0) (λ other e. absurd (ground arith))
