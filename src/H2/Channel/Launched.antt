-- ===== src/H2/Channel/Launched.antt =====
-- Sending an original and sending a packet again keep the channel's invariant.
use tg_ws_keenetic.Base.{
  ℕ, ◌+◌, ◌%◌, ◌≤◌, ◌<◌, ◌≡◌, refl, sym, ap, ◌∙◌, inl, inr, true, false, ◌||◌, Option, none, some,
  List, [], ◌∷◌, ◌++◌, arith, ltb, ◌==◌, Bool-cases, length, take, replicate, All,
}
use tg_ws_keenetic.Base.Maps.{insert}
use tg_ws_keenetic.Base.Bytes.{Bytes, bytes_eq, bytes_eq→eq}
use native.Mathlib.Nat.{mod-eq_of_lt}
use tg_ws_keenetic.H2.Budget.{BudgetState, Budget, BudgetPermit, try_acquire}
use tg_ws_keenetic.H2.Channel.State.{replay_history_bytes, ReplayEntry, ChannelState, is_some}
use tg_ws_keenetic.H2.Channel.History.{
  update_entry, new_entry, add_to_body, Remembered, trimmed, remember_new, remember_found, same_key,
  keyed, remember,
}
use tg_ws_keenetic.H2.Channel.Requests.{attempt, in_flight, pend, launch_as, replayable, launch}
use tg_ws_keenetic.H2.Channel.Entries.{
  IsRising, update_entry-IsRising, add_to_body-IsRising, IsBefore, append-IsRising, trim-IsRising,
  update_entry-All, add_to_body-All, append-All, trim-All, map-All, SameSize, update_entry-SameSize,
  trim-bounds,
}
use tg_ws_keenetic.H2.Channel.Invariant.{
  count_replays-insert, IsKeyed, IsWithinAttempts, IsNumbered, HasAttempt, Holds, carry-IsReady,
}
use tg_ws_keenetic.H2.Channel.Preserved.{pending-Holds, others-Holds}

module _ (c : Option (ℕ × Bytes)) where
  trimmed-Holds :
      (sequence now : ℕ) (s : ChannelState) (history : List ReplayEntry) (shared : BudgetState)
      → s.closed ≡ false
      → Holds c s
      → All (IsKeyed s.replay_key) history
      → All IsWithinAttempts history
      → IsRising history
      → All (IsNumbered s.next_request) history
      → ((n : ℕ) → All (HasAttempt n) s.history → All (HasAttempt n) history)
      → Holds c (trimmed sequence now s history shared).1
  unfolding trimmed
  trimmed-Holds sequence now s history shared open_still h keyed_alike attempts_fit rising numbered
        ready =
      let fuel = length history in
      let bounds = trim-bounds fuel now history shared (omega arith) in
      record {
        sound = record {
          few = ground (arith, bounds);
          small = ground (arith, bounds);
          keyed_alike = trim-All (IsKeyed s.replay_key) fuel now history shared keyed_alike;
          attempts_fit = trim-All IsWithinAttempts fuel now history shared attempts_fit;
          rising = trim-IsRising fuel now history shared rising;
          numbered = trim-All (IsNumbered s.next_request) fuel now history shared numbered;
          replies_fit = h.sound.replies_fit;
          replays_fit = h.sound.replays_fit;
          ends_empty = λ q. cc;
        };
        ready =
            carry-IsReady c s _ (omega arith)
              (λ n r. trim-All (HasAttempt n) fuel now history shared (ready n r)) h.ready;
      }

  keyed-Holds :
      (key : Bytes) (s : ChannelState) (shared : BudgetState)
      → Holds c s
      → Holds c (keyed key s shared).0
  unfolding keyed
  keyed-Holds key s shared h = elim (Bool-cases (same_key s.replay_key key)) [
    | inl t ↦ simp t h
    | inr f ↦ simp f (record {
      sound = record {
        few = omega arith;
        small = omega arith;
        keyed_alike = tt;
        attempts_fit = tt;
        rising = tt;
        numbered = tt;
        replies_fit = h.sound.replies_fit;
        replays_fit = h.sound.replays_fit;
        ends_empty = λ q. refl;
      };
      ready = carry-IsReady c s _ (omega arith) (λ n r. tt) h.ready;
    })
  ]

  remember_new-Holds :
      (body : Bytes) (request now : ℕ) (s : ChannelState) (shared : BudgetState)
      → (o : Option (BudgetState × BudgetPermit)) → s.closed ≡ false
      → s.replay_key ≡ some (take 8 body)
      → 8 ≤ length body
      → request ≡ s.next_request
      → All (IsBefore request) s.history
      → Holds c s
      → Holds c (remember_new body request now s shared o).1
  unfolding remember_new
  remember_new-Holds body request now s shared none k q l i j h = h
  remember_new-Holds body request now s shared (some (shared', permit)) k q l i j h =
      let e = new_entry now body request permit in
      trimmed-Holds request now s (s.history ++ (e ∷ [])) shared' k h
        (append-All (IsKeyed s.replay_key) s.history e h.sound.keyed_alike (q, l))
        (append-All IsWithinAttempts s.history e h.sound.attempts_fit (omega arith))
        (append-IsRising s.history e j h.sound.rising)
        (append-All (IsNumbered s.next_request) s.history e h.sound.numbered (omega arith))
        (λ n r. append-All (HasAttempt n) s.history e r (λ _. omega arith))

  remember_found-Holds :
      (usize_max : ℕ) (b : Budget) (body : Bytes) (request now : ℕ)
      → (s : ChannelState) (shared : BudgetState) (o : Option ReplayEntry) → s.closed ≡ false
      → s.replay_key ≡ some (take 8 body)
      → 8 ≤ length body
      → request ≡ s.next_request
      → All (IsBefore request) s.history
      → Holds c s
      → Holds c (remember_found usize_max b body request now s shared o).1
  unfolding remember_found
  remember_found-Holds usize_max b body request now s shared none k q l i j h =
      remember_new-Holds body request now s shared (try_acquire usize_max b shared (length body)) k
        q l i j h
  remember_found-Holds usize_max b body request now s shared (some e) k q l i j h =
      trimmed-Holds e.sequence now s (add_to_body body request s.history) shared k h
        (add_to_body-All (IsKeyed s.replay_key) body request s.history (λ e p. p)
          h.sound.keyed_alike)
        (add_to_body-All IsWithinAttempts body request s.history (λ e p. p) h.sound.attempts_fit)
        (add_to_body-IsRising body request s.history h.sound.rising)
        (add_to_body-All (IsNumbered s.next_request) body request s.history (λ e p. p)
          h.sound.numbered)
        (λ n r. add_to_body-All (HasAttempt n) body request s.history (λ e p. p) r)

  same_key→eq : (o : Option Bytes) (key : Bytes) → same_key o key ≡ true → o ≡ some key
  same_key→eq none key h = cc
  same_key→eq (some k) key h = ap some (bytes_eq→eq k key h)

  keyed_lem :
      (key : Bytes) (s : ChannelState) (shared : BudgetState)
      → (ChannelState.replay_key (keyed key s shared).0 ≡ some key)
        × (ChannelState.closed (keyed key s shared).0 ≡ s.closed)
        × (ChannelState.next_request (keyed key s shared).0 ≡ s.next_request)
  unfolding keyed
  keyed_lem key s shared = elim (Bool-cases (same_key s.replay_key key)) [
    | inl t ↦ simp t (same_key→eq s.replay_key key t, refl, refl)
    | inr f ↦ simp f (refl, refl, refl)
  ]

  keyed-All :
      (P : ReplayEntry → Type 0) (key : Bytes) (s : ChannelState) (shared : BudgetState)
      → All P s.history
      → All P (ChannelState.history (keyed key s shared).0)
  unfolding keyed
  keyed-All P key s shared p = elim (Bool-cases (same_key s.replay_key key)) [
    | inl t ↦ simp t p
    | inr f ↦ simp f tt
  ]

  remember-Holds :
      (usize_max : ℕ) (b : Budget) (body : Bytes) (request now : ℕ)
      → (s : ChannelState) (shared : BudgetState) → s.closed ≡ false
      → request ≡ s.next_request
      → All (IsBefore request) s.history
      → Holds c s
      → Holds c (remember usize_max b body request now s shared).1
  unfolding remember
  remember-Holds usize_max b body request now s shared k i j h =
      let key = take 8 body in
      let (q, kept, number) = keyed_lem key s shared in
      elim (Bool-cases (
        ltb replay_history_bytes (length body)
        || ltb (length body) 8
        || bytes_eq key (replicate 8 0))) [
          | inl t ↦ simp t h
          | inr f ↦ simp f (
              remember_found-Holds usize_max b body request now (keyed key s shared).0
                (keyed key s shared).1 _ (kept ∙ k) q (ground (arith, f)) (i ∙ sym number)
                (keyed-All (IsBefore request) key s shared j) (keyed-Holds key s shared h))
        ]

  -- An original that is sent.
  pub launch_original-Holds :
      (usize_max : ℕ) (b : Budget) (now : ℕ) (body : Bytes) (s : ChannelState)
      (shared : BudgetState)
      → s.next_request < usize_max
      → Holds c s
      → Holds c (launch usize_max b now body none s shared).1
  unfolding launch launch_as pend
  launch_original-Holds usize_max b now body s shared l h =
      let request = (s.next_request + 1) % (usize_max + 1) in
      elim (Bool-cases (s.closed || is_some s.terminal)) [
        | inl t ↦ simp t h
        | inr f ↦ simp f (
            pended request
              (remember usize_max b body request now (record s { next_request = request }) shared)
              (remember-Holds usize_max b body request now _ shared (ground (arith, f)) refl
                (map-All s.history (λ e p. omega (arith, next)) h.sound.numbered)
                (others-Holds c s request s.reply_bytes s.terminal s.last_progress s.delivering
                  s.waiting_upload h.sound.replies_fit (omega (arith, next)) h)))
      ]
    where
      next : (s.next_request + 1) % (usize_max + 1) ≡ s.next_request + 1
      next = mod-eq_of_lt (omega arith)

      pended : (request : ℕ) (r : Remembered) → Holds c r.1 → Holds c (pend request false r).1
      pended request (entry, s, shared) h =
          pending-Holds c s (insert request (in_flight false entry) s.pending)
            (omega (arith, count_replays-insert request (in_flight false entry) s.pending)) h

attempted :
    (sequence now request : ℕ) (h : List ReplayEntry)
    → All IsWithinAttempts h
    → All (HasAttempt sequence) h
    → All IsWithinAttempts (update_entry sequence (attempt now request) h)
attempted sequence now request [] p q = tt
attempted sequence now request (e ∷ es) (pe, ps) (qe, qs) =
    elim (Bool-cases (e.sequence == sequence)) [
      | inl t ↦ simp t (omega (arith, qe (ground (arith, t))), ps)
      | inr n ↦ simp n (pe, attempted sequence now request es ps qs)
    ]

-- The replay that has been chosen is sent, or is not possible any more.
pub launch_replay-Holds :
    (usize_max : ℕ) (b : Budget) (now sequence : ℕ) (body : Bytes)
    → (s : ChannelState) (shared : BudgetState) → s.next_request < usize_max
    → Holds (some (sequence, body)) s
    → Holds none (launch usize_max b now body (some sequence) s shared).1
unfolding launch launch_as pend
launch_replay-Holds usize_max b now sequence body s shared l h =
    elim (Bool-cases (s.closed || is_some s.terminal)) [
      | inl t ↦ simp t unchanged
      | inr f ↦ elim (Bool-cases (replayable s sequence)) [
        | inr g ↦ simp (f, g) unchanged
        | inl g ↦ simp (f, g) sent_again
      ]
    ]
  where
    request : ℕ
    request = (s.next_request + 1) % (usize_max + 1)

    next : (s.next_request + 1) % (usize_max + 1) ≡ s.next_request + 1
    next = mod-eq_of_lt (omega arith)

    unchanged : Holds none s
    unchanged = record { sound = h.sound; ready = tt }

    size : SameSize s.history (update_entry sequence (attempt now request) s.history)
    size = update_entry-SameSize sequence (attempt now request) s.history (λ e. refl)

    sent_again : Holds none (record s {
      next_request = request;
      history = update_entry sequence (attempt now request) s.history;
      pending = insert request (in_flight true (some sequence)) s.pending;
    })
    sent_again = record {
      sound = record {
        few = omega (arith, size.count, h.sound.few);
        small = omega (arith, size.size, h.sound.small);
        keyed_alike =
            update_entry-All (IsKeyed s.replay_key) sequence (attempt now request) s.history
              (λ e _ p. p) h.sound.keyed_alike;
        attempts_fit = attempted sequence now request s.history h.sound.attempts_fit h.ready.1;
        rising =
            update_entry-IsRising sequence (attempt now request) s.history (λ e. refl)
              h.sound.rising;
        numbered =
            update_entry-All (IsNumbered request) sequence (attempt now request) s.history
              (λ e _ p. p) (map-All s.history (λ e p. omega (arith, next)) h.sound.numbered);
        replies_fit = h.sound.replies_fit;
        replays_fit = omega (
          arith,
          h.ready.0,
          count_replays-insert request (in_flight true (some sequence)) s.pending,
        );
        ends_empty = λ q. ap (update_entry sequence (attempt now request)) (h.sound.ends_empty q);
      };
      ready = tt;
    }
