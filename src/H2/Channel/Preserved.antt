-- ===== src/H2/Channel/Preserved.antt =====
-- The operations on the channel's state keep its invariant.
use tg_ws_keenetic.Base.{
  ℕ, ◌+◌, ◌-◌, ◌≤◌, refl, ap, inl, inr, Bool, ◌||◌, Option, none, some, List, [], ◌∷◌, arith,
  if◌then◌else◌, Bool-cases, All,
}
use tg_ws_keenetic.Base.Maps.{lookup, retain}
use tg_ws_keenetic.Base.Bytes.{Bytes}
use tg_ws_keenetic.H2.Budget.{sum_within, BudgetState}
use tg_ws_keenetic.H2.Channel.State.{
  max_channel_reply_bytes, ReplyId, ReplayEntry, Pending, Terminal, ChannelState, is_some, is_empty,
  fail,
}
use tg_ws_keenetic.H2.Channel.History.{is_live, prune}
use tg_ws_keenetic.H2.Channel.Requests.{
  sent, mark_sent, started, mark_started, headers_arrived, mark_receiving, progress, entry_of,
  replied, note_reply, consume, deliver,
}
use tg_ws_keenetic.H2.Channel.Replays.{count_replays}
use tg_ws_keenetic.H2.Channel.Entries.{retain-IsRising, retain-All, map-All, retain-smaller}
use tg_ws_keenetic.H2.Channel.Invariant.{
  count_replays-update, IsKeyed, IsWithinAttempts, IsNumbered, HasAttempt, Holds, carry-IsReady,
  update_entry-Holds,
}

module _ (c : Option (ℕ × Bytes)) where
  pub fail-Holds :
      (terminal : Terminal) (s : ChannelState) (shared : BudgetState)
      → Holds c s
      → Holds c (fail terminal s shared).0
  unfolding fail
  fail-Holds terminal s shared h = elim (Bool-cases s.closed) [
    | inl t ↦ simp t h
    | inr n ↦ simp n (record {
      sound = record {
        few = omega arith;
        small = omega arith;
        keyed_alike = tt;
        attempts_fit = tt;
        rising = tt;
        numbered = tt;
        replies_fit = h.sound.replies_fit;
        replays_fit = h.sound.replays_fit;
        ends_empty = λ q. refl;
      };
      ready = carry-IsReady c s _ (omega arith) (λ q r. tt) h.ready;
    })
  ]

  pub prune-Holds :
      (now : ℕ) (s : ChannelState) (shared : BudgetState)
      → Holds c s
      → Holds c (prune now s shared).0
  unfolding prune
  prune-Holds now s shared h =
      let (fewer, smaller) = retain-smaller (is_live now) s.history in
      record {
        sound = record {
          few = omega (arith, fewer, h.sound.few);
          small = omega (arith, smaller, h.sound.small);
          keyed_alike =
              kept (retain (is_live now) s.history)
                (retain-All (IsKeyed s.replay_key) (is_live now) s.history h.sound.keyed_alike);
          attempts_fit = retain-All IsWithinAttempts (is_live now) s.history h.sound.attempts_fit;
          rising = retain-IsRising (is_live now) s.history h.sound.rising;
          numbered =
              retain-All (IsNumbered s.next_request) (is_live now) s.history h.sound.numbered;
          replies_fit = h.sound.replies_fit;
          replays_fit = h.sound.replays_fit;
          ends_empty = λ q. ap (retain (is_live now)) (h.sound.ends_empty q);
        };
        ready =
            carry-IsReady c s _ (omega arith)
              (λ n r. retain-All (HasAttempt n) (is_live now) s.history r) h.ready;
      }
    where
      kept :
          (es : List ReplayEntry)
          → All (IsKeyed s.replay_key) es
          → All (IsKeyed (if is_empty es then none else s.replay_key)) es
      kept [] p = tt
      kept (e ∷ es) p = p

  -- A change of the requests in flight alone.
  pub pending-Holds :
      (s : ChannelState) (m : List (ℕ × Pending))
      → count_replays m ≤ count_replays s.pending
      → Holds c s
      → Holds c (record s { pending = m })
  pending-Holds s m k h = record {
    sound = record {
      few = h.sound.few;
      small = h.sound.small;
      keyed_alike = h.sound.keyed_alike;
      attempts_fit = h.sound.attempts_fit;
      rising = h.sound.rising;
      numbered = h.sound.numbered;
      replies_fit = h.sound.replies_fit;
      replays_fit = omega (arith, k, h.sound.replays_fit);
      ends_empty = h.sound.ends_empty;
    };
    ready = carry-IsReady c s _ k (λ n r. r) h.ready;
  }

  -- Fields that the invariant says nothing of, and the bytes of the replies.
  pub others-Holds :
      (s : ChannelState) (next_request bytes : ℕ) (terminal : Option Terminal)
      → (last_progress : Option ℕ) (delivering : Bool) (waiting_upload : Option (ℕ × ℕ))
      → bytes ≤ max_channel_reply_bytes
      → s.next_request ≤ next_request
      → Holds c s
      → Holds c (record s {
        next_request = next_request;
        reply_bytes = bytes;
        terminal = terminal;
        last_progress = last_progress;
        delivering = delivering;
        waiting_upload = waiting_upload;
      })
  others-Holds s next_request bytes terminal last_progress delivering waiting_upload k l h =
      record {
        sound = record {
          few = h.sound.few;
          small = h.sound.small;
          keyed_alike = h.sound.keyed_alike;
          attempts_fit = h.sound.attempts_fit;
          rising = h.sound.rising;
          numbered = map-All s.history (λ e p. omega arith) h.sound.numbered;
          replies_fit = k;
          replays_fit = h.sound.replays_fit;
          ends_empty = h.sound.ends_empty;
        };
        ready = carry-IsReady c s _ (omega arith) (λ n r. r) h.ready;
      }

  pub mark_sent-Holds :
      (request now : ℕ) (s : ChannelState) → Holds c s → Holds c (mark_sent request now s)
  unfolding mark_sent
  mark_sent-Holds request now s h =
      pending-Holds s _
        (omega (arith, count_replays-update request (sent now) s.pending (λ p. refl))) h

  pub mark_started-Holds :
      (request generation : ℕ) (s : ChannelState)
      → Holds c s
      → Holds c (mark_started request generation s)
  unfolding mark_started
  mark_started-Holds request generation s h =
      pending-Holds s _
        (omega (arith, count_replays-update request (started generation) s.pending (λ p. refl))) h

  pub mark_receiving-Holds :
      (request now : ℕ) (s : ChannelState) → Holds c s → Holds c (mark_receiving request now s)
  unfolding mark_receiving
  mark_receiving-Holds request now s h =
      others-Holds _ s.next_request s.reply_bytes s.terminal (some now) s.delivering
        s.waiting_upload h.sound.replies_fit (omega arith)
        (pending-Holds s _
          (omega (arith, count_replays-update request headers_arrived s.pending (λ p. refl))) h)

  pub progress-Holds : (now : ℕ) (s : ChannelState) → Holds c s → Holds c (progress now s)
  unfolding progress
  progress-Holds now s h =
      others-Holds s s.next_request s.reply_bytes s.terminal (some now) s.delivering
        s.waiting_upload h.sound.replies_fit (omega arith) h

  pub consume-Holds : (bytes : ℕ) (s : ChannelState) → Holds c s → Holds c (consume bytes s)
  unfolding consume
  consume-Holds bytes s h =
      others-Holds s s.next_request (s.reply_bytes - bytes) s.terminal s.last_progress s.delivering
        s.waiting_upload (omega (arith, h.sound.replies_fit)) (omega arith) h

  note_reply-Holds :
      (entry : Option ℕ) (reply_id : ReplyId) (s : ChannelState)
      → Holds c s
      → Holds c (record s { history = note_reply entry reply_id s.history })
  note_reply-Holds none reply_id s h = h
  note_reply-Holds (some sequence) reply_id s h =
      update_entry-Holds s sequence (replied reply_id) s.pending c (λ e. ground arith)
        (λ e. ground arith) (λ e. ground arith) (omega arith) h

  pub deliver-Holds :
      (usize_max request reply_length : ℕ) (reply_id : ReplyId) (now : ℕ) (room : Bool)
      → (s : ChannelState) (shared : BudgetState) → Holds c s
      → Holds c (deliver usize_max request reply_length reply_id now room s shared).0
  unfolding deliver consume
  deliver-Holds usize_max request n reply_id now room s shared h =
      elim (Bool-cases (s.closed || is_some s.terminal)) [
        | inl t ↦ simp t h
        | inr f ↦ elim (Bool-cases (sum_within usize_max s.reply_bytes n max_channel_reply_bytes)) [
          | inr g ↦ simp (f, g) (fail-Holds _ _ shared (noted s.reply_bytes h.sound.replies_fit))
          | inl g ↦ elim (Bool-cases room) [
            | inl r ↦ simp (f, g, r) (noted (s.reply_bytes + n) (ground (arith, g)))
            | inr r ↦
                simp (f, g, r)
                  (fail-Holds _ _ shared
                    (noted (s.reply_bytes + n - n) (omega (arith, h.sound.replies_fit))))
          ]
        ]
      ]
    where
      noted :
          (bytes : ℕ)
          → bytes ≤ max_channel_reply_bytes
          → Holds c (record s {
            history = note_reply (entry_of (lookup request s.pending)) reply_id s.history;
            last_progress = some now;
            reply_bytes = bytes;
          })
      noted bytes k =
          others-Holds _ s.next_request bytes s.terminal (some now) s.delivering s.waiting_upload k
            (omega arith) (note_reply-Holds (entry_of (lookup request s.pending)) reply_id s h)
