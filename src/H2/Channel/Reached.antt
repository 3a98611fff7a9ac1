-- ===== src/H2/Channel/Reached.antt =====
-- Every state that a channel reaches, in whatever order its operations come, keeps the bounds.
use tg_ws_keenetic.Base.{
  ℕ, ◌<◌, ◌≡◌, refl, sym, ap, ◌∙◌, inl, inr, Bool, Option, none, some, List, [], ◌∷◌, arith, All,
}
use tg_ws_keenetic.Base.Bytes.{Bytes}
use mathlib.Core.Path.{subst}
use tg_ws_keenetic.H2.Budget.{BudgetState, Budget}
use tg_ws_keenetic.H2.Channel.State.{
  ReplyId, ReplayEntry, Terminal, ChannelState, new_channel, fail,
}
use tg_ws_keenetic.H2.Channel.History.{prune}
use tg_ws_keenetic.H2.Channel.Requests.{
  launch, mark_sent, mark_started, mark_receiving, progress, consume, deliver, finish_request,
  retire_and_abort,
}
use tg_ws_keenetic.H2.Channel.Replays.{replay_candidate}
use tg_ws_keenetic.H2.Channel.Entries.{IsAfter, IsRising}
use tg_ws_keenetic.H2.Channel.Invariant.{IsSound, IsReady, Holds}
use tg_ws_keenetic.H2.Channel.Occurrences.{Occurs}
use tg_ws_keenetic.H2.Channel.Candidates.{replay_candidate-MayReplay}
use tg_ws_keenetic.H2.Channel.Preserved.{
  fail-Holds, prune-Holds, others-Holds, mark_sent-Holds, mark_started-Holds, mark_receiving-Holds,
  progress-Holds, consume-Holds, deliver-Holds,
}
use tg_ws_keenetic.H2.Channel.Finished.{finish_request-Holds, retire_and_abort-Holds}
use tg_ws_keenetic.H2.Channel.Launched.{launch_original-Holds, launch_replay-Holds}

after-Occurs :
    (n : ℕ) (h : List ReplayEntry) (e : ReplayEntry)
    → All (IsAfter n) h
    → Occurs e h
    → n < e.sequence
after-Occurs n [] e a o = absurd o
after-Occurs n (x ∷ xs) e (a, as') (inl p) = omega (arith, ap (λ t. t.sequence) p)
after-Occurs n (x ∷ xs) e (a, as') (inr o) = after-Occurs n xs e as' o

rising_unique :
    (h : List ReplayEntry) (e x : ReplayEntry)
    → IsRising h
    → Occurs e h
    → Occurs x h
    → x.sequence ≡ e.sequence
    → x.attempts ≡ e.attempts
rising_unique [] e x r oe ox q = absurd oe
rising_unique (y ∷ ys) e x (a, r) (inl p) (inl p') q = ap (λ t. t.attempts) (sym p' ∙ p)
rising_unique (y ∷ ys) e x (a, r) (inr oe) (inr ox) q = rising_unique ys e x r oe ox q
rising_unique (y ∷ ys) e x (a, r) (inl p) (inr ox) q =
    absurd (omega (arith, after-Occurs y.sequence ys x a ox, ap (λ t. t.sequence) p))
rising_unique (y ∷ ys) e x (a, r) (inr oe) (inl p) q =
    absurd (omega (arith, after-Occurs y.sequence ys e a oe, ap (λ t. t.sequence) p))

each {ℓ} :
    {P : ReplayEntry → Type ℓ} (h : List ReplayEntry)
    → ((e : ReplayEntry) → Occurs e h → P e)
    → All P h
each [] k = tt
each (e ∷ es) k = (k e (inl refl), each es (λ x o. k x (inr o)))

-- A packet that is chosen may be sent again.
candidate-IsReady :
    (usize_max now : ℕ) (s : ChannelState) (sequence : ℕ) (body : Bytes)
    → replay_candidate usize_max now s ≡ some (sequence, body)
    → IsSound s
    → IsReady (some (sequence, body)) s
candidate-IsReady usize_max now s sequence body q h =
    let m = replay_candidate-MayReplay usize_max now s sequence body q in
    (
      m.slots,
      each s.history (λ x o k.
          omega (
            arith,
            m.attempts,
            rising_unique s.history m.e x h.rising m.kept o (k ∙ sym m.same.0),
          )),
    )

-- One operation on the channel, with the replay that is chosen but not sent yet. `recover` chooses
-- and sends without the lock in between.
pub data Step (usize_max : ℕ) (b : Budget)
    : ChannelState → Option (ℕ × Bytes) → ChannelState → Option (ℕ × Bytes) → Type 0 where
  sends :
      (s : ChannelState) (c : Option (ℕ × Bytes)) (now : ℕ) (body : Bytes) (shared : BudgetState)
      (s' : ChannelState)
      → s.next_request < usize_max
      → s' ≡ (launch usize_max b now body none s shared).1
      → Step usize_max b s c s' c
  chooses :
      (s : ChannelState) (c : Option (ℕ × Bytes)) (now sequence : ℕ) (body : Bytes)
      (c' : Option (ℕ × Bytes))
      → replay_candidate usize_max now s ≡ some (sequence, body)
      → c' ≡ some (sequence, body)
      → Step usize_max b s c s c'
  sends_again :
      (s : ChannelState) (c : Option (ℕ × Bytes)) (now sequence : ℕ) (body : Bytes)
      (shared : BudgetState) (s' : ChannelState)
      → s.next_request < usize_max
      → c ≡ some (sequence, body)
      → s' ≡ (launch usize_max b now body (some sequence) s shared).1
      → Step usize_max b s c s' none
  marks_sent :
      (s : ChannelState) (c : Option (ℕ × Bytes)) (request now : ℕ) (s' : ChannelState)
      → s' ≡ mark_sent request now s
      → Step usize_max b s c s' c
  marks_started :
      (s : ChannelState) (c : Option (ℕ × Bytes)) (request generation : ℕ) (s' : ChannelState)
      → s' ≡ mark_started request generation s
      → Step usize_max b s c s' c
  marks_receiving :
      (s : ChannelState) (c : Option (ℕ × Bytes)) (request now : ℕ) (s' : ChannelState)
      → s' ≡ mark_receiving request now s
      → Step usize_max b s c s' c
  progresses :
      (s : ChannelState) (c : Option (ℕ × Bytes)) (now : ℕ) (s' : ChannelState)
      → s' ≡ progress now s
      → Step usize_max b s c s' c
  delivers :
      (s : ChannelState) (c : Option (ℕ × Bytes)) (request reply_length : ℕ) (reply_id : ReplyId)
      (now : ℕ) (room : Bool) (shared : BudgetState) (s' : ChannelState)
      → s' ≡ (deliver usize_max request reply_length reply_id now room s shared).0
      → Step usize_max b s c s' c
  consumes :
      (s : ChannelState) (c : Option (ℕ × Bytes)) (bytes : ℕ) (s' : ChannelState)
      → s' ≡ consume bytes s
      → Step usize_max b s c s' c
  finishes :
      (s : ChannelState) (c : Option (ℕ × Bytes)) (request : ℕ) (s' : ChannelState)
      → s' ≡ finish_request request s
      → Step usize_max b s c s' c
  retires :
      (s : ChannelState) (c : Option (ℕ × Bytes)) (request : ℕ) (s' : ChannelState)
      → s' ≡ (retire_and_abort request s).0
      → Step usize_max b s c s' c
  fails :
      (s : ChannelState) (c : Option (ℕ × Bytes)) (terminal : Terminal) (shared : BudgetState)
      (s' : ChannelState)
      → s' ≡ (fail terminal s shared).0
      → Step usize_max b s c s' c
  prunes :
      (s : ChannelState) (c : Option (ℕ × Bytes)) (now : ℕ) (shared : BudgetState)
      (s' : ChannelState)
      → s' ≡ (prune now s shared).0
      → Step usize_max b s c s' c
  -- The terminal answer is taken by `receive`; the native write and the upload say that they wait.
  reports :
      (s : ChannelState) (c : Option (ℕ × Bytes)) (delivering : Bool)
      (waiting_upload : Option (ℕ × ℕ)) (s' : ChannelState)
      → s' ≡ record s { terminal = none; delivering = delivering; waiting_upload = waiting_upload }
      → Step usize_max b s c s' c
  waits :
      (s : ChannelState) (c : Option (ℕ × Bytes)) (delivering : Bool)
      (waiting_upload : Option (ℕ × ℕ)) (s' : ChannelState)
      → s' ≡ record s { delivering = delivering; waiting_upload = waiting_upload }
      → Step usize_max b s c s' c

pub data Reachable (usize_max : ℕ) (b : Budget) : ChannelState → Option (ℕ × Bytes) → Type 0 where
  begins : (now : ℕ) (s : ChannelState) → s ≡ new_channel now → Reachable usize_max b s none
  then_step :
      (s : ChannelState) (c : Option (ℕ × Bytes)) (s' : ChannelState) (c' : Option (ℕ × Bytes))
      → Reachable usize_max b s c
      → Step usize_max b s c s' c'
      → Reachable usize_max b s' c'

back : {c : Option (ℕ × Bytes)} {s s' : ChannelState} → s' ≡ s → Holds c s → Holds c s'
back {c} q h = subst (Holds c) (sym q) h

module _ (usize_max : ℕ) (b : Budget) where
  step-Holds :
      (s s' : ChannelState) (c c' : Option (ℕ × Bytes))
      → Step usize_max b s c s' c'
      → Holds c s
      → Holds c' s'
  step-Holds _ _ _ _ (Step.sends s c now body shared s' l q) h =
      back q (launch_original-Holds c usize_max b now body s shared l h)
  step-Holds _ _ _ _ (Step.chooses s c now sequence body c' q q') h = record {
    sound = h.sound;
    ready =
        subst (λ x. IsReady x s) (sym q')
          (candidate-IsReady usize_max now s sequence body q h.sound);
  }
  step-Holds _ _ _ _ (Step.sends_again s c now sequence body shared s' l k q) h =
      back q
        (launch_replay-Holds usize_max b now sequence body s shared l (subst (λ x. Holds x s) k h))
  step-Holds _ _ _ _ (Step.marks_sent s c request now s' q) h =
      back q (mark_sent-Holds c request now s h)
  step-Holds _ _ _ _ (Step.marks_started s c request generation s' q) h =
      back q (mark_started-Holds c request generation s h)
  step-Holds _ _ _ _ (Step.marks_receiving s c request now s' q) h =
      back q (mark_receiving-Holds c request now s h)
  step-Holds _ _ _ _ (Step.progresses s c now s' q) h = back q (progress-Holds c now s h)
  step-Holds _ _ _ _ (Step.delivers s c request reply_length reply_id now room shared s' q) h =
      back q (deliver-Holds c usize_max request reply_length reply_id now room s shared h)
  step-Holds _ _ _ _ (Step.consumes s c bytes s' q) h = back q (consume-Holds c bytes s h)
  step-Holds _ _ _ _ (Step.finishes s c request s' q) h =
      back q (finish_request-Holds c request s h)
  step-Holds _ _ _ _ (Step.retires s c request s' q) h =
      back q (retire_and_abort-Holds c request s h)
  step-Holds _ _ _ _ (Step.fails s c terminal shared s' q) h =
      back q (fail-Holds c terminal s shared h)
  step-Holds _ _ _ _ (Step.prunes s c now shared s' q) h = back q (prune-Holds c now s shared h)
  step-Holds _ _ _ _ (Step.reports s c delivering waiting_upload s' q) h = back q (
      others-Holds c s s.next_request s.reply_bytes none s.last_progress delivering waiting_upload
        h.sound.replies_fit (omega arith) h)
  step-Holds _ _ _ _ (Step.waits s c delivering waiting_upload s' q) h = back q (
      others-Holds c s s.next_request s.reply_bytes s.terminal s.last_progress delivering
        waiting_upload h.sound.replies_fit (omega arith) h)

  new-Holds : (now : ℕ) → Holds none (new_channel now)
  unfolding new_channel
  new-Holds now = record {
    sound = record {
      few = omega arith;
      small = omega arith;
      keyed_alike = tt;
      attempts_fit = tt;
      rising = tt;
      numbered = tt;
      replies_fit = omega arith;
      replays_fit = omega arith;
      ends_empty = λ q. refl;
    };
    ready = tt;
  }

  -- While fewer requests than `usize` counts have been sent, whatever order the operations of a
  -- channel come in: it keeps at most 16 packets of at most 64 KiB together, all with the channel's
  -- key and in the order of their requests, none sent again more than three times since its last
  -- reply; at most two replays are in flight, at most 8 MiB of replies wait, and a closed channel
  -- keeps no packet.
  pub reachable-Holds :
      (s : ChannelState) (c : Option (ℕ × Bytes)) → Reachable usize_max b s c → Holds c s
  reachable-Holds _ _ (Reachable.begins now s q) = back q (new-Holds now)
  reachable-Holds _ _ (Reachable.then_step s c s' c' r st) =
      step-Holds s s' c c' st (reachable-Holds s c r)
