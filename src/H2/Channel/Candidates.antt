-- ===== src/H2/Channel/Candidates.antt =====
-- When a packet is sent again.
use tg_ws_keenetic.Base.{
  ℕ, ◌-◌, ◌≤◌, ◌<◌, ◌≡◌, refl, sym, ap, ◌∙◌, ◌⊎◌, inl, inr, true, false, not, ◌&&◌, ◌||◌, Option,
  none, some, List, arith, ltb, leb, ◌==◌, leb→le, Bool-cases, and-true, not-true, not-false,
  or-false, some_inj,
}
use tg_ws_keenetic.Base.Maps.{lookup, find}
use tg_ws_keenetic.Base.Bytes.{Bytes}
use tg_ws_keenetic.H2.Channel.State.{
  replay_idle, replay_request, replay_retry, replay_max_age, replay_max_attempts,
  max_channel_replays, ReplayEntry, Pending, ChannelState, is_some, is_some_and,
}
use tg_ws_keenetic.H2.Channel.Requests.{sent}
use tg_ws_keenetic.H2.Channel.Replays.{
  sent_long_ago, overdue, sort_key, sort_by, newest, is_newest, count_replays, any_pending,
  attempt_limit, silent, eligible, offered, replay_candidate,
}
use tg_ws_keenetic.H2.Channel.Occurrences.{
  Occurs, sort_by-Occurs, find-Occurs, any-Occurs, not_any-Occurs,
}

-- Why an entry is sent again at `now`: its request was retired; or an original was sent three
-- seconds ago or more and is in flight; or it is the newest, no original of any packet is in flight,
-- and nothing has come in for a second.
abbrev pub Reason : ℕ → ChannelState → ReplayEntry → Type 0
Reason now s e =
    (e.retired ≡ true)
    ⊎ ((id : ℕ) × (p : Pending) × (sent : ℕ) × Occurs id e.originals
        × (lookup id s.pending ≡ some p)
        × (p.sent_at ≡ some sent)
        × (replay_request ≤ now - sent))
    ⊎ ((newest s.history ≡ some e.sequence)
        × (any_pending (λ p. not p.replay) s.pending ≡ false)
        × ((last : ℕ) → s.last_progress ≡ some last → replay_idle ≤ now - last))

pub record MayReplay (now : ℕ) (s : ChannelState) (sequence : ℕ) (body : Bytes) : Type 0 where
  pub quiet : (s.terminal ≡ none) × (s.reply_bytes ≡ 0) × (s.delivering ≡ false)
  pub slots : count_replays s.pending < max_channel_replays
  pub e : ReplayEntry
  pub kept : Occurs e s.history
  pub same : (e.sequence ≡ sequence) × (e.body ≡ body)
  pub idle : e.pending ≡ none
  pub attempts : e.attempts < replay_max_attempts
  pub young : now - e.sent_at ≤ replay_max_age
  pub pause : (last : ℕ) → e.last_attempt ≡ some last → replay_retry ≤ now - last
  pub unanswered :
      (id : ℕ) (p : Pending)
      → Occurs id e.originals
      → lookup id s.pending ≡ some p
      → p.receiving ≡ false
  pub reason : Reason now s e

sent-Reason :
    (now : ℕ) (s : ChannelState) (e : ReplayEntry) (id : ℕ) (o : Option Pending)
    → Occurs id e.originals
    → lookup id s.pending ≡ o
    → is_some_and (sent_long_ago replay_request now) o ≡ true
    → Reason now s e
sent-Reason now s e id none o q h = cc h
sent-Reason now s e id (some p) o q h = found p.sent_at refl h
  where
    found :
        (t : Option ℕ)
        → p.sent_at ≡ t
        → is_some_and (λ sent. leb replay_request (now - sent)) t ≡ true
        → Reason now s e
    found none k h = cc h
    found (some sent) k h = inr (inl (id, p, sent, o, q, k, leb→le _ _ h))

overdue-Reason :
    (now : ℕ) (s : ChannelState) (e : ReplayEntry) → overdue now s.pending e ≡ true → Reason now s e
overdue-Reason now s e q = elim (Bool-cases e.retired) [
  | inl t ↦ inl t
  | inr f ↦
      let (id, o, h) =
        any-Occurs (λ id. is_some_and (sent_long_ago replay_request now) (lookup id s.pending))
          e.originals (simp f at q) in
      sent-Reason now s e id (lookup id s.pending) o refl h
]

is_some_and-le :
    (o : Option ℕ) (span now : ℕ)
    → is_some_and (λ last. ltb (now - last) span) o ≡ false
    → (last : ℕ) → o ≡ some last
    → span ≤ now - last
is_some_and-le none span now h last q = cc q
is_some_and-le (some t) span now h last q = ground (arith, h, some_inj q)

is_newest→eq : (o : Option ℕ) (n : ℕ) → is_some_and (λ m. m == n) o ≡ true → o ≡ some n
is_newest→eq none n h = cc h
is_newest→eq (some m) n h = ground (arith, h)

silent-Reason :
    (now : ℕ) (s : ChannelState) (e : ReplayEntry)
    → is_newest s.history e ≡ true
    → silent now s ≡ true
    → Reason now s e
silent-Reason now s e n q =
    let (a, b) = and-true _ _ q in
    inr (
      inr (
        is_newest→eq (newest s.history) e.sequence n,
        not-true _ a,
        is_some_and-le s.last_progress replay_idle now (not-true _ b),
      ))

-- What the tests of the loop say of an entry that passes them.
record Passes (now : ℕ) (s : ChannelState) (e : ReplayEntry) : Type 0 where
  idle : e.pending ≡ none
  attempts : e.attempts < replay_max_attempts
  young : now - e.sent_at ≤ replay_max_age
  pause : (last : ℕ) → e.last_attempt ≡ some last → replay_retry ≤ now - last
  unanswered :
      (id : ℕ) (p : Pending)
      → Occurs id e.originals
      → lookup id s.pending ≡ some p
      → p.receiving ≡ false
  reason : Reason now s e

not_some : {A : Type 0} (o : Option A) → is_some o ≡ false → o ≡ none
not_some none h = refl
not_some (some a) h = cc h

limit-attempts :
    (history : List ReplayEntry) (e : ReplayEntry)
    → leb (attempt_limit history e) e.attempts ≡ false
    → e.attempts < replay_max_attempts
limit-attempts history e h = ground arith

eligible-Passes :
    (now : ℕ) (s : ChannelState) (e : ReplayEntry) → eligible now s e ≡ true → Passes now s e
unfolding eligible
eligible-Passes now s e q =
    let (abc, d) = and-true _ _ q in
    let (ab, c) = and-true _ _ abc in
    let (a, b) = and-true _ _ ab in
    let (a', pending) = or-false _ _ (not-true _ a) in
    let (age, limit) =
      or-false (ltb replay_max_age (now - e.sent_at)) (leb (attempt_limit s.history e) e.attempts)
        a' in
    record {
      idle = not_some e.pending pending;
      attempts = limit-attempts s.history e limit;
      young = ground (arith, age);
      pause = is_some_and-le e.last_attempt replay_retry now (not-true _ b);
      unanswered = λ id p o l.
          ap (is_some_and (λ (p : Pending). p.receiving)) (sym l)
          ∙ not_any-Occurs (λ id. is_some_and (λ p. p.receiving) (lookup id s.pending)) e.originals
              id (not-true _ c) o;
      reason = why (not-true _ d);
    }
  where
    why :
        (not (overdue now s.pending e) && (not (is_newest s.history e) || not (silent now s)))
          ≡ false
        → Reason now s e
    why h = elim (Bool-cases (overdue now s.pending e)) [
      | inl t ↦ overdue-Reason now s e t
      | inr f ↦
          let (a, b) = or-false _ _ (simp f at h) in
          silent-Reason now s e (not-false _ a) (not-false _ b)
    ]

-- `replay_candidate` offers a packet only where nothing waits for the client, fewer than two replays
-- are in flight, and an entry of the history holds it that is not being sent again, has been sent
-- again fewer than three times since its last reply, is at most 30 seconds old, has rested for two
-- seconds, has no original whose reply is arriving, and has a reason to be sent again.
pub replay_candidate-MayReplay :
    (usize_max now : ℕ) (s : ChannelState) (sequence : ℕ) (body : Bytes)
    → replay_candidate usize_max now s ≡ some (sequence, body)
    → MayReplay now s sequence body
unfolding replay_candidate
replay_candidate-MayReplay usize_max now s sequence body q =
    elim (Bool-cases (is_some s.terminal || ltb 0 s.reply_bytes || s.delivering)) [
      | inl t ↦ cc (simp t at q)
      | inr f ↦ elim (Bool-cases (leb max_channel_replays (count_replays s.pending))) [
        | inl t ↦ cc (simp (f, t) at q)
        | inr g ↦ found _ refl f g (simp (f, g) at q)
      ]
    ]
  where
    key : ReplayEntry → ℕ
    key = sort_key usize_max now s.pending

    found :
        (o : Option ReplayEntry)
        → find (eligible now s) (sort_by key s.history) ≡ o
        → (is_some s.terminal || ltb 0 s.reply_bytes || s.delivering) ≡ false
        → leb max_channel_replays (count_replays s.pending) ≡ false
        → offered o ≡ some (sequence, body)
        → MayReplay now s sequence body
    found none k f g h = cc h
    found (some e) k f g h =
        let (there, passed) = find-Occurs (eligible now s) (sort_by key s.history) e k in
        let passes = eligible-Passes now s e passed in
        let (ab, delivering) = or-false _ _ f in
        let (terminal, reply_bytes) = or-false _ _ ab in
        record {
          quiet = (not_some s.terminal terminal, ground (arith, reply_bytes), delivering);
          slots = ground (arith, g);
          e = e;
          kept = sort_by-Occurs key e s.history there;
          same = (ap (λ t. t.0) (some_inj h), ap (λ t. t.1) (some_inj h));
          idle = passes.idle;
          attempts = passes.attempts;
          young = passes.young;
          pause = passes.pause;
          unanswered = passes.unanswered;
          reason = passes.reason;
        }
