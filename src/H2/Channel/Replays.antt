-- ===== src/H2/Channel/Replays.antt =====
-- What is sent again and when: `replay_candidate` and `rotate_stale_replay`.
use tg_ws_keenetic.Base.{
  ℕ, ◌+◌, ◌-◌, Bool, not, ◌&&◌, ◌||◌, Option, none, some, List, [], ◌∷◌, ltb, leb, ◌==◌,
  if◌then◌else◌,
}
use tg_ws_keenetic.Base.Maps.{lookup, any, find}
use tg_ws_keenetic.Base.Bytes.{Bytes}
use tg_ws_keenetic.H2.Channel.State.{
  replay_idle, replay_request, replay_retry, replay_max_age, replay_slot, replay_max_attempts,
  max_channel_replays, ReplayEntry, Pending, ChannelState, is_some, is_some_and, is_empty,
}

abbrev pub sent_long_ago : ℕ → ℕ → Pending → Bool
sent_long_ago span now p = is_some_and (λ sent. leb span (now - sent)) p.sent_at

-- An original of the entry in flight of which `p` holds.
abbrev pub any_original : (Pending → Bool) → List (ℕ × Pending) → ReplayEntry → Bool
any_original p pending e = any (λ id. is_some_and p (lookup id pending)) e.originals

-- The test of the sort, which leaves out originals whose reply is arriving, and that of the loop.
abbrev pub overdue_quietly : ℕ → List (ℕ × Pending) → ReplayEntry → Bool
overdue_quietly now pending e =
    e.retired || any_original (λ p. not p.receiving && sent_long_ago replay_request now p) pending e

abbrev pub overdue : ℕ → List (ℕ × Pending) → ReplayEntry → Bool
overdue now pending e = e.retired || any_original (sent_long_ago replay_request now) pending e

-- `(!overdue, if overdue { sequence } else { usize::MAX - sequence })`, as one number: `false` comes
-- before `true`.
abbrev pub sort_key : ℕ → ℕ → List (ℕ × Pending) → ReplayEntry → ℕ
sort_key usize_max now pending e =
    if overdue_quietly now pending e then e.sequence else usize_max + 1 + (usize_max - e.sequence)

-- `sort_by_key`, which is stable.
unfoldable pub insert_by : (ReplayEntry → ℕ) → ReplayEntry → List ReplayEntry → List ReplayEntry
insert_by key e [] = e ∷ []
insert_by key e (x ∷ xs) =
    let rest = insert_by key e xs in if leb (key e) (key x) then e ∷ x ∷ xs else x ∷ rest

unfoldable pub sort_by : (ReplayEntry → ℕ) → List ReplayEntry → List ReplayEntry
unfolding insert_by
sort_by key [] = []
sort_by key (x ∷ xs) = insert_by key x (sort_by key xs)

abbrev pub newest : List ReplayEntry → Option ℕ
newest [] = none
newest (e ∷ []) = some e.sequence
newest (e ∷ f ∷ es) = newest (f ∷ es)

abbrev pub is_newest : List ReplayEntry → ReplayEntry → Bool
is_newest history e = is_some_and (λ n. n == e.sequence) (newest history)

abbrev pub count_replays : List (ℕ × Pending) → ℕ
count_replays [] = 0
count_replays ((id, p) ∷ m) = if p.replay then count_replays m + 1 else count_replays m

abbrev pub any_pending : (Pending → Bool) → List (ℕ × Pending) → Bool
any_pending p m = any (λ (x : ℕ × Pending). p x.1) m

-- The attempts that the entry may have.
abbrev pub attempt_limit : List ReplayEntry → ReplayEntry → ℕ
attempt_limit history e =
    if not (is_empty e.originals) || e.retired || is_newest history e
    then replay_max_attempts
    else 0

-- The channel is silent: no original is in flight, and nothing has come in for a second.
abbrev pub silent : ℕ → ChannelState → Bool
silent now s =
    not (any_pending (λ p. not p.replay) s.pending)
    && not (is_some_and (λ last. ltb (now - last) replay_idle) s.last_progress)

-- The loop's tests that an entry passes to be the answer.
unfoldable pub eligible : ℕ → ChannelState → ReplayEntry → Bool
eligible now s e =
    not (
      ltb replay_max_age (now - e.sent_at)
      || leb (attempt_limit s.history e) e.attempts
      || is_some e.pending)
    && not (is_some_and (λ last. ltb (now - last) replay_retry) e.last_attempt)
    && not (any_original (λ p. p.receiving) s.pending e)
    && not (not (overdue now s.pending e) && (not (is_newest s.history e) || not (silent now s)))

abbrev pub offered : Option ReplayEntry → Option (ℕ × Bytes)
offered none = none
offered (some e) = some (e.sequence, e.body)

unfoldable pub replay_candidate : ℕ → ℕ → ChannelState → Option (ℕ × Bytes)
unfolding eligible sort_by
replay_candidate usize_max now s =
    let entries = sort_by (sort_key usize_max now s.pending) s.history in
    if is_some s.terminal || ltb 0 s.reply_bytes || s.delivering
    then none
    else if leb max_channel_replays (count_replays s.pending)
    then none
    else offered (find (eligible now s) entries)

-- `min_by_key` over the replays that have waited for a slot's time: the first of the oldest.
abbrev pub is_stale : ℕ → Pending → Bool
is_stale now p = p.replay && not p.receiving && sent_long_ago replay_slot now p

abbrev pub earlier : ℕ × ℕ → Option (ℕ × ℕ) → Option (ℕ × ℕ)
earlier a none = some a
earlier (sent, id) (some (sent', id')) =
    if leb sent sent' then some (sent, id) else some (sent', id')

abbrev pub sent_or_zero : Pending → ℕ
sent_or_zero p = elim p.sent_at [ none ↦ 0 | some t ↦ t ]

unfoldable pub oldest_stale : ℕ → List (ℕ × Pending) → Option (ℕ × ℕ)
oldest_stale now [] = none
oldest_stale now ((id, p) ∷ m) =
    let rest = oldest_stale now m in
    if is_stale now p then earlier (sent_or_zero p, id) rest else rest

-- `rotate_stale_replay`: the request that it aborts.
unfoldable pub rotate_stale_replay : ℕ → ChannelState → Option ℕ
unfolding oldest_stale
rotate_stale_replay now s = elim (oldest_stale now s.pending) [
  | none ↦ none
  | some (sent, id) ↦ some id
]
