-- ===== src/H2/Channel/Invariant.antt =====
-- What holds of a channel at all times, and of the packet chosen for a replay until it is sent.
use tg_ws_keenetic.Base.{
  ℕ, ◌+◌, ◌≤◌, ◌<◌, ◌≡◌, refl, sym, ap, ◌∙◌, true, Option, none, some, List, [], ◌∷◌, arith,
  if◌then◌else◌, length, take, All,
}
use tg_ws_keenetic.Base.Maps.{insert, remove, update}
use tg_ws_keenetic.Base.Bytes.{Bytes}
use tg_ws_keenetic.H2.Channel.State.{
  max_channel_reply_bytes, replay_history_bytes, replay_history_packets, replay_max_attempts,
  max_channel_replays, ReplayEntry, Pending, ChannelState,
}
use tg_ws_keenetic.H2.Channel.History.{update_entry, retained_bytes}
use tg_ws_keenetic.H2.Channel.Replays.{count_replays}
use tg_ws_keenetic.H2.Channel.Entries.{
  IsRising, update_entry-IsRising, update_entry-All, update_entry-SameSize,
}

pub count_replays-insert :
    (k : ℕ) (p : Pending) (m : List (ℕ × Pending))
    → count_replays (insert k p m) ≤ count_replays m + (if p.replay then 1 else 0)
count_replays-insert k p [] = ground arith
count_replays-insert k p ((j, q) ∷ m) = ground (arith, count_replays-insert k p m)

pub count_replays-remove :
    (k : ℕ) (m : List (ℕ × Pending)) → count_replays (remove k m) ≤ count_replays m
count_replays-remove k [] = omega arith
count_replays-remove k ((j, q) ∷ m) = ground (arith, count_replays-remove k m)

pub count_replays-update :
    (k : ℕ) (f : Pending → Pending) (m : List (ℕ × Pending))
    → ((p : Pending) → Pending.replay (f p) ≡ p.replay)
    → count_replays (update k f m) ≡ count_replays m
count_replays-update k f [] h = refl
count_replays-update k f ((j, q) ∷ m) h = ground (arith, count_replays-update k f m h, h q)

-- The body begins with the channel's key.
abbrev pub IsKeyed : Option Bytes → ReplayEntry → Type 0
IsKeyed key e = (key ≡ some (take 8 e.body)) × (8 ≤ length e.body)

abbrev pub IsWithinAttempts : ReplayEntry → Type 0
IsWithinAttempts e = e.attempts ≤ replay_max_attempts

abbrev pub IsNumbered : ℕ → ReplayEntry → Type 0
IsNumbered last e = e.sequence ≤ last

pub record IsSound (s : ChannelState) : Type 0 where
  pub few : length s.history ≤ replay_history_packets
  pub small : retained_bytes s.history ≤ replay_history_bytes
  pub keyed_alike : All (IsKeyed s.replay_key) s.history
  pub attempts_fit : All IsWithinAttempts s.history
  pub rising : IsRising s.history
  pub numbered : All (IsNumbered s.next_request) s.history
  pub replies_fit : s.reply_bytes ≤ max_channel_reply_bytes
  pub replays_fit : count_replays s.pending ≤ max_channel_replays
  pub ends_empty : s.closed ≡ true → s.history ≡ []

-- An entry of this number has an attempt left.
abbrev pub HasAttempt : ℕ → ReplayEntry → Type 0
HasAttempt sequence e = e.sequence ≡ sequence → e.attempts < replay_max_attempts

-- The replay chosen may still be sent, whatever happens in between.
abbrev pub IsReady : Option (ℕ × Bytes) → ChannelState → Type 0
IsReady none s = Unit
IsReady (some (sequence, body)) s =
    (count_replays s.pending < max_channel_replays) × All (HasAttempt sequence) s.history

-- Both together.
pub record Holds (c : Option (ℕ × Bytes)) (s : ChannelState) : Type 0 where
  pub sound : IsSound s
  pub ready : IsReady c s

-- An operation that only changes entries, keeping what the invariants say of each.
pub carry-IsReady :
    (c : Option (ℕ × Bytes)) (s s' : ChannelState)
    → count_replays s'.pending ≤ count_replays s.pending
    → ((sequence : ℕ) → All (HasAttempt sequence) s.history → All (HasAttempt sequence) s'.history)
    → IsReady c s
    → IsReady c s'
carry-IsReady none s s' k f r = tt
carry-IsReady (some (sequence, body)) s s' k f (few, r) = (omega arith, f sequence r)

module _ (s : ChannelState) (sequence : ℕ) (f : ReplayEntry → ReplayEntry)
    (m : List (ℕ × Pending)) where
  -- One entry is changed in a way that keeps its body and adds no attempt.
  pub update_entry-Holds :
      (c : Option (ℕ × Bytes))
      → ((e : ReplayEntry) → (f e).body ≡ e.body)
      → ((e : ReplayEntry) → (f e).sequence ≡ e.sequence)
      → ((e : ReplayEntry) → (f e).attempts ≤ e.attempts)
      → count_replays m ≤ count_replays s.pending
      → Holds c s
      → Holds c (record s { history = update_entry sequence f s.history; pending = m })
  update_entry-Holds c body_same sequence_same fewer k h =
      let size = update_entry-SameSize sequence f s.history (λ e. ap length (body_same e)) in
      record {
        sound = record {
          few = omega (arith, size.count, h.sound.few);
          small = omega (arith, size.size, h.sound.small);
          keyed_alike =
              update_entry-All (IsKeyed s.replay_key) sequence f s.history
                (λ e _ p. rw (body_same e) p) h.sound.keyed_alike;
          attempts_fit =
              update_entry-All IsWithinAttempts sequence f s.history
                (λ e _ p. omega (arith, fewer e)) h.sound.attempts_fit;
          rising = update_entry-IsRising sequence f s.history sequence_same h.sound.rising;
          numbered =
              update_entry-All (IsNumbered s.next_request) sequence f s.history
                (λ e _ p. omega (arith, sequence_same e)) h.sound.numbered;
          replies_fit = h.sound.replies_fit;
          replays_fit = omega (arith, h.sound.replays_fit);
          ends_empty = λ q. ap (update_entry sequence f) (h.sound.ends_empty q);
        };
        ready =
            carry-IsReady c s _ k
              (λ n r.
                update_entry-All (HasAttempt n) sequence f s.history
                  (λ e _ p q. omega (arith, fewer e, p (sym (sequence_same e) ∙ q))) r)
              h.ready;
      }
