-- ===== src/H2/Channel/History.antt =====
-- The packets that may be sent again: `remember`, and the pruning of `recover`.
use tg_ws_keenetic.Base.{
  ℕ, zero, suc, ◌+◌, ◌-◌, Bool, false, not, ◌&&◌, ◌||◌, Option, none, some, List, [], ◌∷◌, ◌++◌,
  ltb, leb, ◌==◌, if◌then◌else◌, length, take, replicate,
}
use tg_ws_keenetic.Base.Maps.{set_insert, find, retain, position, remove_at}
use tg_ws_keenetic.Base.Bytes.{Bytes, bytes_eq}
use tg_ws_keenetic.H2.Budget.{BudgetState, Budget, BudgetPermit, try_acquire, release}
use tg_ws_keenetic.H2.Channel.State.{
  replay_max_age, replay_history_bytes, replay_history_packets, replay_max_attempts, ReplayEntry,
  ChannelState, is_some, is_empty, released,
}

-- `iter_mut().find(|entry| entry.sequence == sequence)` and a change of the entry found.
abbrev pub update_entry : ℕ → (ReplayEntry → ReplayEntry) → List ReplayEntry → List ReplayEntry
update_entry sequence f [] = []
update_entry sequence f (e ∷ es) =
    if e.sequence == sequence then f e ∷ es else e ∷ update_entry sequence f es

abbrev pub retained_bytes : List ReplayEntry → ℕ
retained_bytes [] = 0
retained_bytes (e ∷ es) = length e.body + retained_bytes es

-- Not needed any more: no request for it is in flight, and it does not wait for a replay.
abbrev pub disposable : ℕ → ReplayEntry → Bool
disposable now e =
    is_empty e.originals
    && not (e.retired && ltb e.attempts replay_max_attempts && leb (now - e.sent_at) replay_max_age)

-- `unwrap_or(0)`.
abbrev pub index_or_first : Option ℕ → ℕ
index_or_first none = 0
index_or_first (some i) = i

abbrev pub victim : ℕ → List ReplayEntry → ℕ
victim now history = index_or_first (position (disposable now) history)

abbrev pub dropped_at : ℕ → List ReplayEntry → BudgetState → BudgetState
dropped_at i [] shared = shared
dropped_at zero (e ∷ es) shared = release shared e.history_permit
dropped_at (suc i) (e ∷ es) shared = dropped_at i es shared

abbrev pub exceeds : List ReplayEntry → Bool
exceeds history =
    ltb replay_history_packets (length history) || ltb replay_history_bytes (retained_bytes history)

-- `while history.len() > REPLAY_HISTORY_PACKETS || retained > REPLAY_HISTORY_BYTES`, on fuel; the
-- running total `retained` is the sum over the entries that are left.
unfoldable pub trim : ℕ → ℕ → List ReplayEntry → BudgetState → List ReplayEntry × BudgetState
trim zero now history shared = (history, shared)
trim (suc fuel) now history shared =
    let rest =
      trim fuel now (remove_at (victim now history) history)
        (dropped_at (victim now history) history shared) in
    if exceeds history then rest else (history, shared)

abbrev pub new_entry : ℕ → Bytes → ℕ → BudgetPermit → ReplayEntry
new_entry now body request permit = record {
  sent_at = now;
  body = body;
  sequence = request;
  attempts = 0;
  last_attempt = none;
  pending = none;
  originals = request ∷ [];
  retired = false;
  reply_id = none;
  history_permit = permit;
}

abbrev pub add_original : ℕ → ReplayEntry → ReplayEntry
add_original request e = record e { originals = set_insert request e.originals }

-- `iter_mut().find(|entry| entry.body == *body)` and the insertion of a request into it.
abbrev pub add_to_body : Bytes → ℕ → List ReplayEntry → List ReplayEntry
add_to_body body request [] = []
add_to_body body request (e ∷ es) =
    if bytes_eq e.body body then add_original request e ∷ es else e ∷ add_to_body body request es

abbrev pub Remembered : Type 0
Remembered = Option ℕ × ChannelState × BudgetState

-- The history after the packet is in it, cut to its bounds.
unfoldable pub trimmed : ℕ → ℕ → ChannelState → List ReplayEntry → BudgetState → Remembered
unfolding trim
trimmed sequence now s history shared =
    let (kept, shared') = trim (length history) now history shared in
    (some sequence, record s { history = kept }, shared')

unfoldable pub remember_new :
    Bytes → ℕ → ℕ → ChannelState → BudgetState → Option (BudgetState × BudgetPermit) → Remembered
unfolding trimmed
remember_new body request now s shared none = (none, s, shared)
remember_new body request now s shared (some (shared', permit)) =
    trimmed request now s (s.history ++ (new_entry now body request permit ∷ [])) shared'

unfoldable pub remember_found :
    ℕ → Budget → Bytes → ℕ → ℕ → ChannelState → BudgetState → Option ReplayEntry → Remembered
unfolding trimmed remember_new try_acquire
remember_found usize_max b body request now s shared none =
    remember_new body request now s shared (try_acquire usize_max b shared (length body))
remember_found usize_max b body request now s shared (some e) =
    trimmed e.sequence now s (add_to_body body request s.history) shared

abbrev pub same_key : Option Bytes → Bytes → Bool
same_key none key = false
same_key (some k) key = bytes_eq k key

-- A packet under another key than those in the history clears it.
unfoldable pub keyed : Bytes → ChannelState → BudgetState → ChannelState × BudgetState
keyed key s shared =
    if same_key s.replay_key key
    then (s, shared)
    else (record s { history = []; replay_key = some key }, released s.history shared)

unfoldable pub remember : ℕ → Budget → Bytes → ℕ → ℕ → ChannelState → BudgetState → Remembered
unfolding keyed remember_found
remember usize_max b body request now s shared =
    let key = take 8 body in
    let (s', shared') = keyed key s shared in
    let found = find (λ (e : ReplayEntry). bytes_eq e.body body) s'.history in
    if ltb replay_history_bytes (length body) || ltb (length body) 8 || bytes_eq key (replicate 8 0)
    then (none, s, shared)
    else remember_found usize_max b body request now s' shared' found

-- What `recover` keeps of the history at each round.
abbrev pub is_live : ℕ → ReplayEntry → Bool
is_live now e =
    not (is_empty e.originals) || is_some e.pending || leb (now - e.sent_at) replay_max_age

unfoldable pub prune : ℕ → ChannelState → BudgetState → ChannelState × BudgetState
prune now s shared =
    let kept = retain (is_live now) s.history in
    (
      record s { history = kept; replay_key = if is_empty kept then none else s.replay_key },
      released (retain (λ e. not (is_live now e)) s.history) shared,
    )
