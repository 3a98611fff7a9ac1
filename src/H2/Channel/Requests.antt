-- ===== src/H2/Channel/Requests.antt =====
-- The requests in flight and their replies: `launch`, the `mark_*` functions, `deliver`,
-- `finish_request` and `retire_and_abort`.
use tg_ws_keenetic.Base.{
  ℕ, ◌+◌, ◌-◌, ◌%◌, min, Bool, true, false, not, ◌&&◌, ◌||◌, Option, none, some, List, [], ◌==◌,
  if◌then◌else◌, Result, ok, err, ErrorKind,
}
use tg_ws_keenetic.Base.Maps.{lookup, insert, remove, update, set_remove, any}
use tg_ws_keenetic.Base.Bytes.{Bytes, bytes_eq}
use tg_ws_keenetic.H2.Budget.{sum_within, BudgetState, Budget}
use tg_ws_keenetic.H2.Channel.State.{
  max_channel_reply_bytes, ReplyId, ReplayEntry, Pending, Terminal, ChannelState, is_some,
  is_some_and, fail,
}
use tg_ws_keenetic.H2.Channel.History.{update_entry, Remembered, remember}

abbrev pub attempt : ℕ → ℕ → ReplayEntry → ReplayEntry
attempt now request e = record e {
  attempts = min (e.attempts + 1) 255;
  last_attempt = some now;
  pending = some request;
}

abbrev pub in_flight : Bool → Option ℕ → Pending
in_flight replay entry = record {
  replay = replay;
  entry = entry;
  sent_at = none;
  receiving = false;
  generation = none;
}

abbrev pub Launched : Type 0
Launched = Result ℕ × ChannelState × BudgetState

unfoldable pub pend : ℕ → Bool → Remembered → Launched
pend request replay (entry, s, shared) =
    (ok request, record s { pending = insert request (in_flight replay entry) s.pending }, shared)

-- An original is remembered; a replay counts as an attempt of its entry.
unfoldable pub launch_as :
    ℕ → Budget → ℕ → Bytes → ℕ → ChannelState → BudgetState → Option ℕ → Launched
unfolding pend remember
launch_as usize_max b now body request s shared none =
    pend request false (remember usize_max b body request now s shared)
launch_as usize_max b now body request s shared (some sequence) = pend request true (
  some sequence,
  record s { history = update_entry sequence (attempt now request) s.history },
  shared,
)

abbrev pub replayable : ChannelState → ℕ → Bool
replayable s sequence =
    any (λ (e : ReplayEntry). (e.sequence == sequence) && not (is_some e.pending)) s.history

-- `launch`, which `send_reserved` calls for an original and `try_replay` for a replay; the permits
-- belong to the request's guard. The number of the request is the answer.
unfoldable pub launch : ℕ → Budget → ℕ → Bytes → Option ℕ → ChannelState → BudgetState → Launched
unfolding launch_as
launch usize_max b now body replay_sequence s shared =
    let request = (s.next_request + 1) % (usize_max + 1) in
    let s' : ChannelState = record s { next_request = request } in
    let launched = launch_as usize_max b now body request s' shared replay_sequence in
    if s.closed || is_some s.terminal
    then (err ErrorKind.broken_pipe, s, shared)
    else if is_some_and (λ sequence. not (replayable s sequence)) replay_sequence
    then (err ErrorKind.would_block, s, shared)
    else launched

abbrev pub sent : ℕ → Pending → Pending
sent now p = record p { sent_at = some now }

unfoldable pub mark_sent : ℕ → ℕ → ChannelState → ChannelState
mark_sent request now s = record s { pending = update request (sent now) s.pending }

abbrev pub started : ℕ → Pending → Pending
started generation p = record p { generation = some generation }

unfoldable pub mark_started : ℕ → ℕ → ChannelState → ChannelState
mark_started request generation s = record s {
  pending = update request (started generation) s.pending;
}

abbrev pub generation_of : Option Pending → Option ℕ
generation_of none = none
generation_of (some p) = p.generation

unfoldable pub request_generation : ℕ → ChannelState → Option ℕ
request_generation request s = generation_of (lookup request s.pending)

abbrev pub headers_arrived : Pending → Pending
headers_arrived p = record p { receiving = true }

unfoldable pub mark_receiving : ℕ → ℕ → ChannelState → ChannelState
mark_receiving request now s = record s {
  pending = update request headers_arrived s.pending;
  last_progress = some now;
}

unfoldable pub progress : ℕ → ChannelState → ChannelState
progress now s = record s { last_progress = some now }

abbrev pub entry_of : Option Pending → Option ℕ
entry_of none = none
entry_of (some p) = p.entry

abbrev pub same_reply : Option ReplyId → ReplyId → Bool
same_reply none reply_id = false
same_reply (some id) reply_id = bytes_eq id reply_id

-- Another reply than the last for this packet: its attempts start again.
abbrev pub replied : ReplyId → ReplayEntry → ReplayEntry
replied reply_id e =
    if same_reply e.reply_id reply_id
    then e
    else record e { reply_id = some reply_id; attempts = 0 }

abbrev pub note_reply : Option ℕ → ReplyId → List ReplayEntry → List ReplayEntry
note_reply none reply_id history = history
note_reply (some sequence) reply_id history = update_entry sequence (replied reply_id) history

-- The receiver has taken a reply and dropped it: `Drop for ChannelReplyCharge`.
unfoldable pub consume : ℕ → ChannelState → ChannelState
consume bytes s = record s { reply_bytes = s.reply_bytes - bytes }

-- `deliver`: `room` says whether the queue of 16 replies takes one more.
unfoldable pub deliver :
    ℕ
    → ℕ
    → ℕ
    → ReplyId
    → ℕ
    → Bool
    → ChannelState
    → BudgetState
    → ChannelState × BudgetState × List ℕ
unfolding fail consume
deliver usize_max request reply_length reply_id now room s shared =
    let noted : ChannelState = record s {
      history = note_reply (entry_of (lookup request s.pending)) reply_id s.history;
      last_progress = some now;
    } in
    let queued : ChannelState = record noted { reply_bytes = s.reply_bytes + reply_length } in
    let overflow = fail (Terminal.error ErrorKind.out_of_memory) noted shared in
    let no_room =
      fail (Terminal.error ErrorKind.out_of_memory) (consume reply_length queued) shared in
    if s.closed || is_some s.terminal
    then (s, shared, [])
    else if not (sum_within usize_max s.reply_bytes reply_length max_channel_reply_bytes)
    then overflow
    else if room
    then (queued, shared, [])
    else no_room

-- What the end of a request does to its entry.
abbrev pub is_request : Option ℕ → ℕ → Bool
is_request none request = false
is_request (some r) request = r == request

abbrev pub end_request : ℕ → Bool → ReplayEntry → ReplayEntry
end_request request replay e =
    if replay && is_request e.pending request
    then record e { pending = none }
    else record e { originals = set_remove request e.originals }

abbrev pub end_entry : ℕ → Pending → Option ℕ → List ReplayEntry → List ReplayEntry
end_entry request p none history = history
end_entry request p (some sequence) history =
    update_entry sequence (end_request request p.replay) history

unfoldable pub finish_found : ℕ → ChannelState → Option Pending → ChannelState
finish_found request s none = s
finish_found request s (some p) = record s {
  pending = remove request s.pending;
  history = end_entry request p p.entry s.history;
}

unfoldable pub finish_request : ℕ → ChannelState → ChannelState
unfolding finish_found
finish_request request s = finish_found request s (lookup request s.pending)

abbrev pub retire : ReplayEntry → ReplayEntry
retire e = record e { retired = true }

abbrev pub retire_entry : Bool → Option ℕ → List ReplayEntry → List ReplayEntry
retire_entry replay none history = history
retire_entry replay (some sequence) history =
    if replay then history else update_entry sequence retire history

-- `retire_and_abort`, with the request that it aborts.
unfoldable pub retire_found : ℕ → ChannelState → Option Pending → ChannelState × Option ℕ
retire_found request s none = (s, none)
retire_found request s (some p) =
    (record s { history = retire_entry p.replay p.entry s.history }, some request)

unfoldable pub retire_and_abort : ℕ → ChannelState → ChannelState × Option ℕ
unfolding retire_found
retire_and_abort request s = retire_found request s (lookup request s.pending)
