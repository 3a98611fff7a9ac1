-- ===== src/H2/Channel/Finished.antt =====
-- The end of a channel's requests keeps the invariant.
use tg_ws_keenetic.Base.{ℕ, refl, Bool, true, false, Option, none, some, arith}
use tg_ws_keenetic.Base.Maps.{lookup, remove}
use tg_ws_keenetic.Base.Bytes.{Bytes}
use tg_ws_keenetic.H2.Channel.State.{Pending, ChannelState}
use tg_ws_keenetic.H2.Channel.Requests.{
  end_request, end_entry, finish_found, finish_request, retire, retire_entry, retire_found,
  retire_and_abort,
}
use tg_ws_keenetic.H2.Channel.Invariant.{count_replays-remove, Holds, update_entry-Holds}
use tg_ws_keenetic.H2.Channel.Preserved.{pending-Holds}

module _ (c : Option (ℕ × Bytes)) where
  end_entry-Holds :
      (request : ℕ) (p : Pending) (entry : Option ℕ) (s : ChannelState)
      → Holds c s
      → Holds c (record s {
        pending = remove request s.pending;
        history = end_entry request p entry s.history;
      })
  end_entry-Holds request p none s h =
      pending-Holds c s (remove request s.pending) (count_replays-remove request s.pending) h
  end_entry-Holds request p (some sequence) s h =
      update_entry-Holds s sequence (end_request request p.replay) (remove request s.pending) c
        (λ e. ground arith) (λ e. ground arith) (λ e. ground arith)
        (count_replays-remove request s.pending) h

  finish_found-Holds :
      (request : ℕ) (s : ChannelState) (o : Option Pending)
      → Holds c s
      → Holds c (finish_found request s o)
  unfolding finish_found
  finish_found-Holds request s none h = h
  finish_found-Holds request s (some p) h = end_entry-Holds request p p.entry s h

  pub finish_request-Holds :
      (request : ℕ) (s : ChannelState) → Holds c s → Holds c (finish_request request s)
  unfolding finish_request
  finish_request-Holds request s h = finish_found-Holds request s (lookup request s.pending) h

  retire_entry-Holds :
      (replay : Bool) (entry : Option ℕ) (s : ChannelState)
      → Holds c s
      → Holds c (record s { history = retire_entry replay entry s.history })
  retire_entry-Holds replay none s h = h
  retire_entry-Holds true (some sequence) s h = h
  retire_entry-Holds false (some sequence) s h =
      update_entry-Holds s sequence retire s.pending c (λ e. refl) (λ e. refl) (λ e. omega arith)
        (omega arith) h

  retire_found-Holds :
      (request : ℕ) (s : ChannelState) (o : Option Pending)
      → Holds c s
      → Holds c (retire_found request s o).0
  unfolding retire_found
  retire_found-Holds request s none h = h
  retire_found-Holds request s (some p) h = retire_entry-Holds p.replay p.entry s h

  pub retire_and_abort-Holds :
      (request : ℕ) (s : ChannelState) → Holds c s → Holds c (retire_and_abort request s).0
  unfolding retire_and_abort
  retire_and_abort-Holds request s h = retire_found-Holds request s (lookup request s.pending) h
