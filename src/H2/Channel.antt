-- ===== src/H2/Channel.antt =====
-- `ChannelInner` of `src/cf_h2.rs`: the requests in flight of one native client, the packets that
-- may be sent again, and the queue of replies. Times are milliseconds of one clock; `a - b` on them
-- is `duration_since`, which stops at 0. Each function is what the code does under the state lock;
-- the abort handle of a request in flight is its number.
pub mod State
pub mod History
pub mod Requests
pub mod Replays
pub mod Entries
pub mod Invariant
pub mod Finished
pub mod Preserved
pub mod Launched
pub mod Reached
pub mod Occurrences
pub mod Candidates
mod Runs
