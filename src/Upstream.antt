-- ===== src/Upstream.antt =====
-- `src/upstream.rs`: the routes to Telegram.
pub mod Routes
pub mod Backoff
pub mod Attempts
pub mod Exclusion
pub mod Pools
pub mod Capacity
mod Runs
pub mod Connect
pub mod Fallbacks
pub mod Direct
pub mod Domains
pub mod Dispatch
