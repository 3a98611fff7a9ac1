-- ===== src/H2.antt =====
-- `src/cf_h2.rs`: the HTTP/2 transport's budgets, packets and replay channels.
pub mod Budget
pub mod Packets
pub mod Channel
pub mod Lanes
pub mod Posts
