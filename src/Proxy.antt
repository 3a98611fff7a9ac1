-- ===== src/Proxy.antt =====
-- `src/proxy.rs`: whom the proxy lets in.
pub mod Admission
pub mod DataCentres
pub mod Replays
pub mod Bridges
pub mod Uploads
mod Runs
