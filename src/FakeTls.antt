-- ===== src/FakeTls.antt =====
-- src/fake_tls.rs: the ClientHello's authentication, the ServerHello, and the stream that carries
-- MTProto in TLS records. The proofs are in the modules below this one.
pub mod Reader
pub mod Records
pub mod Decode
pub mod Writer
pub mod Wire
pub mod RoundTrip
mod Runs
pub mod Hello
