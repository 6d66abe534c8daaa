-- ===== src/Tlog.antt =====
-- trusted-log/: replication whose nodes keep a log that can be audited.
pub mod Format
pub mod Roundtrip
pub mod Log
pub mod Layout
pub mod Metadata
pub mod Chain
pub mod Tamper
pub mod Audit
pub mod Accepts
pub mod Node
pub mod Packet
pub mod Reply
pub mod Exchange
pub mod Run
mod Tests
