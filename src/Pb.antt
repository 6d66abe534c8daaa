-- ===== src/Pb.antt =====
-- bft-pb/: primary and backups, where the followers check every request of the leader.
pub mod Format
pub mod Overlap
pub mod Node
pub mod InStep
pub mod Reply
pub mod Follower
pub mod Unsigned
pub mod Run
pub mod Requests
pub mod Leader
pub mod Exchange
mod Tests
