-- ===== src/Alc.antt =====
-- alc/: all nodes broadcast batches in rounds, and commit a round that all have received.
pub mod Rounds
pub mod Lookup
pub mod Commit
pub mod Node
pub mod Run
pub mod Quorum
pub mod Filing
pub mod Once
pub mod Steps
pub mod Batching
pub mod Broadcasting
pub mod Sending
pub mod Flash
pub mod Completion
mod Tests
