-- ===== src/Rf.antt =====
-- rf/: leader-based replication with two followers. The leader proposes batches, and sends a commit to
-- every follower once a proposal is acknowledged by both.
pub mod Acks
pub mod Node
pub mod Run
pub mod Quorum
pub mod Commits
pub mod Follower
mod Tests
