-- ===== src/BftChain.antt =====
-- Byzantine fault tolerant chain replication, bft-cr/: the chain of cr with attested messages, in
-- which the middle and the tail check what the head and the middle did before they pass it on.
pub mod Proto
pub mod Node
pub mod Run
pub mod Checks
pub mod Middle
pub mod Tail
mod Tests
