-- ===== src/Chain.antt =====
-- Chain replication, cr/: three nodes, head 0, middle 1 and tail 2. The head batches the requests
-- and sends the batches to the middle, which forwards them to the tail, which sends the head the
-- range of indexes that the batch commits.
pub mod Msg
pub mod Node
pub mod Run
pub mod Parse
pub mod Quiet
pub mod Sending
pub mod Head
pub mod Relay
pub mod Pipeline
mod Tests
