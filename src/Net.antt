-- ===== src/Net.antt =====
-- network_bench/authenticators/: what a node exchanges with the trusted service over two sockets.
pub mod Socket
pub mod Auth
pub mod Framing
pub mod Journal
pub mod Exchange
pub mod Served
mod Tests
