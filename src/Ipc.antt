-- ===== src/Ipc.antt =====
-- crates/vbuff-ipc: contracts between the daemon and its clients.
pub mod Operation
pub mod RateLimit
pub mod Event
pub mod Replay
