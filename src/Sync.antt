-- ===== src/Sync.antt =====
-- crates/vbuff-sync: replication between devices.
pub mod Error
pub mod Validation
pub mod Preimage
pub mod Chain
pub mod Clock
pub mod Conflict
pub mod Crdt
pub mod Outbox
pub mod Burn
pub mod Sealing
pub mod Membership
pub mod Capability
pub mod Merkle
mod Examples
