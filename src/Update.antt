-- ===== src/Update.antt =====
-- crates/vbuff-update: the verification of signed updates and the durable state that it rests on.
pub mod Error
pub mod Manifest
pub mod Keyring
pub mod Verifier
pub mod State
mod Examples
