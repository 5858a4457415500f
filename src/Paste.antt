-- ===== src/Paste.antt =====
-- The paste of a clip into another application: src/paste.rs, with the target of
-- crates/vbuff-platform/src/confirmed_paste.rs and the guard of crates/vbuff-core/src/intelligence.
pub mod Guard
pub mod Target
pub mod Coordinator
mod Examples
