-- ===== src/Types.antt =====
-- crates/vbuff-types: vocabulary that the other crates share.
pub mod Replay
pub mod Mac
pub mod Text
pub mod Content
pub mod Ascii
pub mod Utf8
pub mod Flavor
pub mod Evidence
