-- ===== src/Capture.antt =====
-- The capture side of crates/vbuff-core: src/reliability.rs and src/capture. A `Duration` and an
-- `Instant` are numbers of nanoseconds.
pub mod Supervisor
pub mod Ring
pub mod Backpressure
pub mod Scheduler
pub mod Coalescer
pub mod Generation
pub mod SelfWrite
pub mod Loss
mod Examples
pub mod Secret
pub mod Policy
pub mod Consent
